-- ===== src/Net/Service/Draining.antt =====
-- net/service.go, loop: what it does to the sessions whose nodes wait in the channel for a tick.
use gcluster.Common.{
  ℕ, zero, suc, ◌+◌, ◌≡◌, ◌<◌, ◌∙◌, sym, refl, ap, Bool, Option, none, some, List, [], ◌∷◌, length,
  arith, if◌then◌else◌, Option-cases, Bool-cases, inl, inr, ◌==◌,
}
use gcluster.Common.Int.{ℤ}
use gcluster.Common.Bytes.{Bytes}
use gcluster.Common.Assoc.{lookup}
use gcluster.Common.Chan.{opened}
use gcluster.Net.Config.{SessionConfig}
use gcluster.Net.PacketQueue.{PacketQueue}
use gcluster.Net.Ref.{SessionRef, local_session, remote_session}
use gcluster.Net.Session.{Session}
use gcluster.Net.Service.{Service, get_ref, session_at, put_session}
use gcluster.Net.Service.Lifecycle.{tick}
use gcluster.Net.Service.Heap.{session_at-put_session_self, session_at-put_session_ne}
use gcluster.Net.Service.Ticks.{LoopEnd, ticked, waits, tick_ref, tick_node, take_tick, loop}

-- Whether an entry of the map points to the session `i`, as a number.
abbrev pub hits : ℕ → Option SessionRef → ℕ
hits i none = 0
hits i (some local_session) = 0
hits i (some (remote_session j)) = if i == j then 1 else 0

module _ {I : PacketQueue} where
  -- How many of the nodes have the session `i` in the map.
  abbrev pub visits : ℕ → List Bytes → Service I → ℕ
  visits i [] w = 0
  visits i (k ∷ ks) w = hits i (lookup k w.sessions) + visits i ks w

  -- A session after a number of ticks.
  abbrev pub ticked_times : ℕ → SessionConfig → ℤ → Session I → Session I
  ticked_times zero cfg now s = s
  ticked_times (suc n) cfg now s = ticked_times n cfg now (tick cfg now s)

  abbrev pub all_ticked : ℕ → SessionConfig → ℤ → Option (Session I) → Option (Session I)
  all_ticked n cfg now none = none
  all_ticked n cfg now (some s) = some (ticked_times n cfg now s)

  ticked_times_add :
      (m n : ℕ) (cfg : SessionConfig) (now : ℤ) (o : Option (Session I))
      → all_ticked n cfg now (all_ticked m cfg now o) ≡ all_ticked (m + n) cfg now o
  ticked_times_add m n cfg now none = refl
  ticked_times_add zero n cfg now (some s) =
      let e : n ≡ 0 + n = omega arith in ap (λ k. all_ticked k cfg now (some s)) e
  ticked_times_add (suc m) n cfg now (some s) =
      let e : suc (m + n) ≡ suc m + n = omega arith in
      ticked_times_add m n cfg now (some (tick cfg now s))
      ∙ ap (λ k. all_ticked k cfg now (some s)) e

  -- What a tick of a session leaves alone of the service.
  abbrev Kept : Service I → Service I → Type 0
  Kept w v =
      (v.c_tick_sessions ≡ w.c_tick_sessions)
      × (v.c_closed ≡ w.c_closed)
      × (v.state ≡ w.state)
      × (v.cfg ≡ w.cfg)
      × (v.sessions ≡ w.sessions)

  tick_ref_keeps : (now : ℤ) (r : SessionRef) (w : Service I) → Kept w (tick_ref now r w)
  unfolding tick_ref put_session
  tick_ref_keeps now local_session w = (refl, refl, refl, refl, refl)
  tick_ref_keeps now (remote_session i) w = elim (Option-cases (session_at i w)) [
    | inl e ↦ rw (e, tick_ref) (refl, refl, refl, refl, refl)
    | inr (s, e) ↦ rw (e, tick_ref) (refl, refl, refl, refl, refl)
  ]

  tick_node_keeps : (now : ℤ) (k : Bytes) (w : Service I) → Kept w (tick_node now k w)
  unfolding tick_node
  tick_node_keeps now k w = elim (Option-cases (get_ref k w)) [
    | inl e ↦ rw (e, tick_node) (refl, refl, refl, refl, refl)
    | inr (r, e) ↦ rw (e, tick_node) (tick_ref_keeps now r w)
  ]

  all_ticked_zero :
      (cfg : SessionConfig) (now : ℤ) (o : Option (Session I)) → all_ticked 0 cfg now o ≡ o
  all_ticked_zero cfg now none = refl
  all_ticked_zero cfg now (some s) = refl

  tick_ref-hits :
      (now : ℤ) (i : ℕ) (r : SessionRef) (w : Service I)
      → session_at i (tick_ref now r w)
        ≡ all_ticked (hits i (some r)) w.cfg.session now (session_at i w)
  unfolding tick_ref
  tick_ref-hits now i local_session w = sym (all_ticked_zero w.cfg.session now (session_at i w))
  tick_ref-hits now i (remote_session j) w = elim (Option-cases (session_at j w)) [
    | inl e ↦ elim (Bool-cases (i == j)) [
      | inl same ↦ ground (arith, e, same)
      | inr other ↦ ground (arith, e, other, all_ticked_zero w.cfg.session now (session_at i w))
    ]
    | inr (s, e) ↦ elim (Bool-cases (i == j)) [
      | inl same ↦
          let eq : i ≡ j = ground (arith, same) in
          ground (arith, e, eq, session_at-put_session_self j (tick w.cfg.session now s) s w e)
      | inr other ↦ ground (
        arith,
        e,
        other,
        all_ticked_zero w.cfg.session now (session_at i w),
        session_at-put_session_ne j i (tick w.cfg.session now s) w (ground (arith, other)),
      )
    ]
  ]

  tick_node-hits :
      (now : ℤ) (i : ℕ) (k : Bytes) (w : Service I)
      → session_at i (tick_node now k w)
        ≡ all_ticked (hits i (lookup k w.sessions)) w.cfg.session now (session_at i w)
  unfolding tick_node get_ref
  tick_node-hits now i k w = elim (Option-cases (lookup k w.sessions)) [
    | inl e ↦ ground (arith, e, all_ticked_zero w.cfg.session now (session_at i w))
    | inr (r, e) ↦ ground (arith, e, tick_ref-hits now i r w)
  ]

  visits_same :
      (i : ℕ) (ks : List Bytes) (w v : Service I)
      → v.sessions ≡ w.sessions
      → visits i ks v ≡ visits i ks w
  visits_same i [] w v e = refl
  visits_same i (k ∷ ks) w v e =
      ap (λ m. hits i (lookup k m) + visits i ks v) e
      ∙ ap (λ n. hits i (lookup k w.sessions) + n) (visits_same i ks w v e)

  take_tick_empty :
      (p : Bool) (now : ℤ) (w : Service I) → w.c_closed ≡ opened → take_tick p now [] w ≡ (w, waits)
  unfolding take_tick
  take_tick_empty p now w o = rw o refl

  take_tick_next :
      (p : Bool) (now : ℤ) (k : Bytes) (ks : List Bytes) (w : Service I)
      → w.c_closed ≡ opened
      → take_tick p now (k ∷ ks) w ≡ (tick_node now k (record w { c_tick_sessions = ks }), ticked)
  unfolding take_tick
  take_tick_next p now k ks w o = rw o refl

  abbrev Drained : ℤ → ℕ → List Bytes → Service I → Service I × LoopEnd → Type 0
  Drained now i ks w r =
      (r.1 ≡ waits)
      × (r.0.c_tick_sessions ≡ [])
      × (r.0.state ≡ w.state)
      × (session_at i r.0 ≡ all_ticked (visits i ks w) w.cfg.session now (session_at i w))

  loop_waits :
      (fuel : ℕ) (p : Bool) (now : ℤ) (w v : Service I)
      → take_tick p now w.c_tick_sessions w ≡ (v, waits)
      → loop (suc fuel) p now w ≡ (v, waits)
  unfolding loop
  loop_waits fuel p now w v e = rw (e, loop) e

  loop_ticked :
      (fuel : ℕ) (p : Bool) (now : ℤ) (w v : Service I)
      → take_tick p now w.c_tick_sessions w ≡ (v, ticked)
      → loop (suc fuel) p now w ≡ loop fuel p now v
  unfolding loop
  loop_ticked fuel p now w v e = rw (e, loop) (ap (λ r. loop fuel p now r.0) e)

  loop_drains_list :
      (fuel : ℕ) (p : Bool) (now : ℤ) (i : ℕ) (ks : List Bytes) (w : Service I)
      → w.c_tick_sessions ≡ ks
      → length ks < fuel
      → w.c_closed ≡ opened
      → Drained now i ks w (loop fuel p now w)
  loop_drains_list zero p now i ks w e h o = absurd (omega (arith, h))
  loop_drains_list (suc fuel) p now i [] w e h o =
      rw (loop_waits fuel p now w w (ap (λ l. take_tick p now l w) e ∙ take_tick_empty p now w o))
        (refl, e, refl, sym (all_ticked_zero w.cfg.session now (session_at i w)))
  loop_drains_list (suc fuel) p now i (k ∷ ks) w e h o =
      let w0 : Service I = record w { c_tick_sessions = ks } in
      let next = tick_node now k w0 in
      let (queue, chan, st, conf, map) = tick_node_keeps now k w0 in
      let (a, b, c, d) = loop_drains_list fuel p now i ks next queue (omega arith) (chan ∙ o) in
      let n = hits i (lookup k w.sessions) in
      let here : session_at i w0 ≡ session_at i w = unfold session_at in refl in
      rw
        (loop_ticked fuel p now w next
          (ap (λ l. take_tick p now l w) e ∙ take_tick_next p now k ks w o))
        (
          a,
          b,
          c ∙ st,
          d
              ∙ ap (λ v. all_ticked v next.cfg.session now (session_at i next))
                  (visits_same i ks w next map)
              ∙ ap (λ f. all_ticked (visits i ks w) f.session now (session_at i next)) conf
              ∙ ap (all_ticked (visits i ks w) w.cfg.session now)
                  (tick_node-hits now i k w0 ∙ ap (all_ticked n w.cfg.session now) here)
              ∙ ticked_times_add n (visits i ks w) w.cfg.session now (session_at i w),
        )

  -- In a service that is open, a loop with more rounds than nodes wait takes them all and then waits
  -- for the next; the service's state stays, and each session `i` is ticked once for each node that
  -- waited whose entry of the map is that session.
  pub loop_drains :
      (fuel : ℕ) (prefer_close : Bool) (now : ℤ) (i : ℕ) (w : Service I)
      → length w.c_tick_sessions < fuel
      → w.c_closed ≡ opened
      → let (v, end) = loop fuel prefer_close now w in
        (end ≡ waits)
        × (v.c_tick_sessions ≡ [])
        × (v.state ≡ w.state)
        × (session_at i v
            ≡ all_ticked (visits i w.c_tick_sessions w) w.cfg.session now (session_at i w))
  loop_drains fuel prefer_close now i w h o =
      loop_drains_list fuel prefer_close now i w.c_tick_sessions w refl h o
