-- ===== src/Net/Establishment/Outcome/Laws.antt =====
-- The decision of establishEnd is the best attempt, and the same at both ends.
use gcluster.Common.{
  ltb, ◌<◌, ◌≡◌, ◌≢◌, sym, ap, ◌∙◌, ◌||◌, ◌&&◌, ◌⊎◌, Bool, true, false, Option, none, not, arith,
  if◌then◌else◌,
}
use gcluster.Common.Int.{ℤ, ltb_ℤ, eqb_ℤ}
use gcluster.Common.Bytes.{Bytes, bytes_ltb, bytes_ltb_total}
use gcluster.Net.Establishment.Attempt.{Establishing, establish_success}
use gcluster.Net.Establishment.{
  Establishment, is_active_establishing, is_passive_establishing, which_start_earlier,
  active_start_time, passive_start_time, active_conn, passive_conn, active_err, passive_err,
}
use gcluster.Net.Establishment.Laws.{progress}
use gcluster.Net.Establishment.Outcome.{Decision, decide}

-- The moment at which the four ends of an attempt call establishEnd.
abbrev pub IsFinished : Establishment → Type 0
IsFinished es =
    (is_active_establishing es ≡ false)
    × (is_passive_establishing es ≡ false)
    × ((0 < progress es.active) ⊎ (0 < progress es.passive))

abbrev pub Succeeded : Option Establishing → Type 0
Succeeded a = progress a ≡ establish_success

-- Who wins a tie of two successes: the earlier attempt, and at the same time that of the smaller node.
abbrev pub wins : Bool → ℤ → ℤ → Bool
wins smaller t u = ltb_ℤ t u || (eqb_ℤ t u && smaller)

-- The active attempt is kept before the passive one, by the start times, on the node `n`.
abbrev pub active_wins : Bytes → Establishment → Bool
active_wins n es =
    wins (bytes_ltb n es.remote_node_id) (active_start_time es) (passive_start_time es)

-- What a decision is on the node `n` for the two attempts: one clause for each of the ways in which
-- they end.
abbrev pub IsDecided : Bytes → Establishment → Decision → Type 0
IsDecided n es d =
    (Succeeded es.active
      × Succeeded es.passive
      × (d.err ≡ none)
      × (d.active ≡ active_wins n es)
      × (d.conn ≡ (if active_wins n es then active_conn es else passive_conn es))
      × (d.closes ≡ (if active_wins n es then passive_conn es else active_conn es))
      × (d.conn ≢ none)
      × (d.closes ≢ none))
    ⊎ (Succeeded es.active
        × ¬ Succeeded es.passive
        × (d.err ≡ none)
        × (d.active ≡ true)
        × (d.conn ≡ active_conn es)
        × (d.conn ≢ none)
        × (d.closes ≡ none))
    ⊎ (¬ Succeeded es.active
        × Succeeded es.passive
        × (d.err ≡ none)
        × (d.active ≡ false)
        × (d.conn ≡ passive_conn es)
        × (d.conn ≢ none)
        × (d.closes ≡ none))
    ⊎ (¬ Succeeded es.active
        × ¬ Succeeded es.passive
        × (d.err ≢ none)
        × (d.err ≡ (
            if ltb 0 (progress es.active) && (not (ltb 0 (progress es.passive)) || active_wins n es)
            then active_err es
            else passive_err es))
        × (d.conn ≡ none)
        × (d.closes ≡ none))

-- Two nodes that connect to one another at once: each holds its own attempt as the active one, and
-- the other's, with the start time that the other has sent, as the passive one; both attempts have
-- succeeded at both ends.
abbrev pub Crossed : Bytes → Bytes → Establishment → Establishment → Type 0
Crossed a b ea eb =
    (ea.remote_node_id ≡ b)
    × (eb.remote_node_id ≡ a)
    × Succeeded ea.active
    × Succeeded ea.passive
    × Succeeded eb.active
    × Succeeded eb.passive
    × (passive_start_time ea ≡ active_start_time eb)
    × (passive_start_time eb ≡ active_start_time ea)

wins_opposite : (p : Bool) (t u : ℤ) → wins p t u ≡ not (wins (if p then false else true) u t)
unfolding ltb_ℤ eqb_ℤ
wins_opposite p t u = ground arith

-- One node keeps the connection of the attempt that wins, and closes the other's.
abbrev pub Keeps : Bool → Establishment → Decision → Type 0
Keeps active es d =
    (d.active ≡ active)
    × (d.conn ≡ (if active then active_conn es else passive_conn es))
    × (d.closes ≡ (if active then passive_conn es else active_conn es))
    × (d.err ≡ none)

decide_both :
    (n : Bytes) (es : Establishment)
    → Succeeded es.active
    → Succeeded es.passive
    → Keeps (active_wins n es) es (decide n es)
unfolding decide which_start_earlier active_start_time passive_start_time
decide_both n es h k = ground arith

active_wins_opposite :
    (a b : Bytes) (ea eb : Establishment)
    → a ≢ b
    → Crossed a b ea eb
    → active_wins b eb ≡ not (active_wins a ea)
active_wins_opposite a b ea eb differ (ra, rb, _, _, _, _, ta, tb) =
    ap (λ r. wins (bytes_ltb b r) (active_start_time eb) (passive_start_time eb)) rb
    ∙ ap (λ t. wins (bytes_ltb b a) (active_start_time eb) t) tb
    ∙ wins_opposite (bytes_ltb b a) (active_start_time eb) (active_start_time ea)
    ∙ ap (λ p. not (wins p (active_start_time ea) (active_start_time eb)))
        (sym (bytes_ltb_total b a (λ e. differ (sym e))))
    ∙ ap (λ t. not (wins (bytes_ltb a b) (active_start_time ea) t)) (sym ta)
    ∙ ap (λ r. not (wins (bytes_ltb a r) (active_start_time ea) (passive_start_time ea))) (sym ra)

-- When two different nodes connect to one another at once and all four attempts succeed, each at
-- both ends and with the start time of its sender, both nodes decide for the same one of the two
-- connections: either the first node keeps its active attempt and the second its passive one, or
-- the other way round. Each keeps the connection of the attempt that it decides for, closes that of
-- the other, and does not fail.
pub decide_agree :
    (a b : Bytes) (ea eb : Establishment)
    → a ≢ b
    → Crossed a b ea eb
    → (first : Bool) × Keeps first ea (decide a ea) × Keeps (not first) eb (decide b eb)
decide_agree a b ea eb differ cross =
    let (_, _, sa, sa', sb, sb', _, _) = cross in
    (
      active_wins a ea,
      decide_both a ea sa sa',
      rw (← active_wins_opposite a b ea eb differ cross) (decide_both b eb sb sb'),
    )
