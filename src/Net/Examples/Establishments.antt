-- ===== src/Net/Examples/Establishments.antt =====
-- The theorems on establishments and on the goroutines that run them, on those of the examples.
use gcluster.Common.{Bool, ◌≤◌, none, some, not, [], ◌∷◌, arith}
use gcluster.Common.Int.{ℤ, pos}
use gcluster.Common.Bytes.{Bytes}
use gcluster.Net.Error.{connect_remote}
use gcluster.Net.Establishment.{
  Establishment, new_establishment, end, active_start_time, passive_start_time,
}
use gcluster.Net.Establishment.Laws.{
  starts_active, starts_passive, active_fails, ends, apply, apply_all, IsValid, Ended, progress,
  reachable-IsValid, first_end_wins, apply_monotone, new_establishment-IsValid,
}
use gcluster.Net.Establishment.Outcome.{decide}
use gcluster.Net.Establishment.Outcome.Laws.{Keeps, decide_agree}
use gcluster.Net.Ref.{remote_session}
use gcluster.Net.Examples.{node_a, node_b}

-- An active attempt over connection 3 that began at `t`, and a passive one over connection 4 that
-- began at `u`; both have succeeded.
abbrev crossed : Bytes → ℤ → ℤ → Establishment
crossed remote t u = record (new_establishment remote) {
  state = 1;
  active = some (record { state = 4; start_time = t; conn = some 3; err = none });
  passive = some (record { state = 4; start_time = u; conn = some 4; err = none });
}

reachable-IsValid_example : IsValid (
    apply_all
      (starts_active (pos 5) ∷ active_fails connect_remote ∷ ends none none ∷ [])
      (new_establishment node_b))
reachable-IsValid_example =
    reachable-IsValid node_b
      (starts_active (pos 5) ∷ active_fails connect_remote ∷ ends none none ∷ [])

first_end_wins_example : Ended (some (remote_session 0)) none (
    apply_all
      (ends none (some connect_remote) ∷ starts_passive (pos 9) ∷ [])
      (end (some (remote_session 0)) none (new_establishment node_b)))
first_end_wins_example =
    first_end_wins (some (remote_session 0)) none (new_establishment node_b)
      (ends none (some connect_remote) ∷ starts_passive (pos 9) ∷ [])
      (new_establishment-IsValid node_b) (unfold new_establishment in omega arith)

apply_monotone_example :
    let es = crossed node_b (pos 5) (pos 6) in
    let es' = apply (starts_active (pos 8)) es in
    (es.state ≤ es'.state)
    × (progress es.active ≤ progress es'.active)
    × (progress es.passive ≤ progress es'.passive)
apply_monotone_example = apply_monotone (starts_active (pos 8)) (crossed node_b (pos 5) (pos 6))

decide_agree_example :
    let ea = crossed node_b (pos 5) (pos 6) in
    let eb = crossed node_a (pos 6) (pos 5) in
    (first : Bool) × Keeps first ea (decide node_a ea) × Keeps (not first) eb (decide node_b eb)
unfolding new_establishment active_start_time passive_start_time
decide_agree_example =
    decide_agree node_a node_b (crossed node_b (pos 5) (pos 6)) (crossed node_a (pos 6) (pos 5))
      (λ e. ground (arith, e)) (ground arith)
