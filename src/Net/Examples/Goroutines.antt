-- ===== src/Net/Examples/Goroutines.antt =====
-- Goroutines that run on the service of the examples: a caller of Connect whose dial fails, and one
-- that finds an old establishment.
use gcluster.Common.{◌≡◌, refl, false, none, some, [], ◌∷◌}
use gcluster.Common.Int.{pos}
use gcluster.Common.Bytes.{bytes_eq}
use gcluster.Common.Assoc.{lookup}
use gcluster.Common.Chan.{closed}
use gcluster.Net.Establishment.{Establishment, new_establishment}
use gcluster.Net.Establishment.Attempt
use gcluster.Net.Establish.Programs.{Go, connect}
use gcluster.Net.Establish.Stale.{run_alone, connect_stale}
use gcluster.Net.Establish.Waiting.{AllValid, Goroutine, connects, interleaved-AllValid}
use gcluster.Net.Prog.{ret, ◌>>=◌}
use gcluster.Net.Prog.Drive.{World, drive, drive-Interleaving}
use gcluster.Net.Prog.Keeps.{Interleaving, spawn}
use gcluster.Net.Ref.{local_session, remote_session}
use gcluster.Net.Service.{Service, check_state}
use gcluster.Net.Examples.{ListQueue, service_a, node_a, node_b}

-- The service of the example without its session, but with the establishment that led to it.
abbrev ended_establishment : Establishment
unfolding new_establishment
ended_establishment = record (new_establishment node_b) {
  state = 2;
  session = some (remote_session 0);
  ch_end = closed;
}

abbrev stale_service : Service ListQueue
stale_service = record service_a {
  sessions = (node_a, local_session) ∷ [];
  establishments = (node_b, 0) ∷ [];
  establishment_heap = ended_establishment ∷ [];
}

connect_stale_example :
    run_alone (pos 2000) (connect node_b (50 ∷ [])) stale_service
    ≡ some ((some (remote_session 0), none), stale_service)
unfolding lookup bytes_eq check_state ended_establishment
connect_stale_example =
    connect_stale (pos 2000) node_b (50 ∷ []) 0 (remote_session 0) ended_establishment stale_service
      refl refl refl refl (refl, refl, refl, refl)

abbrev quiet_service : Service ListQueue
quiet_service = record service_a { sessions = (node_a, local_session) ∷ [] }

-- What a caller of the service runs: Connect to the node "b".
abbrev caller : Go ListQueue (Unit {0})
caller = connect node_b (50 ∷ []) >>= λ _. ret tt

-- Nothing answers: every dial fails, and no connection can be written or read.
abbrev nobody : World
nobody = record {
  time = pos 3;
  dialled = none;
  written = false;
  received = none;
  decided = record { now = pos 3; tid = 9; core_err = none; died = false };
}

-- The caller after 13 steps, when its attempt has failed, and the service then.
abbrev failed : Go ListQueue (Unit {0}) × Service ListQueue
failed = drive nobody 13 caller quiet_service

-- The caller after it has read the result.
abbrev returned : Go ListQueue (Unit {0}) × Service ListQueue
returned = drive nobody 4 failed.0 failed.1

caller_failed : Interleaving Goroutine [] quiet_service (failed.0 ∷ []) failed.1
caller_failed =
    spawn caller (connects node_b (50 ∷ []) refl)
      (drive-Interleaving Goroutine nobody 13 caller quiet_service)

interleaved-AllValid_example : AllValid failed.1
interleaved-AllValid_example = interleaved-AllValid refl caller_failed
