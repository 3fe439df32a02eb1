-- ===== src/Auth/Tests.antt =====
-- A login up to its code, and the theorems at concrete inputs.
use telecollection.Prelude.{◌≡◌, refl, arith, ◌<◌, codes, Bytes, none, some, inl, false, err, ◌⊎◌}
use telecollection.Auth.Progress.{Opens, after_end, after_leaving, start_login-accepted}
use telecollection.Auth.{
  wait_code, logged_out, start_qr, err_login_in_progress, start_login, reset_locked, logout,
  transition, finish_attempt, submit_code,
}
use telecollection.Auth.Steps.{
  World, Kind, by_code, by_qr, goroutine, queued, set_worker, initial, asks_code, ends, goes_on,
  starts_login, Reachable, at_start, step, now, later,
}
use telecollection.Auth.Invariant.{submit-owner}
use telecollection.Auth.Supersession.{logout-silences}

abbrev phone : Bytes
phone = codes "+10000"

abbrev begun : World
begun = record {
  flow = (start_login phone initial.flow).1;
  workers = set_worker 1 (some (goroutine by_code)) initial.workers;
}

begun-Reachable : Reachable begun
unfolding start_login
begun-Reachable =
    step initial begun at_start (starts_login initial phone 1 begun.flow (omega arith) refl)

abbrev asked : World
asked = record begun { flow = transition 1 wait_code begun.flow }

asked-Reachable : Reachable asked
asked-Reachable = step begun asked begun-Reachable (goes_on begun asked (asks_code begun 1 refl))

submit-owner_example :
    (some 1 ≡ some asked.flow.gen)
    × (some 1 ≡ some asked.flow.gen)
    × (asked.workers asked.flow.gen ≡ some (goroutine by_code))
unfolding submit_code transition start_login
submit-owner_example = submit-owner asked (some 1) (some 1) asked-Reachable (inl refl)

small : asked.flow.gen < 5
unfolding start_login transition reset_locked
small = omega arith

start_login-accepted_example :
    ((k : Kind) × (asked.workers asked.flow.gen ≡ some (goroutine k))
      × Opens asked phone (after_end asked none))
    ⊎ ((k : Kind) × (asked.workers asked.flow.gen ≡ some (queued k))
        × Opens asked phone (after_leaving asked))
unfolding transition start_login
start_login-accepted_example =
    start_login-accepted asked phone none asked-Reachable (omega (arith, small)) refl refl

-- A StartQR that has yet to launch its goroutine refuses a login.
abbrev waiting : World
waiting = record {
  flow = (start_qr asked.flow).1;
  workers = set_worker (start_qr asked.flow).0.0 (some (queued by_qr)) asked.workers;
}

waiting_refuses : start_login phone waiting.flow ≡ (err err_login_in_progress, waiting.flow)
unfolding start_login start_qr transition reset_locked
waiting_refuses = refl

waiting_queued : waiting.workers waiting.flow.gen ≡ some (queued by_qr)
unfolding start_login start_qr transition reset_locked
waiting_queued = refl

-- The goroutine ends after the Logout.
abbrev left : World
left = record asked { flow = logout asked.flow }

abbrev ended : World
ended = record { flow = finish_attempt 1 none left.flow; workers = set_worker 1 none left.workers }

logout-silences_example : (ended.flow.state ≡ logged_out) × (ended.flow.in_progress ≡ false)
logout-silences_example =
    logout-silences asked ended asked-Reachable (omega (arith, small))
      (later left left ended (now left) (ends left 1 by_code none refl))
