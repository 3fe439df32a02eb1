-- ===== src/Auth.antt =====
-- internal/telegram/auth/flow.go: the login state machine. Each critical section of the mutex is a
-- function on the Flow; what a select woke up by is an argument.
pub mod Steps
pub mod Invariant
pub mod Supersession
pub mod Delivery
pub mod Progress
pub mod Authenticator
pub mod Attempts
pub mod Channels
mod Tests
use telecollection.Prelude.{
  ℕ, suc, ◌%◌, ◌^◌, ◌==◌, Bytes, is_empty, Bool, true, false, Option, none, some, List, [], ◌∷◌,
  if◌then◌else◌, Result, ok, err, panicked, Error, new, wrap,
}

-- State
pub data State : Type 0 where
  logged_out wait_code wait_password logged_in : State

-- Flow. A cancel function, an authenticator and a done channel are named by the generation of the
-- attempt that made them; `cancelled` lists the contexts whose cancel function was called.
pub record Flow : Type 0 where
  pub state : State
  pub in_progress : Bool
  pub gen : ℕ
  pub cancel : Option ℕ
  pub auth : Option ℕ
  pub done : Option ℕ
  pub cancelled : List ℕ

abbrev pub err_empty_phone : Error
err_empty_phone = new "auth: phone number is required"

abbrev pub err_login_in_progress : Error
err_login_in_progress = new "auth: a login is already in progress"

abbrev pub err_no_login_in_progress : Error
err_no_login_in_progress = new "auth: no login in progress"

abbrev pub err_password_needed : Error
err_password_needed = new "auth: 2fa password required"

-- newService
abbrev pub new_service : Flow
new_service = record {
  state = logged_out;
  in_progress = false;
  gen = 0;
  cancel = none;
  auth = none;
  done = none;
  cancelled = [];
}

abbrev pub call_cancel : Option ℕ → List ℕ → List ℕ
call_cancel none l = l
call_cancel (some c) l = c ∷ l

-- resetLocked; gen is a uint64.
unfoldable pub reset_locked : Flow → Flow
reset_locked s = record s {
  cancelled = call_cancel s.cancel s.cancelled;
  cancel = none;
  auth = none;
  done = none;
  in_progress = false;
  gen = suc s.gen % 2 ^ 64;
}

-- attemptError
abbrev pub attempt_error : Option Error → Option Error
attempt_error none = none
attempt_error (some e) = some (wrap "auth: login failed" e)

-- StartLogin up to the launch of the goroutine, with the generation it got.
unfoldable pub start_login : Bytes → Flow → Result ℕ × Flow
unfolding reset_locked
start_login phone s =
    if is_empty phone
    then (err err_empty_phone, s)
    else if s.in_progress
    then (err err_login_in_progress, s)
    else let r = reset_locked s in
      (
        ok r.gen,
        record r { in_progress = true; cancel = some r.gen; auth = some r.gen; done = some r.gen },
      )

-- StartQR up to its first wait, with the generation and the done channel to wait for.
unfoldable pub start_qr : Flow → (ℕ × Option ℕ) × Flow
unfolding reset_locked
start_qr s =
    let r = reset_locked s in
    (
      (r.gen, if s.in_progress then s.done else none),
      record r { in_progress = true; state = logged_out; cancel = some r.gen; done = some r.gen },
    )

-- Logout
unfoldable pub logout : Flow → Flow
unfolding reset_locked
logout s = record (reset_locked s) { state = logged_out }

-- finishAttempt
unfoldable pub finish_attempt : ℕ → Option Error → Flow → Flow
finish_attempt gen e s =
    if s.gen == gen
    then record s {
      cancelled = call_cancel s.cancel s.cancelled;
      cancel = none;
      auth = none;
      done = none;
      in_progress = false;
      state = elim e [ none ↦ logged_in | some _ ↦ logged_out ];
    }
    else s

-- transition
unfoldable pub transition : ℕ → State → Flow → Flow
transition gen st s = if s.gen == gen then record s { state = st } else s

-- abandon
unfoldable pub abandon : ℕ → Flow → Flow
unfolding logout
abandon gen s = if s.gen == gen then logout s else s

-- What the wait of StartLogin wakes up by.
pub data StartWake : Type 0 where
  code_requested : StartWake
  ended : Option Error → StartWake
  ctx_done : Error → StartWake

-- The select of StartLogin.
unfoldable pub start_login_wait : ℕ → StartWake → Flow → Option Error × Flow
unfolding abandon
start_login_wait gen code_requested s = (none, s)
start_login_wait gen (ended e) s = (attempt_error e, s)
start_login_wait gen (ctx_done e) s = (some e, abandon gen s)

-- What the waits of SubmitCode and SubmitPassword wake up by: `proceeded` is the delivery of the value
-- in the first, and the request for the password in the second.
pub data SubmitWake : Type 0 where
  proceeded : SubmitWake
  finished : Option Error → SubmitWake
  gave_up : Error → SubmitWake

-- The critical section of SubmitCode: the authenticator and the done channel that it goes on with.
unfoldable pub submit_code : Flow → Result (Option ℕ × Option ℕ)
submit_code s = elim s.state [
  | wait_code ↦ ok (s.auth, s.done)
  | logged_out ↦ err (wrap "auth: cannot submit code" err_no_login_in_progress)
  | wait_password ↦ err (wrap "auth: cannot submit code" err_no_login_in_progress)
  | logged_in ↦ err (wrap "auth: cannot submit code" err_no_login_in_progress)
]

-- The critical section of SubmitPassword.
unfoldable pub submit_password : Flow → Result (Option ℕ × Option ℕ)
submit_password s = elim s.state [
  | wait_password ↦ ok (s.auth, s.done)
  | logged_out ↦ err (wrap "auth: cannot submit password" err_no_login_in_progress)
  | wait_code ↦ err (wrap "auth: cannot submit password" err_no_login_in_progress)
  | logged_in ↦ err (wrap "auth: cannot submit password" err_no_login_in_progress)
]

abbrev pub observed : SubmitWake → Option Error
observed proceeded = some err_password_needed
observed (finished e) = attempt_error e
observed (gave_up e) = some e

-- The two selects of SubmitCode, over what each of them wakes up by; `a.codeCh` on a nil
-- authenticator panics.
unfoldable pub deliver_code : Option ℕ → SubmitWake → SubmitWake → Result (Option Error)
deliver_code none first second = panicked
deliver_code (some a) proceeded second = ok (observed second)
deliver_code (some a) (finished e) second = ok (attempt_error e)
deliver_code (some a) (gave_up e) second = ok (some e)

-- The first wait of StartQR: for the goroutine of the preempted attempt (`none`), or until ctx is done.
unfoldable pub await_previous : ℕ → Option Error → Flow → Option Error × Flow
unfolding abandon
await_previous gen none s = (none, s)
await_previous gen (some e) s = (some e, abandon gen s)

-- What the second wait of StartQR wakes up by.
pub data QrWake : Type 0 where
  url : Bytes → QrWake
  qr_ended : Option Error → QrWake
  qr_ctx_done : Error → QrWake

-- The second wait of StartQR, with the URL that it returns.
unfoldable pub start_qr_wait : ℕ → QrWake → Flow → Result Bytes × Flow
unfolding abandon
start_qr_wait gen (url u) s = (ok u, s)
start_qr_wait gen (qr_ended none) s = (ok [], s)
start_qr_wait gen (qr_ended (some e)) s = (err (wrap "auth: starting QR login" e), s)
start_qr_wait gen (qr_ctx_done e) s = (err e, abandon gen s)

-- Status
abbrev pub status : Flow → State
status s = s.state

-- What the second wait of SubmitPassword wakes up by.
pub data EndWake : Type 0 where
  login_ended : Option Error → EndWake
  login_gave_up : Error → EndWake

abbrev pub end_observed : EndWake → Option Error
end_observed (login_ended e) = attempt_error e
end_observed (login_gave_up e) = some e

-- The two selects of SubmitPassword; `a.passCh` on a nil authenticator panics.
unfoldable pub deliver_password : Option ℕ → SubmitWake → EndWake → Result (Option Error)
deliver_password none first second = panicked
deliver_password (some a) proceeded second = ok (end_observed second)
deliver_password (some a) (finished e) second = ok (attempt_error e)
deliver_password (some a) (gave_up e) second = ok (some e)
