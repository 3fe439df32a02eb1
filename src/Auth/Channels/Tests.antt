-- ===== src/Auth/Channels/Tests.antt =====
-- A login by code that a QR login preempts, and one that succeeds; and the theorems there.
use telecollection.Prelude.{
  ℕ, ◌≡◌, ◌≢◌, refl, arith, codes, Bytes, true, false, none, some, [], ◌∷◌, inl, Error, new, wrap,
}
use telecollection.Auth.{
  Flow, logged_out, logged_in, wait_code, reset_locked, start_login, start_qr, logout,
  finish_attempt, transition, submit_code, finished,
}
use telecollection.Auth.Steps.{by_code, by_qr}
use telecollection.Auth.Authenticator.{request_code}
use telecollection.Auth.Attempts.{
  Stage, not_launched, running, in_code, returned, recorded, over, Attempt, put, new_attempt,
  asks_code, leaves_code, returns, records, sends, receives, by_finish,
}
use telecollection.Auth.Channels.{
  Net, new_net, login_waits, code_offered, code_taken, qr_queued, answered, crashed, login, code,
  qr_behind, out, code_goes, code_ends, code_wakes, works, opens, resumes, here, next, Reachable,
}
use telecollection.Auth.Channels.Unwinding.{Unwound, superseded-Unwound}
use telecollection.Auth.Channels.Answers.{LoggedIn, submit-Truthful}
use telecollection.Auth.Channels.Queueing.{QueuedOrLeft, start_qr-QueuedOrLeft}

abbrev number : Bytes
number = codes "+10000"

abbrev text : Bytes
text = codes "12345"

abbrev failure : Error
failure = new "context canceled"

abbrev flow_begun : Flow
flow_begun = record {
  state = logged_out;
  in_progress = true;
  gen = 1;
  cancel = some 1;
  auth = some 1;
  done = some 1;
  cancelled = [];
}

abbrev flow_asked : Flow
flow_asked = record flow_begun { state = wait_code }

abbrev flow_qr : Flow
flow_qr = record {
  state = logged_out;
  in_progress = true;
  gen = 2;
  cancel = some 2;
  auth = none;
  done = some 2;
  cancelled = 1 ∷ [];
}

abbrev at_stage : Stage → Attempt
at_stage s = record (new_attempt by_code number s) { asked_code = true }

-- The goroutine of attempt 1 is at a stage.
abbrev at : Net → Attempt → Net
at n a = record n { attempts = put 1 a n.attempts }

abbrev begun : Net
begun = record {
  flow = flow_begun;
  attempts = put 1 (new_attempt by_code number running) new_net.attempts;
  requests = put 0 (login_waits 1) new_net.requests;
}

abbrev asked : Net
asked = record (at begun (at_stage in_code)) { flow = flow_asked }

abbrev offered : Net
offered = record asked { requests = put 1 (code_offered (some 1) (some 1) text) asked.requests }

offered-Reachable : Reachable offered
unfolding start_login reset_locked request_code transition submit_code
offered-Reachable =
    next new_net asked offered
      (next new_net begun asked
        (next new_net new_net begun (here new_net) (
          opens new_net 0 flow_begun begun.attempts (login_waits 1) (omega arith) refl
            (login number 1 flow_begun refl)))
        (works begun 1 (new_attempt by_code number running) (at_stage in_code) flow_asked refl
          (asks_code flow_begun (new_attempt by_code number running) false refl refl)))
      (opens asked 1 flow_asked asked.attempts (code_offered (some 1) (some 1) text) (omega arith)
        refl (code (some 1) (some 1) text refl))

-- StartQR preempts the attempt and waits for its goroutine.
abbrev preempted : Net
preempted = record {
  flow = flow_qr;
  attempts = put 2 (new_attempt by_qr [] not_launched) offered.attempts;
  requests = put 2 (qr_queued 2 1) offered.requests;
}

preempted-Reachable : Reachable preempted
unfolding start_qr reset_locked
preempted-Reachable = next new_net offered preempted offered-Reachable (
    opens offered 2 flow_qr preempted.attempts (qr_queued 2 1) (omega arith) refl
      (qr_behind 1 refl))

superseded-Unwound_example : (n' : Net) × Unwound preempted n' 1 (some failure)
superseded-Unwound_example =
    superseded-Unwound preempted 1 (at_stage in_code) (some failure) preempted-Reachable refl
      (inl refl) (λ h. absurd (omega (arith, h)))

-- The goroutine ends, and SubmitCode receives its outcome.
abbrev gone : Attempt
gone = record (at_stage (over (some failure))) { done = some (some failure) }

abbrev ended : Net
ended =
    at
      (at (at (at preempted (at_stage running)) (at_stage (returned (some failure))))
        (at_stage (recorded (some failure))))
      gone

ended-Reachable : Reachable ended
unfolding finish_attempt
ended-Reachable =
    next new_net _ ended
      (next new_net _ _
        (next new_net _ _
          (next new_net preempted _ preempted-Reachable (
            works preempted 1 (at_stage in_code) (at_stage running) flow_qr refl
              (leaves_code flow_qr (at_stage in_code) refl (inl refl))))
          (works (at preempted (at_stage running)) 1 (at_stage running)
            (at_stage (returned (some failure))) flow_qr refl
            (returns flow_qr (at_stage running) (some failure) refl)))
        (works (at (at preempted (at_stage running)) (at_stage (returned (some failure)))) 1
          (at_stage (returned (some failure))) (at_stage (recorded (some failure))) flow_qr refl
          (records flow_qr (at_stage (returned (some failure))) (some failure) refl)))
      (works
        (at (at (at preempted (at_stage running)) (at_stage (returned (some failure))))
          (at_stage (recorded (some failure))))
        1 (at_stage (recorded (some failure))) gone flow_qr refl
        (sends flow_qr (at_stage (recorded (some failure))) (some failure) refl refl))

abbrev taken : Net
taken = record (at ended (at_stage (over (some failure)))) {
  requests = put 1 (answered (some 1) (some (wrap "auth: login failed" failure))) ended.requests;
}

taken-Reachable : Reachable taken
taken-Reachable = next new_net ended taken ended-Reachable (
    resumes ended 1 (code_offered (some 1) (some 1) text) flow_qr taken.attempts
      (answered (some 1) (some (wrap "auth: login failed" failure))) (omega arith) refl
      (code_ends 1 (some 1) text (some failure) taken.attempts
        (receives 1 gone (some failure) refl refl)))

start_qr-QueuedOrLeft_example :
    QueuedOrLeft
      (record taken {
        flow = logout taken.flow;
        requests = put 3 (answered none none) taken.requests;
      })
      2
      2
      1
start_qr-QueuedOrLeft_example =
    start_qr-QueuedOrLeft taken _ 2 2 1 (at_stage (over (some failure))) taken-Reachable refl
      (some failure, refl, refl) refl
      (next taken taken _ (here taken) (
        opens taken 3 (logout taken.flow) taken.attempts (answered none none) (omega arith) refl
          out))

-- The goroutine takes the code, and the login succeeds.
abbrev heard : Stage → Attempt
heard s = record (at_stage s) { received = text ∷ [] }

abbrev delivered : Net
delivered = record (at offered (heard running)) {
  requests = put 1 (code_taken (some 1) (some 1)) offered.requests;
}

abbrev flow_in : Flow
flow_in = record {
  state = logged_in;
  in_progress = false;
  gen = 1;
  cancel = none;
  auth = none;
  done = none;
  cancelled = 1 ∷ [];
}

abbrev noted : Net
noted = record (at (at delivered (heard (returned none))) (heard (recorded none))) {
  flow = flow_in;
}

abbrev told : Net
told = at noted (record (heard (over none)) { done = some none })

abbrev entered : Net
entered = record (at told (heard (over none))) {
  requests = put 1 (answered (some 1) none) told.requests;
}

entered-Reachable : Reachable entered
unfolding finish_attempt
entered-Reachable =
    next new_net told entered
      (next new_net noted told
        (next new_net (at delivered (heard (returned none))) noted
          (next new_net delivered _
            (next new_net offered delivered offered-Reachable (
              resumes offered 1 (code_offered (some 1) (some 1) text) flow_asked delivered.attempts
                (code_taken (some 1) (some 1)) (omega arith) refl
                (code_goes 1 (some 1) text (at_stage in_code) refl refl)))
            (works delivered 1 (heard running) (heard (returned none)) flow_asked refl
              (returns flow_asked (heard running) none refl)))
          (works (at delivered (heard (returned none))) 1 (heard (returned none))
            (heard (recorded none)) flow_in refl
            (records flow_asked (heard (returned none)) none refl)))
        (works noted 1 (heard (recorded none)) (record (heard (over none)) { done = some none })
          flow_in refl (sends flow_in (heard (recorded none)) none refl refl)))
      (resumes told 1 (code_taken (some 1) (some 1)) flow_in entered.attempts
        (answered (some 1) none) (omega arith) refl
        (code_wakes (some 1) (some 1) (finished none) entered.attempts (
          by_finish (some 1) none entered.attempts
            (receives 1 (record (heard (over none)) { done = some none }) none refl refl))))

submit-Truthful_example :
    (entered.requests 1 ≢ some crashed)
    × ((g : ℕ) → entered.requests 1 ≡ some (answered (some g) none) → LoggedIn entered.attempts g)
submit-Truthful_example = submit-Truthful entered 1 entered-Reachable
