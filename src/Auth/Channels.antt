-- ===== src/Auth/Channels.antt =====
-- internal/telegram/auth/flow.go: the goroutines, the requests and the channels between them. A step is
-- a critical section, or a communication on a channel.
pub mod Moves
pub mod Contexts
pub mod Invariant
pub mod Workers
pub mod Refinement
pub mod Unwinding
pub mod Answers
pub mod Queueing
mod Tests
use telecollection.Prelude.{
  ℕ, suc, ◌<◌, ◌^◌, ◌≡◌, ◌==◌, Bytes, Bool, true, false, ◌||◌, Option, none, some, List, [], ◌∷◌,
  ◌++◌, Result, ok, err, Error, if◌then◌else◌,
}
use telecollection.Auth.{
  Flow, new_service, start_login, start_qr, logout, finish_attempt, StartWake, code_requested,
  ended, ctx_done, start_login_wait, SubmitWake, proceeded, finished, gave_up, submit_code,
  submit_password, attempt_error, observed, await_previous, QrWake, url, qr_ended, qr_ctx_done,
  start_qr_wait, EndWake, login_ended, login_gave_up, end_observed,
}
use telecollection.Auth.Steps.{Kind, by_code, by_qr}
use telecollection.Auth.Authenticator.{Authenticator, request_code, request_password}
use telecollection.Auth.Attempts.{
  Stage, not_launched, running, in_code, in_password, returned, recorded, over, Attempt, Attempts,
  put, new_attempt, launched, is_cancelled, authenticator, offer_url, Work, asks_code,
  asks_password, leaves_code, leaves_password, shows_url, returns, records, sends, Receives,
  receives, StartWakes, by_request, by_end, by_ctx, SubmitWakes, by_password, by_finish, by_leaving,
  EndWakes, by_outcome, by_giving_up, QrWakes, by_url, by_failure, by_leave,
}

-- Where a request stands: StartLogin in its select; SubmitCode and SubmitPassword in their first and
-- second; StartQR in front of the preempted goroutine, behind it, and in its last select. An answer of
-- a Submit that got past its check has the done channel it listened to.
pub data Request : Type 0 where
  login_waits : ℕ → Request
  code_offered : (auth done : Option ℕ) → Bytes → Request
  code_taken : (auth done : Option ℕ) → Request
  password_offered : (auth done : Option ℕ) → Bytes → Request
  password_taken : (done : Option ℕ) → Request
  qr_queued : (gen previous : ℕ) → Request
  qr_cleared : ℕ → Request
  qr_waits : ℕ → Request
  answered : (done : Option ℕ) → Option Error → Request
  qr_answered : Result Bytes → Request
  crashed : Request

-- Attempts by their generations, and requests by any number.
pub record Net : Type 0 where
  pub flow : Flow
  pub attempts : Attempts
  pub requests : ℕ → Option Request

abbrev pub new_net : Net
new_net = record { flow = new_service; attempts = λ g. none; requests = λ i. none }

-- The first critical section of a request.
pub data Opens (n : Net) : Flow → Attempts → Request → Type 0 where
  login :
      (phone : Bytes) (g : ℕ) (f : Flow)
      → start_login phone n.flow ≡ (ok g, f)
      → Opens n f (put g (new_attempt by_code phone running) n.attempts) (login_waits g)
  login_refused :
      (phone : Bytes) (e : Error)
      → start_login phone n.flow ≡ (err e, n.flow)
      → Opens n n.flow n.attempts (answered none (some e))
  code :
      (auth done : Option ℕ) (text : Bytes)
      → submit_code n.flow ≡ ok (auth, done)
      → Opens n n.flow n.attempts (code_offered auth done text)
  code_refused :
      (e : Error) → submit_code n.flow ≡ err e → Opens n n.flow n.attempts (answered none (some e))
  password :
      (auth done : Option ℕ) (text : Bytes)
      → submit_password n.flow ≡ ok (auth, done)
      → Opens n n.flow n.attempts (password_offered auth done text)
  password_refused :
      (e : Error)
      → submit_password n.flow ≡ err e
      → Opens n n.flow n.attempts (answered none (some e))
  qr :
      (start_qr n.flow).0.1 ≡ none
      → Opens n
          (start_qr n.flow).1
          (put (start_qr n.flow).0.0 (new_attempt by_qr [] not_launched) n.attempts)
          (qr_cleared (start_qr n.flow).0.0)
  qr_behind :
      (p : ℕ)
      → (start_qr n.flow).0.1 ≡ some p
      → Opens n
          (start_qr n.flow).1
          (put (start_qr n.flow).0.0 (new_attempt by_qr [] not_launched) n.attempts)
          (qr_queued (start_qr n.flow).0.0 p)
  out : Opens n (logout n.flow) n.attempts (answered none none)

-- What a request does next.
pub data Resumes (n : Net) : Request → Flow → Attempts → Request → Type 0 where
  login_wakes :
      (g : ℕ) (w : StartWake) (ts : Attempts)
      → StartWakes n.attempts g w ts
      → Resumes n
          (login_waits g)
          (start_login_wait g w n.flow).1
          ts
          (answered none (start_login_wait g w n.flow).0)
  code_goes :
      (g : ℕ) (done : Option ℕ) (text : Bytes) (a : Attempt)
      → n.attempts g ≡ some a
      → a.stage ≡ in_code
      → Resumes n
          (code_offered (some g) done text)
          n.flow
          (put g (record a { stage = running; received = a.received ++ text ∷ [] }) n.attempts)
          (code_taken (some g) done)
  code_ends :
      (g : ℕ) (done : Option ℕ) (text : Bytes) (e : Option Error) (ts : Attempts)
      → Receives n.attempts done e ts
      → Resumes n (code_offered (some g) done text) n.flow ts (answered done (attempt_error e))
  code_leaves :
      (g : ℕ) (done : Option ℕ) (text : Bytes) (e : Error)
      → Resumes n (code_offered (some g) done text) n.flow n.attempts (answered done (some e))
  code_crashes :
      (done : Option ℕ) (text : Bytes)
      → Resumes n (code_offered none done text) n.flow n.attempts crashed
  code_wakes :
      (auth done : Option ℕ) (w : SubmitWake) (ts : Attempts)
      → SubmitWakes n.attempts done auth w ts
      → Resumes n (code_taken auth done) n.flow ts (answered done (observed w))
  password_goes :
      (g : ℕ) (done : Option ℕ) (text : Bytes) (a : Attempt)
      → n.attempts g ≡ some a
      → a.stage ≡ in_password
      → Resumes n
          (password_offered (some g) done text)
          n.flow
          (put g (record a { stage = running; received = a.received ++ text ∷ [] }) n.attempts)
          (password_taken done)
  password_ends :
      (g : ℕ) (done : Option ℕ) (text : Bytes) (e : Option Error) (ts : Attempts)
      → Receives n.attempts done e ts
      → Resumes n (password_offered (some g) done text) n.flow ts (answered done (attempt_error e))
  password_leaves :
      (g : ℕ) (done : Option ℕ) (text : Bytes) (e : Error)
      → Resumes n (password_offered (some g) done text) n.flow n.attempts (answered done (some e))
  password_crashes :
      (done : Option ℕ) (text : Bytes)
      → Resumes n (password_offered none done text) n.flow n.attempts crashed
  password_wakes :
      (done : Option ℕ) (w : EndWake) (ts : Attempts)
      → EndWakes n.attempts done w ts
      → Resumes n (password_taken done) n.flow ts (answered done (end_observed w))
  qr_clears :
      (g p : ℕ) (e : Option Error) (ts : Attempts)
      → Receives n.attempts (some p) e ts
      → Resumes n (qr_queued g p) (await_previous g none n.flow).1 ts (qr_cleared g)
  qr_leaves :
      (g p : ℕ) (e : Error)
      → Resumes n
          (qr_queued g p)
          (await_previous g (some e) n.flow).1
          n.attempts
          (qr_answered (err e))
  qr_launches :
      (g : ℕ) (a : Attempt)
      → n.attempts g ≡ some a
      → Resumes n
          (qr_cleared g)
          n.flow
          (put g (record a { stage = launched a.stage }) n.attempts)
          (qr_waits g)
  qr_wakes :
      (g : ℕ) (w : QrWake) (ts : Attempts)
      → QrWakes n.attempts g w ts
      → Resumes n
          (qr_waits g)
          (start_qr_wait g w n.flow).1
          ts
          (qr_answered (start_qr_wait g w n.flow).0)

-- Fewer than 2^64 attempts are made.
pub data Step : Net → Net → Type 0 where
  works :
      (n : Net) (g : ℕ) (a a' : Attempt) (f : Flow)
      → n.attempts g ≡ some a
      → Work g n.flow a f a'
      → Step n (record n { flow = f; attempts = put g a' n.attempts })
  opens :
      (n : Net) (i : ℕ) (f : Flow) (ts : Attempts) (q : Request)
      → suc n.flow.gen < 2 ^ 64
      → n.requests i ≡ none
      → Opens n f ts q
      → Step n (record { flow = f; attempts = ts; requests = put i q n.requests })
  resumes :
      (n : Net) (i : ℕ) (p : Request) (f : Flow) (ts : Attempts) (q : Request)
      → suc n.flow.gen < 2 ^ 64
      → n.requests i ≡ some p
      → Resumes n p f ts q
      → Step n (record { flow = f; attempts = ts; requests = put i q n.requests })

pub data Steps : Net → Net → Type 0 where
  here : (n : Net) → Steps n n
  next : (n n' n'' : Net) → Steps n n' → Step n' n'' → Steps n n''

abbrev pub Reachable : Net → Type 0
Reachable n = Steps new_net n
