-- ===== src/Auth/Attempts.antt =====
-- internal/telegram/auth/flow.go: the goroutine of an attempt, its channels, and what wakes a select up.
use telecollection.Prelude.{
  ℕ, ◌≡◌, ◌⊎◌, ◌==◌, Bytes, Bool, true, false, ◌||◌, Option, none, some, List, [], ◌∷◌, Error,
  if◌then◌else◌,
}
use telecollection.Auth.{
  Flow, finish_attempt, StartWake, code_requested, ended, ctx_done, SubmitWake, proceeded, finished,
  gave_up, QrWake, url, qr_ended, qr_ctx_done, EndWake, login_ended, login_gave_up,
}
use telecollection.Auth.Steps.{Kind, by_code, by_qr}
use telecollection.Auth.Authenticator.{Authenticator, request_code, request_password}

-- Where the goroutine of an attempt stands: that of StartQR is launched late. RunAuth or RunQR runs,
-- inside Code or Password or not, and returns; finishAttempt records the outcome; and the goroutine
-- ends with the outcome sent to `done`.
pub data Stage : Type 0 where
  not_launched running in_code in_password : Stage
  returned recorded over : Option Error → Stage

-- An attempt: its goroutine, the two request channels (closed or not), the values that codeCh and
-- passCh have carried, and the buffers of `done` and of urlCh, of one place each. `own_context` says that
-- the context that gotd passed to Code or Password may end before that of the attempt does.
pub record Attempt : Type 0 where
  pub kind : Kind
  pub phone : Bytes
  pub stage : Stage
  pub asked_code : Bool
  pub asked_password : Bool
  pub own_context : Bool
  pub received : List Bytes
  pub done : Option (Option Error)
  pub url_buffer : Option Bytes

abbrev pub Attempts : Type 0
Attempts = ℕ → Option Attempt

abbrev pub put : {A : Type 0} → ℕ → A → (ℕ → Option A) → ℕ → Option A
put g a m x = if x == g then some a else m x

abbrev pub new_attempt : Kind → Bytes → Stage → Attempt
new_attempt kind phone stage = record {
  kind = kind;
  phone = phone;
  stage = stage;
  asked_code = false;
  asked_password = false;
  own_context = false;
  received = [];
  done = none;
  url_buffer = none;
}

-- loginCtx and qrCtx: done once their cancel function was called.
abbrev pub is_cancelled : ℕ → List ℕ → Bool
is_cancelled g [] = false
is_cancelled g (c ∷ l) = (c == g) || is_cancelled g l

-- The flowAuthenticator of an attempt.
abbrev pub authenticator : ℕ → Attempt → Authenticator
authenticator g a = record {
  phone_number = a.phone;
  gen = g;
  code_requested = a.asked_code;
  password_requested = a.asked_password;
}

-- The go statement of StartQR.
abbrev pub launched : Stage → Stage
launched not_launched = running
launched running = running
launched in_code = in_code
launched in_password = in_password
launched (returned e) = returned e
launched (recorded e) = recorded e
launched (over e) = over e

-- A send to urlCh that does not wait.
abbrev pub offer_url : Bytes → Option Bytes → Option Bytes
offer_url u none = some u
offer_url u (some v) = some v

-- What the goroutine of attempt `g` does. gotd may call Code and Password at any time while RunAuth
-- runs, and return anything.
pub data Work (g : ℕ) : Flow → Attempt → Flow → Attempt → Type 0 where
  asks_code :
      (f : Flow) (a : Attempt) (own : Bool)
      → a.stage ≡ running
      → a.kind ≡ by_code
      → Work g f a
          (request_code (authenticator g a, f)).1
          (record a { stage = in_code; asked_code = true; own_context = own })
  asks_password :
      (f : Flow) (a : Attempt) (own : Bool)
      → a.stage ≡ running
      → a.kind ≡ by_code
      → Work g f a
          (request_password (authenticator g a, f)).1
          (record a { stage = in_password; asked_password = true; own_context = own })
  leaves_code :
      (f : Flow) (a : Attempt)
      → a.stage ≡ in_code
      → (is_cancelled g f.cancelled ≡ true) ⊎ (a.own_context ≡ true)
      → Work g f a f (record a { stage = running })
  leaves_password :
      (f : Flow) (a : Attempt)
      → a.stage ≡ in_password
      → (is_cancelled g f.cancelled ≡ true) ⊎ (a.own_context ≡ true)
      → Work g f a f (record a { stage = running })
  shows_url :
      (f : Flow) (a : Attempt) (u : Bytes)
      → a.stage ≡ running
      → a.kind ≡ by_qr
      → Work g f a f (record a { url_buffer = offer_url u a.url_buffer })
  returns :
      (f : Flow) (a : Attempt) (e : Option Error)
      → a.stage ≡ running
      → Work g f a f (record a { stage = returned e })
  records :
      (f : Flow) (a : Attempt) (e : Option Error)
      → a.stage ≡ returned e
      → Work g f a (finish_attempt g e f) (record a { stage = recorded e })
  sends :
      (f : Flow) (a : Attempt) (e : Option Error)
      → a.stage ≡ recorded e
      → a.done ≡ none
      → Work g f a f (record a { stage = over e; done = some e })

-- `err := <-done`; nothing is ever received from a nil channel.
pub data Receives (ts : Attempts) : Option ℕ → Option Error → Attempts → Type 0 where
  receives :
      (g : ℕ) (a : Attempt) (e : Option Error)
      → ts g ≡ some a
      → a.done ≡ some e
      → Receives ts (some g) e (put g (record a { done = none }) ts)

-- What wakes a select up, and the channels behind it.
pub data StartWakes (ts : Attempts) (g : ℕ) : StartWake → Attempts → Type 0 where
  by_request :
      (a : Attempt) → ts g ≡ some a → a.asked_code ≡ true → StartWakes ts g code_requested ts
  by_end :
      (e : Option Error) (ts' : Attempts)
      → Receives ts (some g) e ts'
      → StartWakes ts g (ended e) ts'
  by_ctx : (e : Error) → StartWakes ts g (ctx_done e) ts

pub data SubmitWakes (ts : Attempts) (d : Option ℕ)
    : Option ℕ → SubmitWake → Attempts → Type 0 where
  by_password :
      (g : ℕ) (a : Attempt)
      → ts g ≡ some a
      → a.asked_password ≡ true
      → SubmitWakes ts d (some g) proceeded ts
  by_finish :
      (auth : Option ℕ) (e : Option Error) (ts' : Attempts)
      → Receives ts d e ts'
      → SubmitWakes ts d auth (finished e) ts'
  by_leaving : (auth : Option ℕ) (e : Error) → SubmitWakes ts d auth (gave_up e) ts

pub data EndWakes (ts : Attempts) (d : Option ℕ) : EndWake → Attempts → Type 0 where
  by_outcome :
      (e : Option Error) (ts' : Attempts) → Receives ts d e ts' → EndWakes ts d (login_ended e) ts'
  by_giving_up : (e : Error) → EndWakes ts d (login_gave_up e) ts

pub data QrWakes (ts : Attempts) (g : ℕ) : QrWake → Attempts → Type 0 where
  by_url :
      (a : Attempt) (u : Bytes)
      → ts g ≡ some a
      → a.url_buffer ≡ some u
      → QrWakes ts g (url u) (put g (record a { url_buffer = none }) ts)
  by_failure :
      (e : Option Error) (ts' : Attempts)
      → Receives ts (some g) e ts'
      → QrWakes ts g (qr_ended e) ts'
  by_leave : (e : Error) → QrWakes ts g (qr_ctx_done e) ts
