-- ===== src/Auth/Authenticator.antt =====
-- internal/telegram/auth/flow.go: flowAuthenticator, which gotd asks for the code and the password, and
-- clientBackend. A channel that is received from is an argument: what the select woke up by.
use telecollection.Prelude.{
  ℕ, Bytes, Bool, true, false, Option, none, some, Result, ok, err, Error, new, Action,
  if◌then◌else◌,
}
use telecollection.Auth.{Flow, wait_code, wait_password, transition}

-- flowAuthenticator, of the attempt `gen`; a request channel is closed once its sync.Once has run.
pub record Authenticator : Type 0 where
  pub phone_number : Bytes
  pub gen : ℕ
  pub code_requested : Bool
  pub password_requested : Bool

-- newFlowAuthenticator, with the callbacks of StartLogin
abbrev pub new_authenticator : Bytes → ℕ → Authenticator
new_authenticator phone gen = record {
  phone_number = phone;
  gen = gen;
  code_requested = false;
  password_requested = false;
}

-- What the select of Code or Password wakes up by.
pub data ValueWake : Type 0 where
  submitted : Bytes → ValueWake
  cancelled : Error → ValueWake

abbrev received : ValueWake → Result Bytes
received (submitted value) = ok value
received (cancelled e) = err e

-- Phone
abbrev pub phone : Authenticator → Result Bytes
phone a = ok a.phone_number

-- Code up to its select
unfoldable pub request_code : Authenticator × Flow → Authenticator × Flow
unfolding transition
request_code (a, s) =
    if a.code_requested
    then (a, s)
    else (record a { code_requested = true }, transition a.gen wait_code s)

-- Code
unfoldable pub code : ValueWake → Action (Authenticator × Flow) Bytes
unfolding request_code
code wake s = (received wake, request_code s)

-- Password up to its select
unfoldable pub request_password : Authenticator × Flow → Authenticator × Flow
unfolding transition
request_password (a, s) =
    if a.password_requested
    then (a, s)
    else (record a { password_requested = true }, transition a.gen wait_password s)

-- Password
unfoldable pub password : ValueWake → Action (Authenticator × Flow) Bytes
unfolding request_password
password wake s = (received wake, request_password s)

-- AcceptTermsOfService
abbrev pub accept_terms_of_service : Authenticator → Option Error
accept_terms_of_service a = none

-- SignUp
abbrev pub sign_up : {A : Type 0} → Authenticator → Result A
sign_up a = err (new "auth: sign up for new accounts is not supported")

-- clientBackend.RunAuth and RunQR; `login` and `show` run the flows of gotd over a client `C`.
module _ {C S : Type 0} where
  unfoldable pub run_auth :
      (login : C → Authenticator → S → Option Error × S)
      → Option C
      → Authenticator
      → S
      → Option Error × S
  run_auth login none a s = (some (new "auth: nil telegram client"), s)
  run_auth login (some c) a s = login c a s

  unfoldable pub run_qr :
      (show : C → (Bytes → S → S) → S → Option Error × S)
      → Option C
      → (on_token : Bytes → S → S) → S
      → Option Error × S
  run_qr show none on_token s = (some (new "auth: nil telegram client"), s)
  run_qr show (some c) on_token s = show c on_token s
