-- ===== src/Http/AuthRoutes.antt =====
-- internal/httpapi/auth_routes.go: the login endpoints over an auth.Service.
pub mod Keeping
use telecollection.Prelude.{
  Bytes, Bool, true, false, Option, none, some, ◌⊎◌, inl, inr, Result, ok, err, panicked, Error,
  Action, pure, ◌>>=◌, ◌>>◌, if◌then◌else◌,
}
use telecollection.Auth.{State, wait_password, logged_in}
use telecollection.Http.Response.{
  Response, write_json, write_error, write_state, write_service_error, write_header, qr_url,
}

-- auth.Service; what Status returns beside an error is a state all the same.
pub record AuthService (S : Type 0) : Type 0 where
  pub start_login : (phone : Bytes) → Action S (Unit {0})
  pub submit_code : (code : Bytes) → Action S (Unit {0})
  pub submit_password : (password : Bytes) → Action S (Unit {0})
  pub start_qr : Action S Bytes
  pub status : S → (State × Option Error) × S
  pub logout : Action S (Unit {0})

-- A handler works on the response and the state of the service.
abbrev pub Handler : Type 0 → Type 0
Handler S = Action (Response × S) (Unit {0})

-- A step on the response.
abbrev pub respond : {S : Type 0} → (Response → Response) → Handler S
respond f (w, s) = (ok tt, (f w, s))

abbrev pub caught : {A : Type 0} → Result A → Result (Error ⊎ A)
caught (ok a) = ok (inr a)
caught (err e) = ok (inl e)
caught panicked = panicked

-- A call of the service, with its error or its value.
abbrev pub call : {S A : Type 0} → Action S A → Action (Response × S) (Error ⊎ A)
call m (w, s) = let (r, s') = m s in (caught r, (w, s'))

-- decodeBody, with what follows it.
unfoldable pub decode_body : {S A : Type 0} → Option A → (A → Handler S) → Handler S
unfolding write_error
decode_body none k = respond (write_error 400 "BAD_REQUEST" "invalid request body")
decode_body (some a) k = k a

-- The bodies of the requests; `none` is text that json.Decoder refuses, unknown fields included.
pub record AuthDecoders : Type 0 where
  pub phone : Bytes → Option Bytes
  pub code : Bytes → Option Bytes
  pub password : Bytes → Option Bytes

module _ {S : Type 0} (svc : AuthService S) (decode : AuthDecoders)
    (is_password_needed : Error → Bool) where
  -- What StartLogin, SubmitCode, SubmitPassword, StartQR, Status and Logout are answered with.
  unfoldable pub started : Error ⊎ Unit {0} → Handler S
  unfolding write_service_error write_state
  started (inl e) (w, s) = (ok tt, (write_service_error e w, s))
  started (inr a) (w, s) = let ((st, e), s') = svc.status s in (ok tt, (write_state st w, s'))

  unfoldable pub code_checked : Error ⊎ Unit {0} → Response → Response
  unfolding write_service_error write_state
  code_checked (inr a) = write_state logged_in
  code_checked (inl e) =
      if is_password_needed e then write_state wait_password else write_service_error e

  unfoldable pub password_checked : Error ⊎ Unit {0} → Response → Response
  unfolding write_service_error write_state
  password_checked (inl e) = write_service_error e
  password_checked (inr a) = write_state logged_in

  unfoldable pub qr_started : Error ⊎ Bytes → Response → Response
  unfolding write_service_error write_json
  qr_started (inl e) = write_service_error e
  qr_started (inr url) = write_json 200 (qr_url url)

  unfoldable pub status_read : State × Option Error → Response → Response
  unfolding write_service_error write_state
  status_read (st, none) = write_state st
  status_read (st, some e) = write_service_error e

  unfoldable pub logged_off : Error ⊎ Unit {0} → Response → Response
  unfolding write_service_error write_header
  logged_off (inl e) = write_service_error e
  logged_off (inr a) = write_header 204

  -- POST /auth/start
  unfoldable pub post_start : Bytes → Handler S
  unfolding decode_body started
  post_start body =
      decode_body (decode.phone body) (λ phone. call (svc.start_login phone) >>= started)

  -- POST /auth/code
  unfoldable pub post_code : Bytes → Handler S
  unfolding decode_body code_checked
  post_code body =
      decode_body (decode.code body)
        (λ code. call (svc.submit_code code) >>= λ r. respond (code_checked r))

  -- POST /auth/password
  unfoldable pub post_password : Bytes → Handler S
  unfolding decode_body password_checked
  post_password body =
      decode_body (decode.password body)
        (λ password. call (svc.submit_password password) >>= λ r. respond (password_checked r))

  -- POST /auth/qr
  unfoldable pub post_qr : Handler S
  unfolding qr_started
  post_qr = call svc.start_qr >>= λ r. respond (qr_started r)

  -- GET /auth/status
  unfoldable pub get_status : Handler S
  unfolding status_read
  get_status (w, s) = let (x, s') = svc.status s in (ok tt, (status_read x w, s'))

  -- POST /auth/logout
  unfoldable pub post_logout : Handler S
  unfolding logged_off
  post_logout = call svc.logout >>= λ r. respond (logged_off r)
