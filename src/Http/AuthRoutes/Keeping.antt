-- ===== src/Http/AuthRoutes/Keeping.antt =====
-- The login endpoints leave the header of the origin as it is.
use telecollection.Prelude.{
  Bytes, Bool, Bool-cases, Option, none, some, ◌⊎◌, inl, inr, Error, Keeps-bind,
}
use telecollection.Auth.{State, logged_in, wait_password}
use telecollection.Http.Response.{qr_url}
use telecollection.Http.AuthRoutes.{
  AuthService, AuthDecoders, call, started, code_checked, password_checked, qr_started, status_read,
  logged_off, post_start, post_code, post_password, post_qr, get_status, post_logout,
}
use telecollection.Http.Kept.{
  Leaves, KeepsIt, KeepsIt-call, KeepsIt-decode_body, write_header-Leaves, write_json-Leaves,
  write_state-Leaves, write_service_error-Leaves,
}

module _ (o : Option Bytes) {S : Type 0} (svc : AuthService S) (decode : AuthDecoders)
    (is_password_needed : Error → Bool) where
  started-keeps : (r : Error ⊎ Unit {0}) → KeepsIt o (started svc decode is_password_needed r)
  unfolding started
  started-keeps (inl e) = record { at = λ (w, s) h. write_service_error-Leaves o e w h }
  started-keeps (inr a) = record { at = λ (w, s) h. write_state-Leaves o (svc.status s).0.0 w h }

  code_checked-Leaves :
      (r : Error ⊎ Unit {0}) → Leaves o (code_checked svc decode is_password_needed r)
  unfolding code_checked
  code_checked-Leaves (inr a) = write_state-Leaves o logged_in
  code_checked-Leaves (inl e) = elim (Bool-cases (is_password_needed e)) [
    | inl t ↦ rw (t, code_checked) (write_state-Leaves o wait_password)
    | inr t ↦ rw (t, code_checked) (write_service_error-Leaves o e)
  ]

  password_checked-Leaves :
      (r : Error ⊎ Unit {0}) → Leaves o (password_checked svc decode is_password_needed r)
  unfolding password_checked
  password_checked-Leaves (inl e) = write_service_error-Leaves o e
  password_checked-Leaves (inr a) = write_state-Leaves o logged_in

  qr_started-Leaves : (r : Error ⊎ Bytes) → Leaves o (qr_started svc decode is_password_needed r)
  unfolding qr_started
  qr_started-Leaves (inl e) = write_service_error-Leaves o e
  qr_started-Leaves (inr url) = write_json-Leaves o 200 (qr_url url)

  status_read-Leaves :
      (x : State × Option Error) → Leaves o (status_read svc decode is_password_needed x)
  unfolding status_read
  status_read-Leaves (st, none) = write_state-Leaves o st
  status_read-Leaves (st, some e) = write_service_error-Leaves o e

  logged_off-Leaves : (r : Error ⊎ Unit {0}) → Leaves o (logged_off svc decode is_password_needed r)
  unfolding logged_off
  logged_off-Leaves (inl e) = write_service_error-Leaves o e
  logged_off-Leaves (inr a) = write_header-Leaves o 204

  pub post_start-keeps : (body : Bytes) → KeepsIt o (post_start svc decode is_password_needed body)
  unfolding post_start started
  post_start-keeps body = KeepsIt-decode_body o (decode.phone body) _ (λ phone.
      Keeps-bind (call (svc.start_login phone)) _ (record { at = λ (w, s) h. h }) started-keeps)

  pub post_code-keeps : (body : Bytes) → KeepsIt o (post_code svc decode is_password_needed body)
  unfolding post_code
  post_code-keeps body = KeepsIt-decode_body o (decode.code body) _ (λ code.
      KeepsIt-call o (svc.submit_code code) (code_checked svc decode is_password_needed)
        code_checked-Leaves)

  pub post_password-keeps :
      (body : Bytes) → KeepsIt o (post_password svc decode is_password_needed body)
  unfolding post_password
  post_password-keeps body = KeepsIt-decode_body o (decode.password body) _ (λ password.
      KeepsIt-call o (svc.submit_password password) (password_checked svc decode is_password_needed)
        password_checked-Leaves)

  pub post_qr-keeps : KeepsIt o (post_qr svc decode is_password_needed)
  unfolding post_qr
  post_qr-keeps =
      KeepsIt-call o svc.start_qr (qr_started svc decode is_password_needed) qr_started-Leaves

  pub get_status-keeps : KeepsIt o (get_status svc decode is_password_needed)
  unfolding get_status status_read
  get_status-keeps = record { at = λ (w, s) h. status_read-Leaves (svc.status s).0 w h }

  pub post_logout-keeps : KeepsIt o (post_logout svc decode is_password_needed)
  unfolding post_logout
  post_logout-keeps =
      KeepsIt-call o svc.logout (logged_off svc decode is_password_needed) logged_off-Leaves
