-- ===== src/Http/Blurring/AuthAnswers.antt =====
-- The login endpoints do not show the text of an error.
use mathlib.Core.Option
use telecollection.Prelude.{ok, Bytes, ◌≡◌, refl, Bool, inl, Option, none, some, Error}
use telecollection.Auth.{State}
use telecollection.Http.Response.{Response, write_service_error}
use telecollection.Http.AuthRoutes.{
  AuthService, AuthDecoders, respond, decode_body, started, code_checked, password_checked,
  qr_started, status_read, logged_off, post_start, post_code, post_password, post_qr, get_status,
  post_logout,
}
use telecollection.Http.Blurring.{blurred_auth, call-blurred}

module _ (blur : Error → Error) {S : Type 0} (svc : AuthService S) (decode : AuthDecoders)
    (is_password_needed : Error → Bool)
    (known : (e : Error) → is_password_needed (blur e) ≡ is_password_needed e) where
  code_checked-blurred :
      (e : Error)
      → code_checked svc decode is_password_needed (inl (blur e))
        ≡ code_checked svc decode is_password_needed (inl e)
  unfolding code_checked write_service_error
  code_checked-blurred e = rw (known e) refl

  status_read-blurred :
      (st : State) (e : Option Error) (w : Response)
      → status_read svc decode is_password_needed (st, Option.map blur e) w
        ≡ status_read svc decode is_password_needed (st, e) w
  unfolding status_read write_service_error
  status_read-blurred st none w = refl
  status_read-blurred st (some e) w = refl

  pub post_code-blurred :
      (body : Bytes)
      → post_code (blurred_auth blur svc) decode is_password_needed body
        ≡ post_code svc decode is_password_needed body
  unfolding post_code code_checked
  post_code-blurred body i = decode_body (decode.code body) (λ code.
      call-blurred blur (λ r. respond (code_checked svc decode is_password_needed r))
        (λ e j. respond (code_checked-blurred e j)) (svc.submit_code code) i)

  pub post_password-blurred :
      (body : Bytes)
      → post_password (blurred_auth blur svc) decode is_password_needed body
        ≡ post_password svc decode is_password_needed body
  unfolding post_password password_checked write_service_error
  post_password-blurred body i = decode_body (decode.password body) (λ password.
      call-blurred blur (λ r. respond (password_checked svc decode is_password_needed r))
        (λ e. refl) (svc.submit_password password) i)

  pub post_qr-blurred :
      post_qr (blurred_auth blur svc) decode is_password_needed
      ≡ post_qr svc decode is_password_needed
  unfolding post_qr qr_started write_service_error
  post_qr-blurred =
      call-blurred blur (λ r. respond (qr_started svc decode is_password_needed r)) (λ e. refl)
        svc.start_qr

  pub get_status-blurred :
      get_status (blurred_auth blur svc) decode is_password_needed
      ≡ get_status svc decode is_password_needed
  unfolding get_status status_read
  get_status-blurred i (w, s) =
      let ((st, e), s') = svc.status s in (ok tt, (status_read-blurred st e w i, s'))

  pub post_logout-blurred :
      post_logout (blurred_auth blur svc) decode is_password_needed
      ≡ post_logout svc decode is_password_needed
  unfolding post_logout logged_off write_service_error
  post_logout-blurred =
      call-blurred blur (λ r. respond (logged_off svc decode is_password_needed r)) (λ e. refl)
        svc.logout

  pub post_start-blurred :
      (body : Bytes)
      → post_start (blurred_auth blur svc) decode is_password_needed body
        ≡ post_start svc decode is_password_needed body
  unfolding post_start started write_service_error
  post_start-blurred body i = decode_body (decode.phone body) (λ phone.
      call-blurred blur (started svc decode is_password_needed) (λ e. refl) (svc.start_login phone)
        i)
