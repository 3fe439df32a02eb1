-- ===== src/Http/Kept.antt =====
-- The header of the origin, which the handlers leave as it is.
use telecollection.Prelude.{
  ℕ, ◌≡◌, Bytes, String, Option, none, some, ◌⊎◌, inl, inr, Error, Action, Keeps, Keeps-bind, ◌>>=◌,
  Option-cases,
}
use telecollection.Auth.{State}
use telecollection.Http.Response.{
  Response, Headers, Chunk, Payload, write_header, write_chunk, write_json, write_error,
  write_state, write_service_error, write_drive_error, unauthorized, unauthorized_body, raw, json,
  error_of, state_of,
}
use telecollection.Http.AuthRoutes.{Handler, respond, call, decode_body}

module _ (o : Option Bytes) where
  abbrev pub SentWith : Option (ℕ × Headers) → Type 0
  SentWith none = Unit
  SentWith (some (status, h)) = h.allow_origin ≡ o

  -- The header that is staged, and the one that was sent.
  abbrev pub Shows : Response → Type 0
  Shows w = (w.headers.allow_origin ≡ o) × SentWith w.sent

  -- A function on the response that leaves the header as it is.
  abbrev pub Leaves : (Response → Response) → Type 0
  Leaves f = (w : Response) → Shows w → Shows (f w)

  pub write_header-Leaves : (status : ℕ) → Leaves (write_header status)
  unfolding write_header
  write_header-Leaves status w (h, s) = elim (Option-cases w.sent) [
    | inl e ↦ rw (e, write_header) (h, h)
    | inr (x, e) ↦ rw (e, write_header) (h, s)
  ]

  pub write_chunk-Leaves : (c : Chunk) → Leaves (write_chunk c)
  unfolding write_chunk
  write_chunk-Leaves c w h = write_header-Leaves 200 w h

  pub write_json-Leaves : (status : ℕ) (p : Payload) → Leaves (write_json status p)
  unfolding write_json
  write_json-Leaves status p w h = write_chunk-Leaves (json p) _ (write_header-Leaves status _ h)

  pub write_error-Leaves :
      (status : ℕ) (code message : String) → Leaves (write_error status code message)
  unfolding write_error
  write_error-Leaves status code message = write_json-Leaves status (error_of code message)

  pub unauthorized-Leaves : Leaves unauthorized
  unfolding unauthorized
  unauthorized-Leaves w h =
      write_chunk-Leaves (raw unauthorized_body) _ (write_header-Leaves 401 _ h)

  pub write_service_error-Leaves : (e : Error) → Leaves (write_service_error e)
  unfolding write_service_error
  write_service_error-Leaves e = write_error-Leaves 500 "AUTH_ERROR" "authentication request failed"

  pub write_drive_error-Leaves : (e : Error) → Leaves (write_drive_error e)
  unfolding write_drive_error
  write_drive_error-Leaves e = write_error-Leaves 500 "DRIVE_ERROR" "drive request failed"

  pub write_state-Leaves : (st : State) → Leaves (write_state st)
  unfolding write_state
  write_state-Leaves st = write_json-Leaves 200 (state_of st)

  abbrev pub KeepsIt : {S : Type 0} → Handler S → Type 0
  KeepsIt {S} h = Keeps (λ (x : Response × S). Shows x.0) h

  pub KeepsIt-respond :
      {S : Type 0} (f : Response → Response) → Leaves f → KeepsIt {S = S} (respond f)
  KeepsIt-respond f l = record { at = λ (w, s) h. l w h }

  -- A call of the service, and what it is answered with.
  pub KeepsIt-call :
      {S A : Type 0} (m : Action S A) (f : Error ⊎ A → Response → Response)
      → ((r : Error ⊎ A) → Leaves (f r))
      → KeepsIt (call m >>= λ r. respond (f r))
  KeepsIt-call m f l =
      Keeps-bind (call m) (λ r. respond (f r)) (record { at = λ (w, s) h. h })
        (λ r. KeepsIt-respond (f r) (l r))

  pub KeepsIt-decode_body :
      {S A : Type 0} (a : Option A) (k : A → Handler S)
      → ((a : A) → KeepsIt (k a))
      → KeepsIt (decode_body a k)
  unfolding decode_body
  KeepsIt-decode_body none k kk =
      KeepsIt-respond _ (write_error-Leaves 400 "BAD_REQUEST" "invalid request body")
  KeepsIt-decode_body (some a) k kk = kk a
