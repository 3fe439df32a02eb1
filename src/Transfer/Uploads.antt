-- ===== src/Transfer/Uploads.antt =====
-- Which reader an upload was sent from.
use telecollection.Prelude.{
  ℕ, ◌≤◌, ◌≡◌, ◌≢◌, refl, sym, ap, ◌∙◌, arith, ℤ, pos, ltb_ℤ, Bytes, Bool, Option, none, some, ◌⊎◌,
  inl, inr, ok, Error, Bool-cases, ok-injective,
}
use mathlib.Core.Path.{subst}
use telecollection.Retry.{run, attempts}
use telecollection.Retry.Success.{Succeeds, run-Succeeds}
use telecollection.Transfer.Rewinding.{
  CancelsWithError, Rewinds, Started, Ready, read_progress-Started, rewind-Started,
  reset_reader-cleared,
}
use telecollection.Telegram.{Api}
use telecollection.Transfer.{
  Context, OnProgress, Reader, ReaderState, new_reader_state, cleared, reset_reader, read_progress,
  Send, Uploading, reader_policy, sent, attempt_with, upload_attempt, upload_env, uploaded,
  upload_with_retry, upload_bytes,
}

-- The sender reaches the fields of the progressReader, which are private, by Read only.
abbrev pub UsesBody : {V T F : Type 0} → Send V T F → Type 1
UsesBody {V} {T} send =
    (P : ReaderState × V → Type 0)
    (body : ℕ → (ReaderState × V) × T → (Bytes × Option Error) × ((ReaderState × V) × T))
    → ((n : ℕ) (x : ReaderState × V) (t : T) → P x → P (body n (x, t)).1.0)
    → (x : ReaderState × V) (t : T) → P x
    → P (send body (x, t)).1.0

-- A send that returned `f` and left the state `s`, off a reader that stood at its start with its
-- count at 0.
abbrev pub SentFromStart :
    {V T F : Type 0}
    → Context T
    → (Error → Bool)
    → Reader V
    → ℤ
    → OnProgress V
    → Send V T F
    → (V → Type 0)
    → F
    → (ReaderState × V) × T
    → Type 0
unfolding read_progress
SentFromStart {V} {T} ctx is_eof r size on_progress send AtStart f s =
    (v : V) × (t : T) × AtStart v
    × (send (read_progress r ctx is_eof size on_progress) ((cleared r, v), t) ≡ (inr f, s))

two_of_one : ¬ (2 ≤ 1)
two_of_one h = omega arith

module _ {V T F : Type 0} (ctx : Context T) (is_eof : Error → Bool) (r : Reader V) (size : ℤ)
    (on_progress : OnProgress V) (send : Send V T F) (AtStart : V → Type 0)
    (rewinds : Rewinds r AtStart) (uses : UsesBody send) where
  abbrev body : ℕ → (ReaderState × V) × T → (Bytes × Option Error) × ((ReaderState × V) × T)
  unfolding read_progress
  body = read_progress r ctx is_eof size on_progress

  abbrev ReadyAt : Uploading V T F → Type 0
  ReadyAt s = Ready r AtStart rewinds s.1.0

  -- The call of `send` that an attempt makes behind a reset.
  sent-inr :
      (result : Option F) (q : (Error ⊎ F) × ((ReaderState × V) × T)) (s : Uploading V T F)
      → sent ctx is_eof r size on_progress send result q ≡ (none, s)
      → (f : F) × (s.0 ≡ some f) × (q ≡ (inr f, s.1))
  sent-inr result (inl e, y) s eq = cc
  sent-inr result (inr f, y) s eq = (f, ap (λ x. x.1.0) (sym eq), ap (λ x. (inr f, x.1.1)) eq)

  sent-Started :
      (result : Option F) (q : (Error ⊎ F) × ((ReaderState × V) × T))
      → Started q.1.0
      → Started (sent ctx is_eof r size on_progress send result q).1.1.0
  sent-Started result (inl e, s) h = h
  sent-Started result (inr f, s) h = h

  -- After an attempt, failed or not, the reader counts as started.
  attempt_with-Started :
      (result : Option F) (t : T) (q : Option Error × (ReaderState × V))
      → Started q.1
      → Started (attempt_with ctx is_eof r size on_progress send result t q).1.1.0
  unfolding attempt_with body
  attempt_with-Started result t (some e, s) h = h
  attempt_with-Started result t (none, s) h =
      sent-Started result (send body (s, t))
        (uses Started body (read_progress-Started r ctx is_eof size on_progress) s t h)

  attempt_with-inr :
      (result : Option F) (t : T) (q : Option Error × (ReaderState × V)) (s : Uploading V T F)
      → attempt_with ctx is_eof r size on_progress send result t q ≡ (none, s)
      → (f : F) × (q.0 ≡ none) × (s.0 ≡ some f) × (send body (q.1, t) ≡ (inr f, s.1))
  unfolding attempt_with body
  attempt_with-inr result t (some e, x) s eq = cc
  attempt_with-inr result t (none, x) s eq =
      let (f, h, g) = sent-inr result (send body (x, t)) s eq in (f, refl, h, g)

  attempt-Ready :
      (x : Uploading V T F)
      → r.seek ≢ none
      → ReadyAt (upload_attempt ctx is_eof r size on_progress send x).1
  unfolding upload_attempt reset_reader
  attempt-Ready (result, (s, t)) seeks = inr (
    attempt_with-Started result t (reset_reader r s)
        (rewind-Started r s.0.started r.seek s.0 s.1 refl),
    seeks,
  )

  seeks : 2 ≤ attempts (reader_policy r) → r.seek ≢ none
  unfolding attempts
  seeks le q = elim (two_of_one (rw q at le)) [ ]

  uploaded-ok :
      (q : Option Error × Uploading V T F) (result : Option F) (v : V) (t : T)
      → uploaded ctx is_eof r size on_progress send q ≡ (ok result, (v, t))
      → (pr : ReaderState) × (q ≡ (none, (result, ((pr, v), t))))
  uploaded-ok (some e, (result0, ((pr, v0), t0))) result v t eq = cc
  uploaded-ok (none, (result0, ((pr, v0), t0))) result v t eq =
      (pr, λ i. (none, (ok-injective (ap (λ x. x.0) eq) i, ((pr, (eq i).1.0), (eq i).1.1))))

  at_start :
      (f : F) (x : ReaderState × V) (t : T) (s : (ReaderState × V) × T)
      → (x.0 ≡ cleared r) × AtStart x.1
      → send body (x, t) ≡ (inr f, s)
      → SentFromStart ctx is_eof r size on_progress send AtStart f s
  unfolding body SentFromStart
  at_start f x t s (c, start) eq = (x.1, t, start, ap (λ pr. send body ((pr, x.1), t)) (sym c) ∙ eq)

  success-SentFromStart :
      (s : Uploading V T F)
      → Succeeds (upload_env ctx is_eof r size on_progress send) ReadyAt s
      → (f : F) × (s.0 ≡ some f) × SentFromStart ctx is_eof r size on_progress send AtStart f s.1
  unfolding upload_attempt reset_reader upload_env
  success-SentFromStart s ((result, (x, t)), ready, eq) =
      let (f, c, h, g) = attempt_with-inr result t (reset_reader r x) s eq in
      (
        f,
        h,
        at_start f (reset_reader r x).1 t s.1
            (reset_reader-cleared r AtStart rewinds x _ ready (λ i. (c i, (reset_reader r x).1))) g,
      )

  run-SentFromStart :
      (v : V) (t : T) (s : Uploading V T F)
      → CancelsWithError ctx
      → AtStart v
      → run
          (upload_env ctx is_eof r size on_progress send)
          (reader_policy r)
          (none, ((new_reader_state, v), t))
        ≡ (none, s)
      → (f : F) × (s.0 ≡ some f) × SentFromStart ctx is_eof r size on_progress send AtStart f s.1
  unfolding upload_env
  run-SentFromStart v t s cancels start eq = success-SentFromStart s (
      run-Succeeds (upload_env ctx is_eof r size on_progress send) (reader_policy r) ReadyAt
        (λ d w. cancels d w.1.1)
        (λ le d e w w' h c. subst (λ w. ReadyAt w) (ap (λ q. q.1) c) (attempt-Ready w (seeks le)))
        (none, ((new_reader_state, v), t)) s (inl (refl, start)) eq)

  upload_with_retry-SentFromStart :
      (v v' : V) (t t' : T) (result : Option F)
      → CancelsWithError ctx
      → AtStart v
      → upload_with_retry ctx is_eof r size on_progress send (v, t) ≡ (ok result, (v', t'))
      → (f : F) × (pr : ReaderState) × (result ≡ some f)
        × SentFromStart ctx is_eof r size on_progress send AtStart f ((pr, v'), t')
  unfolding upload_with_retry
  upload_with_retry-SentFromStart v v' t t' result cancels start eq =
      let (pr, q) = uploaded-ok _ result v' t' eq in
      let (f, h, g) = run-SentFromStart v t (result, ((pr, v'), t')) cancels start q in
      (f, pr, h, g)

-- An UploadBytes that returns no error returns a file, and the uploader made it in a call that got the
-- reader at its start and the count at 0, and that left the state in which UploadBytes returns: if the
-- reader is at its start at first and Seek leads there, the uploader uses the progress reader by
-- its Read only, and a context that is done has an error.
pub upload_bytes-SentFromStart :
    {V T F : Type 0} (ctx : Context T) (is_eof : Error → Bool)
    (upload : Api (V × T) → Bytes → ℤ → Send V T F) (api : Api (V × T)) (name : Bytes)
    (r : Reader V) (size : ℤ) (on_progress : OnProgress V) (AtStart : V → Type 0) (v v' : V)
    (t t' : T) (result : Option F)
    → Rewinds r AtStart
    → UsesBody (upload api name size)
    → CancelsWithError ctx
    → AtStart v
    → upload_bytes ctx is_eof upload (some api) name (some r) size on_progress (v, t)
      ≡ (ok result, (v', t'))
    → (f : F) × (pr : ReaderState) × (result ≡ some f)
      × SentFromStart ctx is_eof r size on_progress (upload api name size) AtStart f ((pr, v'), t')
unfolding upload_bytes
upload_bytes-SentFromStart ctx is_eof upload api name r size on_progress AtStart v v' t t' result
      rewinds uses cancels start eq =
    elim (Bool-cases (ltb_ℤ size (pos 0))) [
      | inl n ↦ let failed = rw n at eq in cc
      | inr n ↦
          upload_with_retry-SentFromStart ctx is_eof r size on_progress (upload api name size)
            AtStart rewinds uses v v' t t' result cancels start (rw n at eq)
    ]
