-- ===== src/Transfer.antt =====
-- internal/transfer/transfer.go: uploads and downloads that report their progress and are tried again
-- as a whole. The state has the caller's side, `V` (the reader or the writer, and what the callback
-- changes), and Telegram's, `T` (gotd's client, the clock and the context).
pub mod Rewinding
pub mod Uploads
pub mod Download
mod Tests
use telecollection.Prelude.{
  ℕ, ℤ, pos, ltb_ℤ, leb_ℤ, add64, length, Bytes, Bool, true, false, ◌&&◌, if◌then◌else◌, Option,
  none, some, ◌⊎◌, inl, inr, List, [], ◌∷◌, Result, ok, err, Error, new, wrap, Action, raise,
  refuse_if, ◌>>◌,
}
use telecollection.Telegram.{Api}
use telecollection.Retry.{Policy, Env, run}

-- Progress
pub record Progress : Type 0 where
  pub done : ℤ
  pub total : ℤ

abbrev pub transfer_policy : Policy
transfer_policy = record {
  max_attempts = pos 3;
  base = pos 1000000000;
  max_delay = pos 30000000000;
}

-- The context, which is not nil, with the timer of a retry, as Retry.Env has them, and tgerr.AsFloodWait.
pub record Context (T : Type 0) : Type 0 where
  pub ctx_err : T → Option Error
  pub await : ℤ → T → Bool × T
  pub as_flood_wait : Error → Option ℤ

-- A callback may be nil.
abbrev pub OnProgress : Type 0 → Type 0
OnProgress V = Option (Progress → V → V)

abbrev pub clamp : (done total : ℤ) → ℤ
clamp done total = if leb_ℤ (pos 0) total && ltb_ℤ done total then total else done

-- emitProgress, with the value that it leaves in *finalSent.
unfoldable pub emit_progress :
    {V : Type 0} → OnProgress V → (done total : ℤ) (final final_sent : Bool) → V → Bool × V
emit_progress none done total final sent v = (sent, v)
emit_progress (some f) done total false sent v = (sent, f (record { done = done; total = total }) v)
emit_progress (some f) done total true true v = (true, v)
emit_progress (some f) done total true false v =
    (true, f (record { done = clamp done total; total = total }) v)

-- io.Reader: the bytes read, for at most a number of them. Where it is an io.Seeker, `seek` is Seek(0,
-- io.SeekStart).
pub record Reader (V : Type 0) : Type 0 where
  pub read_some : ℕ → V → (Bytes × Option Error) × V
  pub seek : Option (V → Option Error × V)

-- io.Writer: how many bytes were accepted.
abbrev pub Write : Type 0 → Type 0
Write V = Bytes → V → (ℤ × Option Error) × V

-- The fields of progressReader that change.
pub record ReaderState : Type 0 where
  pub done : ℤ
  pub final_sent : Bool
  pub started : Bool

abbrev pub new_reader_state : ReaderState
new_reader_state = record { done = pos 0; final_sent = false; started = false }

module _ {V : Type 0} (r : Reader V) where
  -- The reader after a rewind that succeeded.
  abbrev pub cleared : ReaderState
  cleared = record { done = pos 0; final_sent = false; started = true }

  abbrev pub rewound : ReaderState → Option Error × V → Option Error × (ReaderState × V)
  rewound pr (some e, v) = (some (wrap "transfer: rewinding reader for retry" e), (pr, v))
  rewound pr (none, v) = (none, (cleared, v))

  abbrev pub rewind :
      Bool → Option (V → Option Error × V) → ReaderState × V → Option Error × (ReaderState × V)
  rewind true (some seek) (pr, v) = rewound pr (seek v)
  rewind true none (pr, v) = (none, (cleared, v))
  rewind false seek (pr, v) = (none, (cleared, v))

  -- (*progressReader).reset
  unfoldable pub reset_reader : ReaderState × V → Option Error × (ReaderState × V)
  reset_reader (pr, v) = rewind pr.started r.seek (pr, v)

  module _ {T : Type 0} (ctx : Context T) (is_eof : Error → Bool) (total : ℤ)
      (on_progress : OnProgress V) where
    abbrev report : Bool → ReaderState × V → ReaderState × V
    unfolding emit_progress
    report final (pr, v) =
        let (sent, v') = emit_progress on_progress pr.done total final pr.final_sent v in
        (record pr { final_sent = sent }, v')

    abbrev pub count_read : Bytes → ReaderState × V → ReaderState × V
    unfolding emit_progress add64
    count_read [] s = s
    count_read (b ∷ p) (pr, v) =
        report false (record pr { done = add64 pr.done (pos (length (b ∷ p))) }, v)

    abbrev pub end_read : Option Error → ReaderState × V → ReaderState × V
    unfolding emit_progress
    end_read none s = s
    end_read (some e) s = if is_eof e then report true s else s

    -- (*progressReader).Read, into a buffer of n bytes.
    unfoldable pub read_progress :
        ℕ → (ReaderState × V) × T → (Bytes × Option Error) × ((ReaderState × V) × T)
    unfolding emit_progress add64
    read_progress n ((pr, v), t) = elim (ctx.ctx_err t) [
      | some e ↦ (([], some e), ((pr, v), t))
      | none ↦
          let ((p, e), v') = r.read_some n v in ((p, e), (end_read e (count_read p (pr, v')), t))
    ]

-- What `do` of uploadWithRetry does with the reader it is given: it fails, or it returns the file.
abbrev pub Send : (V T F : Type 0) → Type 0
Send V T F =
    (ℕ → (ReaderState × V) × T → (Bytes × Option Error) × ((ReaderState × V) × T))
    → (ReaderState × V) × T
    → (Error ⊎ F) × ((ReaderState × V) × T)

-- The state of the loop: `result`, nil at first, beside the rest.
abbrev pub Uploading : (V T F : Type 0) → Type 0
Uploading V T F = Option F × ((ReaderState × V) × T)

abbrev pub reader_policy : {V : Type 0} → Reader V → Policy
reader_policy r = elim r.seek [
  | none ↦ record transfer_policy { max_attempts = pos 1 }
  | some seek ↦ transfer_policy
]

module _ {V T F : Type 0} (ctx : Context T) (is_eof : Error → Bool) (r : Reader V) (size : ℤ)
    (on_progress : OnProgress V) (send : Send V T F) where
  abbrev pub sent :
      Option F → (Error ⊎ F) × ((ReaderState × V) × T) → Option Error × Uploading V T F
  sent result (inl e, s) = (some e, (result, s))
  sent result (inr f, s) = (none, (some f, s))

  abbrev pub attempt_with :
      Option F → T → Option Error × (ReaderState × V) → Option Error × Uploading V T F
  unfolding read_progress
  attempt_with result t (some e, s) = (some e, (result, (s, t)))
  attempt_with result t (none, s) =
      sent result (send (read_progress r ctx is_eof size on_progress) (s, t))

  -- The closure that is tried again.
  unfoldable pub upload_attempt : Uploading V T F → Option Error × Uploading V T F
  unfolding reset_reader read_progress
  upload_attempt (result, (s, t)) = attempt_with result t (reset_reader r s)

  abbrev pub upload_env : Env (Uploading V T F)
  unfolding upload_attempt
  upload_env = record {
    ctx_err = λ s. ctx.ctx_err s.1.1;
    call = upload_attempt;
    await = λ d s. let (fired, t) = ctx.await d s.1.1 in (fired, (s.0, (s.1.0, t)));
    as_flood_wait = ctx.as_flood_wait;
  }

  abbrev pub uploaded : Option Error × Uploading V T F → Result (Option F) × (V × T)
  uploaded (some e, (result, ((pr, v), t))) = (err (wrap "transfer: uploading" e), (v, t))
  uploaded (none, (result, ((pr, v), t))) = (ok result, (v, t))

  -- uploadWithRetry
  unfoldable pub upload_with_retry : Action (V × T) (Option F)
  unfolding run upload_attempt
  upload_with_retry (v, t) =
      uploaded (run upload_env (reader_policy r) (none, ((new_reader_state, v), t)))

-- UploadBytes, over gotd's uploader; a nil client or reader is `none`.
unfoldable pub upload_bytes :
    {V T F : Type 0}
    → Context T
    → (is_eof : Error → Bool) → (upload : Api (V × T) → Bytes → ℤ → Send V T F)
    → Option (Api (V × T))
    → Bytes
    → Option (Reader V)
    → ℤ
    → OnProgress V
    → Action (V × T) (Option F)
unfolding upload_with_retry
upload_bytes ctx is_eof upload none name r size on_progress =
    raise (new "transfer: api client is required")
upload_bytes ctx is_eof upload (some api) name none size on_progress =
    raise (new "transfer: reader is required")
upload_bytes ctx is_eof upload (some api) name (some r) size on_progress = do
  refuse_if (ltb_ℤ size (pos 0)) (new "transfer: size must be non-negative")
  upload_with_retry ctx is_eof r size on_progress (upload api name size)
