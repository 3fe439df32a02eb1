-- ===== src/Transfer/Download.antt =====
-- DownloadTo and progressWriter of internal/transfer/transfer.go.
pub mod Reports
pub mod Sinks
use telecollection.Prelude.{
  ℤ, pos, ltb_ℤ, add64, Bool, true, false, if◌then◌else◌, Option, none, some, Result, ok, err,
  Error, new, wrap, Action, raise, refuse_if, ◌>>◌,
}
use telecollection.Retry.{Env, run}
use telecollection.Transfer.{Context, OnProgress, Write, emit_progress, transfer_policy}

-- The fields of progressWriter that change.
pub record WriterState : Type 0 where
  pub done : ℤ
  pub final_sent : Bool

abbrev pub new_writer_state : WriterState
new_writer_state = record { done = pos 0; final_sent = false }

module _ {V : Type 0} (total : ℤ) (on_progress : OnProgress V) where
  abbrev pub report_write : Bool → WriterState × V → WriterState × V
  unfolding emit_progress
  report_write final (pw, v) =
      let (sent, v') = emit_progress on_progress pw.done total final pw.final_sent v in
      (record pw { final_sent = sent }, v')

  abbrev pub count_write : ℤ → WriterState × V → WriterState × V
  unfolding emit_progress add64
  count_write n (pw, v) =
      if ltb_ℤ (pos 0) n
      then report_write false (record pw { done = add64 pw.done n }, v)
      else (pw, v)

  -- (*progressWriter).Write
  unfoldable pub write_progress : {T : Type 0} → Context T → Write V → Write ((WriterState × V) × T)
  unfolding emit_progress add64
  write_progress ctx write p ((pw, v), t) = elim (ctx.ctx_err t) [
    | some e ↦ ((pos 0, some e), ((pw, v), t))
    | none ↦ let ((n, e), v') = write p v in ((n, e), (count_write n (pw, v'), t))
  ]

  -- (*progressWriter).finish
  unfoldable pub finish : WriterState × V → WriterState × V
  unfolding emit_progress
  finish = report_write true

-- gotd's downloader: it writes a file into a writer.
abbrev pub Stream : (V T : Type 0) → Type 0
Stream V T =
    Write ((WriterState × V) × T) → (WriterState × V) × T → Option Error × ((WriterState × V) × T)

module _ {V T : Type 0} (ctx : Context T) (size : ℤ) (write : Write V) (on_progress : OnProgress V)
    (stream : Stream V T) where
  -- The closure of DownloadTo that is tried again, with (*progressWriter).reset.
  unfoldable pub download_attempt : (WriterState × V) × T → Option Error × ((WriterState × V) × T)
  unfolding write_progress
  download_attempt ((pw, v), t) =
      stream (write_progress size on_progress ctx write) ((new_writer_state, v), t)

  abbrev pub download_env : Env ((WriterState × V) × T)
  unfolding download_attempt
  download_env = record {
    ctx_err = λ s. ctx.ctx_err s.1;
    call = download_attempt;
    await = λ d s. let (fired, t) = ctx.await d s.1 in (fired, (s.0, t));
    as_flood_wait = ctx.as_flood_wait;
  }

  abbrev pub downloaded : Option Error × ((WriterState × V) × T) → Result (Unit {0}) × (V × T)
  unfolding finish
  downloaded (some e, ((pw, v), t)) = (err (wrap "transfer: downloading" e), (v, t))
  downloaded (none, (s, t)) = (ok tt, ((finish size on_progress s).1, t))

  abbrev pub download_with_retry : Action (V × T) (Unit {0})
  unfolding run download_attempt finish
  download_with_retry (v, t) =
      downloaded (run download_env transfer_policy ((new_writer_state, v), t))

module _ {V T A L : Type 0} (ctx : Context T) (stream : A → L → Stream V T) where
  -- DownloadTo, with a client `A`; a nil client, location or writer is `none`.
  unfoldable pub download_to :
      Option A → Option L → ℤ → Option (Write V) → OnProgress V → Action (V × T) (Unit {0})
  unfolding run download_attempt finish
  download_to none loc size w on_progress = raise (new "transfer: api client is required")
  download_to (some api) none size w on_progress = raise (new "transfer: file location is required")
  download_to (some api) (some loc) size none on_progress =
      raise (new "transfer: writer is required")
  download_to (some api) (some loc) size (some write) on_progress = do
    refuse_if (ltb_ℤ size (pos 0)) (new "transfer: size must be non-negative")
    download_with_retry ctx size write on_progress (stream api loc)
