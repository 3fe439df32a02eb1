-- ===== src/Transfer/Download/Sinks.antt =====
-- What every write and every report keeps, a download keeps.
use mathlib.Core.Path.{subst}
use telecollection.Prelude.{
  ◌≡◌, ℤ, pos, ltb_ℤ, Bytes, Bool, true, false, none, some, ok, Option-cases, Bool-cases, inl, inr,
}
use telecollection.Retry.{run}
use telecollection.Retry.Success.{run-Succeeds}
use telecollection.Transfer.{Progress, Context, OnProgress, Write, emit_progress, transfer_policy}
use telecollection.Transfer.Rewinding.{CancelsWithError}
use telecollection.Transfer.Download.{
  WriterState, new_writer_state, report_write, count_write, write_progress, finish, Stream,
  download_attempt, download_env, download_with_retry, download_to,
}
use telecollection.Transfer.Download.Reports.{UsesWrite, downloaded-ok}

abbrev pub KeptByWrite : {V : Type 0} → Write V → (V → Type 0) → Type 0
KeptByWrite {V} write P = (p : Bytes) (v : V) → P v → P (write p v).1

abbrev pub KeptByReports : {V : Type 0} → OnProgress V → (V → Type 0) → Type 0
KeptByReports none P = Unit
KeptByReports {V} (some f) P = (p : Progress) (v : V) → P v → P (f p v)

module _ {V : Type 0} (P : V → Type 0) where
  report_write-keeps :
      (size : ℤ) (on_progress : OnProgress V) (final : Bool) (x : WriterState × V)
      → KeptByReports on_progress P
      → P x.1
      → P (report_write size on_progress final x).1
  unfolding report_write emit_progress
  report_write-keeps size none final (pw, v) kept h = h
  report_write-keeps size (some f) false (pw, v) kept h = kept _ v h
  report_write-keeps size (some f) true (pw, v) kept h = elim (Bool-cases pw.final_sent) [
    | inl s ↦ rw s h
    | inr s ↦ rw s (kept _ v h)
  ]

  module _ {T : Type 0} (ctx : Context T) (size : ℤ) (write : Write V) (on_progress : OnProgress V)
      (writes : KeptByWrite write P) (reports : KeptByReports on_progress P) where
    count_write-keeps :
        (n : ℤ) (x : WriterState × V) → P x.1 → P (count_write size on_progress n x).1
    unfolding count_write
    count_write-keeps n (pw, v) h = elim (Bool-cases (ltb_ℤ (pos 0) n)) [
      | inl l ↦
          rw (l, count_write)
            (report_write-keeps size on_progress false (record pw { done = _ }, v) reports h)
      | inr l ↦ rw (l, count_write) h
    ]

    write_progress-keeps :
        (p : Bytes) (x : WriterState × V) (t : T)
        → P x.1
        → P (write_progress size on_progress ctx write p (x, t)).1.0.1
    unfolding write_progress
    write_progress-keeps p (pw, v) t h = elim (Option-cases (ctx.ctx_err t)) [
      | inl c ↦
          rw (c, write_progress)
            (count_write-keeps (write p v).0.0 (pw, (write p v).1) (writes p v h))
      | inr (e, c) ↦ rw (c, write_progress) h
    ]

    module _ (stream : Stream V T) (uses : UsesWrite stream) (cancels : CancelsWithError ctx) where
      download_attempt-keeps :
          (x : WriterState × V) (t : T)
          → P x.1
          → P (download_attempt ctx size write on_progress stream (x, t)).1.0.1
      unfolding download_attempt
      download_attempt-keeps (pw, v) t h =
          uses (λ x. P x.1) (write_progress size on_progress ctx write) write_progress-keeps
            (new_writer_state, v) t h

      run-keeps :
          (s s' : (WriterState × V) × T)
          → P s.0.1
          → run (download_env ctx size write on_progress stream) transfer_policy s ≡ (none, s')
          → P s'.0.1
      unfolding download_env
      run-keeps s s' h eq =
          let ((x, t), p, c) =
            run-Succeeds (download_env ctx size write on_progress stream) transfer_policy
              (λ s. P s.0.1) (λ d s. cancels d s.1)
              (λ le d e s s' p c. subst (λ q. P q.1.0.1) c (download_attempt-keeps s.0 s.1 p)) s s'
              h eq in
          subst (λ q. P q.1.0.1) c (download_attempt-keeps x t p)

      download_with_retry-keeps :
          (v v' : V) (t t' : T)
          → P v
          → download_with_retry ctx size write on_progress stream (v, t) ≡ (ok tt, (v', t'))
          → P v'
      unfolding download_with_retry finish
      download_with_retry-keeps v v' t t' h eq =
          let (x, q, z) = downloaded-ok ctx size write on_progress stream _ v' t' eq in
          subst P z (report_write-keeps size on_progress true x reports (run-keeps _ (x, t') h q))

-- A DownloadTo that returns no error keeps what every write and every report keeps.
pub download_to-keeps :
    {V T A L : Type 0} (P : V → Type 0) (ctx : Context T) (stream : A → L → Stream V T) (api : A)
    (loc : L) (size : ℤ) (write : Write V) (on_progress : OnProgress V) (v v' : V) (t t' : T)
    → KeptByWrite write P
    → KeptByReports on_progress P
    → UsesWrite (stream api loc)
    → CancelsWithError ctx
    → P v
    → download_to ctx stream (some api) (some loc) size (some write) on_progress (v, t)
      ≡ (ok tt, (v', t'))
    → P v'
unfolding download_to
download_to-keeps P ctx stream api loc size write on_progress v v' t t' writes reports uses cancels
      h eq =
    elim (Bool-cases (ltb_ℤ size (pos 0))) [
      | inl n ↦ let failed = rw n at eq in cc
      | inr n ↦
          download_with_retry-keeps P ctx size write on_progress writes reports (stream api loc)
            uses cancels v v' t t' h (rw n at eq)
    ]
