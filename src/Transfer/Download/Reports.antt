-- ===== src/Transfer/Download/Reports.antt =====
-- What a download has written, and reported, when it succeeds.
use mathlib.Core.Path.{subst}
use telecollection.Prelude.{
  ℕ, zero, suc, ◌+◌, ◌≡◌, refl, sym, ap, ◌∙◌, arith, ℤ, pos, leb_ℤ, ltb_ℤ, wrap64, add64, Bytes,
  true, false, Option, none, some, ok, Error, Option-cases, inl, inr,
}
use telecollection.Retry.{run}
use telecollection.Retry.Success.{run-Succeeds}
use telecollection.Transfer.{Progress, Context, OnProgress, Write, emit_progress, transfer_policy}
use telecollection.Transfer.Rewinding.{CancelsWithError}
use telecollection.Transfer.Download.{
  WriterState, new_writer_state, report_write, count_write, write_progress, finish, Stream,
  download_attempt, download_env, downloaded,
}

-- A writer that returns the number of bytes it took.
abbrev pub TakesWhatItSays : {V : Type 0} → Write V → (V → ℕ) → Type 0
TakesWhatItSays {V} write taken =
    (p : Bytes) (v : V) → (k : ℕ) × ((write p v).0.0 ≡ pos k) × (taken (write p v).1 ≡ taken v + k)

-- The downloader reaches the fields of the progressWriter, which are private, and the writer by Write only.
abbrev pub UsesWrite : {V T : Type 0} → Stream V T → Type 1
UsesWrite {V} {T} stream =
    (P : WriterState × V → Type 0) (body : Write ((WriterState × V) × T))
    → ((p : Bytes) (x : WriterState × V) (t : T) → P x → P (body p (x, t)).1.0)
    → (x : WriterState × V) (t : T) → P x
    → P (stream body (x, t)).1.0

-- A callback that writes nothing to the writer.
abbrev pub TakesNothing : {V : Type 0} → OnProgress V → (V → ℕ) → Type 0
TakesNothing none taken = Unit
TakesNothing {V} (some f) taken = (p : Progress) (v : V) → taken (f p v) ≡ taken v

-- Counting on an int64 that may have wrapped around.
pub add64-wrap64 : (k m : ℕ) → add64 (wrap64 (pos k)) (pos m) ≡ wrap64 (pos (k + m))
unfolding add64 wrap64
add64-wrap64 k m = ground arith

positive : (m : ℕ) → ltb_ℤ (pos 0) (pos (suc m)) ≡ true
positive m = ground arith

module _ {V : Type 0} (taken : V → ℕ) where
  -- The writer has taken `k` bytes since `v0`, which the progressWriter counted, and the final report
  -- is not sent.
  abbrev pub Counted : V → WriterState × V → Type 0
  Counted v0 (pw, v) =
      (pw.final_sent ≡ false) × (k : ℕ) × (pw.done ≡ wrap64 (pos k)) × (taken v ≡ taken v0 + k)

  report_write-Counted :
      (size : ℤ) (on_progress : OnProgress V) (v0 : V) (x : WriterState × V)
      → TakesNothing on_progress taken
      → Counted v0 x
      → Counted v0 (report_write size on_progress false x)
  unfolding report_write emit_progress wrap64
  report_write-Counted size none v0 (pw, v) quiet h = h
  report_write-Counted size (some f) v0 (pw, v) quiet (sent, k, d, t) =
      (sent, k, d, quiet (record { done = pw.done; total = size }) v ∙ t)

  count_write-Counted :
      (size : ℤ) (on_progress : OnProgress V) (v0 : V) (pw : WriterState) (v v' : V) (m : ℕ)
      → TakesNothing on_progress taken
      → taken v' ≡ taken v + m
      → Counted v0 (pw, v)
      → Counted v0 (count_write size on_progress (pos m) (pw, v'))
  unfolding count_write wrap64
  count_write-Counted size on_progress v0 pw v v' zero quiet e (sent, k, d, t) =
      (sent, k, d, omega (arith, e, t))
  count_write-Counted size on_progress v0 pw v v' (suc m) quiet e (sent, k, d, t) =
      rw (positive m, count_write)
        (report_write-Counted size on_progress v0
          (record pw { done = add64 pw.done (pos (suc m)) }, v') quiet
          (
            sent,
            k + suc m,
            ap (λ z. add64 z (pos (suc m))) d ∙ add64-wrap64 k (suc m),
            omega (arith, e, t),
          ))

  module _ {T : Type 0} (ctx : Context T) (size : ℤ) (write : Write V) (on_progress : OnProgress V)
      (takes : TakesWhatItSays write taken) (quiet : TakesNothing on_progress taken) where
    write_progress-Counted :
        (v0 : V) (p : Bytes) (x : WriterState × V) (t : T)
        → Counted v0 x
        → Counted v0 (write_progress size on_progress ctx write p (x, t)).1.0
    unfolding write_progress
    write_progress-Counted v0 p (pw, v) t h = elim (Option-cases (ctx.ctx_err t)) [
      | inl c ↦
          rw (c, write_progress)
            (let (m, n, e) = takes p v in
              subst (λ n. Counted v0 (count_write size on_progress n (pw, (write p v).1))) (sym n)
                (count_write-Counted size on_progress v0 pw v (write p v).1 m quiet e h))
      | inr (e, c) ↦ rw (c, write_progress) h
    ]

    module _ (stream : Stream V T) (uses : UsesWrite stream) where
      -- Each attempt counts from where it began.
      pub download_attempt-Counted :
          (x : WriterState × V) (t : T)
          → Counted x.1 (download_attempt ctx size write on_progress stream (x, t)).1.0
      unfolding download_attempt wrap64
      download_attempt-Counted (pw, v) t =
          uses (Counted v) (write_progress size on_progress ctx write) (write_progress-Counted v)
            (new_writer_state, v) t (refl, 0, ground arith, omega arith)

      -- The attempt that ends a run, and its count.
      pub run-Counted :
          (x x' : WriterState × V) (t t' : T)
          → CancelsWithError ctx
          → run (download_env ctx size write on_progress stream) transfer_policy (x, t)
            ≡ (none, (x', t'))
          → (v0 : V) × (t0 : T) × Counted v0 x'
            × (stream (write_progress size on_progress ctx write) ((new_writer_state, v0), t0)
                ≡ (none, (x', t')))
      unfolding download_env download_attempt
      run-Counted x x' t t' cancels eq =
          let ((y, u), _, c) =
            run-Succeeds (download_env ctx size write on_progress stream) transfer_policy
              (λ _. Unit {0}) (λ d s. cancels d s.1) (λ le d e s s' p c. tt) (x, t) (x', t') tt
              eq in
          (y.1, u, subst (λ s. Counted y.1 s.1.0) c (download_attempt-Counted y u), c)

pub downloaded-ok :
    {V T : Type 0} (ctx : Context T) (size : ℤ) (write : Write V) (on_progress : OnProgress V)
    (stream : Stream V T) (q : Option Error × ((WriterState × V) × T)) (v' : V) (t' : T)
    → downloaded ctx size write on_progress stream q ≡ (ok tt, (v', t'))
    → (x : WriterState × V) × (q ≡ (none, (x, t'))) × ((finish size on_progress x).1 ≡ v')
unfolding downloaded
downloaded-ok ctx size write on_progress stream (some e, (x, t)) v' t' eq = cc
downloaded-ok ctx size write on_progress stream (none, (x, t)) v' t' eq =
    (x, ap (λ z. (none, (x, z.1.1))) eq, ap (λ z. z.1.0) eq)

-- The last report of a download: at least the total, and the total itself if no more was counted.
abbrev pub IsFinal : (counted total : ℤ) → Progress → Type 0
IsFinal counted total p =
    (p.total ≡ total) × (leb_ℤ total p.done ≡ true) × (leb_ℤ counted total ≡ true → p.done ≡ total)

module _ {V T : Type 0} (taken : V → ℕ) (ctx : Context T) (size : ℤ) (write : Write V)
    (f : Progress → V → V) (stream : Stream V T) where
  -- A stream of `k` bytes that ended without an error, and the report behind it.
  abbrev pub StreamedAndReported : V × T → Type 0
  unfolding write_progress wrap64
  StreamedAndReported (v', t') =
      (v0 v1 : V) × (t0 : T) × (pw : WriterState) × (k : ℕ) × (p : Progress) × (stream
          (write_progress size (some f) ctx write) ((new_writer_state, v0), t0)
        ≡ (none, ((pw, v1), t')))
      × (taken v1 ≡ taken v0 + k)
      × IsFinal (wrap64 (pos k)) size p
      × (v' ≡ f p v1)
