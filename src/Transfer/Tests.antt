-- ===== src/Transfer/Tests.antt =====
-- Transfers of three bytes whose first attempt fails, and the theorems there.
use mathlib.Core.Path.{subst}
use telecollection.Prelude.{
  ℕ, zero, suc, ◌≡◌, refl, ℤ, pos, Bytes, codes, Bool, true, Option, none, some, ◌⊎◌, inl, inr,
  List, [], ◌∷◌, ◌++◌, length, Error, new, wrap, err, ok,
}
use telecollection.Examples.{quiet}
use telecollection.Transfer.{Progress, Context, Reader, ReaderState, Send, Write, upload_bytes}
use telecollection.Transfer.Uploads.{SentFromStart, upload_bytes-SentFromStart}
use telecollection.Transfer.Download.{Stream, download_to}

-- The caller's side: how far the reader is, or what was written, and the reports.
abbrev Side : Type 0
Side = Bytes × List Progress

abbrev text : Bytes
text = codes "abc"

abbrev eof : Error
eof = new "EOF"

-- A reader of what is left of the text, which hands it out at once.
abbrev text_reader : Reader Side
text_reader = record {
  read_some = λ n (left, reports). ((left, some eof), ([], reports));
  seek = some (λ (left, reports). (none, (text, reports)));
}

abbrev keep_report : Progress → Side → Side
keep_report p (s, reports) = (s, p ∷ reports)

-- Telegram counts the attempts.
abbrev live : Context ℕ
live = record { ctx_err = λ n. none; await = λ d n. (true, n); as_flood_wait = λ e. none }

abbrev any_eof : Error → Bool
any_eof e = true

abbrev second_time : ℕ → Bytes → Error ⊎ Bytes
second_time zero p = inl (new "connection lost")
second_time (suc n) p = inr p

-- An uploader that reads once, and fails the first time.
abbrev upload_twice : Send Side ℕ Bytes
upload_twice body (x, t) = let (q, (x', t')) = body 8 (x, t) in (second_time t q.0, (x', suc t'))

abbrev report : ℤ → Progress
report n = record { done = n; total = pos 3 }

upload_twice_run :
    upload_bytes live any_eof
      (λ api name size. upload_twice)
      (some quiet)
      (codes "t")
      (some text_reader)
      (pos 3)
      (some keep_report)
      ((text, []), 0)
    ≡ (
      ok (some text),
      (([], report (pos 3) ∷ report (pos 3) ∷ report (pos 3) ∷ report (pos 3) ∷ []), 2),
    )
unfolding upload_bytes
upload_twice_run = refl

-- A reader that cannot seek is sent once.
upload_once_run :
    upload_bytes live any_eof
      (λ api name size. upload_twice)
      (some quiet)
      (codes "t")
      (some (record text_reader { seek = none }))
      (pos 3)
      none
      ((text, []), 0)
    ≡ (err (wrap "transfer: uploading" (new "connection lost")), (([], []), 1))
unfolding upload_bytes
upload_once_run = refl

abbrev seek_by : Option (Side → Option Error × Side) → Side → Option Error × Side
seek_by none v = (none, v)
seek_by (some seek) v = seek v

upload_bytes-SentFromStart_example :
    (f : Bytes) × (pr : ReaderState) × (some text ≡ some f)
    × SentFromStart live any_eof text_reader
        (pos 3)
        (some keep_report)
        upload_twice
        (λ v. v.0 ≡ text)
        f
        ((pr, ([], report (pos 3) ∷ report (pos 3) ∷ report (pos 3) ∷ report (pos 3) ∷ [])), 2)
unfolding upload_bytes
upload_bytes-SentFromStart_example =
    upload_bytes-SentFromStart live any_eof (λ api name size. upload_twice) quiet (codes "t")
      text_reader (pos 3) (some keep_report) (λ v. v.0 ≡ text) (text, [])
      ([], report (pos 3) ∷ report (pos 3) ∷ report (pos 3) ∷ report (pos 3) ∷ []) 0 2 (some text)
      (λ seek v e h. subst (λ o. (seek_by o v).1.0 ≡ text) e refl)
      (λ P body kept x t h. kept 8 x t h) (λ d t h. cc) refl refl

-- A writer that keeps what it is given.
abbrev append : Write Side
append p (s, reports) = ((pos (length p), none), (s ++ p, reports))

abbrev taken : Side → ℕ
taken v = length v.0

abbrev fail_first : ℕ → Option Error
fail_first zero = some (new "connection lost")
fail_first (suc n) = none

abbrev first_part : ℕ → Bytes
first_part zero = codes "ab"
first_part (suc n) = text

-- A downloader that loses the connection after two bytes, and then writes all three.
abbrev download_twice : Stream Side ℕ
download_twice body (x, t) =
    let (q, (x', t')) = body (first_part t) (x, t) in (fail_first t, (x', suc t'))

download_twice_run :
    download_to live
      (λ (api loc : Unit {0}). download_twice)
      (some tt)
      (some tt)
      (pos 3)
      (some append)
      (some keep_report)
      (([], []), 0)
    ≡ (ok tt, ((codes "ababc", report (pos 3) ∷ report (pos 3) ∷ report (pos 2) ∷ []), 2))
unfolding download_to
download_twice_run = refl
