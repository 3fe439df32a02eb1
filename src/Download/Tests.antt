-- ===== src/Download/Tests.antt =====
-- A download of three bytes, and the theorem there.
use telecollection.Prelude.{
  ℕ, ◌≡◌, refl, arith, ℤ, pos, Bytes, codes, true, none, some, [], ◌∷◌, ◌++◌, length, length-append,
  new, ok, err,
}
use telecollection.Telegram.{
  Api, modified, message, other_message, media_document, document, Document,
}
use telecollection.Examples.{docs, quiet}
use telecollection.Transfer.{Context, Write}
use telecollection.Transfer.Download.{Stream}
use telecollection.Download.{file}
use telecollection.Download.Integrity.{Downloaded, file-Downloaded}

abbrev live : Context ℕ
live = record { ctx_err = λ n. none; await = λ d n. (true, n); as_flood_wait = λ e. none }

abbrev three_bytes : Document
three_bytes = record { size = pos 3; mime_type = codes "text/plain" }

-- A channel with one document, of message 9.
abbrev client : Api (Bytes × ℕ)
client = record quiet {
  channels_get_messages = λ c ids s. (
    ok (
        modified (
          other_message
          ∷ message
              (record { id = pos 9; media = some (media_document (some (document three_bytes))) })
          ∷ [])),
    s,
  );
}

abbrev append : Write Bytes
append p s = ((pos (length p), none), s ++ p)

-- A downloader that writes the text and ends.
abbrev download : Bytes → Stream (ℤ × Bytes) ℕ
download text body x = let (q, y) = body text x in (none, y)

file_run :
    file live
      (λ d. d)
      (λ api d. download (codes "abc"))
      (some client)
      docs
      (pos 9)
      (some append)
      none
      ([], 0)
    ≡ (ok tt, (codes "abc", 0))
unfolding file
file_run = refl

-- Two bytes are not the document.
file_short :
    file live
      (λ d. d)
      (λ api d. download (codes "ab"))
      (some client)
      docs
      (pos 9)
      (some append)
      none
      ([], 0)
    ≡ (err (new "download: integrity check failed"), (codes "ab", 0))
unfolding file
file_short = refl

file-Downloaded_example : Downloaded length client docs (pos 9) ([], 0) (codes "abc", 0)
unfolding file
file-Downloaded_example =
    file-Downloaded length live (λ d. d) (λ api d. download (codes "abc")) client docs (pos 9)
      append none [] (codes "abc") 0 0 (λ p v. (length p, refl, length-append v p)) tt
      (λ doc P body kept x t h. kept (codes "abc") x t h) (λ d t h. cc) (omega arith) refl
