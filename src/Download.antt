-- ===== src/Download.antt =====
-- internal/telegram/download/download.go: fetching a document through the transfer engine, with a
-- count of what was written.
pub mod Integrity
mod Tests
use mathlib.Core.Option
use telecollection.Prelude.{
  ℤ, pos, leb_ℤ, ◌==ℤ◌, add64, Bytes, Bool, not, Option, none, some, List, [], ◌∷◌, Result, ok, err,
  panicked, Error, new, Action, wrapping, refuse_if, lift, raise, pure, find, if◌then◌else◌, ◌>>=◌,
  ◌>>◌,
}
use telecollection.Telegram.{
  Api, MessageClass, message, other_message, Message, Media, media_document, other_media,
  DocumentClass, Document, document, document_empty, Messages, modified, not_modified,
}
use telecollection.Dialogs.{Folder}
use telecollection.Folders.{input_channel}
use telecollection.Transfer.{Progress, Context, OnProgress, Write}
use telecollection.Transfer.Download.{Stream, download_to}

-- The loop of documentFrom, which stops at the message with the id.
unfoldable pub find_message : ℤ → List MessageClass → Option Message
unfolding ◌==ℤ◌
find_message id [] = none
find_message id (other_message ∷ ms) = find_message id ms
find_message id (message m ∷ ms) =
    let rest = find_message id ms in if m.id ==ℤ id then some m else rest

abbrev pub document_of : Option Media → Result Document
document_of none = err (new "download: message has no media")
document_of (some other_media) = err (new "download: message media is not a document")
document_of (some (media_document none)) = err (new "download: message has no document")
document_of (some (media_document (some document_empty))) =
    err (new "download: message document is not a full document")
document_of (some (media_document (some (document d)))) = ok d

abbrev pub document_in : Option Message → Result Document
document_in none = err (new "download: message not found")
document_in (some m) = document_of m.media

-- documentFrom
unfoldable pub document_from : Messages → ℤ → Result Document
unfolding find_message
document_from not_modified id = err (new "download: unexpected messages reply")
document_from (modified ms) id = document_in (find_message id ms)

-- (*countingWriter).Write; the count stands beside the state of the writer.
unfoldable pub write_counting : {V : Type 0} → Write V → Write (ℤ × V)
unfolding add64
write_counting write p (n, v) = let ((k, e), v') = write p v in ((k, e), (add64 n k, v'))

-- The callback beside the count.
abbrev pub beside_count : {V : Type 0} → OnProgress V → OnProgress (ℤ × V)
beside_count none = none
beside_count (some f) = some (λ p s. (s.0, f p s.1))

abbrev pub count_of : ℤ → Result (Unit {0}) → Result ℤ
count_of n (ok tt) = ok n
count_of n (err e) = err e
count_of n panicked = panicked

-- A step with a new countingWriter, which returns its count.
abbrev pub counting : {V T : Type 0} → Action ((ℤ × V) × T) (Unit {0}) → Action (V × T) ℤ
counting m (v, t) = let (r, ((n, v'), t')) = m ((pos 0, v), t) in (count_of n r, (v', t'))

-- `location` is (*tg.Document).AsInputDocumentFileLocation with no thumbnail.
module _ {V T L : Type 0} (ctx : Context T) (location : Document → L)
    (stream : Api (V × T) → L → Stream (ℤ × V) T) where
  -- What File does with the writer.
  abbrev pub write_document : Api (V × T) → Document → Write V → OnProgress V → Action (V × T) ℤ
  unfolding download_to write_counting
  write_document api doc write on_progress = counting (
      download_to ctx stream (some api) (some (location doc)) doc.size (some (write_counting write))
        (beside_count on_progress))

  -- File; a nil client or writer is `none`.
  unfoldable pub file :
      Option (Api (V × T))
      → Folder
      → ℤ
      → Option (Write V)
      → OnProgress V
      → Action (V × T) (Unit {0})
  unfolding document_from write_document ◌==ℤ◌
  file none folder id w on_progress = raise (new "download: api client is required")
  file (some api) folder id none on_progress = raise (new "download: writer is required")
  file (some api) folder id (some write) on_progress = do
    refuse_if (leb_ℤ id (pos 0)) (new "download: message id must be positive")
    res ←
        wrapping "download: fetching message"
          (api.channels_get_messages (input_channel folder) (id ∷ []))
    doc ← lift (document_from res id)
    n ← wrapping "download: message" (write_document api doc write on_progress)
    refuse_if (not (n ==ℤ doc.size)) (new "download: integrity check failed")
