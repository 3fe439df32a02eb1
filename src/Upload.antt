-- ===== src/Upload.antt =====
-- internal/telegram/upload/upload.go: sending a document, and what is read off the reply.
pub mod Metadata
mod Tests
use telecollection.Prelude.{
  ℤ, pos, ltb_ℤ, Bytes, codes, is_empty, Bool, true, if◌then◌else◌, Option, none, some, List, [],
  ◌∷◌, Result, ok, err, lift, refuse_if, new, Action, wrapping, raise, pure, ◌>>=◌, ◌>>◌,
}
use telecollection.Telegram.{
  Api, InputChannel, Update, with_message, other_update, message, other_message, Media,
  media_document, other_media, document, document_empty, Updates, nil_updates, no_lists, updates,
}
use telecollection.Store.{File, zero_time}
use telecollection.Dialogs.{Folder}
use telecollection.Folders.{input_channel}

abbrev default_mime : Bytes
default_mime = codes "application/octet-stream"

-- sentDocument
pub record SentDocument : Type 0 where
  pub message_id : ℤ
  pub size : ℤ
  pub mime : Bytes

abbrev media_sent : ℤ → Option Media → Option SentDocument
media_sent id none = none
media_sent id (some other_media) = none
media_sent id (some (media_document none)) = none
media_sent id (some (media_document (some document_empty))) = none
media_sent id (some (media_document (some (document d)))) =
    some (record { message_id = id; size = d.size; mime = d.mime_type })

-- The document that one round of the loop finds.
abbrev pub update_sent : Update → Option SentDocument
update_sent other_update = none
update_sent (with_message other_message) = none
update_sent (with_message (message m)) = media_sent m.id m.media

abbrev pub or_else {ℓ} : {A : Type ℓ} → Option A → Result A → Result A
or_else none r = r
or_else (some a) r = ok a

first_sent : List Update → Result SentDocument
first_sent [] = err (new "upload: sent document not found in updates")
first_sent (u ∷ us) = or_else (update_sent u) (first_sent us)

-- parseSentDocument
unfoldable pub parse_sent_document : Updates → Result SentDocument
unfolding first_sent
parse_sent_document nil_updates = err (new "upload: nil updates from send")
parse_sent_document no_lists = err (new "upload: unexpected updates type without update list")
parse_sent_document (updates us chats) = first_sent us

-- orDefaultMIME
abbrev pub or_default_mime : Bytes → Bytes
or_default_mime mime = if is_empty mime then default_mime else mime

-- preferServerMIME
abbrev pub prefer_server_mime : Bytes → Bytes → Bytes
prefer_server_mime from_server fallback = if is_empty from_server then fallback else from_server

-- preferServer
abbrev pub prefer_server : ℤ → ℤ → ℤ
prefer_server from_server fallback = if ltb_ℤ (pos 0) from_server then from_server else fallback

module _ {T R F : Type 0} (upload_bytes : Api T → Bytes → R → ℤ → Action T F)
    (send_media : Api T
      → InputChannel
      → F
      → (filename mime : Bytes) → (force_file : Bool) → Action T Updates) where
  -- File, over transfer.UploadBytes with its progress reports and over gotd's message sender.
  unfoldable pub file : Option (Api T) → Folder → Bytes → Option R → ℤ → Bytes → Action T File
  file none folder name r size mime = raise (new "upload: api client is required")
  file (some api) folder name none size mime = raise (new "upload: reader is required")
  file (some api) folder name (some r) size mime = do
    refuse_if (ltb_ℤ size (pos 0)) (new "upload: size must be non-negative")
    refuse_if (is_empty name) (new "upload: file name is required")
    input_file ← wrapping "upload: streaming" (upload_bytes api name r size)
    upd ←
        wrapping "upload: sending document"
          (send_media api (input_channel folder) input_file name (or_default_mime mime) true)
    sent ← lift (parse_sent_document upd)
    pure (record {
      id = pos 0;
      folder_id = pos 0;
      message_id = sent.message_id;
      name = name;
      size = prefer_server sent.size size;
      mime = prefer_server_mime sent.mime (or_default_mime mime);
      chunk_manifest_id = pos 0;
      created_at = zero_time;
    })
