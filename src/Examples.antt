-- ===== src/Examples.antt =====
-- Concrete parameters for the tests: an ASCII-only Unicode, a JSON stand-in, a small database and a
-- Telegram that accepts every call.
use telecollection.Prelude.{
  Action, Bool, ℕ, zero, suc, ℤ, pos, negsuc, ◌≡◌, refl, ap, arith, find, Bytes, codes, true, false,
  Option, none, some, List, [], ◌∷◌, Result, ok, err, panicked, new,
}
use telecollection.Strings.{Unicode}
use telecollection.Telegram.{
  Api, Channel, channel, with_message, message, other_message, updates, nil_updates, not_modified,
}
use telecollection.Telegram.{
  InputChannel, Document, document, media_document, Update, other_update, Updates,
}
use telecollection.Dialogs.{Folder}
use telecollection.Store.{Time, Store}
use telecollection.Store.Sound.{IsSound}
use telecollection.Store.Engine.{Db, FolderRow, FileRow}
use telecollection.Store.Sqlite.{Json, sqlite}

abbrev pub ascii : Unicode
ascii = record { to_lower = λ s. s; trim_space = λ s. s }

-- Two bytes for a number: its sign and its size.
abbrev pub write : List ℤ → Bytes
write [] = []
write (pos n ∷ ids) = 0 ∷ n ∷ write ids
write (negsuc n ∷ ids) = 1 ∷ n ∷ write ids

abbrev cons_ok : ℤ → Result (List ℤ) → Result (List ℤ)
cons_ok i (ok ids) = ok (i ∷ ids)
cons_ok i (err e) = err e
cons_ok i panicked = panicked

abbrev pub read : Bytes → Result (List ℤ)
read [] = ok []
read (_ ∷ []) = err (new "unexpected end of JSON input")
read (zero ∷ n ∷ bytes) = cons_ok (pos n) (read bytes)
read (suc _ ∷ n ∷ bytes) = cons_ok (negsuc n) (read bytes)

pub read-write : (ids : List ℤ) → read (write ids) ≡ ok ids
read-write [] = refl
read-write (pos n ∷ ids) = ap (cons_ok (pos n)) (read-write ids)
read-write (negsuc n ∷ ids) = ap (cons_ok (negsuc n)) (read-write ids)

abbrev pub json : Json
json = record { marshal = write; unmarshal = read }

-- The driver hands out a number of seconds.
abbrev pub time_parse : ℕ → Option Time
time_parse n = some (pos n)

abbrev pub docs_row : FolderRow ℕ
docs_row = record {
  id = pos 1;
  tg_account_id = pos 0;
  channel_id = pos 77;
  name = codes "Docs";
  created_at = 5;
}

abbrev pub report_row : FileRow ℕ
report_row = record {
  id = pos 1;
  folder_id = pos 1;
  message_id = pos 9;
  name = codes "report";
  size = pos 120;
  mime = codes "text/plain";
  chunk_manifest_id = none;
  created_at = 6;
}

abbrev pub small_db : Db ℕ
small_db = record {
  folders = docs_row ∷ [];
  files = report_row ∷ [];
  manifests = [];
  next_folder = 2;
  next_file = 2;
  next_manifest = 1;
  now = 8;
  burns = false;
  faults = [];
}

pub small_db-IsSound : IsSound small_db
small_db-IsSound = (
  (1, refl, omega arith, omega arith),
  (unfold find in refl, tt),
  (1, refl, omega arith, omega arith),
  (unfold find in refl, tt),
  omega arith,
)

abbrev pub store : Store (Db ℕ)
store = sqlite time_parse json

abbrev pub docs : Folder
docs = record { channel_id = pos 77; access_hash = pos 3; title = codes "Docs [TC]" }

abbrev pub photos : Folder
photos = record { channel_id = pos 78; access_hash = pos 4; title = codes "Photos [TC]" }

abbrev photos_channel : Channel
photos_channel = record {
  id = pos 78;
  access_hash = some (pos 4);
  title = codes "Photos [TC]";
  broadcast = true;
}

-- The state of this Telegram is the number of calls that it answered.
abbrev pub accepting : Api ℕ
accepting = record {
  get_dialogs = λ n. (ok [], suc n);
  channels_create_channel = λ b title n. (ok (updates [] (channel photos_channel ∷ [])), suc n);
  messages_set_history_ttl = λ c p n. (ok tt, suc n);
  channels_edit_title = λ c title n. (ok tt, suc n);
  channels_delete_channel = λ c n. (ok tt, suc n);
  messages_edit_message = λ c id name n. (ok tt, suc n);
  channels_delete_messages = λ c ids n. (ok tt, suc n);
  messages_forward_messages = λ a b ids nonces n. (
    ok (
        updates
          (with_message other_message
            ∷ with_message (message (record { id = pos 31; media = none }))
            ∷ [])
          []),
    suc n,
  );
  channels_get_messages = λ c ids n. (ok not_modified, suc n);
}

-- An upload that hands the bytes on, and a message that carries them.
abbrev pub upload_bytes : Api ℕ → Bytes → Bytes → ℤ → Action ℕ Bytes
upload_bytes api name r size n = (ok r, suc n)

abbrev pub text : Document
text = record { size = pos 3; mime_type = codes "text/plain" }

abbrev pub sent_updates : List Update
sent_updates =
    other_update
    ∷ with_message
        (message (record { id = pos 44; media = some (media_document (some (document text))) }))
    ∷ []

abbrev pub send_media :
    Api ℕ → InputChannel → Bytes → (filename mime : Bytes) → Bool → Action ℕ Updates
send_media api peer file name mime force n = (ok (updates sent_updates []), suc n)

-- A Telegram that accepts every call, and whose replies are empty.
abbrev pub quiet : {S : Type 0} → Api S
quiet = record {
  get_dialogs = λ s. (ok [], s);
  channels_create_channel = λ b title s. (ok nil_updates, s);
  messages_set_history_ttl = λ c p s. (ok tt, s);
  channels_edit_title = λ c title s. (ok tt, s);
  channels_delete_channel = λ c s. (ok tt, s);
  messages_edit_message = λ c id name s. (ok tt, s);
  channels_delete_messages = λ c ids s. (ok tt, s);
  messages_forward_messages = λ a b ids nonces s. (ok nil_updates, s);
  channels_get_messages = λ c ids s. (ok not_modified, s);
}
