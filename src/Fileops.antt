-- ===== src/Fileops.antt =====
-- internal/telegram/fileops/fileops.go: renaming, deleting and moving the message of a file.
pub mod Nonce
mod Tests
use telecollection.Prelude.{
  ℤ, pos, leb_ℤ, Bytes, is_empty, Option, none, some, List, [], ◌∷◌, Result, ok, err, lift,
  try_call, refuse_if, Error, new, wrap, Action, wrapping, raise, pure, ◌>>=◌, ◌>>◌,
}
use telecollection.Strings.{Unicode, trim_space}
use telecollection.Telegram.{
  Api, Update, with_message, other_update, message, other_message, Updates, nil_updates, no_lists,
  updates,
}
use telecollection.Dialogs.{Folder}
use telecollection.Folders.{input_channel}

module _ {T : Type 0} where
  -- rename
  abbrev rename_with : Api T → Folder → ℤ → Bytes → Action T (Unit {0})
  rename_with api folder id name =
      wrapping "fileops: renaming message"
        (api.messages_edit_message (input_channel folder) id name)

  -- Rename; `none` is a nil client.
  unfoldable pub rename : Unicode → Option (Api T) → Folder → ℤ → Bytes → Action T (Unit {0})
  rename u none folder id name = raise (new "fileops: api client is required")
  rename u (some api) folder id name = do
    refuse_if (leb_ℤ id (pos 0)) (new "fileops: message id must be positive")
    refuse_if (is_empty (trim_space u name)) (new "fileops: new name is required")
    rename_with api folder id name

  -- deleteMsg
  abbrev delete_msg : Api T → Folder → ℤ → Action T (Unit {0})
  delete_msg api folder id =
      wrapping "fileops: deleting message"
        (api.channels_delete_messages (input_channel folder) (id ∷ []))

  -- Delete
  unfoldable pub delete : Option (Api T) → Folder → ℤ → Action T (Unit {0})
  delete none folder id = raise (new "fileops: api client is required")
  delete (some api) folder id = do
    refuse_if (leb_ℤ id (pos 0)) (new "fileops: message id must be positive")
    delete_msg api folder id

-- The loop over the updates, which returns the id of the first message.
abbrev first_message_id : List Update → Result ℤ
first_message_id [] = err (new "fileops: forwarded message not found in updates")
first_message_id (other_update ∷ us) = first_message_id us
first_message_id (with_message other_message ∷ us) = first_message_id us
first_message_id (with_message (message m) ∷ us) = ok m.id

-- newMessageID
unfoldable pub new_message_id : Updates → Result ℤ
new_message_id nil_updates = err (new "fileops: nil updates from forward")
new_message_id no_lists = err (new "fileops: unexpected updates type without update list")
new_message_id (updates us chats) = first_message_id us

abbrev wrap_failure : Option Error → Option Error
wrap_failure none = none
wrap_failure (some e) = some (
    wrap "fileops: move not atomic: message was forwarded but could not be deleted from the source"
      e)

module _ {T : Type 0} where
  -- move; the new id stands beside the error of the delete.
  abbrev move_with : (T → ℤ × T) → Api T → Folder → ℤ → Folder → Action T (ℤ × Option Error)
  move_with rand_int64 api src id dst = do
    nonce ← λ t. let (n, t') = rand_int64 t in (ok n, t')
    upd ← wrapping "fileops: forwarding message" (
        api.messages_forward_messages (input_channel src) (input_channel dst) (id ∷ [])
          (nonce ∷ []))
    new_id ←
        wrapping "fileops: message forwarded to destination but the new id could not be read"
          (lift (new_message_id upd))
    failed ← try_call (delete_msg api src id)
    pure (new_id, wrap_failure failed)

  -- Move; an error here is beside the id 0.
  unfoldable pub move :
      (T → ℤ × T) → Option (Api T) → Folder → ℤ → Folder → Action T (ℤ × Option Error)
  move rand_int64 none src id dst = raise (new "fileops: api client is required")
  move rand_int64 (some api) src id dst = do
    refuse_if (leb_ℤ id (pos 0)) (new "fileops: message id must be positive")
    move_with rand_int64 api src id dst
