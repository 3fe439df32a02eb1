-- ===== src/Folders.antt =====
-- internal/telegram/folders/folders.go: the titles of folder channels, and the calls that create,
-- rename and delete them.
pub mod Titles
mod Tests
use mathlib.Core.Option
use telecollection.Prelude.{
  Bytes, codes, is_empty, Bool, true, false, Option, none, some, List, [], ◌∷◌, ◌++◌, if◌then◌else◌,
  ℤ, pos, Result, ok, err, panicked, lift, try_call, Error, new, wrap, Action, wrapping, raise,
  pure, ◌>>=◌, ◌>>◌,
}
use telecollection.Strings.{Unicode, trim_space}
use telecollection.Telegram.{
  Api, Channel, Chat, channel, other_chat, Updates, nil_updates, no_lists, updates, InputChannel,
}
use telecollection.Dialogs.{Folder, Slicing, out_of_fuel, panic, value, display_name, hash_or_zero}

abbrev pub marker : Bytes
marker = codes "[TC]"

abbrev titled : Bytes → Bytes
titled clean = if is_empty clean then marker else clean ++ codes " " ++ marker

module _ (u : Unicode) where
  -- FolderName; it panics where DisplayName does.
  unfoldable pub folder_name : Bytes → Slicing
  folder_name name = elim (display_name u name) [
    | out_of_fuel ↦ out_of_fuel
    | panic ↦ panic
    | value clean ↦ value (titled (trim_space u clean))
  ]

-- inputChannel
abbrev pub input_channel : Folder → InputChannel
input_channel f = record { channel_id = f.channel_id; access_hash = f.access_hash }

-- The loop over the chats that are channels, which returns the first.
unfoldable pub first_channel : List Chat → Result Channel
first_channel [] = err (new "folders: created channel not found in updates")
first_channel (channel ch ∷ chats) = ok ch
first_channel (other_chat ∷ chats) = first_channel chats

-- channelFromUpdates
unfoldable pub channel_from_updates : Updates → Result Channel
unfolding first_channel
channel_from_updates (updates us chats) = first_channel chats
channel_from_updates nil_updates = err (new "folders: unexpected updates type without chats")
channel_from_updates no_lists = err (new "folders: unexpected updates type without chats")

abbrev pub from_slicing : Slicing → Result Bytes
from_slicing out_of_fuel = panicked
from_slicing panic = panicked
from_slicing (value s) = ok s

abbrev folder_of : Channel → Folder
folder_of ch = record {
  channel_id = ch.id;
  access_hash = hash_or_zero ch.access_hash;
  title = ch.title;
}

module _ (u : Unicode) {T : Type 0} where
  -- Create; `none` is a nil client. A folder beside an error is `(f, some e)`.
  unfoldable pub create : Option (Api T) → Bytes → Action T (Folder × Option Error)
  unfolding folder_name channel_from_updates
  create none name = raise (new "folders: api client is nil")
  create (some api) name = do
    title ← lift (from_slicing (folder_name u name))
    upd ← wrapping "folders: creating channel" (api.channels_create_channel true title)
    ch ← lift (channel_from_updates upd)
    failed ← try_call (api.messages_set_history_ttl (input_channel (folder_of ch)) (pos 0))
    pure (folder_of ch, Option.map (wrap "folders: disabling history auto-delete") failed)

  -- Rename
  unfoldable pub rename : Option (Api T) → Folder → Bytes → Action T (Unit {0})
  unfolding folder_name
  rename none f name = raise (new "folders: api client is nil")
  rename (some api) f name = do
    title ← lift (from_slicing (folder_name u name))
    wrapping "folders: editing channel title" (api.channels_edit_title (input_channel f) title)

-- Delete
unfoldable pub delete : {T : Type 0} → Option (Api T) → Folder → Action T (Unit {0})
delete none f = raise (new "folders: api client is nil")
delete (some api) f =
    wrapping "folders: deleting channel" (api.channels_delete_channel (input_channel f))
