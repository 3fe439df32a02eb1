-- ===== src/Dialogs.antt =====
-- internal/telegram/dialogs/dialogs.go: which channels are folders, and the name to show.
pub mod Listing
pub mod Marker
pub mod Names
use telecollection.Prelude.{
  ℕ, zero, suc, ◌+◌, Bytes, codes, Bool, true, false, Option, none, some, List, [], ◌∷◌, ◌++◌, leb,
  length, take, drop, if◌then◌else◌, ℤ, pos, raise, Result, ok, err, Error, new, wrap, Action,
  wrapping, pure, ◌>>=◌,
}
use telecollection.Telegram.{Api, Channel, Dialog, dialog_folder, other_peer, channel_peer}
use telecollection.Strings.{Unicode, to_lower, trim_space, index}

abbrev pub marker : Bytes
marker = codes "[TC]"

-- Folder
pub record Folder : Type 0 where
  pub channel_id : ℤ
  pub access_hash : ℤ
  pub title : Bytes

abbrev pub is_some : {A : Type 0} → Option A → Bool
is_some none = false
is_some (some a) = true

-- A computation that a slice out of range may stop, or the end of the fuel.
pub data Slicing : Type 0 where
  out_of_fuel panic : Slicing
  value : Bytes → Slicing

module _ (u : Unicode) where
  -- IsFolderTitle
  unfoldable pub is_folder_title : Bytes → Bool
  unfolding index
  is_folder_title title = is_some (index (to_lower u marker) (to_lower u title))

-- The loop of DisplayName over `title`, `lower` and what the builder holds. `title[:i]` and
-- `title[i+len(marker):]` panic when they are out of range.
unfoldable pub strip : ℕ → (lower_marker title lower built : Bytes) → Slicing
strip zero lower_marker title lower built = out_of_fuel
strip (suc fuel) lower_marker title lower built = elim (index lower_marker lower) [
  | none ↦ value (built ++ title)
  | some i ↦
      let rest =
        strip fuel lower_marker (drop (i + length marker) title)
          (drop (i + length lower_marker) lower) (built ++ take i title) in
      if leb (i + length marker) (length title) then rest else panic
]

-- `hash, _ := ch.GetAccessHash()`: 0 if the flag is not set.
abbrev pub hash_or_zero : Option ℤ → ℤ
hash_or_zero none = pos 0
hash_or_zero (some h) = h

abbrev cons_some {ℓ} : {A : Type ℓ} → Option A → List A → List A
cons_some none l = l
cons_some (some a) l = a ∷ l

abbrev map_value : (Bytes → Bytes) → Slicing → Slicing
map_value f out_of_fuel = out_of_fuel
map_value f panic = panic
map_value f (value s) = value (f s)

module _ (u : Unicode) where
  -- DisplayName; each round takes four bytes off `lower`.
  unfoldable pub display_name : Bytes → Slicing
  unfolding strip
  display_name title =
      let lower = to_lower u title in
      map_value (trim_space u) (strip (suc (length lower)) (to_lower u marker) title lower [])

  -- The title and the flags of a channel that a dialog resolved to.
  folder_of : Channel → Option Folder
  unfolding is_folder_title
  folder_of ch =
      if ch.broadcast
      then if is_folder_title u ch.title
        then some (record {
          channel_id = ch.id;
          access_hash = hash_or_zero ch.access_hash;
          title = ch.title;
        })
        else none
      else none

  -- folderFrom
  unfoldable pub folder_from : Dialog → Option Folder
  unfolding folder_of
  folder_from dialog_folder = none
  folder_from other_peer = none
  folder_from (channel_peer none) = none
  folder_from (channel_peer (some ch)) = folder_of ch

  -- The loop of List.
  keep_folders : List Dialog → List Folder
  unfolding folder_from
  keep_folders [] = []
  keep_folders (d ∷ ds) = cons_some (folder_from d) (keep_folders ds)

  -- List; `none` is a nil client.
  unfoldable pub list : {T : Type 0} → Option (Api T) → Action T (List Folder)
  unfolding keep_folders
  list none = raise (new "dialogs: api client is nil")
  list (some api) = do
    elems ← wrapping "dialogs: collecting dialogs" api.get_dialogs
    pure (keep_folders elems)
