-- ===== src/Folders/Tests.antt =====
-- Titles at concrete names, and the theorems at concrete inputs.
use telecollection.Telegram.{Api, Channel, Dialog, channel_peer, other_peer}
use telecollection.Dialogs.{Folder, list}
use telecollection.Dialogs.Listing.{In, Shows, list-Shows}
use telecollection.Examples.{accepting, docs}
use telecollection.Prelude.{
  false, ℕ, suc, pos, some, List, ok, ◌≡◌, refl, arith, codes, Bytes, true, ◌++◌, [], ◌∷◌,
}
use telecollection.Strings.{Unicode, is_ascii, to_lower, lower_byte, index, trim_space}
use telecollection.Examples.{ascii}
use telecollection.Dialogs.{marker, is_folder_title, display_name, value, panic}
use telecollection.Dialogs.Marker.{without_marker, lower_marker}
use telecollection.Dialogs.Names.{display_name-ascii}
use telecollection.Folders.{folder_name}
use telecollection.Folders.Titles.{folder_name-is_folder_title, folder_name_panics}

-- An occurrence of the marker that only the removal of another one makes is left.
display_name_nested : display_name ascii (codes "[T[TC]C] Docs") ≡ value (codes "[TC] Docs")
unfolding display_name index to_lower trim_space
display_name_nested = refl

display_name-ascii_example : display_name ascii (codes "Docs [tC] ") ≡ value (codes "Docs")
unfolding is_ascii telecollection.Strings.trim_right telecollection.Strings.trim_left without_marker
display_name-ascii_example = display_name-ascii ascii (codes "Docs [tC] ") refl

folder_name-is_folder_title_example :
    (title : Bytes) × (folder_name ascii (codes "Docs") ≡ value title)
    × (is_folder_title ascii title ≡ true)
unfolding is_ascii
folder_name-is_folder_title_example = folder_name-is_folder_title ascii (codes "Docs") refl

-- U+023A, whose lower case U+2C65 is one byte longer.
abbrev stroke : Bytes
stroke = 200 ∷ 186 ∷ []

abbrev lowered_stroke : Bytes
lowered_stroke = 226 ∷ 177 ∷ 165 ∷ []

abbrev growing : Unicode
growing = record { to_lower = λ s. lowered_stroke ++ lower_marker; trim_space = λ s. s }

folder_name_panics_example : folder_name growing (stroke ++ marker) ≡ panic
unfolding is_ascii
folder_name_panics_example =
    folder_name_panics growing stroke lowered_stroke refl refl
      (ground arith, (ground arith, (ground arith, tt))) (omega arith)

abbrev docs_channel : Channel
docs_channel = record {
  id = pos 77;
  access_hash = some (pos 3);
  title = codes "Docs [TC]";
  broadcast = true;
}

-- A group with the marker in its title is no folder.
abbrev dialogs : List Dialog
dialogs =
    channel_peer (some (record docs_channel { broadcast = false }))
    ∷ other_peer
    ∷ channel_peer (some docs_channel)
    ∷ []

abbrev two_channels : Api ℕ
two_channels = record accepting { get_dialogs = λ n. (ok dialogs, suc n) }

list_dialogs : list ascii (some two_channels) 0 ≡ (ok (docs ∷ []), 1)
unfolding list to_lower
list_dialogs = refl

list-Shows_example :
    ((f : Folder) → In f (docs ∷ []) → (d : Dialog) × In d dialogs × Shows ascii f d)
    × ((f : Folder) (d : Dialog) → In d dialogs → Shows ascii f d → In f (docs ∷ []))
list-Shows_example = list-Shows ascii two_channels 0 1 dialogs (docs ∷ []) refl list_dialogs
