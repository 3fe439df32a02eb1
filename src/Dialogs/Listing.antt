-- ===== src/Dialogs/Listing.antt =====
-- Which folders List returns.
use mathlib.Core.Path.{subst}
use telecollection.Prelude.{
  ◌∙◌, ◌≡◌, refl, ap, ◌↔◌, ◌⊎◌, inl, inr, arith, true, Option, none, some, List, [], ◌∷◌, ok,
}
use telecollection.Strings.{Unicode}
use telecollection.Telegram.{Api, Dialog, dialog_folder, other_peer, channel_peer}
use telecollection.Dialogs.{
  Folder, is_folder_title, folder_from, keep_folders, hash_or_zero, list, cons_some,
}

-- `a` stands in a list.
abbrev pub In : {A : Type 0} → A → List A → Type 0
In a [] = ⊥
In a (x ∷ xs) = (x ≡ a) ⊎ In a xs

-- A dialog that shows the folder: a broadcast channel whose title carries the marker.
abbrev pub Shows : Unicode → Folder → Dialog → Type 0
Shows u f dialog_folder = ⊥
Shows u f other_peer = ⊥
Shows u f (channel_peer none) = ⊥
Shows u f (channel_peer (some ch)) =
    (ch.broadcast ≡ true)
    × (is_folder_title u ch.title ≡ true)
    × (f ≡ record {
      channel_id = ch.id;
      access_hash = hash_or_zero ch.access_hash;
      title = ch.title;
    })

module _ (u : Unicode) where
  folder_from-Shows : (f : Folder) (d : Dialog) → (folder_from u d ≡ some f) ↔ Shows u f d
  unfolding folder_from
  folder_from-Shows f dialog_folder = ground arith
  folder_from-Shows f other_peer = ground arith
  folder_from-Shows f (channel_peer none) = ground arith
  folder_from-Shows f (channel_peer (some ch)) = ground arith

  listed :
      (o : Option Folder) (f : Folder) (l : List Folder)
      → In f (cons_some o l) ↔ ((o ≡ some f) ⊎ In f l)
  listed none f l = ground arith
  listed (some g) f l = ground arith

  keep_folders_sound :
      (f : Folder) (ds : List Dialog)
      → In f (keep_folders u ds)
      → (d : Dialog) × In d ds × Shows u f d
  unfolding keep_folders
  keep_folders_sound f [] h = elim h [ ]
  keep_folders_sound f (d ∷ ds) h = elim ((listed (folder_from u d) f (keep_folders u ds)).0 h) [
    | inl e ↦ (d, inl refl, (folder_from-Shows f d).0 e)
    | inr later ↦ let (d', i, s) = keep_folders_sound f ds later in (d', inr i, s)
  ]

  keep_folders_complete :
      (f : Folder) (d : Dialog) (ds : List Dialog)
      → In d ds
      → Shows u f d
      → In f (keep_folders u ds)
  unfolding keep_folders
  keep_folders_complete f d [] i s = elim i [ ]
  keep_folders_complete f d (d' ∷ ds) (inl e) s =
      (listed (folder_from u d') f (keep_folders u ds)).1
        (inl (ap (folder_from u) e ∙ (folder_from-Shows f d).1 s))
  keep_folders_complete f d (d' ∷ ds) (inr i) s =
      (listed (folder_from u d') f (keep_folders u ds)).1 (inr (keep_folders_complete f d ds i s))

  -- Where the dialogs are collected, List returns exactly the folders that they show: a folder is in
  -- the result if and only if a dialog of the account is a broadcast channel with its id, hash and
  -- title, the title carrying the marker.
  pub list-Shows :
      {T : Type 0} (api : Api T) (t t' : T) (ds : List Dialog) (fs : List Folder)
      → api.get_dialogs t ≡ (ok ds, t')
      → list u (some api) t ≡ (ok fs, t')
      → ((f : Folder) → In f fs → (d : Dialog) × In d ds × Shows u f d)
        × ((f : Folder) (d : Dialog) → In d ds → Shows u f d → In f fs)
  unfolding list
  list-Shows api t t' ds fs got h =
      let e : keep_folders u ds ≡ fs = ground arith in
      subst
        (λ l.
          ((f : Folder) → In f l → (d : Dialog) × In d ds × Shows u f d)
          × ((f : Folder) (d : Dialog) → In d ds → Shows u f d → In f l))
        e ((λ f i. keep_folders_sound f ds i), (λ f d i s. keep_folders_complete f d ds i s))
