-- ===== src/Folders/Titles.antt =====
-- The titles that FolderName makes.
use mathlib.Core.List.{map-append}
use mathlib.Core.Path.{subst, ◌≡⟨◌⟩◌, ◌∎}
use telecollection.Prelude.{
  ℕ, ◌<◌, Bytes, ◌≡◌, ◌≢◌, refl, sym, ap, All, ◌∙◌, true, false, Option, none, some, [], ◌∷◌, ◌++◌,
  map, length, append_assoc,
}
use telecollection.Strings.{Unicode, is_ascii, lower_byte, index, trim_left, trim_right}
use telecollection.Strings.Laws.{
  trim_space-ascii, trim, trim-trim, is_ascii-append, is_ascii-trim_space, index_end,
  trim-append_space,
}
use telecollection.Dialogs.{value, panic, is_folder_title, is_some}
use telecollection.Dialogs.Marker.{without_marker, lower_marker}
use telecollection.Dialogs.Names.{
  is_ascii-without_marker, display_name-ascii, display_name_panics, is_folder_title-ascii,
  without_marker-append,
}
use telecollection.Folders.{marker, titled, folder_name}

abbrev pub clean : Bytes → Bytes
clean name = trim (without_marker name)

is_ascii-clean : (u : Unicode) (name : Bytes) → is_ascii name ≡ true → is_ascii (clean name) ≡ true
is_ascii-clean u name h =
    subst (λ s. is_ascii s ≡ true)
      (trim_space-ascii u (without_marker name) (is_ascii-without_marker name h))
      (is_ascii-trim_space u (without_marker name) (is_ascii-without_marker name h))

pub folder_name-ascii :
    (u : Unicode) (name : Bytes)
    → is_ascii name ≡ true
    → folder_name u name ≡ value (titled (clean name))
unfolding folder_name
folder_name-ascii u name h =
    rw (display_name-ascii u name h, folder_name)
      (ap (λ s. value (titled s))
        (trim_space-ascii u (clean name) (is_ascii-clean u name h)
          ∙ trim-trim (without_marker name)))

is_ascii-marked : (s : Bytes) → is_ascii s ≡ true → is_ascii (s ++ marker) ≡ true
unfolding is_ascii
is_ascii-marked s h = is_ascii-append s marker ∙ rw h

map-marked : (s : Bytes) → map lower_byte (s ++ marker) ≡ map lower_byte s ++ lower_marker
unfolding lower_byte
map-marked s = map-append lower_byte s marker

-- An ASCII text with the marker at its end.
marked-is_folder_title :
    (u : Unicode) (s : Bytes) → is_ascii s ≡ true → is_folder_title u (s ++ marker) ≡ true
marked-is_folder_title u s h =
    let (i, found) = index_end lower_marker (map lower_byte s) in
    is_folder_title-ascii u (s ++ marker) (is_ascii-marked s h) ∙ rw (map-marked s, found)

titled-is_folder_title :
    (u : Unicode) (s : Bytes) → is_ascii s ≡ true → is_folder_title u (titled s) ≡ true
unfolding is_ascii
titled-is_folder_title u [] h = marked-is_folder_title u [] h
titled-is_folder_title u (c ∷ s) h =
    marked-is_folder_title u (c ∷ s ++ 32 ∷ []) (is_ascii-append (c ∷ s) (32 ∷ []) ∙ rw h)

is_ascii-titled : (s : Bytes) → is_ascii s ≡ true → is_ascii (titled s) ≡ true
unfolding is_ascii
is_ascii-titled [] h = refl
is_ascii-titled (c ∷ s) h =
    is_ascii-marked (c ∷ s ++ 32 ∷ []) (is_ascii-append (c ∷ s) (32 ∷ []) ∙ rw h)

-- For every ASCII name, FolderName does not panic, and IsFolderTitle holds of the title it returns.
pub folder_name-is_folder_title :
    (u : Unicode) (name : Bytes)
    → is_ascii name ≡ true
    → (title : Bytes) × (folder_name u name ≡ value title) × (is_folder_title u title ≡ true)
folder_name-is_folder_title u name h = (
  titled (clean name),
  folder_name-ascii u name h,
  titled-is_folder_title u (clean name) (is_ascii-clean u name h),
)

clean-titled :
    (s t : Bytes)
    → clean s ≡ t
    → index lower_marker (map lower_byte t) ≡ none
    → clean (titled t) ≡ t
unfolding without_marker trim_left trim_right
clean-titled s [] e h = refl
clean-titled s (c ∷ t) e h =
    clean (titled (c ∷ t))
    ≡⟨ ap clean (append_assoc (c ∷ t) (32 ∷ []) marker) ⟩ clean (c ∷ t ++ 32 ∷ marker)
    ≡⟨ ap trim (without_marker-append (c ∷ t) h) ⟩ trim (c ∷ t ++ 32 ∷ [])
    ≡⟨ ap (λ x. trim (x ++ 32 ∷ [])) (sym e) ⟩ trim (clean s ++ 32 ∷ [])
    ≡⟨ trim-append_space (without_marker s) (λ n. cc) ⟩ clean s
    ≡⟨ e ⟩ c ∷ t ∎

none_of : (o : Option ℕ) → is_some o ≡ false → o ≡ none
none_of none h = refl
none_of (some i) h = cc

-- FolderName does not mark an ASCII name twice, if no marker is left in the name once each marker
-- is left out of it and it is trimmed: applied to its own title it returns that title.
pub folder_name_idem :
    (u : Unicode) (name title : Bytes)
    → is_ascii name ≡ true
    → is_folder_title u (clean name) ≡ false
    → folder_name u name ≡ value title
    → folder_name u title ≡ value title
folder_name_idem u name title h free made =
    let e : titled (clean name) ≡ title = cc (folder_name-ascii u name h) in
    subst (λ t. folder_name u t ≡ value t) e
      (folder_name-ascii u (titled (clean name))
          (is_ascii-titled (clean name) (is_ascii-clean u name h))
        ∙ ap (λ t. value (titled t))
            (clean-titled name (clean name) refl (
              none_of _
                (sym (is_folder_title-ascii u (clean name) (is_ascii-clean u name h)) ∙ free))))

-- FolderName panics on a name that ends in "[TC]", has a byte from 0x80 up, and is lowered to a text
-- that ends in "[tc]", has no '[' before that, and is longer than the name: the index that DisplayName
-- finds in the lowered title is out of range in the title.
pub folder_name_panics :
    (u : Unicode) (p q : Bytes)
    → is_ascii (p ++ marker) ≡ false
    → u.to_lower (p ++ marker) ≡ q ++ lower_marker
    → All (λ c. c ≢ b'[') q
    → length p < length q
    → folder_name u (p ++ marker) ≡ panic
unfolding folder_name
folder_name_panics u p q h lowered free longer =
    rw (display_name_panics u p q h lowered free longer, folder_name)
