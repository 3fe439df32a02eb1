-- ===== src/Dialogs/Names.antt =====
-- What DisplayName returns.
use telecollection.Prelude.{
  ℕ, suc, ◌+◌, ◌<◌, Bytes, ◌≡◌, refl, leb, length-append, All, none, some, sym, ◌≢◌, ap, ◌∙◌, arith,
  true, false, [], ◌∷◌, ◌++◌, map, length,
}
use telecollection.Strings.{Unicode, is_ascii, to_lower, lower_byte, index, has_prefix}
use telecollection.Strings.Laws.{to_lower-ascii, trim_space-ascii, trim, length-map, index-none}
use telecollection.Dialogs.{value, panic, strip, marker, display_name, is_folder_title, is_some}
use telecollection.Dialogs.Marker.{
  without_marker, lower_marker, strip-without_marker, prefix-is_marker,
}

pub is_ascii-without_marker : (s : Bytes) → is_ascii s ≡ true → is_ascii (without_marker s) ≡ true
unfolding without_marker is_ascii
is_ascii-without_marker [] h = refl
is_ascii-without_marker (a ∷ []) h = h
is_ascii-without_marker (a ∷ b ∷ []) h = h
is_ascii-without_marker (a ∷ b ∷ c ∷ []) h = h
is_ascii-without_marker (a ∷ b ∷ c ∷ d ∷ s) h =
    ground (arith, is_ascii-without_marker s, is_ascii-without_marker (b ∷ c ∷ d ∷ s))

pub to_lower-marker : (u : Unicode) → to_lower u marker ≡ lower_marker
unfolding to_lower
to_lower-marker u = refl

enough : (title : Bytes) → length title < suc (length (map lower_byte title))
enough title = omega (arith, length-map lower_byte title)

-- DisplayName of an ASCII title never panics: it is the title with each "[TC]" left out, in either
-- case and in one pass from the left, and trimmed.
pub display_name-ascii :
    (u : Unicode) (title : Bytes)
    → is_ascii title ≡ true
    → display_name u title ≡ value (trim (without_marker title))
unfolding display_name
display_name-ascii u title h =
    rw (to_lower-marker u, to_lower-ascii u title h)
      (rw (strip-without_marker (suc (length (map lower_byte title))) title [] (enough title))
        (ap value (trim_space-ascii u (without_marker title) (is_ascii-without_marker title h))))

pub is_folder_title-ascii :
    (u : Unicode) (title : Bytes)
    → is_ascii title ≡ true
    → is_folder_title u title ≡ is_some (index lower_marker (map lower_byte title))
unfolding is_folder_title
is_folder_title-ascii u title h = rw (to_lower-marker u, to_lower-ascii u title h)

-- Nothing is left out of a title without a marker, and the marker behind it is.
pub without_marker-append :
    (s : Bytes)
    → index lower_marker (map lower_byte s) ≡ none
    → without_marker (s ++ 32 ∷ marker) ≡ s ++ 32 ∷ []
unfolding without_marker
without_marker-append [] h = refl
without_marker-append (a ∷ []) h = ground arith
without_marker-append (a ∷ b ∷ []) h = ground arith
without_marker-append (a ∷ b ∷ c ∷ []) h = ground arith
without_marker-append (a ∷ b ∷ c ∷ d ∷ s) h =
    let (here, rest) = index-none lower_marker _ _ h in
    rw (sym (prefix-is_marker a b c d s) ∙ here)
      (ap (λ t. a ∷ t) (without_marker-append (b ∷ c ∷ d ∷ s) rest))

index-first :
    (q : Bytes) → All (λ c. c ≢ b'[') q → index lower_marker (q ++ lower_marker) ≡ some (length q)
unfolding index has_prefix
index-first [] h = refl
index-first (c ∷ q) h = ground (arith, index-first q)

leb-false : (a b : ℕ) → b < a → leb a b ≡ false
leb-false a b h = ground arith

panic_round :
    (fuel : ℕ) (title lower built : Bytes) (i : ℕ)
    → index lower_marker lower ≡ some i
    → length title < i + 4
    → strip (suc fuel) lower_marker title lower built ≡ panic
unfolding strip
panic_round fuel title lower built i e h = rw (e, strip) (rw (leb-false (i + 4) (length title) h))

-- DisplayName panics where lowering lengthens what stands before the only marker.
pub display_name_panics :
    (u : Unicode) (p q : Bytes)
    → is_ascii (p ++ marker) ≡ false
    → u.to_lower (p ++ marker) ≡ q ++ lower_marker
    → All (λ c. c ≢ b'[') q
    → length p < length q
    → display_name u (p ++ marker) ≡ panic
unfolding display_name to_lower
display_name_panics u p q h lowered free longer =
    rw (h, lowered)
      (rw (
        panic_round (length (q ++ lower_marker)) (p ++ marker) (q ++ lower_marker) [] (length q)
          (index-first q free) (omega (arith, length-append p marker))))
