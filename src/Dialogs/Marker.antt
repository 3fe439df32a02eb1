-- ===== src/Dialogs/Marker.antt =====
-- DisplayName's loop against a single pass over the title.
use mathlib.Core.Option
use native.Mathlib.Nat.{suc-add}
use mathlib.Core.Path.{subst}
use telecollection.Prelude.{
  ℕ, zero, suc, ◌+◌, ◌-◌, ◌<◌, ◌≤◌, Bytes, codes, ◌≡◌, refl, sym, ap, ◌∙◌, arith, Bool, true, false,
  ◌&&◌, ◌||◌, ◌==◌, Option, none, some, [], ◌∷◌, ◌++◌, map, length, take, drop, leb, append_assoc,
  if◌then◌else◌, Bool-cases, inl, inr,
}
use telecollection.Strings.{lower_byte, has_prefix, index}
use telecollection.Strings.Laws.{index-short, index-here, index-later}
use telecollection.Dialogs.{value, strip}

-- The four bytes "[TC]", in either case.
abbrev pub is_marker : ℕ → ℕ → ℕ → ℕ → Bool
is_marker a b c d = a == b'[' && (b == b'T' || b == b't') && (c == b'C' || c == b'c') && d == b']'

-- A title with each marker left out, in one pass from the left.
unfoldable pub without_marker : Bytes → Bytes
without_marker (a ∷ b ∷ c ∷ d ∷ s) =
    let skip = without_marker s in
    let copy = a ∷ without_marker (b ∷ c ∷ d ∷ s) in if is_marker a b c d then skip else copy
without_marker s = s

abbrev pub lower_marker : Bytes
lower_marker = codes "[tc]"

pub prefix-is_marker :
    (a b c d : ℕ) (s : Bytes)
    → has_prefix lower_marker (map lower_byte (a ∷ b ∷ c ∷ d ∷ s)) ≡ is_marker a b c d
unfolding has_prefix lower_byte
prefix-is_marker a b c d s = ground arith

-- What the first round of the loop finds, for the single pass.
abbrev Found : Bytes → Option ℕ → Type 0
Found s none = without_marker s ≡ s
Found s (some i) =
    (i + 4 ≤ length s) × (without_marker s ≡ take i s ++ without_marker (drop (i + 4) s))

module _ (a b c d : ℕ) (s : Bytes) where
  Found-here : is_marker a b c d ≡ true → Found (a ∷ b ∷ c ∷ d ∷ s) (some 0)
  unfolding without_marker
  Found-here h = (omega arith, rw h)

  Found-later :
      (o : Option ℕ)
      → is_marker a b c d ≡ false
      → Found (b ∷ c ∷ d ∷ s) o
      → Found (a ∷ b ∷ c ∷ d ∷ s) (Option.map suc o)
  unfolding without_marker
  Found-later none h f = rw h (ap (λ t. a ∷ t) f)
  Found-later (some i) h f = (omega arith, rw (h, suc-add) (ap (λ t. a ∷ t) f.1))

index-Found : (s : Bytes) → Found s (index lower_marker (map lower_byte s))
unfolding without_marker
index-Found [] = subst (Found []) (sym (index-short lower_marker [] (omega arith))) refl
index-Found (a ∷ []) =
    subst (Found (a ∷ [])) (sym (index-short lower_marker (map lower_byte (a ∷ [])) (omega arith)))
      refl
index-Found (a ∷ b ∷ []) =
    subst (Found (a ∷ b ∷ []))
      (sym (index-short lower_marker (map lower_byte (a ∷ b ∷ [])) (omega arith))) refl
index-Found (a ∷ b ∷ c ∷ []) =
    subst (Found (a ∷ b ∷ c ∷ []))
      (sym (index-short lower_marker (map lower_byte (a ∷ b ∷ c ∷ [])) (omega arith))) refl
index-Found (a ∷ b ∷ c ∷ d ∷ s) = elim (Bool-cases (is_marker a b c d)) [
  | inl e ↦
      subst (Found (a ∷ b ∷ c ∷ d ∷ s))
        (sym (index-here lower_marker _ _ (prefix-is_marker a b c d s ∙ e)))
        (Found-here a b c d s e)
  | inr e ↦
      subst (Found (a ∷ b ∷ c ∷ d ∷ s))
        (sym (index-later lower_marker _ _ (prefix-is_marker a b c d s ∙ e)))
        (Found-later a b c d s _ e (index-Found (b ∷ c ∷ d ∷ s)))
]

le→leb : (a b : ℕ) → a ≤ b → leb a b ≡ true
le→leb a b h = ground arith

map-drop : (n : ℕ) (s : Bytes) → map lower_byte (drop n s) ≡ drop n (map lower_byte s)
map-drop zero s = refl
map-drop (suc n) [] = refl
map-drop (suc n) (c ∷ s) = map-drop n s

length-drop : (n : ℕ) (s : Bytes) → length (drop n s) ≡ length s - n
length-drop zero s = omega arith
length-drop (suc n) [] = omega arith
length-drop (suc n) (c ∷ s) = omega (arith, length-drop n s)

abbrev pub Strips : ℕ → Bytes → Bytes → Type 0
Strips fuel title built =
    strip fuel lower_marker title (map lower_byte title) built
    ≡ value (built ++ without_marker title)

strip_round :
    (fuel : ℕ) (title built : Bytes) (o : Option ℕ)
    → index lower_marker (map lower_byte title) ≡ o
    → Found title o
    → ((i : ℕ) → i + 4 ≤ length title → Strips fuel (drop (i + 4) title) (built ++ take i title))
    → Strips (suc fuel) title built
unfolding strip
strip_round fuel title built none e f h = rw (e, strip) (ap (λ t. value (built ++ t)) (sym f))
strip_round fuel title built (some i) e f h =
    rw (e, strip)
      (rw (le→leb (i + 4) (length title) f.0, ← map-drop (i + 4) title, h i f.0)
        (rw f.1 (rw append_assoc)))

-- The loop over a title and its bytewise lower case, with fuel for each of its bytes.
pub strip-without_marker :
    (fuel : ℕ) (title built : Bytes) → length title < fuel → Strips fuel title built
strip-without_marker zero title built h = absurd (omega arith)
strip-without_marker (suc fuel) title built h =
    strip_round fuel title built (index lower_marker (map lower_byte title)) refl
      (index-Found title)
      λ i le.
        strip-without_marker fuel (drop (i + 4) title) (built ++ take i title)
          (omega (arith, length-drop (i + 4) title))
