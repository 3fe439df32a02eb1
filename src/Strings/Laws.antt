-- ===== src/Strings/Laws.antt =====
-- Laws of the string functions.
use mathlib.Core.Option
use telecollection.Prelude.{
  ℕ, suc, ◌<◌, ◌≤◌, Bytes, ◌≡◌, refl, ap, arith, true, false, ◌&&◌, Option, none, some, List, [],
  ◌∷◌, ◌++◌, map, length, Bool-cases, inl, inr, sym, ◌≢◌, ◌∙◌,
}
use telecollection.Strings.{
  Unicode, is_ascii, lower_byte, to_lower, is_space, keep, trim_left, trim_right, trim_space,
  has_prefix, index,
}

pub length-map {ℓ κ} :
    {A : Type ℓ} {B : Type κ} (f : A → B) (xs : List A) → length (map f xs) ≡ length xs
length-map f [] = refl
length-map f (x ∷ xs) = ap suc (length-map f xs)

pub is_ascii-append : (s t : Bytes) → is_ascii (s ++ t) ≡ (is_ascii s && is_ascii t)
unfolding is_ascii
is_ascii-append [] t = refl
is_ascii-append (c ∷ s) t = ground (arith, is_ascii-append s t)

pub to_lower-ascii : (u : Unicode) (s : Bytes) → is_ascii s ≡ true → to_lower u s ≡ map lower_byte s
unfolding to_lower
to_lower-ascii u s h = rw h

pub trim_space-ascii :
    (u : Unicode) (s : Bytes) → is_ascii s ≡ true → trim_space u s ≡ trim_right (trim_left s)
unfolding trim_space
trim_space-ascii u s h = rw h

is_ascii-trim_left : (s : Bytes) → is_ascii s ≡ true → is_ascii (trim_left s) ≡ true
unfolding is_ascii trim_left
is_ascii-trim_left [] h = refl
is_ascii-trim_left (c ∷ s) h = ground (arith, is_ascii-trim_left s)

is_ascii-trim_right : (s : Bytes) → is_ascii s ≡ true → is_ascii (trim_right s) ≡ true
unfolding is_ascii trim_right
is_ascii-trim_right [] h = refl
is_ascii-trim_right (c ∷ s) h = ground (arith, is_ascii-trim_right s)

pub is_ascii-trim_space :
    (u : Unicode) (s : Bytes) → is_ascii s ≡ true → is_ascii (trim_space u s) ≡ true
is_ascii-trim_space u s h =
    rw (trim_space-ascii u s h) (is_ascii-trim_right (trim_left s) (is_ascii-trim_left s h))

trim_right-keep : (c : ℕ) (t : Bytes) → trim_right t ≡ t → trim_right (keep c t) ≡ keep c t
unfolding trim_right
trim_right-keep c [] h = ground arith
trim_right-keep c (d ∷ t) h = rw h

trim_right-trim_right : (s : Bytes) → trim_right (trim_right s) ≡ trim_right s
unfolding trim_right
trim_right-trim_right [] = refl
trim_right-trim_right (c ∷ s) = trim_right-keep c (trim_right s) (trim_right-trim_right s)

trim_right-append_space : (s : Bytes) → trim_right (s ++ 32 ∷ []) ≡ trim_right s
unfolding trim_right
trim_right-append_space [] = refl
trim_right-append_space (c ∷ s) = rw (trim_right-append_space s)

-- A text that does not start with a space.
abbrev Leads : Bytes → Type 0
Leads [] = Unit
Leads (c ∷ s) = is_space c ≡ false

trim_left-Leads : (s : Bytes) → Leads (trim_left s)
unfolding trim_left
trim_left-Leads [] = tt
trim_left-Leads (c ∷ s) = elim (Bool-cases (is_space c)) [
  | inl e ↦ rw (e, trim_left) (trim_left-Leads s)
  | inr e ↦ rw (e, trim_left) e
]

keep-Leads : (c : ℕ) (t : Bytes) → is_space c ≡ false → Leads (keep c t)
keep-Leads c [] h = rw h h
keep-Leads c (d ∷ t) h = h

trim_right-Leads : (s : Bytes) → Leads s → Leads (trim_right s)
unfolding trim_right
trim_right-Leads [] h = tt
trim_right-Leads (c ∷ s) h = keep-Leads c (trim_right s) h

trim_left_of_Leads : (s : Bytes) → Leads s → trim_left s ≡ s
unfolding trim_left
trim_left_of_Leads [] h = refl
trim_left_of_Leads (c ∷ s) h = rw h

abbrev pub trim : Bytes → Bytes
trim s = trim_right (trim_left s)

trim-Leads : (s : Bytes) → Leads (trim s)
trim-Leads s = trim_right-Leads (trim_left s) (trim_left-Leads s)

pub trim-trim : (s : Bytes) → trim (trim s) ≡ trim s
trim-trim s = rw (trim_left_of_Leads (trim s) (trim-Leads s)) (trim_right-trim_right (trim_left s))

trimmed-append_space : (s : Bytes) → Leads s → trim_right s ≡ s → s ≢ [] → trim (s ++ 32 ∷ []) ≡ s
trimmed-append_space [] l r n = absurd (n refl)
trimmed-append_space (c ∷ s) l r n =
    rw (trim_left_of_Leads (c ∷ s ++ 32 ∷ []) l) (trim_right-append_space (c ∷ s) ∙ r)

-- A trimmed text that is not empty, and a space behind it.
pub trim-append_space : (s : Bytes) → trim s ≢ [] → trim (trim s ++ 32 ∷ []) ≡ trim s
trim-append_space s =
    trimmed-append_space (trim s) (trim-Leads s) (trim_right-trim_right (trim_left s))

pub has_prefix_refl : (s : Bytes) → has_prefix s s ≡ true
unfolding has_prefix
has_prefix_refl [] = refl
has_prefix_refl (c ∷ s) = ground (arith, has_prefix_refl s)

-- A text that stands at the end of another is found in it.
pub index_end : (sub s : Bytes) → (i : ℕ) × (index sub (s ++ sub) ≡ some i)
unfolding index
index_end [] [] = (0, refl)
index_end (c ∷ sub) [] = (0, rw (has_prefix_refl (c ∷ sub)))
index_end sub (d ∷ s) = elim (Bool-cases (has_prefix sub (d ∷ s ++ sub))) [
  | inl e ↦ (0, rw e)
  | inr e ↦ let (i, q) = index_end sub s in (suc i, rw (e, q))
]

pub length-has_prefix : (sub s : Bytes) → has_prefix sub s ≡ true → length sub ≤ length s
unfolding has_prefix
length-has_prefix [] s h = omega arith
length-has_prefix (c ∷ sub) [] h = cc
length-has_prefix (c ∷ sub) (d ∷ s) h = ground (arith, length-has_prefix sub s)

not_prefix : (sub s : Bytes) → length s < length sub → has_prefix sub s ≡ false
not_prefix sub s h = elim (Bool-cases (has_prefix sub s)) [
  | inl e ↦ absurd (omega (arith, length-has_prefix sub s e))
  | inr e ↦ e
]

-- A text is not found in a shorter one.
pub index-short : (sub s : Bytes) → length s < length sub → index sub s ≡ none
unfolding index
index-short sub [] h = rw (not_prefix sub [] h)
index-short sub (c ∷ s) h = rw (not_prefix sub (c ∷ s) h) (rw (index-short sub s (omega arith)))

pub index-here :
    (sub : Bytes) (c : ℕ) (s : Bytes) → has_prefix sub (c ∷ s) ≡ true → index sub (c ∷ s) ≡ some 0
unfolding index
index-here sub c s h = rw h

pub index-later :
    (sub : Bytes) (c : ℕ) (s : Bytes)
    → has_prefix sub (c ∷ s) ≡ false
    → index sub (c ∷ s) ≡ Option.map suc (index sub s)
unfolding index
index-later sub c s h = rw h

map-none : (o : Option ℕ) → Option.map suc o ≡ none → o ≡ none
map-none none h = refl
map-none (some i) h = cc

pub index-none :
    (sub : Bytes) (c : ℕ) (s : Bytes)
    → index sub (c ∷ s) ≡ none
    → (has_prefix sub (c ∷ s) ≡ false) × (index sub s ≡ none)
unfolding index
index-none sub c s h = elim (Bool-cases (has_prefix sub (c ∷ s))) [
  | inl e ↦ cc (index-here sub c s e)
  | inr e ↦ (e, map-none (index sub s) (sym (index-later sub c s e) ∙ h))
]
