-- ===== src/Strings.antt =====
-- The functions of Go's package strings that the program calls, over byte lists. On a text with a
-- byte from 0x80 up they go through Unicode tables, which are a parameter.
pub mod Laws
use telecollection.Prelude.{
  ℕ, zero, suc, ◌+◌, Bytes, Bool, true, false, ◌&&◌, ◌||◌, not, Option, none, some, List, [], ◌∷◌,
  ◌++◌, map, ltb, leb, ◌==◌, if◌then◌else◌,
}
use mathlib.Core.Option

-- strings.ToLower and strings.TrimSpace on a text that is not ASCII.
pub record Unicode : Type 0 where
  pub to_lower : Bytes → Bytes
  pub trim_space : Bytes → Bytes

unfoldable pub is_ascii : Bytes → Bool
is_ascii [] = true
is_ascii (c ∷ s) = ltb c 128 && is_ascii s

unfoldable pub lower_byte : ℕ → ℕ
lower_byte c = if leb b'A' c && leb c b'Z' then c + 32 else c

unfoldable pub to_lower : Unicode → Bytes → Bytes
unfolding is_ascii lower_byte
to_lower u s = if is_ascii s then map lower_byte s else u.to_lower s

abbrev pub is_space : ℕ → Bool
is_space c = c == 32 || (leb 9 c && leb c 13)

unfoldable pub trim_left : Bytes → Bytes
trim_left [] = []
trim_left (c ∷ s) = let rest = trim_left s in if is_space c then rest else c ∷ s

-- `c` in front of a text whose end is trimmed.
abbrev keep : ℕ → Bytes → Bytes
keep c [] = if is_space c then [] else c ∷ []
keep c (d ∷ t) = c ∷ d ∷ t

unfoldable pub trim_right : Bytes → Bytes
trim_right [] = []
trim_right (c ∷ s) = keep c (trim_right s)

unfoldable pub trim_space : Unicode → Bytes → Bytes
unfolding is_ascii trim_left trim_right
trim_space u s = if is_ascii s then trim_right (trim_left s) else u.trim_space s

unfoldable pub has_prefix : Bytes → Bytes → Bool
has_prefix [] s = true
has_prefix (c ∷ sub) [] = false
has_prefix (c ∷ sub) (d ∷ s) = c == d && has_prefix sub s

-- strings.Index, with none for -1.
unfoldable pub index : Bytes → Bytes → Option ℕ
unfolding has_prefix
index sub [] = if has_prefix sub [] then some 0 else none
index sub (c ∷ s) = if has_prefix sub (c ∷ s) then some 0 else Option.map suc (index sub s)
