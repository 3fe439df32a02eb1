-- ===== src/Http/Tests.antt =====
-- Headers and keys at concrete inputs, and the theorems there.
use telecollection.Prelude.{◌≡◌, refl, Bytes, codes, some, [], ◌∷◌, ◌++◌, false}
use telecollection.Http.{escape, require_api_key, refused}
use telecollection.Http.Header.{read_quoted, on_one_line, read_quoted-escape}

-- a"b, a line break, and c
abbrev name : Bytes
name = b'a' ∷ b'"' ∷ b'b' ∷ 13 ∷ 10 ∷ b'c' ∷ []

escape_name : escape name ≡ b'a' ∷ b'\\' ∷ b'"' ∷ b'b' ∷ b'c' ∷ []
unfolding escape
escape_name = refl

read_quoted-escape_example :
    read_quoted false (escape name ++ b'"' ∷ codes "; x") ≡ some (on_one_line name, codes "; x")
read_quoted-escape_example = read_quoted-escape name (codes "; x")

-- A hash that keeps its text, of a text that is not encoded.
abbrev plain : Bytes → Bytes
plain s = s

no_hash : require_api_key plain plain [] (codes "key") ≡ refused
unfolding require_api_key
no_hash = refl
