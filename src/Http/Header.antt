-- ===== src/Http/Header.antt =====
-- The file name in the header of a download.
use telecollection.Prelude.{
  ℕ, ◌==◌, ==_iff, ◌≡◌, ◌≢◌, refl, arith, Bytes, codes, Bool, true, false, Option, none, some, [],
  ◌∷◌, ◌++◌, if◌then◌else◌, All, All-append, Bool-cases, inl, inr,
}
use telecollection.Http.{escape_byte, escape, content_disposition}

abbrev first : ℕ → Option (Bytes × Bytes) → Option (Bytes × Bytes)
first c none = none
first c (some (s, rest)) = some (c ∷ s, rest)

-- A client that reads a quoted string, behind its opening quote: the text, and what is behind the
-- closing quote. `escaped` says that the byte before was a backslash that escapes this one.
unfoldable pub read_quoted : (escaped : Bool) → Bytes → Option (Bytes × Bytes)
read_quoted escaped [] = none
read_quoted true (c ∷ s) = first c (read_quoted false s)
read_quoted false (c ∷ s) =
    let rest = read_quoted (c == b'\\') s in
    if c == b'"' then some ([], s) else if c == b'\\' then rest else first c rest

-- The name without its line breaks.
unfoldable pub on_one_line : Bytes → Bytes
on_one_line [] = []
on_one_line (c ∷ s) =
    if c == 13 then on_one_line s else if c == 10 then on_one_line s else c ∷ on_one_line s

-- A client that reads the quoted string of contentDisposition gets the name without its CR and LF
-- bytes, and nothing of the name stands behind the closing quote.
pub read_quoted-escape :
    (name rest : Bytes)
    → read_quoted false (escape name ++ b'"' ∷ rest) ≡ some (on_one_line name, rest)
unfolding read_quoted escape on_one_line
read_quoted-escape [] rest = refl
read_quoted-escape (c ∷ name) rest =
    ground
      (arith, read_quoted-escape name rest, ==_iff c b'\\', ==_iff c b'"', ==_iff c 13, ==_iff c 10)

abbrev pub BreaksNoLine : ℕ → Type 0
BreaksNoLine c = (c ≢ 13) × (c ≢ 10)

escape_byte-lines : (c : ℕ) → All BreaksNoLine (escape_byte c)
escape_byte-lines c = elim (Bool-cases (c == b'\\')) [
  | inl t ↦ rw t ((ground arith, ground arith), ((ground arith, ground arith), tt))
  | inr t ↦ rw t (elim (Bool-cases (c == b'"')) [
    | inl t' ↦ rw t' ((ground arith, ground arith), ((ground arith, ground arith), tt))
    | inr t' ↦ rw t' (elim (Bool-cases (c == 13)) [
      | inl r ↦ rw r tt
      | inr r ↦ rw r (elim (Bool-cases (c == 10)) [
        | inl n ↦ rw n tt
        | inr n ↦ rw n ((ground (arith, ==_iff c 13), ground (arith, ==_iff c 10)), tt)
      ])
    ])
  ])
]

escape-lines : (name : Bytes) → All BreaksNoLine (escape name)
unfolding escape
escape-lines [] = tt
escape-lines (c ∷ name) =
    All-append BreaksNoLine (escape_byte c) (escape name) (escape_byte-lines c) (escape-lines name)

-- The header of a download holds no CR and no LF byte, whatever the name is.
pub content_disposition-one_line : (name : Bytes) → All BreaksNoLine (content_disposition name)
unfolding content_disposition
content_disposition-one_line name =
    All-append BreaksNoLine (codes "attachment; filename=") (b'"' ∷ escape name ++ b'"' ∷ [])
      (ground arith)
      (
        (ground arith, ground arith),
        All-append BreaksNoLine (escape name) (b'"' ∷ []) (escape-lines name)
            ((ground arith, ground arith), tt),
      )
