-- ===== src/Store/Table.antt =====
-- A table with an integer primary key and a unique key, and the SQL statements on it.
use telecollection.Prelude.{ℕ, suc, Bool, true, false, List, [], ◌∷◌, if◌then◌else◌}

module _ {R : Type 0} where
  -- INSERT … ON CONFLICT(key) DO UPDATE: the row with the key is changed, or a fresh row is added.
  unfoldable pub upsert : (same : R → Bool) (change : R → R) (fresh : R) → List R → List R
  upsert same change fresh [] = fresh ∷ []
  upsert same change fresh (r ∷ rs) =
      if same r then change r ∷ rs else r ∷ upsert same change fresh rs

  -- SELECT … WHERE …, in the order of the rows.
  unfoldable pub select : (R → Bool) → List R → List R
  select p [] = []
  select p (r ∷ rs) = let rest = select p rs in if p r then r ∷ rest else rest

  -- DELETE … WHERE …
  unfoldable pub delete : (R → Bool) → List R → List R
  delete p [] = []
  delete p (r ∷ rs) = let rest = delete p rs in if p r then rest else r ∷ rest

  unfoldable pub count : (R → Bool) → List R → ℕ
  count p [] = 0
  count p (r ∷ rs) = let rest = count p rs in if p r then suc rest else rest

  -- Whether a row with the key is there: the path that ON CONFLICT takes.
  unfoldable pub exists : (R → Bool) → List R → Bool
  exists p [] = false
  exists p (r ∷ rs) = if p r then true else exists p rs
