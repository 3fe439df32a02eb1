-- ===== src/Store/Ascending.antt =====
-- Tables whose primary keys ascend.
use telecollection.Prelude.{
  ℕ, suc, ◌<◌, ◌≤◌, ℤ, pos, ◌==ℤ◌, ==ℤ_iff, ==ℤ_refl, ◌≡◌, refl, ◌∙◌, arith, Bool, true, false,
  none, some, List, [], ◌∷◌, ◌++◌, find, if◌then◌else◌, Bool-cases, inl, inr,
}
use telecollection.Store.Table.{upsert, delete, exists}

module _ {R : Type 0} (id : R → ℤ) where
  -- The ids ascend, from `lo` up to, not with, `n`.
  abbrev pub Ascends : ℕ → ℕ → List R → Type 0
  Ascends lo n [] = lo ≤ n
  Ascends lo n (r ∷ rs) = (m : ℕ) × (id r ≡ pos m) × (lo ≤ m) × Ascends (suc m) n rs

  pub Ascends-mono :
      (lo lo' n n' : ℕ) (rs : List R) → lo' ≤ lo → n ≤ n' → Ascends lo n rs → Ascends lo' n' rs
  Ascends-mono lo lo' n n' [] h k s = omega arith
  Ascends-mono lo lo' n n' (r ∷ rs) h k (m, e, l, s) =
      (m, e, omega arith, Ascends-mono (suc m) (suc m) n n' rs (omega arith) k s)

  pub Ascends-delete :
      (lo n : ℕ) (p : R → Bool) (rs : List R) → Ascends lo n rs → Ascends lo n (delete p rs)
  unfolding delete
  Ascends-delete lo n p [] s = s
  Ascends-delete lo n p (r ∷ rs) (m, e, l, s) = elim (Bool-cases (p r)) [
    | inl t ↦
        rw (t, delete)
          (Ascends-mono (suc m) lo n n (delete p rs) (omega arith) (omega arith)
            (Ascends-delete (suc m) n p rs s))
    | inr t ↦ rw (t, delete) (m, e, l, Ascends-delete (suc m) n p rs s)
  ]

  pub Ascends-snoc :
      (lo n : ℕ) (fresh : R) (rs : List R)
      → id fresh ≡ pos n
      → Ascends lo n rs
      → Ascends lo (suc n) (rs ++ fresh ∷ [])
  Ascends-snoc lo n fresh [] e s = (n, e, s, omega arith)
  Ascends-snoc lo n fresh (r ∷ rs) e (m, q, l, s) = (m, q, l, Ascends-snoc (suc m) n fresh rs e s)

  le_of_Ascends : (lo n : ℕ) (rs : List R) → Ascends lo n rs → lo ≤ n
  le_of_Ascends lo n [] s = s
  le_of_Ascends lo n (r ∷ rs) (m, e, l, s) = omega (arith, le_of_Ascends (suc m) n rs s)

  pub find-fresh :
      (lo n : ℕ) (fresh : R) (rs : List R)
      → id fresh ≡ pos n
      → Ascends lo n rs
      → find (λ r. id r ==ℤ pos n) (rs ++ fresh ∷ []) ≡ some fresh
  unfolding find
  find-fresh lo n fresh [] e s = rw (e, ==ℤ_refl (pos n))
  find-fresh lo n fresh (r ∷ rs) e (m, q, l, s) = ground (
    arith,
    ==ℤ_iff (id r) (pos n),
    le_of_Ascends (suc m) n rs s,
    find-fresh (suc m) n fresh rs e s,
  )

  -- An id below all others is in no row.
  pub below_none :
      (i lo n : ℕ) (rs : List R) → i < lo → Ascends lo n rs → find (λ r. id r ==ℤ pos i) rs ≡ none
  unfolding find
  below_none i lo n [] h s = refl
  below_none i lo n (r ∷ rs) h (m, e, l, s) =
      ground (arith, ==ℤ_iff (id r) (pos i), below_none i (suc m) n rs)

module _ {R : Type 0} (same : R → Bool) (change : R → R) (fresh : R) (r : R) (rs : List R) where
  pub exists_here : same r ≡ true → exists same (r ∷ rs) ≡ true
  unfolding exists
  exists_here t = rw t

  pub exists_later : same r ≡ false → exists same (r ∷ rs) ≡ exists same rs
  unfolding exists
  exists_later t = rw t

  pub upsert_here : same r ≡ true → upsert same change fresh (r ∷ rs) ≡ change r ∷ rs
  unfolding upsert
  upsert_here t = rw t

  pub upsert_later :
      same r ≡ false → upsert same change fresh (r ∷ rs) ≡ r ∷ upsert same change fresh rs
  unfolding upsert
  upsert_later t = rw t

-- An upsert on rows with ascending ids, where a new row takes the id `n`.
pub Ascends-upsert :
    {R : Type 0} (id : R → ℤ) (same : R → Bool) (change : R → R) (fresh : R) (lo n : ℕ)
    (rs : List R)
    → ((r : R) → id (change r) ≡ id r)
    → id fresh ≡ pos n
    → Ascends id lo n rs
    → Ascends id lo (if exists same rs then n else suc n) (upsert same change fresh rs)
Ascends-upsert id same change fresh lo n [] keep new s =
    unfold upsert exists in (n, new, s, omega arith)
Ascends-upsert id same change fresh lo n (r ∷ rs) keep new (m, e, l, s) =
    elim (Bool-cases (same r)) [
      | inl t ↦
          rw (exists_here same change fresh r rs t, upsert_here same change fresh r rs t)
            (m, keep r ∙ e, l, s)
      | inr t ↦
          rw (exists_later same change fresh r rs t, upsert_later same change fresh r rs t)
            (m, e, l, Ascends-upsert id same change fresh (suc m) n rs keep new s)
    ]
