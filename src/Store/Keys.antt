-- ===== src/Store/Keys.antt =====
-- Tables whose unique keys are pairs of integers.
use mathlib.Core.Path.{subst}
use telecollection.Prelude.{
  ℕ, suc, ℤ, pos, ◌==ℤ◌, ==ℤ_iff, ==ℤ_refl, ◌≡◌, refl, sym, ◌∙◌, arith, Bool, true, false, ◌&&◌,
  Option, none, some, List, [], ◌∷◌, find, if◌then◌else◌, Bool-cases, inl, inr,
}
use telecollection.Store.Ascending.{Ascends, below_none, upsert_here, upsert_later}
use telecollection.Store.Table.{upsert, delete, exists}

module _ {R : Type 0} (a b : R → ℤ) where
  abbrev pub has_key : ℤ → ℤ → R → Bool
  has_key x y r = (a r ==ℤ x) && (b r ==ℤ y)

  -- The row with a key.
  abbrev pub at : ℤ → ℤ → List R → Option R
  at x y = find (has_key x y)

  abbrev pub Unique : List R → Type 0
  Unique [] = Unit
  Unique (r ∷ rs) = (at (a r) (b r) rs ≡ none) × Unique rs

  abbrev pub updated : Option R → (R → R) → R → R
  updated none change fresh = fresh
  updated (some r) change fresh = change r

  -- What an upsert on the key (x, y) does to every key.
  pub at-upsert :
      (x y x' y' : ℤ) (change : R → R) (fresh : R) (rs : List R)
      → ((r : R) → (a (change r) ≡ a r) × (b (change r) ≡ b r))
      → (a fresh ≡ x) × (b fresh ≡ y)
      → at x' y' (upsert (has_key x y) change fresh rs) ≡ (
          if (x ==ℤ x') && (y ==ℤ y') then some (updated (at x y rs) change fresh) else at x' y' rs)
  unfolding upsert find
  at-upsert x y x' y' change fresh [] keep new = ground arith
  at-upsert x y x' y' change fresh (r ∷ rs) keep new = ground (
    arith,
    keep r,
    ==ℤ_iff (a r) x,
    ==ℤ_iff (b r) y,
    ==ℤ_iff (a r) x',
    ==ℤ_iff (b r) y',
    ==ℤ_iff x x',
    ==ℤ_iff y y',
    at-upsert x y x' y' change fresh rs,
  )

  exists-at :
      (x y : ℤ) (rs : List R)
      → exists (has_key x y) rs ≡ (elim (at x y rs) [ none ↦ false | some r ↦ true ])
  unfolding exists find
  exists-at x y [] = refl
  exists-at x y (r ∷ rs) = ground (arith, exists-at x y rs)

  -- The key of the row that is found.
  pub at_key : (x y : ℤ) (r : R) (rs : List R) → at x y rs ≡ some r → (a r ≡ x) × (b r ≡ y)
  unfolding find
  at_key x y r [] h = cc
  at_key x y r (s ∷ rs) h = ground (arith, ==ℤ_iff (a s) x, ==ℤ_iff (b s) y, at_key x y r rs)

  key_ne : (x y : ℤ) (r : R) → has_key x y r ≡ false → ((x ==ℤ a r) && (y ==ℤ b r)) ≡ false
  key_ne x y r t =
      ground (arith, ==ℤ_iff (a r) x, ==ℤ_iff (b r) y, ==ℤ_iff x (a r), ==ℤ_iff y (b r))

  pub Unique-upsert :
      (x y : ℤ) (change : R → R) (fresh : R) (rs : List R)
      → ((r : R) → (a (change r) ≡ a r) × (b (change r) ≡ b r))
      → (a fresh ≡ x) × (b fresh ≡ y)
      → Unique rs
      → Unique (upsert (has_key x y) change fresh rs)
  unfolding upsert
  Unique-upsert x y change fresh [] keep new u = (unfold find in refl, tt)
  Unique-upsert x y change fresh (r ∷ rs) keep new u = elim (Bool-cases (has_key x y r)) [
    | inl t ↦
        rw (upsert_here (has_key x y) change fresh r rs t) (rw ((keep r).0, (keep r).1) u.0, u.1)
    | inr t ↦ rw (upsert_later (has_key x y) change fresh r rs t) (
      rw (at-upsert x y (a r) (b r) change fresh rs keep new, key_ne x y r t) u.0,
      Unique-upsert x y change fresh rs keep new u.1,
    )
  ]

  none-delete :
      (x y : ℤ) (p : R → Bool) (rs : List R) → at x y rs ≡ none → at x y (delete p rs) ≡ none
  unfolding delete find
  none-delete x y p [] h = refl
  none-delete x y p (r ∷ rs) h = ground (arith, none-delete x y p rs)

  delete_here : (p : R → Bool) (r : R) (rs : List R) → p r ≡ true → delete p (r ∷ rs) ≡ delete p rs
  unfolding delete
  delete_here p r rs t = rw t

  delete_later :
      (p : R → Bool) (r : R) (rs : List R) → p r ≡ false → delete p (r ∷ rs) ≡ r ∷ delete p rs
  unfolding delete
  delete_later p r rs t = rw t

  none_at :
      (x y : ℤ) (r : R) (rs : List R)
      → has_key x y r ≡ true
      → at (a r) (b r) rs ≡ none
      → at x y rs ≡ none
  none_at x y r rs t h =
      let ex : a r ≡ x = ground (arith, ==ℤ_iff (a r) x) in
      let ey : b r ≡ y = ground (arith, ==ℤ_iff (b r) y) in
      subst (λ z. at z y rs ≡ none) ex (subst (λ z. at (a r) z rs ≡ none) ey h)

  pub Unique-delete : (p : R → Bool) (rs : List R) → Unique rs → Unique (delete p rs)
  unfolding delete
  Unique-delete p [] u = tt
  Unique-delete p (r ∷ rs) u = elim (Bool-cases (p r)) [
    | inl t ↦ rw (delete_here p r rs t) (Unique-delete p rs u.1)
    | inr t ↦ rw (delete_later p r rs t) (none-delete (a r) (b r) p rs u.0, Unique-delete p rs u.1)
  ]

  -- Deleting rows by a test takes exactly the key of a row that passes it.
  pub at-delete :
      (x y : ℤ) (p : R → Bool) (rs : List R)
      → Unique rs
      → at x y (delete p rs)
        ≡ elim (at x y rs) [ none ↦ none | some r ↦ if p r then none else some r ]
  unfolding delete find
  at-delete x y p [] u = refl
  at-delete x y p (r ∷ rs) u =
      ground (arith, at-delete x y p rs, none-delete x y p rs, none_at x y r rs)

at_later :
    {R : Type 0} (a b : R → ℤ) (x y : ℤ) (q : R) (rs : List R)
    → has_key a b x y q ≡ false
    → at a b x y (q ∷ rs) ≡ at a b x y rs
unfolding find
at_later a b x y q rs t = rw t

module _ {R : Type 0} (id a b : R → ℤ) where
  other_id :
      (q r : R) (rs : List R) (m : ℕ)
      → id q ≡ pos m
      → find (λ w. id w ==ℤ pos m) rs ≡ none
      → find (λ w. id w ==ℤ id r) rs ≡ some r
      → (if id q ==ℤ id r then some q else find (λ w. id w ==ℤ id r) rs) ≡ some r
  other_id q r rs m e absent found = elim (Bool-cases (id q ==ℤ id r)) [
    | inl t ↦
        let same : pos m ≡ id r = sym e ∙ (==ℤ_iff (id q) (id r)).0 t in
        cc (subst (λ z. find (λ w. id w ==ℤ z) rs ≡ none) same absent, found)
    | inr t ↦ rw t found
  ]

  -- The row with a key is the row with its id.
  pub by_id-at :
      (x y : ℤ) (lo n : ℕ) (r : R) (rs : List R)
      → Ascends id lo n rs
      → at a b x y rs ≡ some r
      → find (λ s. id s ==ℤ id r) rs ≡ some r
  unfolding find
  by_id-at x y lo n r [] s h = cc
  by_id-at x y lo n r (q ∷ rs) (m, e, l, s) h = elim (Bool-cases (has_key a b x y q)) [
    | inl t ↦
        let same : q ≡ r = ground arith in
        subst (λ z. (if id q ==ℤ id z then some q else find (λ w. id w ==ℤ id z) rs) ≡ some z) same
          (rw (==ℤ_refl (id q)))
    | inr t ↦
        let found : find (λ w. id w ==ℤ id r) rs ≡ some r =
          by_id-at x y (suc m) n r rs s (sym (at_later a b x y q rs t) ∙ h) in
        other_id q r rs m e (below_none id m (suc m) n rs (omega arith) s) found
  ]
