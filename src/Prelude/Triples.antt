-- ===== src/Prelude/Triples.antt =====
-- What holds behind an action, on the way of a value and on the way of an error.
use telecollection.Prelude.{
  Result, ok, err, panicked, Action, wrapping, ◌>>=◌, then_do, wrap_result, String,
}

abbrev pub After : {S A : Type 0} → (A → S → Type 0) → (S → Type 0) → Result A × S → Type 0
After Q E (ok a, s) = Q a s
After Q E (err e, s) = E s
After Q E (panicked, s) = E s

-- From `P`, the action returns a value in `Q`, or ends in `E`.
pub record Triple {S A : Type 0} (P : S → Type 0) (m : Action S A) (Q : A → S → Type 0)
    (E : S → Type 0) : Type 0 where
  pub at : (s : S) → P s → After Q E (m s)

then_do-after :
    {S A B : Type 0} (Q : A → S → Type 0) (R : B → S → Type 0) (E : S → Type 0) (f : A → Action S B)
    (r : Result A) (s : S)
    → ((a : A) → Triple (Q a) (f a) R E)
    → After Q E (r, s)
    → After R E (then_do r f s)
then_do-after Q R E f (ok a) s tf h = (tf a).at s h
then_do-after Q R E f (err e) s tf h = h
then_do-after Q R E f panicked s tf h = h

wrap_result-after :
    {S A : Type 0} (Q : A → S → Type 0) (E : S → Type 0) (msg : String) (r : Result A) (s : S)
    → After Q E (r, s)
    → After Q E (wrap_result msg r, s)
wrap_result-after Q E msg (ok a) s h = h
wrap_result-after Q E msg (err e) s h = h
wrap_result-after Q E msg panicked s h = h

module _ {S : Type 0} {P : S → Type 0} {E : S → Type 0} where
  pub Triple-bind :
      {A B : Type 0} {m : Action S A} {f : A → Action S B} {Q : A → S → Type 0} {R : B → S → Type 0}
      → Triple P m Q E
      → ((a : A) → Triple (Q a) (f a) R E)
      → Triple P (m >>= f) R E
  Triple-bind {m = m} {f} {Q} {R} tm tf = record {
    at = λ s h. then_do-after Q R E f (m s).0 (m s).1 tf (tm.at s h);
  }

  pub Triple-wrapping :
      {A : Type 0} (msg : String) {m : Action S A} {Q : A → S → Type 0}
      → Triple P m Q E
      → Triple P (wrapping msg m) Q E
  Triple-wrapping msg {m} {Q} tm = record {
    at = λ s h. wrap_result-after Q E msg (m s).0 (m s).1 (tm.at s h);
  }
