-- ===== src/Prelude/Go.antt =====
-- Go's strings as lists of bytes, its errors as chains of messages, and its (value, error) results.
use Prim.Native.Nat.{ℕ}
use Prim.Native.Char.{code}
use Prim.Native.String.{String}
use mathlib.Core.Path.{◌≡◌, refl, ap, subst}
use mathlib.Core.Bool.{Bool, true, false, ◌&&◌}
use mathlib.Core.Option.{Option, none, some}
use mathlib.Core.List.{List, [], ◌∷◌}
use native.Mathlib.Omega.{arith}
use telecollection.Prelude.Tests.{◌==◌, ==_iff}

abbrev pub Bytes : Type 0
Bytes = List ℕ

-- The bytes of an ASCII literal.
abbrev pub codes : String → Bytes
codes String.[] = []
codes (String.◌∷◌ c s) = code c ∷ codes s

-- s == ""
abbrev pub is_empty : Bytes → Bool
is_empty [] = true
is_empty (_ ∷ _) = false

-- s == t
unfoldable pub same_text : Bytes → Bytes → Bool
same_text [] [] = true
same_text [] (_ ∷ _) = false
same_text (_ ∷ _) [] = false
same_text (c ∷ s) (d ∷ t) = let rest = same_text s t in (c == d) && rest

pub same_text-eq : (s t : Bytes) → same_text s t ≡ true → s ≡ t
unfolding same_text
same_text-eq [] [] h = refl
same_text-eq [] (d ∷ t) h = cc
same_text-eq (c ∷ s) [] h = cc
same_text-eq (c ∷ s) (d ∷ t) h = ground (arith, ==_iff c d, same_text-eq s t)

-- `new` is errors.New, or fmt.Errorf without %w; `wrap` is fmt.Errorf with %w. The message is the
-- constant text in front: numbers and names that are formatted into it are left out.
pub data Error : Type 0 where
  new : String → Error
  wrap : String → Error → Error

-- What a call gives: a value, an error beside the zero value, or a panic that unwinds the stack.
pub data Result {ℓ} (A : Type ℓ) : Type ℓ where
  ok : A → Result A
  err : Error → Result A
  panicked : Result A

-- A method that changes `S` and returns a value or an error.
abbrev pub Action : Type 0 → Type 0 → Type 0
Action S A = S → Result A × S

abbrev pub then_do : {S A B : Type 0} → Result A → (A → Action S B) → Action S B
then_do (ok a) f s = f a s
then_do (err e) f s = (err e, s)
then_do panicked f s = (panicked, s)

infixl 5 ◌>>=◌ ◌>>◌
abbrev pub ◌>>=◌ : {S A B : Type 0} → Action S A → (A → Action S B) → Action S B
◌>>=◌ m f s = let (r, s') = m s in then_do r f s'

abbrev pub ◌>>◌ : {S A B : Type 0} → Action S A → Action S B → Action S B
m >> k = m >>= λ _. k

abbrev pub pure : {S A : Type 0} → A → Action S A
pure a s = (ok a, s)

abbrev pub raise : {S A : Type 0} → Error → Action S A
raise e s = (err e, s)

abbrev pub wrap_result : {A : Type 0} → String → Result A → Result A
wrap_result msg (ok a) = ok a
wrap_result msg (err e) = err (wrap msg e)
wrap_result msg panicked = panicked

-- `if err != nil { return ..., fmt.Errorf("msg: %w", err) }`
abbrev pub wrapping : {S A : Type 0} → String → Action S A → Action S A
wrapping msg m s = let (r, s') = m s in (wrap_result msg r, s')

-- `if bad { return ..., e }`
abbrev pub refuse_if : {S : Type 0} → Bool → Error → Action S (Unit {0})
refuse_if true e = raise e
refuse_if false e = pure tt

abbrev pub lift : {S A : Type 0} → Result A → Action S A
lift r s = (r, s)

-- A call whose error the caller goes on with: the closure of `if _, err := f(); err != nil`.
abbrev attempted : {A : Type 0} → Result A → Result (Option Error)
attempted (ok a) = ok none
attempted (err e) = ok (some e)
attempted panicked = panicked

abbrev pub try_call : {S A : Type 0} → Action S A → Action S (Option Error)
try_call m s = let (r, s') = m s in (attempted r, s')

abbrev get_ok : {A : Type 0} → A → Result A → A
get_ok d (ok a) = a
get_ok d (err e) = d
get_ok d panicked = d

pub ok-injective : {A : Type 0} {a b : A} → ok a ≡ ok b → a ≡ b
ok-injective {A} {a} h = ap (get_ok a) h

-- Inversion of a chain that returned a value.
then_do-ok :
    {S A B : Type 0} (r : Result A) (f : A → Action S B) (s : S) {b : B} {s' : S}
    → then_do r f s ≡ (ok b, s')
    → (a : A) × (r ≡ ok a) × (f a s ≡ (ok b, s'))
then_do-ok (ok a) f s h = (a, refl, h)
then_do-ok (err e) f s h = cc
then_do-ok panicked f s h = cc

wrap_result-ok :
    {A : Type 0} (msg : String) (r : Result A) {a : A} → wrap_result msg r ≡ ok a → r ≡ ok a
wrap_result-ok msg (ok a) h = h
wrap_result-ok msg (err e) h = cc
wrap_result-ok msg panicked h = cc

-- Where `m` returns a value from `s`, `Q` holds of it and of the state behind.
pub record Yields {S A : Type 0} (m : Action S A) (s : S) (Q : A → S → Type 0) : Type 0 where
  pub at : {a : A} {s' : S} → m s ≡ (ok a, s') → Q a s'

module _ {S : Type 0} {s : S} where
  pub Yields-bind :
      {A B : Type 0} (m : Action S A) (f : A → Action S B) {P : A → S → Type 0} {Q : B → S → Type 0}
      → Yields m s P
      → ((a : A) (t : S) → P a t → Yields (f a) t Q)
      → Yields (m >>= f) s Q
  Yields-bind m f ym yf = record {
    at = λ h.
        let (a, e, g) = then_do-ok (m s).0 f (m s).1 h in
        (yf a (m s).1 (ym.at (λ i. (e i, (m s).1)))).at g;
  }

  pub Yields-wrapping :
      {A : Type 0} (msg : String) (m : Action S A) {Q : A → S → Type 0}
      → Yields m s Q
      → Yields (wrapping msg m) s Q
  Yields-wrapping msg m ym = record {
    at = λ h. ym.at (λ i. (wrap_result-ok msg (m s).0 (ap (λ p. p.0) h) i, (h i).1));
  }

  -- `lift r` leaves the state alone.
  pub Yields-lift :
      {A B : Type 0} (r : Result A) (f : A → Action S B) {Q : B → S → Type 0}
      → ((a : A) → r ≡ ok a → Yields (f a) s Q)
      → Yields (lift r >>= f) s Q
  Yields-lift r f yf = record { at = λ h. let (a, e, g) = then_do-ok r f s h in (yf a e).at g }

  pub Yields-pure : {A : Type 0} (a : A) {Q : A → S → Type 0} → Q a s → Yields (pure a) s Q
  Yields-pure {A} a {Q} q = record {
    at = λ {s' = s'} h.
        subst (λ z. Q z s') (ok-injective (ap (λ p. p.0) h))
          (subst (λ t. Q a t) (ap (λ p. p.1) h) q);
  }

-- `m` keeps `P`, whether it returns, fails or panics.
pub record Keeps {S A : Type 0} (P : S → Type 0) (m : Action S A) : Type 0 where
  pub at : (s : S) → P s → P (m s).1

module _ {S : Type 0} {P : S → Type 0} where
  pub Keeps-lift : {A : Type 0} (r : Result A) → Keeps P (lift r)
  Keeps-lift r = record { at = λ s h. h }

  then_do-keeps :
      {A B : Type 0} (r : Result A) (f : A → Action S B)
      → ((a : A) → Keeps P (f a))
      → (s : S) → P s
      → P (then_do r f s).1
  then_do-keeps (ok a) f kf s h = (kf a).at s h
  then_do-keeps (err e) f kf s h = h
  then_do-keeps panicked f kf s h = h

  pub Keeps-bind :
      {A B : Type 0} (m : Action S A) (f : A → Action S B)
      → Keeps P m
      → ((a : A) → Keeps P (f a))
      → Keeps P (m >>= f)
  Keeps-bind m f km kf = record { at = λ s h. then_do-keeps (m s).0 f kf (m s).1 (km.at s h) }

  pub Keeps-wrapping :
      {A : Type 0} (msg : String) (m : Action S A) → Keeps P m → Keeps P (wrapping msg m)
  Keeps-wrapping msg m km = record { at = km.at }

  pub Keeps-pure : {A : Type 0} (a : A) → Keeps P (pure a)
  Keeps-pure a = record { at = λ s h. h }

  pub Keeps-raise : {A : Type 0} (e : Error) → Keeps P (raise {A = A} e)
  Keeps-raise e = record { at = λ s h. h }

pub ruleset keeps_rules = (Keeps-lift, Keeps-bind, Keeps-wrapping, Keeps-pure, Keeps-raise)
