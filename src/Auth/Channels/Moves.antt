-- ===== src/Auth/Channels/Moves.antt =====
-- What a step does to each attempt: the goroutine works, a value is taken from a channel, or nothing.
use mathlib.Core.Path.{subst}
use telecollection.Prelude.{
  ℕ, ◌≡◌, refl, sym, ◌==◌, ==_iff, Bool-cases, Bytes, Bool, true, false, ◌⊎◌, inl, inr, Option,
  none, some, [], ◌∷◌, ◌++◌, Error,
}
use telecollection.Auth.{Flow}
use telecollection.Auth.Steps.{Kind}
use telecollection.Auth.Attempts.{
  Stage, not_launched, running, in_code, in_password, returned, recorded, over, Attempt, Attempts,
  put, new_attempt, launched, Work, asks_code, asks_password, leaves_code, leaves_password,
  shows_url, returns, records, sends, Receives, receives,
}

pub data Moves : Attempt → Attempt → Type 0 where
  stays : (a : Attempt) → Moves a a
  by_work :
      (g : ℕ) (f : Flow) (a : Attempt) (f' : Flow) (a' : Attempt) → Work g f a f' a' → Moves a a'
  loses_done : (a : Attempt) → Moves a (record a { done = none })
  loses_url : (a : Attempt) → Moves a (record a { url_buffer = none })
  takes :
      (a : Attempt) (text : Bytes)
      → (a.stage ≡ in_code) ⊎ (a.stage ≡ in_password)
      → Moves a (record a { stage = running; received = a.received ++ text ∷ [] })
  launches : (a : Attempt) → Moves a (record a { stage = launched a.stage })

-- What happens at one generation in a step that ends with the flow `f`.
pub data Change (f : Flow) (g : ℕ) : Option Attempt → Option Attempt → Type 0 where
  absent : Change f g none none
  created :
      (kind : Kind) (phone : Bytes) (stage : Stage)
      → (stage ≡ running) ⊎ (stage ≡ not_launched)
      → f.gen ≡ g
      → f.cancel ≡ some g
      → Change f g none (some (new_attempt kind phone stage))
  moved : (a a' : Attempt) → Moves a a' → Change f g (some a) (some a')

abbrev pub Evolves : Flow → Attempts → Attempts → Type 0
Evolves f ts ts' = (g : ℕ) → Change f g (ts g) (ts' g)

unchanged : (f : Flow) (g : ℕ) (o : Option Attempt) → Change f g o o
unchanged f g none = absent
unchanged f g (some a) = moved a a (stays a)

pub Evolves-refl : (f : Flow) (ts : Attempts) → Evolves f ts ts
Evolves-refl f ts g = unchanged f g (ts g)

pub put-same : {A : Type 0} (g : ℕ) (a : A) (m : ℕ → Option A) → put g a m g ≡ some a
put-same g a m = rw ((==_iff g g).1 refl) refl

pub put-other :
    {A : Type 0} (g x : ℕ) (a : A) (m : ℕ → Option A) → (x == g) ≡ false → put g a m x ≡ m x
put-other g x a m h = rw h refl

Evolves-change :
    (f : Flow) (ts : Attempts) (g : ℕ) (a : Attempt)
    → Change f g (ts g) (some a)
    → Evolves f ts (put g a ts)
Evolves-change f ts g a c x = elim (Bool-cases (x == g)) [
  | inl t ↦
      subst (λ z. Change f z (ts z) (put g a ts z)) (sym ((==_iff x g).0 t))
        (subst (λ o. Change f g (ts g) o) (sym (put-same g a ts)) c)
  | inr t ↦ subst (λ o. Change f x (ts x) o) (sym (put-other g x a ts t)) (unchanged f x (ts x))
]

pub Evolves-put :
    (f : Flow) (ts : Attempts) (g : ℕ) (a a' : Attempt)
    → ts g ≡ some a
    → Moves a a'
    → Evolves f ts (put g a' ts)
Evolves-put f ts g a a' h m =
    Evolves-change f ts g a' (subst (λ o. Change f g o (some a')) (sym h) (moved a a' m))

pub Evolves-new :
    (f : Flow) (ts : Attempts) (g : ℕ) (kind : Kind) (phone : Bytes) (stage : Stage)
    → ts g ≡ none
    → (stage ≡ running) ⊎ (stage ≡ not_launched)
    → f.gen ≡ g
    → f.cancel ≡ some g
    → Evolves f ts (put g (new_attempt kind phone stage) ts)
Evolves-new f ts g kind phone stage h s e c = Evolves-change f ts g _ (
    subst (λ o. Change f g o (some (new_attempt kind phone stage))) (sym h)
      (created kind phone stage s e c))

pub Receives-Evolves :
    (f : Flow) {ts ts' : Attempts} {d : Option ℕ} {e : Option Error}
    → Receives ts d e ts'
    → Evolves f ts ts'
Receives-Evolves f {ts} (receives g a e h t) = Evolves-put f ts g a _ h (loses_done a)

pub Change-some :
    {f : Flow} {g : ℕ} {o o' : Option Attempt} (a : Attempt)
    → Change f g o o'
    → o ≡ some a
    → (a' : Attempt) × (o' ≡ some a') × Moves a a'
Change-some a absent h = cc
Change-some a (created kind phone stage s e c) h = cc
Change-some a (moved b b' m) h = let same : b ≡ a = cc in (b', refl, subst (λ z. Moves z b') same m)

-- Where an attempt comes from.
pub Change-back :
    {f : Flow} {g : ℕ} {o o' : Option Attempt} (a' : Attempt)
    → Change f g o o'
    → o' ≡ some a'
    → ((a : Attempt) × (o ≡ some a) × Moves a a')
      ⊎ ((o ≡ none) × (a'.done ≡ none) × (f.gen ≡ g) × (f.cancel ≡ some g))
Change-back a' absent h = cc
Change-back a' (created kind phone stage s e c) h =
    let same : new_attempt kind phone stage ≡ a' = cc in
    inr (refl, subst (λ z. z.done ≡ none) same refl, e, c)
Change-back a' (moved b b' m) h =
    let same : b' ≡ a' = cc in inl (b, refl, subst (λ z. Moves b z) same m)

pub Change-none :
    {f : Flow} {g : ℕ} {o o' : Option Attempt}
    → Change f g o o'
    → o ≡ none
    → (o' ≡ none) ⊎ (f.gen ≡ g)
Change-none absent h = inl refl
Change-none (created kind phone stage s e c) h = inr e
Change-none (moved b b' m) h = cc

-- The goroutine still has to record its outcome, or to be launched.
abbrev pub alive : Stage → Bool
alive not_launched = true
alive running = true
alive in_code = true
alive in_password = true
alive (returned e) = true
alive (recorded e) = false
alive (over e) = false

launched-alive : (s : Stage) → alive (launched s) ≡ true → alive s ≡ true
launched-alive not_launched h = refl
launched-alive running h = refl
launched-alive in_code h = refl
launched-alive in_password h = refl
launched-alive (returned e) h = refl
launched-alive (recorded e) h = h
launched-alive (over e) h = h

Work-alive :
    {g : ℕ} {f : Flow} {a : Attempt} {f' : Flow} {a' : Attempt}
    → Work g f a f' a'
    → alive a'.stage ≡ true
    → alive a.stage ≡ true
Work-alive (asks_code f a own s k) h = rw s refl
Work-alive (asks_password f a own s k) h = rw s refl
Work-alive (leaves_code f a s c) h = rw s refl
Work-alive (leaves_password f a s c) h = rw s refl
Work-alive (shows_url f a u s k) h = h
Work-alive (returns f a e s) h = rw s refl
Work-alive (records f a e s) h = cc
Work-alive (sends f a e s d) h = cc

pub Moves-alive : {a a' : Attempt} → Moves a a' → alive a'.stage ≡ true → alive a.stage ≡ true
Moves-alive (stays a) h = h
Moves-alive (by_work g f a f' a' w) h = Work-alive w h
Moves-alive (loses_done a) h = h
Moves-alive (loses_url a) h = h
Moves-alive (takes a text (inl s)) h = rw s refl
Moves-alive (takes a text (inr s)) h = rw s refl
Moves-alive (launches a) h = launched-alive a.stage h

-- The `done` of an attempt holds what its goroutine ended with, and holds it only then.
abbrev pub Closed : Attempt → Type 0
Closed a = (e : Option Error) → a.done ≡ some e → a.stage ≡ over e

Work-Closed :
    {g : ℕ} {f : Flow} {a : Attempt} {f' : Flow} {a' : Attempt}
    → Work g f a f' a'
    → Closed a
    → Closed a'
Work-Closed (asks_code f a own s k) c e h = cc (c e h)
Work-Closed (asks_password f a own s k) c e h = cc (c e h)
Work-Closed (leaves_code f a s l) c e h = cc (c e h)
Work-Closed (leaves_password f a s l) c e h = cc (c e h)
Work-Closed (shows_url f a u s k) c e h = c e h
Work-Closed (returns f a r s) c e h = cc (c e h)
Work-Closed (records f a r s) c e h = cc (c e h)
Work-Closed (sends f a r s d) c e h = cc

pub Moves-Closed : {a a' : Attempt} → Moves a a' → Closed a → Closed a'
Moves-Closed (stays a) c e h = c e h
Moves-Closed (by_work g f a f' a' w) c e h = Work-Closed w c e h
Moves-Closed (loses_done a) c e h = cc
Moves-Closed (loses_url a) c e h = c e h
Moves-Closed (takes a text (inl s)) c e h = cc (c e h)
Moves-Closed (takes a text (inr s)) c e h = cc (c e h)
Moves-Closed (launches a) c e h = rw (c e h) refl

-- The goroutine has ended with `e`.
abbrev pub Over : Option Error → Attempt → Type 0
Over e a = a.stage ≡ over e

-- So it has, and its outcome was received.
abbrev pub Drained : Attempt → Type 0
Drained a = (e : Option Error) × (a.stage ≡ over e) × (a.done ≡ none)

Work-Over :
    {g : ℕ} {f : Flow} {a : Attempt} {f' : Flow} {a' : Attempt} (e : Option Error)
    → Work g f a f' a'
    → Over e a
    → Over e a' × (a'.done ≡ a.done)
Work-Over e (asks_code f a own s k) o = cc
Work-Over e (asks_password f a own s k) o = cc
Work-Over e (leaves_code f a s l) o = cc
Work-Over e (leaves_password f a s l) o = cc
Work-Over e (shows_url f a u s k) o = (o, refl)
Work-Over e (returns f a r s) o = cc
Work-Over e (records f a r s) o = cc
Work-Over e (sends f a r s d) o = cc

pub Moves-Over : {a a' : Attempt} (e : Option Error) → Moves a a' → Over e a → Over e a'
Moves-Over e (stays a) o = o
Moves-Over e (by_work g f a f' a' w) o = (Work-Over e w o).0
Moves-Over e (loses_done a) o = o
Moves-Over e (loses_url a) o = o
Moves-Over e (takes a text (inl s)) o = cc
Moves-Over e (takes a text (inr s)) o = cc
Moves-Over e (launches a) o = rw o refl

pub Moves-Drained : {a a' : Attempt} → Moves a a' → Drained a → Drained a'
Moves-Drained (stays a) d = d
Moves-Drained (by_work g f a f' a' w) (e, o, n) =
    let (o', same) = Work-Over e w o in (e, o', rw same n)
Moves-Drained (loses_done a) (e, o, n) = (e, o, refl)
Moves-Drained (loses_url a) d = d
Moves-Drained (takes a text (inl s)) (e, o, n) = cc
Moves-Drained (takes a text (inr s)) (e, o, n) = cc
Moves-Drained (launches a) (e, o, n) = (e, rw o refl, n)
