-- ===== src/Auth/Channels/Contexts.antt =====
-- The contexts of the attempts, through every critical section.
use telecollection.Prelude.{
  ℕ, suc, ◌<◌, ◌≤◌, ◌^◌, ◌≡◌, refl, ◌==◌, ==_iff, Bool-cases, arith, true, ◌⊎◌, inl, inr, Option,
  none, some, List, Error,
}
use telecollection.Auth.{
  Flow, State, call_cancel, reset_locked, start_qr, logout, finish_attempt, transition, abandon,
  StartWake, code_requested, ended, ctx_done, start_login_wait, await_previous, QrWake, url,
  qr_ended, qr_ctx_done, start_qr_wait,
}
use telecollection.Auth.Invariant.{next_gen, started}
use telecollection.Auth.Attempts.{is_cancelled}

-- The attempt `g` has a context that is cancelled, or that its cancel function can still cancel.
abbrev pub Held : Flow → ℕ → Type 0
Held f g = ((f.gen ≡ g) × (f.cancel ≡ some g)) ⊎ (is_cancelled g f.cancelled ≡ true)

-- No generation is reused, and no context is lost.
pub record Grows (f f' : Flow) : Type 0 where
  pub gen : f.gen ≤ f'.gen
  pub held : (g : ℕ) → Held f g → Held f' g

pub Grows-refl : (f : Flow) → Grows f f
Grows-refl f = record { gen = omega arith; held = λ g h. h }

cancelled_more :
    (g : ℕ) (o : Option ℕ) (l : List ℕ)
    → is_cancelled g l ≡ true
    → is_cancelled g (call_cancel o l) ≡ true
cancelled_more g none l h = h
cancelled_more g (some c) l h = ground arith

cancelling :
    (f : Flow) (g : ℕ) → Held f g → is_cancelled g (call_cancel f.cancel f.cancelled) ≡ true
cancelling f g (inl (e, c)) = rw (c, (==_iff g g).1 refl) refl
cancelling f g (inr h) = cancelled_more g f.cancel f.cancelled h

pub logout-Grows : (f : Flow) → suc f.gen < 2 ^ 64 → Grows f (logout f)
unfolding logout reset_locked
logout-Grows f h = record {
  gen = omega (arith, next_gen f.gen h);
  held = λ g l. inr (cancelling f g l);
}

pub started-Grows : (f : Flow) → Grows f (started f)
started-Grows f = record { gen = omega arith; held = λ g l. inr (cancelling f g l) }

pub start_qr-Grows : (f : Flow) → suc f.gen < 2 ^ 64 → Grows f (start_qr f).1
unfolding start_qr reset_locked
start_qr-Grows f h = record {
  gen = omega (arith, next_gen f.gen h);
  held = λ g l. inr (cancelling f g l);
}

pub transition-Grows : (g : ℕ) (st : State) (f : Flow) → Grows f (transition g st f)
unfolding transition
transition-Grows g st f = elim (Bool-cases (f.gen == g)) [
  | inl t ↦ rw t (record { gen = omega arith; held = λ x l. l })
  | inr t ↦ rw t (Grows-refl f)
]

pub finish_attempt-Grows : (g : ℕ) (e : Option Error) (f : Flow) → Grows f (finish_attempt g e f)
unfolding finish_attempt
finish_attempt-Grows g e f = elim (Bool-cases (f.gen == g)) [
  | inl t ↦ rw t (record { gen = omega arith; held = λ x l. inr (cancelling f x l) })
  | inr t ↦ rw t (Grows-refl f)
]

abandon-Grows : (g : ℕ) (f : Flow) → suc f.gen < 2 ^ 64 → Grows f (abandon g f)
unfolding abandon
abandon-Grows g f h = elim (Bool-cases (f.gen == g)) [
  | inl t ↦ rw t (logout-Grows f h)
  | inr t ↦ rw t (Grows-refl f)
]

pub start_login_wait-Grows :
    (g : ℕ) (w : StartWake) (f : Flow) → suc f.gen < 2 ^ 64 → Grows f (start_login_wait g w f).1
unfolding start_login_wait
start_login_wait-Grows g code_requested f h = Grows-refl f
start_login_wait-Grows g (ended e) f h = Grows-refl f
start_login_wait-Grows g (ctx_done e) f h = abandon-Grows g f h

pub await_previous-Grows :
    (g : ℕ) (e : Option Error) (f : Flow) → suc f.gen < 2 ^ 64 → Grows f (await_previous g e f).1
unfolding await_previous
await_previous-Grows g none f h = Grows-refl f
await_previous-Grows g (some e) f h = abandon-Grows g f h

pub start_qr_wait-Grows :
    (g : ℕ) (w : QrWake) (f : Flow) → suc f.gen < 2 ^ 64 → Grows f (start_qr_wait g w f).1
unfolding start_qr_wait
start_qr_wait-Grows g (url u) f h = Grows-refl f
start_qr_wait-Grows g (qr_ended none) f h = Grows-refl f
start_qr_wait-Grows g (qr_ended (some e)) f h = Grows-refl f
start_qr_wait-Grows g (qr_ctx_done e) f h = abandon-Grows g f h
