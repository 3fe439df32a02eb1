-- ===== src/Auth/Channels/Workers.antt =====
-- The goroutines that the attempts still have, and what leaves them alone.
use mathlib.Core.Path.{subst, fun_ext}
use telecollection.Prelude.{
  ℕ, ◌≡◌, refl, sym, ◌∙◌, ◌==◌, ==_iff, Bool-cases, inl, inr, Option, none, some, Error, ◌⊎◌,
}
use telecollection.Auth.{StartWake, SubmitWake, EndWake, QrWake}
use telecollection.Auth.Steps.{Kind, Worker, goroutine, queued, set_worker}
use telecollection.Auth.Attempts.{
  Stage, not_launched, running, in_code, in_password, returned, recorded, over, Attempt, Attempts,
  put, launched, Receives, receives, StartWakes, by_request, by_end, by_ctx, SubmitWakes,
  by_password, by_finish, by_leaving, EndWakes, by_outcome, by_giving_up, QrWakes, by_url,
  by_failure, by_leave,
}

abbrev pub worker_at : Stage → Kind → Option Worker
worker_at not_launched k = some (queued k)
worker_at running k = some (goroutine k)
worker_at in_code k = some (goroutine k)
worker_at in_password k = some (goroutine k)
worker_at (returned e) k = some (goroutine k)
worker_at (recorded e) k = none
worker_at (over e) k = none

-- The goroutine that an attempt still has, or has yet to launch.
abbrev pub worker_of : Option Attempt → Option Worker
worker_of none = none
worker_of (some a) = worker_at a.stage a.kind

abbrev pub workers_of : Attempts → ℕ → Option Worker
workers_of ts g = worker_of (ts g)

pub workers-put :
    (ts : Attempts) (g : ℕ) (a : Attempt)
    → workers_of (put g a ts) ≡ set_worker g (worker_of (some a)) (workers_of ts)
workers-put ts g a =
    fun_ext (λ x. elim (Bool-cases (x == g)) [ inl t ↦ rw t refl | inr t ↦ rw t refl ])

set_worker_self :
    (ts : Attempts) (g : ℕ) (a : Attempt)
    → ts g ≡ some a
    → set_worker g (worker_of (some a)) (workers_of ts) ≡ workers_of ts
set_worker_self ts g a h = fun_ext (λ x. elim (Bool-cases (x == g)) [
  | inl t ↦
      rw t (subst (λ z. worker_of (some a) ≡ worker_of (ts z)) (sym ((==_iff x g).0 t)) (rw h refl))
  | inr t ↦ rw t refl
])

-- What keeps the goroutine keeps the workers.
pub quiet-put :
    (ts : Attempts) (g : ℕ) (a a' : Attempt)
    → ts g ≡ some a
    → worker_of (some a') ≡ worker_of (some a)
    → workers_of (put g a' ts) ≡ workers_of ts
quiet-put ts g a a' h e = workers-put ts g a' ∙ rw e (set_worker_self ts g a h)

pub Receives-quiet :
    {ts ts' : Attempts} {d : Option ℕ} {e : Option Error}
    → Receives ts d e ts'
    → workers_of ts' ≡ workers_of ts
Receives-quiet {ts} (receives g a e h t) = quiet-put ts g a _ h refl

pub StartWakes-quiet :
    {ts ts' : Attempts} {g : ℕ} {w : StartWake}
    → StartWakes ts g w ts'
    → workers_of ts' ≡ workers_of ts
StartWakes-quiet (by_request a h r) = refl
StartWakes-quiet (by_end e ts' r) = Receives-quiet r
StartWakes-quiet (by_ctx e) = refl

pub SubmitWakes-quiet :
    {ts ts' : Attempts} {d auth : Option ℕ} {w : SubmitWake}
    → SubmitWakes ts d auth w ts'
    → workers_of ts' ≡ workers_of ts
SubmitWakes-quiet (by_password g a h r) = refl
SubmitWakes-quiet (by_finish a e ts' r) = Receives-quiet r
SubmitWakes-quiet (by_leaving a e) = refl

pub EndWakes-quiet :
    {ts ts' : Attempts} {d : Option ℕ} {w : EndWake}
    → EndWakes ts d w ts'
    → workers_of ts' ≡ workers_of ts
EndWakes-quiet (by_outcome e ts' r) = Receives-quiet r
EndWakes-quiet (by_giving_up e) = refl

pub QrWakes-quiet :
    {ts : Attempts} {g : ℕ} {w : QrWake} {ts' : Attempts}
    → QrWakes ts g w ts'
    → workers_of ts' ≡ workers_of ts
QrWakes-quiet {ts} {g} (by_url a u h r) = quiet-put ts g a _ h refl
QrWakes-quiet (by_failure e ts' r) = Receives-quiet r
QrWakes-quiet (by_leave e) = refl

-- What is launched was queued, or nothing is launched.
pub launched-worker :
    (s : Stage) (k : Kind)
    → (worker_at (launched s) k ≡ worker_at s k)
      ⊎ ((worker_at s k ≡ some (queued k)) × (worker_at (launched s) k ≡ some (goroutine k)))
launched-worker not_launched k = inr (refl, refl)
launched-worker running k = inl refl
launched-worker in_code k = inl refl
launched-worker in_password k = inl refl
launched-worker (returned e) k = inl refl
launched-worker (recorded e) k = inl refl
launched-worker (over e) k = inl refl
