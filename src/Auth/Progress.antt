-- ===== src/Auth/Progress.antt =====
-- A login that is refused is refused because another attempt goes on, and its end opens the service
-- again.
use telecollection.Prelude.{
  ℕ, suc, ◌<◌, ◌^◌, ◌⊎◌, ◌≡◌, refl, arith, ◌==◌, ==_iff, Bytes, is_empty, true, false, Option, none,
  some, ok, err, Error, Bool-cases, inl, inr,
}
use telecollection.Auth.{
  Flow, State, reset_locked, start_login, start_qr, logout, finish_attempt, transition, abandon,
  err_login_in_progress,
}
use telecollection.Auth.Steps.{
  World, Kind, by_code, by_qr, Worker, goroutine, queued, launches, leaves_queue, set_worker, Late,
  asks_code, asks_password, ends, abandons, Step, goes_on, starts_login, starts_qr, logs_out,
  Reachable, at_start, step,
}

-- An attempt in progress has its goroutine.
abbrev Runs : World → Type 0
Runs w = w.flow.in_progress ≡ true → (k : Worker) × (w.workers w.flow.gen ≡ some k)

set_worker-same : (g : ℕ) (k : Option Worker) (ws : ℕ → Option Worker) → set_worker g k ws g ≡ k
set_worker-same g k ws = ground (arith, ==_iff g g)

transition-Runs :
    (w : World) (g : ℕ) (st : State) → Runs w → Runs (record w { flow = transition g st w.flow })
unfolding transition
transition-Runs w g st runs = elim (Bool-cases (w.flow.gen == g)) [
  | inl t ↦ rw t runs
  | inr t ↦ rw t runs
]

finish_attempt-Runs :
    (w : World) (g : ℕ) (e : Option Error)
    → Runs w
    → Runs (record { flow = finish_attempt g e w.flow; workers = set_worker g none w.workers })
unfolding finish_attempt
finish_attempt-Runs w g e runs = elim (Bool-cases (w.flow.gen == g)) [
  | inl t ↦ rw t (λ h. cc)
  | inr t ↦ rw t (λ h. let (k, r) = runs h in (k, rw t r))
]

logout-Runs : (w : World) → Runs (record w { flow = logout w.flow })
unfolding logout reset_locked
logout-Runs w h = cc

abandon-Runs : (w : World) (g : ℕ) → Runs w → Runs (record w { flow = abandon g w.flow })
unfolding abandon
abandon-Runs w g runs = elim (Bool-cases (w.flow.gen == g)) [
  | inl t ↦ rw t (logout-Runs w)
  | inr t ↦ rw t runs
]

launches-Runs :
    (w : World) (g : ℕ) (k : Kind)
    → Runs w
    → Runs (record w { workers = set_worker g (some (goroutine k)) w.workers })
launches-Runs w g k runs h = elim (Bool-cases (w.flow.gen == g)) [
  | inl t ↦ (goroutine k, rw t refl)
  | inr t ↦ let (j, r) = runs h in (j, rw t r)
]

leaves_queue-Runs :
    (w : World) (g : ℕ)
    → Runs w
    → Runs (record { flow = abandon g w.flow; workers = set_worker g none w.workers })
unfolding abandon logout reset_locked
leaves_queue-Runs w g runs = elim (Bool-cases (w.flow.gen == g)) [
  | inl t ↦ rw t (λ h. cc)
  | inr t ↦ rw t (λ h. let (j, r) = runs h in (j, rw t r))
]

Late-Runs : (w w' : World) → Late w w' → Runs w → Runs w'
Late-Runs _ _ (asks_code w g h) runs = transition-Runs w g _ runs
Late-Runs _ _ (asks_password w g h) runs = transition-Runs w g _ runs
Late-Runs _ _ (ends w g k e h) runs = finish_attempt-Runs w g e runs
Late-Runs _ _ (launches w g k h) runs = launches-Runs w g k runs
Late-Runs _ _ (leaves_queue w g k l h) runs = leaves_queue-Runs w g runs
Late-Runs _ _ (abandons w g h) runs = abandon-Runs w g runs

-- The goroutine of an accepted StartLogin is of the current generation.
start_login-gen : (s f : Flow) (phone : Bytes) (g : ℕ) → start_login phone s ≡ (ok g, f) → f.gen ≡ g
unfolding start_login reset_locked
start_login-gen s f phone g h = ground arith

Step-Runs : (w w' : World) → Step w w' → Runs w → Runs w'
unfolding start_qr reset_locked
Step-Runs _ _ (goes_on w w' late) runs = Late-Runs w w' late runs
Step-Runs _ _ (starts_login w phone g f h e) runs = λ b. (
  goroutine by_code,
  rw (start_login-gen w.flow f phone g e) (set_worker-same g (some (goroutine by_code)) w.workers),
)
Step-Runs _ _ (starts_qr w h) runs =
    λ b. (queued by_qr, set_worker-same _ (some (queued by_qr)) w.workers)
Step-Runs _ _ (logs_out w h) runs = logout-Runs w

Reachable-Runs : (w : World) → Reachable w → Runs w
Reachable-Runs _ at_start = λ h. cc
Reachable-Runs _ (step w0 w r s) = Step-Runs w0 w s (Reachable-Runs w0 r)

accepts :
    (s : Flow) (e : Option Error) (phone : Bytes)
    → is_empty phone ≡ false
    → (g : ℕ) × (f : Flow) × (start_login phone (finish_attempt s.gen e s) ≡ (ok g, f))
unfolding start_login finish_attempt
accepts s e phone h = rw (h, (==_iff s.gen s.gen).1 refl) (_, _, refl)

refused-in_progress :
    (s : Flow) (phone : Bytes)
    → is_empty phone ≡ false
    → start_login phone s ≡ (err err_login_in_progress, s)
    → s.in_progress ≡ true
unfolding start_login
refused-in_progress s phone h refused = elim (Bool-cases s.in_progress) [
  | inl t ↦ t
  | inr t ↦ let accepted = rw (h, t, start_login) at refused in cc
]

leaving-accepts :
    (s : Flow) (phone : Bytes)
    → is_empty phone ≡ false
    → (g : ℕ) × (f : Flow) × (start_login phone (abandon s.gen s) ≡ (ok g, f))
unfolding start_login abandon logout reset_locked
leaving-accepts s phone h = rw (h, (==_iff s.gen s.gen).1 refl) (_, _, refl)

-- A step of another request or of a goroutine leads to a state that accepts the login.
abbrev pub Opens : World → Bytes → World → Type 0
Opens w phone w' = Late w w' × (g : ℕ) × (f : Flow) × (start_login phone w'.flow ≡ (ok g, f))

abbrev pub after_end : World → Option Error → World
after_end w e = record {
  flow = finish_attempt w.flow.gen e w.flow;
  workers = set_worker w.flow.gen none w.workers;
}

abbrev pub after_leaving : World → World
after_leaving w = record {
  flow = abandon w.flow.gen w.flow;
  workers = set_worker w.flow.gen none w.workers;
}

-- In a reachable state that refuses a login for a phone number because another is in progress, one of
-- two holds: the goroutine of the current attempt runs, and whatever it ends with, the state after that
-- accepts the login; or the current attempt is of a StartQR that has yet to launch its goroutine, and
-- the state after it leaves, its own context done, accepts the login.
pub start_login-accepted :
    (w : World) (phone : Bytes) (e : Option Error)
    → Reachable w
    → suc w.flow.gen < 2 ^ 64
    → is_empty phone ≡ false
    → start_login phone w.flow ≡ (err err_login_in_progress, w.flow)
    → ((k : Kind) × (w.workers w.flow.gen ≡ some (goroutine k)) × Opens w phone (after_end w e))
      ⊎ ((k : Kind) × (w.workers w.flow.gen ≡ some (queued k)) × Opens w phone (after_leaving w))
start_login-accepted w phone e r small h refused =
    let (worker, runs) = Reachable-Runs w r (refused-in_progress w.flow phone h refused) in
    opened worker runs
  where
    opened :
        (worker : Worker)
        → w.workers w.flow.gen ≡ some worker
        → ((k : Kind) × (w.workers w.flow.gen ≡ some (goroutine k)) × Opens w phone (after_end w e))
          ⊎ ((k : Kind) × (w.workers w.flow.gen ≡ some (queued k))
              × Opens w phone (after_leaving w))
    opened (goroutine k) q =
        let (g, f, a) = accepts w.flow e phone h in inl (k, q, (ends w w.flow.gen k e q, g, f, a))
    opened (queued k) q =
        let (g, f, a) = leaving-accepts w.flow phone h in
        inr (k, q, (leaves_queue w w.flow.gen k small q, g, f, a))
