-- ===== src/Auth/Invariant.antt =====
-- What holds between the critical sections of Flow.
use mathlib.Core.Path.{subst}
use telecollection.Prelude.{
  sym, ==_iff, Bool-cases, ◌⊎◌, is_empty, inl, inr, ℕ, suc, ◌<◌, ◌%◌, ◌^◌, ◌≡◌, refl, ◌==◌, arith,
  Bytes, Bool, true, false, Option, none, some, ok, err, Error,
}
use telecollection.Auth.{
  Flow, State, logged_out, logged_in, wait_code, wait_password, call_cancel, reset_locked,
  start_login, start_qr, logout, finish_attempt, transition, abandon, submit_code, submit_password,
  err_login_in_progress,
}
use telecollection.Auth.Steps.{
  World, Kind, by_code, by_qr, Worker, goroutine, queued, launches, leaves_queue, set_worker,
  initial, Late, asks_code, asks_password, ends, abandons, Step, goes_on, starts_login, starts_qr,
  logs_out, Reachable, at_start, step,
}

abbrev waits : State → Bool
waits wait_code = true
waits wait_password = true
waits logged_out = false
waits logged_in = false

-- No goroutine is of a generation to come; a state that waits has its goroutine; and the goroutine of
-- the current generation has the Flow, and its authenticator if it is of StartLogin; only StartQR launches late.
pub record Inv (w : World) : Type 0 where
  pub fresh : (g : ℕ) → w.flow.gen < g → w.workers g ≡ none
  pub waiting : waits w.flow.state ≡ true → w.workers w.flow.gen ≡ some (goroutine by_code)
  pub busy : (k : Worker) → w.workers w.flow.gen ≡ some k → w.flow.in_progress ≡ true
  pub late : (g : ℕ) (k : Kind) → w.workers g ≡ some (queued k) → k ≡ by_qr
  pub owner :
      w.workers w.flow.gen ≡ some (goroutine by_code)
      → (w.flow.auth ≡ some w.flow.gen)
        × (w.flow.done ≡ some w.flow.gen)
        × (w.flow.cancel ≡ some w.flow.gen)

initial-Inv : Inv initial
initial-Inv = record {
  fresh = λ g h. refl;
  waiting = λ h. cc;
  busy = λ k h. cc;
  late = λ g k h. cc;
  owner = λ h. cc;
}

pub next_gen : (n : ℕ) → suc n < 2 ^ 64 → suc n % 2 ^ 64 ≡ suc n
next_gen n h = omega arith

pub logout-Inv :
    (w : World) → suc w.flow.gen < 2 ^ 64 → Inv w → Inv (record w { flow = logout w.flow })
unfolding logout reset_locked
logout-Inv w h inv = rw (next_gen w.flow.gen h) (record {
  fresh = λ g l. inv.fresh g (omega arith);
  waiting = λ q. cc;
  busy = λ k q. cc (inv.fresh (suc w.flow.gen) (omega arith));
  late = inv.late;
  owner = λ q. let none_new = inv.fresh (suc w.flow.gen) (omega arith) in ground arith;
})

transition-Inv :
    (w : World) (g : ℕ) (st : State)
    → w.workers g ≡ some (goroutine by_code)
    → Inv w
    → Inv (record w { flow = transition g st w.flow })
unfolding transition
transition-Inv w g st h inv = elim (Bool-cases (w.flow.gen == g)) [
  | inl t ↦ rw t (record {
    fresh = inv.fresh;
    waiting = λ q.
        subst (λ z. w.workers z ≡ some (goroutine by_code)) (sym ((==_iff w.flow.gen g).0 t)) h;
    busy = inv.busy;
    late = inv.late;
    owner = inv.owner;
  })
  | inr t ↦ rw t (record {
    fresh = inv.fresh;
    waiting = inv.waiting;
    busy = inv.busy;
    late = inv.late;
    owner = inv.owner;
  })
]

unset :
    (g x : ℕ) (k : Worker) (ws : ℕ → Option Worker)
    → set_worker g none ws x ≡ some k
    → ws x ≡ some k
unset g x k ws h = ground arith

finish_attempt-Inv :
    (w : World) (g : ℕ) (e : Option Error)
    → Inv w
    → Inv (record { flow = finish_attempt g e w.flow; workers = set_worker g none w.workers })
unfolding finish_attempt
finish_attempt-Inv w g e inv = elim (Bool-cases (w.flow.gen == g)) [
  | inl t ↦ rw t (record {
    fresh = λ x l. let f = inv.fresh x l in ground arith;
    waiting = λ q. ground arith;
    busy = λ k q. cc;
    late = λ x k q. inv.late x k (unset g x (queued k) w.workers q);
    owner = λ q. ground arith;
  })
  | inr t ↦ rw t (record {
    fresh = λ x l. let f = inv.fresh x l in ground arith;
    waiting = λ q. rw t (inv.waiting q);
    busy = λ k q. inv.busy k (unset g w.flow.gen k w.workers q);
    late = λ x k q. inv.late x k (unset g x (queued k) w.workers q);
    owner = λ q. inv.owner (unset g w.flow.gen (goroutine by_code) w.workers q);
  })
]

start_qr-Inv :
    (w : World)
    → suc w.flow.gen < 2 ^ 64
    → Inv w
    → Inv (record {
      flow = (start_qr w.flow).1;
      workers = set_worker (start_qr w.flow).0.0 (some (queued by_qr)) w.workers;
    })
unfolding start_qr
start_qr-Inv w h inv = rw (next_gen w.flow.gen h) (record {
  fresh = λ x l. let f = inv.fresh x (omega arith) in ground arith;
  waiting = λ q. cc;
  busy = λ k q. refl;
  late = λ x k q. let l = inv.late x k in ground arith;
  owner = λ q. ground (arith, ==_iff (suc w.flow.gen) (suc w.flow.gen));
})

-- The flow of an accepted StartLogin.
abbrev pub started : Flow → Flow
started s = record s {
  cancelled = call_cancel s.cancel s.cancelled;
  in_progress = true;
  gen = suc s.gen;
  cancel = some (suc s.gen);
  auth = some (suc s.gen);
  done = some (suc s.gen);
}

pub start_login-ok :
    (s f : Flow) (phone : Bytes) (g : ℕ)
    → suc s.gen < 2 ^ 64
    → start_login phone s ≡ (ok g, f)
    → (s.in_progress ≡ false) × (g ≡ suc s.gen) × (f ≡ started s)
unfolding start_login reset_locked
start_login-ok s f phone g h e = ground (arith, next_gen s.gen h)

started-Inv :
    (w : World)
    → w.flow.in_progress ≡ false
    → Inv w
    → Inv (record {
      flow = started w.flow;
      workers = set_worker (suc w.flow.gen) (some (goroutine by_code)) w.workers;
    })
started-Inv w idle inv = record {
  fresh = λ x l. let f = inv.fresh x (omega arith) in ground arith;
  waiting = λ q. let b = inv.busy (goroutine by_code) (inv.waiting q) in cc;
  busy = λ k q. refl;
  late = λ x k q. let l = inv.late x k in ground arith;
  owner = λ q. (refl, refl, refl);
}

start_login-Inv :
    (w : World) (phone : Bytes) (g : ℕ) (f : Flow)
    → suc w.flow.gen < 2 ^ 64
    → start_login phone w.flow ≡ (ok g, f)
    → Inv w
    → Inv (record { flow = f; workers = set_worker g (some (goroutine by_code)) w.workers })
start_login-Inv w phone g f h e inv =
    let (idle, eg, ef) = start_login-ok w.flow f phone g h e in rw (eg, ef) (started-Inv w idle inv)

abandon-Inv :
    (w : World) (g : ℕ)
    → suc w.flow.gen < 2 ^ 64
    → Inv w
    → Inv (record w { flow = abandon g w.flow })
unfolding abandon
abandon-Inv w g h inv = elim (Bool-cases (w.flow.gen == g)) [
  | inl t ↦ rw t (logout-Inv w h inv)
  | inr t ↦ rw t inv
]

launches-Inv :
    (w : World) (g : ℕ) (k : Kind)
    → w.workers g ≡ some (queued k)
    → Inv w
    → Inv (record w { workers = set_worker g (some (goroutine k)) w.workers })
launches-Inv w g k h inv = record {
  fresh = λ x l. let f = inv.fresh x l in ground (arith, ==_iff x g);
  waiting = λ q. let f = inv.waiting q in ground (arith, ==_iff w.flow.gen g);
  busy = λ j q. elim (Bool-cases (w.flow.gen == g)) [
    | inl t ↦
        inv.busy (queued k)
          (subst (λ z. w.workers z ≡ some (queued k)) (sym ((==_iff w.flow.gen g).0 t)) h)
    | inr t ↦ inv.busy j (ground arith)
  ];
  late = λ x j q. let l = inv.late x j in ground arith;
  owner = λ q. let o = inv.owner in let l = inv.late g k h in ground (arith, ==_iff w.flow.gen g);
}

unset-Inv :
    (w : World) (g : ℕ)
    → (w.flow.gen == g) ≡ false
    → Inv w
    → Inv (record w { workers = set_worker g none w.workers })
unset-Inv w g other inv = record {
  fresh = λ x l. let f = inv.fresh x l in ground arith;
  waiting = λ q. let h = inv.waiting q in rw other h;
  busy = λ k q. inv.busy k (unset g w.flow.gen k w.workers q);
  late = λ x k q. inv.late x k (unset g x (queued k) w.workers q);
  owner = λ q. inv.owner (unset g w.flow.gen (goroutine by_code) w.workers q);
}

logout-gen :
    (s : Flow) (g : ℕ) → suc s.gen < 2 ^ 64 → (s.gen == g) ≡ true → ((logout s).gen == g) ≡ false
unfolding logout reset_locked
logout-gen s g h t = ground (arith, next_gen s.gen h, ==_iff s.gen g, ==_iff (suc s.gen) g)

leaves_queue-Inv :
    (w : World) (g : ℕ)
    → suc w.flow.gen < 2 ^ 64
    → Inv w
    → Inv (record { flow = abandon g w.flow; workers = set_worker g none w.workers })
unfolding abandon
leaves_queue-Inv w g h inv = elim (Bool-cases (w.flow.gen == g)) [
  | inl t ↦ rw t (
      unset-Inv (record w { flow = logout w.flow }) g (logout-gen w.flow g h t)
        (logout-Inv w h inv))
  | inr t ↦ rw t (unset-Inv w g t inv)
]

pub Late-Inv : (w w' : World) → Late w w' → Inv w → Inv w'
Late-Inv _ _ (asks_code w g h) inv = transition-Inv w g wait_code h inv
Late-Inv _ _ (asks_password w g h) inv = transition-Inv w g wait_password h inv
Late-Inv _ _ (ends w g k e h) inv = finish_attempt-Inv w g e inv
Late-Inv _ _ (launches w g k h) inv = launches-Inv w g k h inv
Late-Inv _ _ (leaves_queue w g k l h) inv = leaves_queue-Inv w g l inv
Late-Inv _ _ (abandons w g h) inv = abandon-Inv w g h inv

Step-Inv : (w w' : World) → Step w w' → Inv w → Inv w'
Step-Inv _ _ (goes_on w w' l) inv = Late-Inv w w' l inv
Step-Inv _ _ (starts_login w phone g f h e) inv = start_login-Inv w phone g f h e inv
Step-Inv _ _ (starts_qr w h) inv = start_qr-Inv w h inv
Step-Inv _ _ (logs_out w h) inv = logout-Inv w h inv

pub Reachable-Inv : (w : World) → Reachable w → Inv w
Reachable-Inv _ at_start = initial-Inv
Reachable-Inv _ (step v w r s) = Step-Inv v w s (Reachable-Inv v r)

-- In every reachable state, a SubmitCode or SubmitPassword that gets past its check finds the
-- authenticator and the done channel of the current attempt, whose goroutine has not ended: neither
-- goes on with a nil authenticator.
pub submit-owner :
    (w : World) (a d : Option ℕ)
    → Reachable w
    → (submit_code w.flow ≡ ok (a, d)) ⊎ (submit_password w.flow ≡ ok (a, d))
    → (a ≡ some w.flow.gen)
      × (d ≡ some w.flow.gen)
      × (w.workers w.flow.gen ≡ some (goroutine by_code))
unfolding submit_code submit_password
submit-owner w a d r h =
    let inv = Reachable-Inv w r in let wait = inv.waiting in let own = inv.owner in ground arith

-- In every reachable state in which the goroutine of the current attempt has not ended, StartLogin is
-- refused, and changes nothing.
pub start_login-refused :
    (w : World) (phone : Bytes) (k : Worker)
    → Reachable w
    → w.workers w.flow.gen ≡ some k
    → is_empty phone ≡ false
    → start_login phone w.flow ≡ (err err_login_in_progress, w.flow)
unfolding start_login
start_login-refused w phone k r h filled = rw (filled, (Reachable-Inv w r).busy k h)
