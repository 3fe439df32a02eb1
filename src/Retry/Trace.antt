-- ===== src/Retry/Trace.antt =====
-- What the loops of Do and Handle call and wait for, whatever the environment does.
use native.Mathlib.Nat.{add-zero, zero-add}
use mathlib.Core.Path.{subst}
use telecollection.Prelude.{
  ℕ, zero, suc, ◌+◌, ◌-◌, ◌≤◌, ◌≡◌, ◌≢◌, refl, sym, ap, arith, ℤ, pos, negsuc, ltb_ℤ, pos_part,
  mul64, ◌/ℕ◌, if◌then◌else◌, Bool, true, false, Option, none, some, List, [], ◌∷◌, ◌++◌, length,
  length-append, All, Error, Option-cases, Bool-cases, inl, inr, ◌⊎◌,
}
use telecollection.Retry.{
  Policy, Env, delay, attempts, wait_then, after_call, attempt_once, retry_loop, run, second,
  backoff,
}

-- An invocation of the call, with what ctx.Err() was then and what the call returned, and a wait.
pub data Event : Type 0 where
  invoked : Option Error → Option Error → Event
  waited : ℤ → Event

-- The environment that also keeps a record of what was done.
abbrev pub traced : {W : Type 0} → Env W → Env (W × List Event)
traced env = record {
  ctx_err = λ s. env.ctx_err s.0;
  call = λ s. let (r, w) = env.call s.0 in (r, (w, s.1 ++ invoked (env.ctx_err s.0) r ∷ []));
  await = λ d s. let (fired, w) = env.await d s.0 in (fired, (w, s.1 ++ waited d ∷ []));
  as_flood_wait = env.as_flood_wait;
}

-- The trace of the rounds that failed and were waited for, by the errors; `f` gives the delays.
abbrev pub rounds : (f : ℕ → Error → ℤ) → ℕ → List Error → List Event
rounds f k [] = []
rounds f k (e ∷ es) = invoked none (some e) ∷ waited (f k e) ∷ rounds f (suc k) es

pub length-snoc {ℓ} : {A : Type ℓ} (es : List A) (e : A) → length (es ++ e ∷ []) ≡ suc (length es)
length-snoc es e = omega (arith, length-append es (e ∷ []))

shift : (k m : ℕ) → k + suc m ≡ suc k + m
shift k m = omega arith

rounds-snoc :
    (f : ℕ → Error → ℤ) (k : ℕ) (es : List Error) (e : Error)
    → rounds f k (es ++ e ∷ [])
      ≡ (rounds f k es ++ invoked none (some e) ∷ []) ++ waited (f (k + length es) e) ∷ []
rounds-snoc f k [] e = rw add-zero
rounds-snoc f k (x ∷ es) e = rw (rounds-snoc f (suc k) es e) (rw (shift k (length es)))

-- How a run of at most `n` calls ends, by its result, its final world and its trace: with a call
-- that succeeded, with a failed call that was the last one allowed or that is not retried, or with
-- the context's error. Each round before has failed with an error that is retried, and has waited
-- for the delay `f` of its number and error; every call was made under a live context.
pub data Ends {W : Type 0} (env : Env W) (retried : Error → Bool) (f : ℕ → Error → ℤ) (n : ℕ)
    (r : Option Error) (w : W) (l : List Event) : Type 0 where
  succeeded :
      (es : List Error)
      → All (λ e. retried e ≡ true) es
      → suc (length es) ≤ n
      → r ≡ none
      → l ≡ rounds f 0 es ++ invoked none none ∷ []
      → Ends env retried f n r w l
  failed :
      (es : List Error) (e : Error)
      → All (λ e. retried e ≡ true) es
      → suc (length es) ≤ n
      → (suc (length es) ≡ n) ⊎ (retried e ≡ false)
      → r ≡ some e
      → l ≡ rounds f 0 es ++ invoked none (some e) ∷ []
      → Ends env retried f n r w l
  cancelled :
      (es : List Error)
      → All (λ e. retried e ≡ true) es
      → length es ≤ n
      → r ≡ env.ctx_err w
      → r ≢ none
      → l ≡ rounds f 0 es
      → Ends env retried f n r w l

-- The documented behaviour of a context: after a receive from ctx.Done(), ctx.Err() is not nil.
abbrev pub Closes : {W : Type 0} → Env W → Type 0
Closes {W} env = (d : ℤ) (w : W) → (env.await d w).0 ≡ false → env.ctx_err (env.await d w).1 ≢ none

module _ {W : Type 0} (env : Env W) (closes : Closes env) (retried : Error → Bool)
    (f : ℕ → Error → ℤ) (n : ℕ) where
  abbrev pub EndsAt : Option Error × (W × List Event) → Type 0
  EndsAt (r, (w, l)) = Ends env retried f n r w l

  -- A loop that ends well from every world after the rounds that failed with `es`.
  abbrev pub Goes : List Error → (W × List Event → Option Error × (W × List Event)) → Type 0
  Goes es again = (w : W) (l : List Event) → l ≡ rounds f 0 es → EndsAt (again (w, l))

  pub one_round :
      (es : List Error) (e : Error) (l : List Event)
      → l ≡ rounds f 0 es ++ invoked none (some e) ∷ []
      → l ++ waited (f (length es) e) ∷ [] ≡ rounds f 0 (es ++ e ∷ [])
  one_round es e l q = rw q (
      rw (rounds-snoc f 0 es e) (
        ap (λ (m : ℕ). (rounds f 0 es ++ invoked none (some e) ∷ []) ++ waited (f m e) ∷ [])
          (sym (zero-add (length es)))))

  pub wait_then-Goes :
      (es : List Error) (e : Error) (again : W × List Event → Option Error × (W × List Event))
      → All (λ e. retried e ≡ true) (es ++ e ∷ [])
      → suc (length es) ≤ n
      → Goes (es ++ e ∷ []) again
      → (w : W) (l : List Event) → l ≡ rounds f 0 es ++ invoked none (some e) ∷ []
      → EndsAt (wait_then (traced env) again (f (length es) e) (w, l))
  unfolding wait_then
  wait_then-Goes es e again all le h w l q = elim (Bool-cases (env.await (f (length es) e) w).0) [
    | inl t ↦ rw (t, wait_then) (h _ _ (one_round es e l q))
    | inr t ↦
        rw (t, wait_then)
          (cancelled (es ++ e ∷ []) all (omega (arith, length-append es (e ∷ []))) refl
            (closes _ w t) (one_round es e l q))
  ]

  -- ctx.Err() is not nil before a call.
  pub stopped :
      (es : List Error) (w : W) (l : List Event) (x : Error)
      → All (λ e. retried e ≡ true) es
      → length es ≤ n
      → l ≡ rounds f 0 es
      → env.ctx_err w ≡ some x
      → EndsAt (some x, (w, l))
  stopped es w l x all le q t = cancelled es all le (sym t) (λ h. cc) q

pub always : Error → Bool
always e = true

All-always : (es : List Error) → All (λ e. always e ≡ true) es
unfolding always
All-always [] = tt
All-always (e ∷ es) = (refl, All-always es)

module _ {W : Type 0} (env : Env W) (closes : Closes env) (p : Policy) (n : ℕ) where
  abbrev delays : ℕ → Error → ℤ
  delays = delay env.as_flood_wait p

  after_call-last :
      (es : List Error)
      → suc (length es) ≡ n
      → (r : Option Error) (w : W) (l : List Event) → l ≡ rounds delays 0 es ++ invoked none r ∷ []
      → EndsAt env closes always delays n (after_call (traced env) p (length es) none r (w, l))
  unfolding after_call
  after_call-last es le none w l q = succeeded es (All-always es) (omega arith) refl q
  after_call-last es le (some e) w l q = failed es e (All-always es) (omega arith) (inl le) refl q

  after_call-Goes :
      (es : List Error) (again : W × List Event → Option Error × (W × List Event))
      → suc (length es) ≤ n
      → ((e : Error) → Goes env closes always delays n (es ++ e ∷ []) again)
      → (r : Option Error) (w : W) (l : List Event) → l ≡ rounds delays 0 es ++ invoked none r ∷ []
      → EndsAt env closes always delays n
          (after_call (traced env) p (length es) (some again) r (w, l))
  unfolding after_call
  after_call-Goes es again le h none w l q = succeeded es (All-always es) le refl q
  after_call-Goes es again le h (some e) w l q =
      wait_then-Goes env closes always delays n es e again (All-always (es ++ e ∷ [])) le (h e) w l
        q

  attempt-last :
      (es : List Error)
      → suc (length es) ≡ n
      → Goes env closes always delays n es (attempt_once (traced env) p (length es) none)
  unfolding attempt_once
  attempt-last es le w l q = elim (Option-cases (env.ctx_err w)) [
    | inl t ↦
        rw (t, attempt_once)
          (after_call-last es le (env.call w).0 (env.call w).1
            (l ++ invoked (env.ctx_err w) (env.call w).0 ∷ []) (rw (q, t)))
    | inr (x, t) ↦
        rw (t, attempt_once)
          (stopped env closes always delays n es w l x (All-always es) (omega arith) q t)
  ]

  attempt-Goes :
      (es : List Error) (again : W × List Event → Option Error × (W × List Event))
      → suc (length es) ≤ n
      → ((e : Error) → Goes env closes always delays n (es ++ e ∷ []) again)
      → Goes env closes always delays n es (attempt_once (traced env) p (length es) (some again))
  unfolding attempt_once
  attempt-Goes es again le h w l q = elim (Option-cases (env.ctx_err w)) [
    | inl t ↦
        rw (t, attempt_once)
          (after_call-Goes es again le h (env.call w).0 (env.call w).1
            (l ++ invoked (env.ctx_err w) (env.call w).0 ∷ []) (rw (q, t)))
    | inr (x, t) ↦
        rw (t, attempt_once)
          (stopped env closes always delays n es w l x (All-always es) (omega arith) q t)
  ]

  retry_loop-Goes :
      (left : ℕ) (es : List Error)
      → suc (length es) + left ≡ n
      → Goes env closes always delays n es (retry_loop (traced env) p left (length es))
  unfolding retry_loop
  retry_loop-Goes zero es le = attempt-last es (omega arith)
  retry_loop-Goes (suc left) es le =
      attempt-Goes es (retry_loop (traced env) p left (suc (length es))) (omega arith) λ e.
        subst
          (λ a. Goes env closes always delays n (es ++ e ∷ []) (retry_loop (traced env) p left a))
          (length-snoc es e) (retry_loop-Goes left (es ++ e ∷ []) (omega (arith, length-snoc es e)))

-- The whole seconds that the server asks for with a FLOOD_WAIT error, and the Backoff delay of the
-- attempt after any other error.
abbrev pub wanted_delay : (as_flood_wait : Error → Option ℤ) → Policy → ℕ → Error → ℤ
wanted_delay as_flood_wait p k e = elim (as_flood_wait e) [
  | some d ↦ mul64 (◌/ℕ◌ d second) second
  | none ↦ backoff (pos k) p.base p.max_delay
]

-- MaxAttempts, and one call where it is less.
abbrev pub calls_allowed : ℤ → ℕ
calls_allowed (negsuc n) = 1
calls_allowed (pos zero) = 1
calls_allowed (pos (suc n)) = suc n

delay-wanted_delay :
    (as_flood_wait : Error → Option ℤ) (p : Policy) (k : ℕ) (e : Error)
    → delay as_flood_wait p k e ≡ wanted_delay as_flood_wait p k e
unfolding delay
delay-wanted_delay as_flood_wait p k e = elim (Option-cases (as_flood_wait e)) [
  | inl t ↦ rw (t, delay, wanted_delay) refl
  | inr (d, t) ↦ rw (t, delay, wanted_delay) refl
]

calls_of : (m : ℤ) → (if ltb_ℤ m (pos 1) then 1 else pos_part m) ≡ calls_allowed m
calls_of (negsuc n) = ground arith
calls_of (pos zero) = ground arith
calls_of (pos (suc n)) = ground arith

attempts-calls_allowed : (p : Policy) → attempts p ≡ calls_allowed p.max_attempts
unfolding attempts
attempts-calls_allowed p = calls_of p.max_attempts

calls_allowed_pos : (m : ℤ) → 1 ≤ calls_allowed m
calls_allowed_pos (negsuc n) = omega arith
calls_allowed_pos (pos zero) = omega arith
calls_allowed_pos (pos (suc n)) = omega arith

-- Do, in every environment whose context closes properly, ends in one of three ways: nil after a
-- call that returned nil; the error of the last of MaxAttempts calls, or of one call if MaxAttempts is
-- below 1; or the context's error. Each call but the last failed and was followed by a wait: of the
-- whole seconds that its error asks for if it is a FLOOD_WAIT error, and else of the Backoff delay of
-- its number. No call was made under a done context, nor more than MaxAttempts calls, or one.
pub run-Ends :
    {W : Type 0} (env : Env W) (p : Policy) (closes : Closes env) (w : W)
    → let (r, (w', l)) = run (traced env) p (w, []) in
      Ends env always (wanted_delay env.as_flood_wait p) (calls_allowed p.max_attempts) r w' l
unfolding run
run-Ends env p closes w =
    let goes =
      retry_loop-Goes env closes p (attempts p) (attempts p - 1) []
        (omega (arith, attempts-calls_allowed p, calls_allowed_pos p.max_attempts)) w [] refl in
    subst
      (λ f. EndsAt env closes always f (calls_allowed p.max_attempts) (run (traced env) p (w, [])))
      (λ i k e. delay-wanted_delay env.as_flood_wait p k e i)
      (subst
        (λ n. EndsAt env closes always (delay env.as_flood_wait p) n (run (traced env) p (w, [])))
        (attempts-calls_allowed p) goes)
