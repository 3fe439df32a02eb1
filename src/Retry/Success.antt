-- ===== src/Retry/Success.antt =====
-- Which call of Do succeeded.
use telecollection.Prelude.{
  ℤ, ℕ, zero, suc, ◌-◌, ◌≤◌, ◌≡◌, refl, ap, ◌∙◌, arith, Option, none, some, Error, Option-cases,
  Bool-cases, inl, inr,
}
use telecollection.Retry.{
  Policy, Env, delay, attempts, wait_then, after_call, attempt_once, retry_loop, run,
}
use telecollection.Retry.Trace.{Closes}

-- A call from a world in `P` that succeeds and ends in `w`.
abbrev pub Succeeds : {W : Type 0} → Env W → (W → Type 0) → W → Type 0
Succeeds {W} env P w = (w0 : W) × P w0 × (env.call w0 ≡ (none, w))

-- A call that fails, and the wait behind it, lead from `P` to `P`.
abbrev pub KeptByFailures : {W : Type 0} → Env W → (W → Type 0) → Type 0
KeptByFailures {W} env P =
    (d : ℤ) (e : Error) (w w' : W) → P w → env.call w ≡ (some e, w') → P (env.await d w').1

module _ {W : Type 0} (env : Env W) (P : W → Type 0) where
  abbrev Goes : (W → Option Error × W) → Type 0
  Goes loop = (w w' : W) → P w → loop w ≡ (none, w') → Succeeds env P w'

module _ {W : Type 0} (env : Env W) (p : Policy) (P : W → Type 0) where
  open env use {ctx_err, call}

  last_call :
      (k : ℕ) (r : Option Error) (w w1 w' : W)
      → P w
      → call w ≡ (r, w1)
      → after_call env p k none r w1 ≡ (none, w')
      → Succeeds env P w'
  unfolding after_call
  last_call k none w w1 w' h c eq = (w, h, c ∙ eq)
  last_call k (some e) w w1 w' h c eq = cc

  waited :
      (d : ℤ) (loop : W → Option Error × W) (w w' : W)
      → Closes env
      → Goes env P loop
      → P (env.await d w).1
      → wait_then env loop d w ≡ (none, w')
      → Succeeds env P w'
  unfolding wait_then
  waited d loop w w' closes goes h eq = elim (Bool-cases (env.await d w).0) [
    | inl t ↦ goes (env.await d w).1 w' h (rw (t, wait_then) at eq)
    | inr t ↦ elim (closes d w t (ap (λ s. s.0) (rw (t, wait_then) at eq))) [ ]
  ]

  next_call :
      (k : ℕ) (loop : W → Option Error × W) (r : Option Error) (w w1 w' : W)
      → Closes env
      → KeptByFailures env P
      → Goes env P loop
      → P w
      → call w ≡ (r, w1)
      → after_call env p k (some loop) r w1 ≡ (none, w')
      → Succeeds env P w'
  unfolding after_call
  next_call k loop none w w1 w' closes kept goes h c eq = (w, h, c ∙ eq)
  next_call k loop (some e) w w1 w' closes kept goes h c eq =
      waited (delay env.as_flood_wait p k e) loop w1 w' closes goes (kept _ e w w1 h c) eq

  -- A round whose rest is known for the call.
  round :
      (k : ℕ) (again : Option (W → Option Error × W)) (w w' : W)
      → attempt_once env p k again w ≡ (none, w')
      → after_call env p k again (call w).0 (call w).1 ≡ (none, w')
  unfolding attempt_once
  round k again w w' eq = elim (Option-cases (ctx_err w)) [
    | inl t ↦ rw (t, attempt_once) at eq
    | inr (e, t) ↦ cc
  ]

  loop-Succeeds :
      (left k : ℕ)
      → Closes env
      → (1 ≤ left → KeptByFailures env P)
      → Goes env P (retry_loop env p left k)
  unfolding retry_loop
  loop-Succeeds zero k closes kept w w' h eq =
      last_call k (call w).0 w (call w).1 w' h refl (round k none w w' eq)
  loop-Succeeds (suc left) k closes kept w w' h eq =
      next_call k (retry_loop env p left (suc k)) (call w).0 w (call w).1 w' closes
        (kept (ground arith)) (loop-Succeeds left (suc k) closes (λ l. kept (ground arith))) h refl
        (round k _ w w' eq)

  -- When Do returns nil, the last thing that happened is a call that returned nil, from a world in `P`,
  -- if `P` holds at first and, where there is more than one attempt, a failed call and the wait
  -- behind it keep `P`.
  pub run-Succeeds : Closes env → (2 ≤ attempts p → KeptByFailures env P) → Goes env P (run env p)
  unfolding run
  run-Succeeds closes kept = loop-Succeeds (attempts p - 1) 0 closes (λ l. kept (ground arith))
