-- ===== src/Retry/Middleware.antt =====
-- What floodWaitMiddleware.Handle of internal/telegram/client/client.go sends and waits for.
use mathlib.Core.Path.{subst}
use telecollection.Prelude.{
  ℕ, zero, suc, ◌+◌, ◌≤◌, ◌≡◌, refl, arith, ℤ, pos, add64, mul64, ◌/ℕ◌, Bool, true, false, Option,
  none, some, List, [], ◌∷◌, ◌++◌, length, All, All-append, Error, Option-cases, inl, inr,
}
use telecollection.Retry.{
  Env, flood_wait_seconds, wait_then, after_invoke, invoke_once, handle_loop, handle, second,
}
use telecollection.Retry.Trace.{
  invoked, Event, traced, rounds, Ends, succeeded, failed, Closes, EndsAt, Goes, wait_then-Goes,
  stopped, length-snoc,
}

abbrev pub is_flood_wait : (as_flood_wait : Error → Option ℤ) → Error → Bool
is_flood_wait as_flood_wait e = elim (as_flood_wait e) [ none ↦ false | some d ↦ true ]

-- The seconds that the server asks for, and one more.
abbrev pub flood_delay : (as_flood_wait : Error → Option ℤ) → ℕ → Error → ℤ
flood_delay as_flood_wait k e = elim (flood_wait_seconds as_flood_wait (some e)) [
  | none ↦ pos 0
  | some secs ↦ add64 (mul64 secs second) (pos second)
]

module _ {W : Type 0} (env : Env W) where
  not_flood : (e : Error) → env.as_flood_wait e ≡ none → is_flood_wait env.as_flood_wait e ≡ false
  not_flood e t = ground arith

  is_flood :
      (e : Error) (d : ℤ) → env.as_flood_wait e ≡ some d → is_flood_wait env.as_flood_wait e ≡ true
  is_flood e d t = ground arith

  flood_delay_lem :
      (k : ℕ) (e : Error) (d : ℤ)
      → env.as_flood_wait e ≡ some d
      → flood_delay env.as_flood_wait k e ≡ add64 (mul64 (◌/ℕ◌ d second) second) (pos second)
  flood_delay_lem k e d t = rw (t, flood_delay)

module _ {W : Type 0} (env : Env W) (closes : Closes env) (n : ℕ) where
  abbrev retried : Error → Bool
  retried = is_flood_wait env.as_flood_wait

  abbrev delays : ℕ → Error → ℤ
  delays = flood_delay env.as_flood_wait

  abbrev Waited : List Error → Type 0
  Waited es = All (λ e. retried e ≡ true) es

  abbrev Loop : Type 0
  Loop = W × List Event → Option Error × (W × List Event)

  invoke_last :
      (es : List Error)
      → Waited es
      → suc (length es) ≡ n
      → (r : Option Error) (w : W) (l : List Event) → l ≡ rounds delays 0 es ++ invoked none r ∷ []
      → EndsAt env closes retried delays n (after_invoke (traced env) none r (w, l))
  unfolding after_invoke
  invoke_last es all le none w l q = succeeded es all (omega arith) refl q
  invoke_last es all le (some e) w l q = elim (Option-cases (env.as_flood_wait e)) [
    | inl t ↦ rw (t, after_invoke) (failed es e all (omega arith) (inl le) refl q)
    | inr (d, t) ↦ rw (t, after_invoke) (failed es e all (omega arith) (inl le) refl q)
  ]

  invoke_again :
      (es : List Error) (again : Loop)
      → Waited es
      → suc (length es) ≤ n
      → ((e : Error) → retried e ≡ true → Goes env closes retried delays n (es ++ e ∷ []) again)
      → (r : Option Error) (w : W) (l : List Event) → l ≡ rounds delays 0 es ++ invoked none r ∷ []
      → EndsAt env closes retried delays n (after_invoke (traced env) (some again) r (w, l))
  unfolding after_invoke
  invoke_again es again all le h none w l q = succeeded es all le refl q
  invoke_again es again all le h (some e) w l q = elim (Option-cases (env.as_flood_wait e)) [
    | inl t ↦ rw (t, after_invoke) (failed es e all le (inr (not_flood env e t)) refl q)
    | inr (d, t) ↦
        rw (t, after_invoke)
          (subst (λ x. EndsAt env closes retried delays n (wait_then (traced env) again x (w, l)))
            (flood_delay_lem env (length es) e d t)
            (wait_then-Goes env closes retried delays n es e again
              (All-append (λ e. retried e ≡ true) es (e ∷ []) all (is_flood env e d t, tt)) le
              (h e (is_flood env e d t)) w l q))
  ]

  once_last :
      (es : List Error)
      → Waited es
      → suc (length es) ≡ n
      → Goes env closes retried delays n es (invoke_once (traced env) none)
  unfolding invoke_once
  once_last es all le w l q = elim (Option-cases (env.ctx_err w)) [
    | inl t ↦
        rw (t, invoke_once)
          (invoke_last es all le (env.call w).0 (env.call w).1
            (l ++ invoked (env.ctx_err w) (env.call w).0 ∷ []) (rw (q, t)))
    | inr (x, t) ↦
        rw (t, invoke_once) (stopped env closes retried delays n es w l x all (omega arith) q t)
  ]

  once_again :
      (es : List Error) (again : Loop)
      → Waited es
      → suc (length es) ≤ n
      → ((e : Error) → retried e ≡ true → Goes env closes retried delays n (es ++ e ∷ []) again)
      → Goes env closes retried delays n es (invoke_once (traced env) (some again))
  unfolding invoke_once
  once_again es again all le h w l q = elim (Option-cases (env.ctx_err w)) [
    | inl t ↦
        rw (t, invoke_once)
          (invoke_again es again all le h (env.call w).0 (env.call w).1
            (l ++ invoked (env.ctx_err w) (env.call w).0 ∷ []) (rw (q, t)))
    | inr (x, t) ↦
        rw (t, invoke_once) (stopped env closes retried delays n es w l x all (omega arith) q t)
  ]

  handle_loop-Goes :
      (left : ℕ) (es : List Error)
      → Waited es
      → suc (length es) + left ≡ n
      → Goes env closes retried delays n es (handle_loop (traced env) (suc left))
  unfolding handle_loop
  handle_loop-Goes zero es all le = once_last es all (omega arith)
  handle_loop-Goes (suc left) es all le =
      once_again es (handle_loop (traced env) (suc left)) all (omega arith) λ e t.
        handle_loop-Goes left (es ++ e ∷ [])
          (All-append (λ e. retried e ≡ true) es (e ∷ []) all (t, tt))
          (omega (arith, length-snoc es e))

-- Handle with maxRetries = m: nil after an invocation that returned nil, or the error of an
-- invocation that is no FLOOD_WAIT or that was the last of m + 1, or the context's error. An
-- invocation is repeated only after a FLOOD_WAIT error and a wait of the seconds that the server
-- asked for and one more, and never under a done context.
pub handle-Ends :
    {W : Type 0} (env : Env W) (m : ℕ) (closes : Closes env) (w : W)
    → let (r, (w', l)) = handle (traced env) (pos m) (w, []) in
      Ends env (is_flood_wait env.as_flood_wait) (flood_delay env.as_flood_wait) (suc m) r w' l
unfolding handle
handle-Ends env m closes w = handle_loop-Goes env closes (suc m) m [] tt (omega arith) w [] refl
