-- ===== src/Retry.antt =====
-- internal/telegram/retry/retry.go and the FLOOD_WAIT middleware of internal/telegram/client/client.go.
pub mod Backoff
pub mod Trace
pub mod Success
pub mod Middleware
mod Tests
use telecollection.Prelude.{
  ℕ, zero, suc, ◌-◌, ℤ, pos, negsuc, pos_part, ltb_ℤ, leb_ℤ, mul64, add64, ◌/ℕ◌, Bool, true, false,
  Option, none, some, Error, if◌then◌else◌,
}

-- Policy; time.Duration is an int64 of nanoseconds.
pub record Policy : Type 0 where
  pub max_attempts : ℤ
  pub base : ℤ
  pub max_delay : ℤ

-- The loop of Backoff, by the rounds that are left.
backoff_loop : ℕ → ℤ → ℤ → ℤ
backoff_loop zero d max_delay = if ltb_ℤ max_delay d then max_delay else d
backoff_loop (suc rounds) d max_delay =
    let rest = backoff_loop rounds (mul64 d 2) max_delay in
    if leb_ℤ max_delay d then max_delay else rest

-- Backoff: a negative attempt counts as 0.
unfoldable pub backoff : ℤ → ℤ → ℤ → ℤ
unfolding backoff_loop mul64
backoff attempt base max_delay = backoff_loop (pos_part attempt) base max_delay

-- Jitter: `int63n n` is (*rand.Rand).Int63n, which returns a value from 0 up to, not with, n.
unfoldable pub jitter : (int63n : ℤ → ℤ) → ℤ → ℤ
jitter int63n d = if leb_ℤ d (pos 0) then pos 0 else int63n (add64 d (pos 1))

abbrev pub second : ℕ
second = 1000000000

-- FloodWaitSeconds: `as_flood_wait` is tgerr.AsFloodWait.
abbrev pub flood_wait_seconds : (as_flood_wait : Error → Option ℤ) → Option Error → Option ℤ
flood_wait_seconds as_flood_wait none = none
flood_wait_seconds as_flood_wait (some e) = elim (as_flood_wait e) [
  | none ↦ none
  | some d ↦ some (◌/ℕ◌ d second)
]

-- What surrounds a loop: the context, the call that may fail, the timer, and gotd's detection of a
-- FLOOD_WAIT error. `await d` is the select on the timer and ctx.Done(): true if the timer fired.
pub record Env (W : Type 0) : Type 0 where
  pub ctx_err : W → Option Error
  pub call : W → Option Error × W
  pub await : ℤ → W → Bool × W
  pub as_flood_wait : Error → Option ℤ

-- The delay before the next attempt of Do.
unfoldable pub delay : (as_flood_wait : Error → Option ℤ) → Policy → ℕ → Error → ℤ
unfolding backoff mul64
delay as_flood_wait p attempt e = elim (flood_wait_seconds as_flood_wait (some e)) [
  | none ↦ backoff (pos attempt) p.base p.max_delay
  | some secs ↦ mul64 secs second
]

-- A value below 1 counts as 1.
unfoldable pub attempts : Policy → ℕ
attempts p = if ltb_ℤ p.max_attempts (pos 1) then 1 else pos_part p.max_attempts

module _ {W : Type 0} (env : Env W) where
  open env use {ctx_err, await}

  -- The select after a failed call that is not the last one.
  pub wait_then : (again : W → Option Error × W) → ℤ → W → Option Error × W
  wait_then again d w =
      let (fired, w') = await d w in elim fired [ true ↦ again w' | false ↦ (ctx_err w', w') ]

module _ {W : Type 0} (env : Env W) (p : Policy) where
  open env use {ctx_err, call, as_flood_wait}

  -- What follows a call; `again` is the next round, and there is none after the last.
  after_call : ℕ → Option (W → Option Error × W) → Option Error → W → Option Error × W
  unfolding wait_then delay
  after_call attempt again none w = (none, w)
  after_call attempt none (some e) w = (some e, w)
  after_call attempt (some again) (some e) w =
      wait_then env again (delay as_flood_wait p attempt e) w

  -- The body of the loop.
  attempt_once : ℕ → Option (W → Option Error × W) → W → Option Error × W
  unfolding after_call
  attempt_once attempt again w = elim (ctx_err w) [
    | some e ↦ (some e, w)
    | none ↦ let (r, w') = call w in after_call attempt again r w'
  ]

  -- The loop, by the attempts that are left after this one.
  retry_loop : ℕ → ℕ → W → Option Error × W
  retry_loop zero attempt = attempt_once attempt none
  retry_loop (suc left) attempt = attempt_once attempt (some (retry_loop left (suc attempt)))

  -- Do
  unfoldable pub run : W → Option Error × W
  unfolding retry_loop attempt_once attempts
  run = retry_loop (attempts p - 1) 0

module _ {W : Type 0} (env : Env W) where
  open env use {ctx_err, call, as_flood_wait}

  -- What follows an invocation of floodWaitMiddleware.Handle that failed: only a FLOOD_WAIT error is
  -- waited for, one second more than the server asked.
  after_invoke : Option (W → Option Error × W) → Option Error → W → Option Error × W
  unfolding wait_then add64 mul64
  after_invoke again none w = (none, w)
  after_invoke again (some e) w = elim (flood_wait_seconds as_flood_wait (some e)) [
    | none ↦ (some e, w)
    | some secs ↦ elim again [
      | none ↦ (some e, w)
      | some k ↦ wait_then env k (add64 (mul64 secs second) (pos second)) w
    ]
  ]

  invoke_once : Option (W → Option Error × W) → W → Option Error × W
  unfolding after_invoke
  invoke_once again w = elim (ctx_err w) [
    | some e ↦ (some e, w)
    | none ↦ let (r, w') = call w in after_invoke again r w'
  ]

  -- The loop of Handle, by the rounds left. With no round at all it returns nil.
  handle_loop : ℕ → W → Option Error × W
  handle_loop zero w = (none, w)
  handle_loop (suc zero) w = invoke_once none w
  handle_loop (suc (suc left)) w = invoke_once (some (handle_loop (suc left))) w

  -- Handle with m.maxRetries: attempt runs from 0 up to and with maxRetries.
  unfoldable pub handle : ℤ → W → Option Error × W
  unfolding handle_loop invoke_once
  handle (pos n) = handle_loop (suc n)
  handle (negsuc n) = handle_loop 0

abbrev pub default_flood_retries : ℤ
default_flood_retries = pos 3
