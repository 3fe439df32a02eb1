-- ===== src/Retry/Tests.antt =====
-- Runs of the retry loops, and the theorems at concrete inputs.
use telecollection.Prelude.{
  ℕ, zero, suc, ◌*◌, ◌^◌, min, ◌≡◌, refl, arith, ℤ, pos, negsuc, ltb_ℤ, true, Option, none, some,
  [], ◌∷◌, Error, new, wrap,
}
use telecollection.Retry.{
  Policy, Env, backoff, jitter, delay, attempts, run, handle, default_flood_retries,
}
use telecollection.Retry.Backoff.{backoff-eq-min, backoff_overflow}
use telecollection.Retry.Trace.{
  invoked, waited, traced, Ends, Closes, always, wanted_delay, calls_allowed, run-Ends,
}
use telecollection.Retry.Middleware.{handle-Ends, is_flood_wait, flood_delay}

-- A call that fails twice, the second time with FLOOD_WAIT, under a context that is never done.
abbrev lost : Error
lost = new "connection lost"

abbrev flood : Error
flood = wrap "rpc error" (new "FLOOD_WAIT")

abbrev next_outcome : ℕ → Option Error × ℕ
next_outcome zero = (some lost, 1)
next_outcome (suc zero) = (some flood, 2)
next_outcome (suc (suc n)) = (none, suc (suc (suc n)))

-- tgerr.AsFloodWait, which looks through wrapped errors.
abbrev flood_seven : Error → Option ℤ
flood_seven (wrap msg e) = some (pos 7000000000)
flood_seven (new msg) = none

abbrev flaky : Env ℕ
flaky = record {
  ctx_err = λ n. none;
  call = next_outcome;
  await = λ d n. (true, n);
  as_flood_wait = flood_seven;
}

abbrev policy : Policy
policy = record { max_attempts = pos 3; base = pos 1000000000; max_delay = pos 30000000000 }

flaky-Closes : Closes flaky
flaky-Closes d w h = cc

run-flaky : run (traced flaky) policy (0, []) ≡ (
  none,
  (
    3,
    invoked none (some lost)
        ∷ waited (pos 1000000000)
        ∷ invoked none (some flood)
        ∷ waited (pos 7000000000)
        ∷ invoked none none
        ∷ [],
  ),
)
unfolding run delay backoff attempts
run-flaky = refl

-- A first failure with an error that is no FLOOD_WAIT goes straight back.
handle-flaky :
    handle (traced flaky) default_flood_retries (0, [])
    ≡ (some lost, (1, invoked none (some lost) ∷ []))
unfolding handle
handle-flaky = refl

jitter_of_none : (int63n : ℤ → ℤ) → jitter int63n (negsuc 4) ≡ pos 0
unfolding jitter
jitter_of_none int63n = refl

backoff-eq-min_example :
    backoff (pos 4) (pos 1000000000) (pos 30000000000) ≡ pos (min (1000000000 * 2 ^ 4) 30000000000)
backoff-eq-min_example = backoff-eq-min (pos 4) 1000000000 30000000000 (omega arith)

backoff_overflow_example :
    ltb_ℤ (backoff (pos 1) (pos 5000000000000000000) (pos 9000000000000000000)) (pos 0) ≡ true
backoff_overflow_example =
    backoff_overflow 5000000000000000000 9000000000000000000 (omega arith) (omega arith)
      (omega arith)

run-Ends_example :
    let (r, (w', l)) = run (traced flaky) policy (0, []) in
    Ends flaky always (wanted_delay flood_seven policy) (calls_allowed (pos 3)) r w' l
run-Ends_example = run-Ends flaky policy flaky-Closes 0

handle-Ends_example :
    let (r, (w', l)) = handle (traced flaky) (pos 3) (1, []) in
    Ends flaky (is_flood_wait flood_seven) (flood_delay flood_seven) 4 r w' l
handle-Ends_example = handle-Ends flaky 3 flaky-Closes 1
