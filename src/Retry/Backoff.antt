-- ===== src/Retry/Backoff.antt =====
-- What Backoff of internal/telegram/retry/retry.go returns.
use native.Mathlib.Nat.{mul_assoc, mul_comm, pow-suc}
use telecollection.Prelude.{
  ◌-◌, ℕ, zero, suc, ◌*◌, ◌^◌, ◌≤◌, ◌<◌, min, ◌≡◌, ap, ◌∙◌, arith, ℤ, pos, negsuc, pos_part, ltb_ℤ,
  mul64, mul64_exact, true,
}
use telecollection.Retry.{backoff_loop, backoff}

pow_pos : (n : ℕ) → 1 ≤ 2 ^ n
pow_pos zero = omega arith
pow_pos (suc n) = rw pow-suc (omega (arith, pow_pos n))

double_pow : (b n : ℕ) → b * 2 * 2 ^ n ≡ b * 2 ^ suc n
double_pow b n = rw pow-suc (mul_assoc b 2 (2 ^ n) ∙ ap (λ (t : ℕ). b * t) (mul_comm 2 (2 ^ n)))

le-mul_pow : (b n : ℕ) → b ≤ b * 2 ^ n
le-mul_pow b n = grind (arith, pow_pos n)

backoff_loop-eq-min :
    (n b m : ℕ) → m ≤ 2 ^ 62 → backoff_loop n (pos b) (pos m) ≡ pos (min (b * 2 ^ n) m)
unfolding backoff_loop
backoff_loop-eq-min zero b m h = ground arith
backoff_loop-eq-min (suc n) b m h =
    ground (
      arith,
      le-mul_pow b (suc n),
      double_pow b n,
      mul64_exact b 2,
      backoff_loop-eq-min n (b * 2) m,
    )

-- For a base and a cap that are not negative, the cap at most 2^62 ns (146 years), Backoff returns
-- the smaller of base * 2^attempt and the cap, for every attempt; a negative attempt counts as 0.
pub backoff-eq-min :
    (attempt : ℤ) (b m : ℕ)
    → m ≤ 2 ^ 62
    → backoff attempt (pos b) (pos m) ≡ pos (min (b * 2 ^ pos_part attempt) m)
unfolding backoff
backoff-eq-min attempt b m h = backoff_loop-eq-min (pos_part attempt) b m h

wraps_negative : (b : ℕ) → 2 ^ 62 ≤ b → b < 2 ^ 63 → mul64 (pos b) 2 ≡ negsuc (2 ^ 64 - b * 2 - 1)
unfolding mul64
wraps_negative b l h = ground arith

-- Above that bound the early cap does not prevent the overflow: with a base from 2^62 up to, not
-- with, the cap, the delay of attempt 1 is negative.
pub backoff_overflow :
    (b m : ℕ)
    → 2 ^ 62 ≤ b
    → b < m
    → m < 2 ^ 63
    → ltb_ℤ (backoff (pos 1) (pos b) (pos m)) (pos 0) ≡ true
unfolding backoff backoff_loop
backoff_overflow b m l h k = ground (arith, wraps_negative b)
