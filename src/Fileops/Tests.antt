-- ===== src/Fileops/Tests.antt =====
-- A nonce whose first eight bytes are zero.
use mathlib.Core.Path.{subst}
use mathlib.Core.Option.{some-injective}
use telecollection.Prelude.{
  arith, ℕ, zero, suc, ◌<◌, ◌≡◌, ◌≢◌, refl, ℤ, pos, negsuc, Bytes, Option, none, some, [], ◌∷◌,
}
use telecollection.Fileops.Nonce.{
  zeros, Buffer, eight, Fills, IsNonce, draw_loop, draw_loop-returns,
}

abbrev ones : Bytes
ones = 255 ∷ 255 ∷ 255 ∷ 255 ∷ 255 ∷ 255 ∷ 255 ∷ 127 ∷ []

-- The first read gives zeros, the second the largest int64, and the third fails.
abbrev bytes_of : ℕ → Option Bytes
bytes_of zero = some zeros
bytes_of (suc zero) = some ones
bytes_of (suc (suc n)) = none

abbrev read : ℕ → Option Bytes × ℕ
read n = (bytes_of n, suc n)

draw_run : draw_loop read 9 0 ≡ (some (pos 9223372036854775807), 2)
unfolding draw_loop
draw_run = refl

failed_run : draw_loop read 1 2 ≡ (some (negsuc 0), 3)
unfolding draw_loop
failed_run = refl

fills : Fills read
fills zero bs e =
    subst (λ z. (m : ℕ) × Buffer z m) (some-injective _ _ e) (_, eight 0 0 0 0 0 0 0 0 low low)
  where
    low : (0 < 256) × (0 < 256) × (0 < 256) × (0 < 256)
    low = (omega arith, omega arith, omega arith, omega arith)
fills (suc zero) bs e =
    subst (λ z. (m : ℕ) × Buffer z m) (some-injective _ _ e)
      (
        _,
        eight 255 255 255 255 255 255 255 127 (omega arith, omega arith, omega arith, omega arith)
            (omega arith, omega arith, omega arith, omega arith),
      )
fills (suc (suc n)) bs e = cc

draw_loop-returns_example :
    (v : ℤ) × ((rounds : ℕ) → 1 < rounds → draw_loop read rounds 0 ≡ (some v, 2))
    × IsNonce (some ones) v
    × (v ≢ pos 0)
draw_loop-returns_example = draw_loop-returns read 1 0 fills (refl, tt) (λ h. cc)
