-- ===== src/Fileops/Nonce.antt =====
-- cryptoRandInt64 of internal/telegram/fileops/fileops.go: the loop that draws the nonce of a move.
use mathlib.Core.Path.{subst}
use telecollection.Prelude.{
  ◌^◌, ◌-◌, ap, pos_part, ltb, ℕ, zero, suc, ◌+◌, ◌*◌, ◌<◌, ◌≡◌, ◌≢◌, refl, sym, ◌⊎◌, ◌∙◌, arith, ℤ,
  pos, negsuc, ◌==ℤ◌, ==ℤ_iff, wrap64, Bytes, Option, none, some, [], ◌∷◌, if◌then◌else◌,
  Bool-cases, inl, inr,
}

-- binary.LittleEndian.Uint64
abbrev little_endian : Bytes → ℕ
little_endian [] = 0
little_endian (b ∷ bs) = b + 256 * little_endian bs

-- What the loop makes of one read of eight bytes, which gives no bytes if it fails.
abbrev drawn : Option Bytes → ℤ
unfolding wrap64
drawn none = negsuc 0
drawn (some bs) = wrap64 (pos (little_endian bs))

abbrev pub zeros : Bytes
zeros = 0 ∷ 0 ∷ 0 ∷ 0 ∷ 0 ∷ 0 ∷ 0 ∷ 0 ∷ []

-- Eight bytes, and their sum, each times 256 to the power of its position.
pub data Buffer : Bytes → ℕ → Type 0 where
  eight :
      (a b c d e f g h : ℕ)
      → (a < 256) × (b < 256) × (c < 256) × (d < 256)
      → (e < 256) × (f < 256) × (g < 256) × (h < 256)
      → Buffer (a ∷ b ∷ c ∷ d ∷ e ∷ f ∷ g ∷ h ∷ []) (
          a
          + 2 ^ 8 * b
          + 2 ^ 16 * c
          + 2 ^ 24 * d
          + 2 ^ 32 * e
          + 2 ^ 40 * f
          + 2 ^ 48 * g
          + 2 ^ 56 * h)

-- -1 for a read that failed; else the integer of the range of an int64 whose two's complement is the
-- sum of the bytes.
pub data IsNonce : Option Bytes → ℤ → Type 0 where
  failed : IsNonce none (negsuc 0)
  not_negative : (bs : Bytes) (m : ℕ) → Buffer bs m → m < 2 ^ 63 → IsNonce (some bs) (pos m)
  negative :
      (bs : Bytes) (m n : ℕ)
      → Buffer bs m
      → n < 2 ^ 63
      → m + suc n ≡ 2 ^ 64
      → IsNonce (some bs) (negsuc n)

little_endian-Buffer : (bs : Bytes) (m : ℕ) → Buffer bs m → little_endian bs ≡ m
little_endian-Buffer _ _ (eight a b c d e f g h l l') = omega arith

Buffer-small : (bs : Bytes) (m : ℕ) → Buffer bs m → m < 2 ^ 64
Buffer-small _ _ (eight a b c d e f g h l l') = omega arith

Buffer-zeros : (bs : Bytes) (m : ℕ) → Buffer bs m → m ≡ 0 → bs ≡ zeros
Buffer-zeros _ _ (eight a b c d e f g h l l') z =
    let za : a ≡ 0 = omega arith in
    let zb : b ≡ 0 = omega arith in
    let zc : c ≡ 0 = omega arith in
    let zd : d ≡ 0 = omega arith in
    let ze : e ≡ 0 = omega arith in
    let zf : f ≡ 0 = omega arith in
    let zg : g ≡ 0 = omega arith in let zh : h ≡ 0 = omega arith in cc

wrap64-cases :
    (m : ℕ)
    → m < 2 ^ 64
    → ((m < 2 ^ 63) × (wrap64 (pos m) ≡ pos m))
      ⊎ ((n : ℕ) × (n < 2 ^ 63) × (m + suc n ≡ 2 ^ 64) × (wrap64 (pos m) ≡ negsuc n))
unfolding wrap64
wrap64-cases m l = elim (Bool-cases (ltb m (2 ^ 63))) [
  | inl t ↦ inl (ground arith, ground arith)
  | inr t ↦ inr (2 ^ 64 - m - 1, ground arith, ground arith, ground arith)
]

wrap64-IsNonce :
    (bs : Bytes) (m : ℕ)
    → Buffer bs m
    → bs ≢ zeros
    → IsNonce (some bs) (wrap64 (pos m)) × (wrap64 (pos m) ≢ pos 0)
wrap64-IsNonce bs m buffer live = elim (wrap64-cases m (Buffer-small bs m buffer)) [
  | inl (l, e) ↦
      rw e (not_negative bs m buffer l, λ z. live (Buffer-zeros bs m buffer (ap pos_part z)))
  | inr (n, l, s, e) ↦ rw e (negative bs m n buffer l s, λ z. cc)
]

drawn-IsNonce :
    (b : Option Bytes)
    → ((bs : Bytes) → b ≡ some bs → (m : ℕ) × Buffer bs m)
    → b ≢ some zeros
    → IsNonce b (drawn b) × (drawn b ≢ pos 0)
unfolding drawn
drawn-IsNonce none fills live = (failed, λ z. cc)
drawn-IsNonce (some bs) fills live =
    let (m, buffer) = fills bs refl in
    subst (λ x. IsNonce (some bs) (wrap64 (pos x)) × (wrap64 (pos x) ≢ pos 0))
      (sym (little_endian-Buffer bs m buffer))
      (wrap64-IsNonce bs m buffer (λ e. live (ap (λ z. some z) e)))

-- `read` is rand.Read of eight bytes.
module _ {T : Type 0} (read : T → Option Bytes × T) where
  -- The loop, by the rounds allowed; it runs out with `none`.
  unfoldable pub draw_loop : ℕ → T → Option ℤ × T
  unfolding drawn ◌==ℤ◌
  draw_loop zero t = (none, t)
  draw_loop (suc rounds) t =
      let (b, t') = read t in
      let rest = draw_loop rounds t' in if drawn b ==ℤ pos 0 then rest else (some (drawn b), t')

  -- The source after `n` reads.
  abbrev pub source_after : ℕ → T → T
  source_after zero t = t
  source_after (suc n) t = source_after n (read t).1

  -- The first `n` reads give eight zero bytes each.
  abbrev pub ZeroReads : ℕ → T → Type 0
  ZeroReads zero t = Unit
  ZeroReads (suc n) t = ((read t).0 ≡ some zeros) × ZeroReads n (read t).1

  -- Every read that does not fail fills the buffer, of eight bytes.
  abbrev pub Fills : Type 0
  Fills = (t : T) (bs : Bytes) → (read t).0 ≡ some bs → (m : ℕ) × Buffer bs m

  one_round :
      (rounds : ℕ) (t : T) (b : Option Bytes)
      → (read t).0 ≡ b
      → drawn b ≢ pos 0
      → draw_loop (suc rounds) t ≡ (some (drawn b), (read t).1)
  unfolding draw_loop
  one_round rounds t b e h = elim (Bool-cases (drawn b ==ℤ pos 0)) [
    | inl z ↦ elim (h ((==ℤ_iff (drawn b) (pos 0)).0 z)) [ ]
    | inr z ↦ rw (e, z, draw_loop) refl
  ]

  another_round :
      (rounds : ℕ) (t : T)
      → (read t).0 ≡ some zeros
      → draw_loop (suc rounds) t ≡ draw_loop rounds (read t).1
  unfolding draw_loop drawn ◌==ℤ◌ wrap64
  another_round rounds t h = rw (h, draw_loop) refl

  draws :
      (n rounds : ℕ) (t : T) (b : Option Bytes)
      → n < rounds
      → ZeroReads n t
      → (read (source_after n t)).0 ≡ b
      → drawn b ≢ pos 0
      → draw_loop rounds t ≡ (some (drawn b), source_after (suc n) t)
  draws n zero t b l z e h = ground arith
  draws zero (suc rounds) t b l z e h = one_round rounds t b e h
  draws (suc n) (suc rounds) t b l (z, zs) e h =
      another_round rounds t z ∙ draws n rounds (read t).1 b (omega arith) zs e h

  -- If every read that does not fail gives eight bytes, the first `n` reads give zeros, and the one
  -- behind them fails or gives a byte that is not zero: then in any number of rounds above `n` the loop
  -- returns, after that read, a value that is not zero: -1 if the read failed, and else the int64
  -- whose two's complement is the sum of the bytes, each times 256 to the power of its position.
  pub draw_loop-returns :
      (n : ℕ) (t : T)
      → Fills
      → ZeroReads n t
      → (read (source_after n t)).0 ≢ some zeros
      → (v : ℤ) × ((rounds : ℕ)
          → n < rounds
          → draw_loop rounds t ≡ (some v, source_after (suc n) t))
        × IsNonce (read (source_after n t)).0 v
        × (v ≢ pos 0)
  draw_loop-returns n t fills zs live =
      let b = (read (source_after n t)).0 in
      let (good, nonzero) = drawn-IsNonce b (λ bs e. fills (source_after n t) bs e) live in
      (drawn b, λ rounds l. draws n rounds t b l zs refl nonzero, good, nonzero)
