-- ===== src/Ldq/Size.antt =====
-- The sizes that the ring queue is given: `IsPowerOf2` and `RoundupPowerOf2` of ldq.h.
use native.Mathlib.Nat.{pow-suc, one-le-pow, pow-le-pow_right, mod_self}
use native.Mathlib.Numerals.{add-one}
use native.Mathlib.Decide.{dec_le, ℕ_discrete}
use auto_fastlio.Prelude.{
  ℕ, zero, suc, ◌+◌, ◌-◌, ◌*◌, ◌/◌, ◌%◌, ◌^◌, ◌≤◌, ◌<◌, ◌≡◌, refl, ◌↔◌, ap, ap₂, subst, ◌∙◌, inl,
  inr, true, Bool-cases, bit_and, arith,
}
use auto_fastlio.Prelude.Bits.{bit_and-low_ones, bit_and_halves}
use auto_fastlio.Ldq.{is_power_of_2, roundup_from, roundup_power_of_2, block_size}

-- One round of the loop.
roundup_from_hit :
    (rounds i size last : ℕ) → size ≤ 2 ^ i → roundup_from (suc rounds) i size last ≡ 2 ^ i
unfolding roundup_from
roundup_from_hit rounds i size last h = ground arith

roundup_from_miss :
    (rounds i size last : ℕ)
    → 2 ^ i < size
    → roundup_from (suc rounds) i size last ≡ roundup_from rounds (i + 1) size (2 ^ i)
unfolding roundup_from
roundup_from_miss rounds i size last h = ground arith

-- What the loop returns: the least power of two that is not below the size.
abbrev pub LeastPower : ℕ → ℕ → ℕ → Type 0
LeastPower bound size r = (k : ℕ) × (r ≡ 2 ^ k) × (k ≤ bound) × (size ≤ 2 ^ k) × (2 ^ k < 2 * size)

pow-add_one : (i : ℕ) → 2 ^ (i + 1) ≡ 2 * 2 ^ i
pow-add_one i = rw add-one (omega (arith, pow-suc 2 i))

roundup_from-LeastPower :
    (rounds i size last top : ℕ)
    → top ≡ i + rounds
    → size ≤ 2 ^ top
    → 2 ^ i < 2 * size
    → LeastPower top size (roundup_from (suc rounds) i size last)
roundup_from-LeastPower zero i size last top e h lo =
    let fits : size ≤ 2 ^ i = subst (λ t. size ≤ 2 ^ t) (omega arith) h in
    (i, roundup_from_hit zero i size last fits, omega arith, fits, lo)
roundup_from-LeastPower (suc rounds) i size last top e h lo = elim (dec_le size (2 ^ i)) [
  | yes fits ↦ (i, roundup_from_hit (suc rounds) i size last fits, omega arith, fits, lo)
  | no over ↦ rw (roundup_from_miss (suc rounds) i size last (omega arith)) (
      roundup_from-LeastPower rounds (i + 1) size (2 ^ i) top (omega arith) h
        (omega (arith, pow-add_one i)))
]

-- `RoundupPowerOf2` gives the least power of two that holds the size, for 1 ≤ size ≤ 2^31.
pub roundup_power_of_2-LeastPower :
    (size : ℕ) → 1 ≤ size → size ≤ 2 ^ 31 → LeastPower 31 size (roundup_power_of_2 size)
unfolding roundup_power_of_2
roundup_power_of_2-LeastPower size lo hi =
    roundup_from-LeastPower 31 0 size 0 31 (omega arith) hi (omega arith)

-- No round of the loop stops at a size above every power tried: the last power is returned.
below : {a n : ℕ} (b : ℕ) → a ≤ b → b < n → a < n
below b p q = omega arith

roundup_from_over :
    (rounds i size last : ℕ)
    → 2 ^ (i + rounds) < size
    → roundup_from (suc rounds) i size last ≡ 2 ^ (i + rounds)
roundup_from_over zero i size last h =
    roundup_from_miss zero i size last (subst (λ t. 2 ^ t < size) (omega arith) h)
    ∙ unfold roundup_from in ap (λ t. 2 ^ t) (omega arith)
roundup_from_over (suc rounds) i size last h =
    roundup_from_miss (suc rounds) i size last
      (below (2 ^ (i + suc rounds)) (pow-le-pow_right {n = 2} (omega arith) (omega arith)) h)
    ∙ roundup_from_over rounds (i + 1) size (2 ^ i) (subst (λ t. 2 ^ t < size) (omega arith) h)
    ∙ ap (λ t. 2 ^ t) (omega arith)

-- A size above 2^31 is rounded down to 2^31: the block is then smaller than was asked for.
pub roundup_power_of_2_over : (size : ℕ) → 2 ^ 31 < size → roundup_power_of_2 size ≡ 2 ^ 31
unfolding roundup_power_of_2
roundup_power_of_2_over size h = roundup_from_over 31 0 size 0 h

bit_and_self_upto : (n y : ℕ) → y ≤ n → bit_and y y ≡ y
bit_and_self_upto n zero h = refl
bit_and_self_upto zero (suc y) h = absurd (omega arith)
bit_and_self_upto (suc n) (suc y) h =
    omega (arith, bit_and_halves (suc y) (suc y), bit_and_self_upto n (suc y / 2) (omega arith))

-- `x & (x - 1)` at an even and at an odd x.
clear_even : (n y : ℕ) → n ≡ 2 * y → 1 ≤ y → bit_and n (n - 1) ≡ 2 * bit_and y (y - 1)
clear_even n y e h =
    let half : n / 2 ≡ y = omega arith in
    let under : (n - 1) / 2 ≡ y - 1 = omega arith in
    omega (arith, bit_and_halves n (n - 1), ap₂ bit_and half under)

clear_odd : (n y : ℕ) → n ≡ 2 * y + 1 → bit_and n (n - 1) ≡ 2 * y
clear_odd n y e =
    let half : n / 2 ≡ y = omega arith in
    let under : (n - 1) / 2 ≡ y = omega arith in
    omega
      (arith, bit_and_halves n (n - 1), ap₂ bit_and half under, bit_and_self_upto y y (omega arith))

-- A positive number with no bit left after its lowest one is cleared is a power of two.
power_of_clear : (fuel n : ℕ) → n ≤ fuel → 1 ≤ n → bit_and n (n - 1) ≡ 0 → (k : ℕ) × (n ≡ 2 ^ k)
power_of_clear zero n h lo e = absurd (omega arith)
power_of_clear (suc fuel) n h lo e = elim (ℕ_discrete (n % 2) 0) [
  | yes even ↦
      let (k, p) =
        power_of_clear fuel (n / 2) (omega arith) (omega arith)
          (omega (arith, clear_even n (n / 2) (omega arith) (omega arith))) in
      (k + 1, omega (arith, p, pow-add_one k))
  | no odd ↦ (0, omega (arith, clear_odd n (n / 2) (omega arith)))
]

is_power_of_2_parts : (n : ℕ) → is_power_of_2 n ≡ true → (1 ≤ n) × (bit_and n (n - 1) ≡ 0)
unfolding is_power_of_2
is_power_of_2_parts n h = ground arith

is_power_of_2_pow : (k : ℕ) → is_power_of_2 (2 ^ k) ≡ true
unfolding is_power_of_2
is_power_of_2_pow k = ground (arith, one-le-pow k 2, bit_and_pred k)
  where
    bit_and_pred : (k : ℕ) → bit_and (2 ^ k) (2 ^ k - 1) ≡ 0
    bit_and_pred k = omega (arith, bit_and-low_ones k (2 ^ k), mod_self (2 ^ k))

-- `IsPowerOf2` accepts exactly the powers of two.
pub is_power_of_2_iff : (n : ℕ) → (is_power_of_2 n ≡ true) ↔ ((k : ℕ) × (n ≡ 2 ^ k))
is_power_of_2_iff n = (found, λ (k, e). rw e (is_power_of_2_pow k))
  where
    found : is_power_of_2 n ≡ true → (k : ℕ) × (n ≡ 2 ^ k)
    found h = let (lo, e) = is_power_of_2_parts n h in power_of_clear n n (omega arith) lo e

roundup_power_of_2-zero : roundup_power_of_2 0 ≡ 1
unfolding roundup_power_of_2
roundup_power_of_2-zero = refl

exponent_lt : (k : ℕ) → 2 ^ k < 2 ^ 32 → k ≤ 31
exponent_lt k h = elim (dec_le k 31) [
  | yes p ↦ p
  | no p ↦
      absurd (below_self (pow-le-pow_right {n = 2} (omega arith) {i = 32} {j = k} (omega arith)))
]
  where
    below_self : 2 ^ 32 ≤ 2 ^ k → ⊥
    below_self q = omega arith

-- The exponent of a power of two up to 2^31.
abbrev pub IsBlockSize : ℕ → Type 0
IsBlockSize n = (k : ℕ) × (n ≡ 2 ^ k) × (k ≤ 31)

roundup_power_of_2-IsBlockSize : (n : ℕ) → IsBlockSize (roundup_power_of_2 n)
roundup_power_of_2-IsBlockSize n = elim (ℕ_discrete n 0) [
  | yes z ↦ (0, rw z roundup_power_of_2-zero, omega arith)
  | no p ↦ elim (dec_le n (2 ^ 31)) [
    | yes q ↦ let (k, e, b, _, _) = roundup_power_of_2-LeastPower n (omega arith) q in (k, e, b)
    | no q ↦ (31, roundup_power_of_2_over n (omega arith), omega arith)
  ]
]

-- Whatever size is asked for, `InitQueue` takes a block of a power of two within 2^31.
pub block_size-IsBlockSize : (n : ℕ) → n < 2 ^ 32 → IsBlockSize (block_size n)
block_size-IsBlockSize n h = elim (Bool-cases (is_power_of_2 n)) [
  | inl yes_power ↦
      let (k, e) = (is_power_of_2_iff n).0 yes_power in
      rw yes_power (k, e, exponent_lt k (rw e at h))
  | inr other ↦ rw other (roundup_power_of_2-IsBlockSize n)
]

-- The block holds at least the size asked for, if that is between 1 and 2^31.
pub le-block_size : (n : ℕ) → 1 ≤ n → n ≤ 2 ^ 31 → n ≤ block_size n
le-block_size n lo hi = elim (Bool-cases (is_power_of_2 n)) [
  | inl e ↦ rw e (omega arith)
  | inr e ↦
      let (k, r, _, fits, _) = roundup_power_of_2-LeastPower n lo hi in rw e (omega (arith, r))
]
