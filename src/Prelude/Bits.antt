-- ===== src/Prelude/Bits.antt =====
-- `&` at variables: the digit recursion, powers of two, and the effect of a high mask.
use Prim.Native.Nat.{
  ℕ, zero, suc, ◌+◌, ◌-◌, ◌*◌, ◌/◌, ◌%◌, ◌^◌, ◌≤◌, ◌<◌, min, bit_and, digits, bit_and-bitwise,
}
use mathlib.Core.Path.{◌≡◌, refl, sym, ap, ap₂, ◌∙◌}
use mathlib.Core.Logic.{◌≢◌}
use native.Mathlib.Nat.{two-pow-succ, div-div-eq-div-mul, one-le-pow}
use native.Mathlib.Decide.{dec_le, ℕ_discrete}
use native.Mathlib.Omega.{arith}

-- A bitwise operation on the lowest `rounds` binary digits of `a`: `beyond` gives what is left of `b`.
module _ (beyond : ℕ → ℕ) (on_bits : ℕ → ℕ → ℕ) where
  -- Rounds beyond the size of the left operand add no digit.
  pub spare_rounds :
      (extra rounds a b : ℕ)
      → a ≤ rounds
      → digits beyond on_bits (extra + rounds) a b ≡ digits beyond on_bits rounds a b
  spare_rounds zero rounds a b le =
      let none_spare : 0 + rounds ≡ rounds = omega arith in
      ap (λ k. digits beyond on_bits k a b) none_spare
  spare_rounds (suc extra) rounds a b le =
      let split : suc extra + rounds ≡ suc (extra + rounds) = omega arith in
      ap (λ k. digits beyond on_bits k a b) split
      ∙ one_more (extra + rounds) a b (omega arith)
      ∙ spare_rounds extra rounds a b le
    where
      one_more :
          (k x y : ℕ) → x ≤ k → digits beyond on_bits (suc k) x y ≡ digits beyond on_bits k x y
      one_more zero zero y le' = refl
      one_more zero (suc x) y le' = absurd (omega arith)
      one_more (suc k) zero y le' = refl
      one_more (suc k) (suc x) y le' =
          ap (λ t. t * 2 + on_bits (suc x % 2) (y % 2))
            (one_more k (suc x / 2) (y / 2) (omega arith))

  -- As many rounds as the half of a number, or as the number without one: the same.
  pub half_rounds :
      (a b : ℕ)
      → digits beyond on_bits a (suc a / 2) b ≡ digits beyond on_bits (suc a / 2) (suc a / 2) b
  half_rounds a b =
      let half = suc a / 2 in
      let all : a - half + half ≡ a = omega arith in
      ap (λ k. digits beyond on_bits k half b) (sym all)
      ∙ spare_rounds (a - half) half half b (omega arith)

zero-bit_and : (right : ℕ) → bit_and 0 right ≡ 0
zero-bit_and right = bit_and-bitwise 0 right

-- One digit at a time.
pub bit_and_step : (a b : ℕ) → bit_and a b ≡ min (a % 2) (b % 2) + 2 * bit_and (a / 2) (b / 2)
bit_and_step zero b =
    let none = zero-bit_and b in let none_above = zero-bit_and (b / 2) in omega arith
bit_and_step (suc a) b = omega (
  arith,
  bit_and-bitwise (suc a) b,
  half_rounds (λ _. zero) min a (b / 2),
  bit_and-bitwise (suc a / 2) (b / 2),
)

pos_pow : (w : ℕ) → 1 ≤ 2 ^ w
pos_pow w = one-le-pow w 2 (omega arith)

bit_and-self_fuel : (n a : ℕ) → a ≤ n → bit_and a a ≡ a
bit_and-self_fuel n zero h = zero-bit_and 0
bit_and-self_fuel zero (suc a) h = absurd (omega arith)
bit_and-self_fuel (suc n) (suc a) h =
    omega (arith, bit_and_step (suc a) (suc a), bit_and-self_fuel n (suc a / 2) (omega arith))

pub bit_and_self : (a : ℕ) → bit_and a a ≡ a
bit_and_self a = bit_and-self_fuel a a (omega arith)

-- A full mask of `w` ones keeps a number below `2 ^ w`.
bit_and_ones : (w v : ℕ) → v < 2 ^ w → bit_and v (2 ^ w - 1) ≡ v
bit_and_ones zero v h =
    omega (arith, bit_and_step v 0, zero-bit_and 0, ap (λ t. bit_and t 0) zero_v)
  where
    zero_v : v ≡ 0
    zero_v = omega arith
bit_and_ones (suc w) v h =
    bit_and_step v (2 ^ suc w - 1)
    ∙ omega (
      arith,
      two-pow-succ w,
      pos_pow w,
      ap (λ t. bit_and (v / 2) t) halved,
      bit_and_ones w (v / 2) (omega (arith, two-pow-succ w)),
    )
  where
    halved : (2 ^ suc w - 1) / 2 ≡ 2 ^ w - 1
    halved = omega (arith, two-pow-succ w, pos_pow w)

-- The mask of the ones from `k` up to `w` clears the `k` low bits.
pub bit_and_high : (w k v : ℕ) → k ≤ w → v < 2 ^ w → bit_and v (2 ^ w - 2 ^ k) ≡ v / 2 ^ k * 2 ^ k
bit_and_high w zero v h l = omega (arith, bit_and_ones w v l)
bit_and_high zero (suc k) v h l = absurd (omega arith)
bit_and_high (suc w) (suc k) v h l =
    bit_and_step v (2 ^ suc w - 2 ^ suc k)
    ∙ omega (
      arith,
      two-pow-succ w,
      two-pow-succ k,
      ap (λ t. bit_and (v / 2) t) halved,
      bit_and_high w k (v / 2) (omega arith) (omega (arith, two-pow-succ w)),
      regroup,
    )
  where
    doubled : 2 ^ suc k ≡ 2 * 2 ^ k
    doubled = omega (arith, two-pow-succ k)

    quotient : v / 2 ^ suc k ≡ v / 2 / 2 ^ k
    quotient = rw doubled (sym (div-div-eq-div-mul v 2 (2 ^ k)))

    regroup : v / 2 ^ suc k * 2 ^ suc k ≡ v / 2 / 2 ^ k * 2 ^ k * 2
    regroup = rw (quotient, doubled) (omega arith)

    halved : (2 ^ suc w - 2 ^ suc k) / 2 ≡ 2 ^ w - 2 ^ k
    halved = omega (arith, two-pow-succ w, two-pow-succ k)

-- A number that shares no bit with its predecessor is a power of two.
pow2_fuel : (n a : ℕ) → a ≤ n → a ≢ 0 → bit_and a (a - 1) ≡ 0 → (k : ℕ) × (a ≡ 2 ^ k)
pow2_fuel zero a h ne e = absurd (ne (omega arith))
pow2_fuel (suc n) a h ne e = elim (dec_le a 1) [
  | yes one ↦ (0, omega arith)
  | no more ↦ elim (ℕ_discrete (a % 2) 0) [
    | no odd ↦ absurd (
        omega (
          arith,
          bit_and_step a (a - 1),
          ap (λ t. bit_and (a / 2) t) (odd_half odd),
          bit_and_self (a / 2),
        ))
    | yes even ↦
        let (k, p) = pow2_fuel n (a / 2) (omega arith) (omega arith) (half_step even) in
        (suc k, omega (arith, two-pow-succ k))
  ]
]
  where
    odd_half : a % 2 ≢ 0 → (a - 1) / 2 ≡ a / 2
    odd_half o = omega arith

    half_step : a % 2 ≡ 0 → bit_and (a / 2) (a / 2 - 1) ≡ 0
    half_step ev = omega (arith, bit_and_step a (a - 1), ap (λ t. bit_and (a / 2) t) (pred_half ev))
      where
        pred_half : a % 2 ≡ 0 → (a - 1) / 2 ≡ a / 2 - 1
        pred_half ev' = omega arith

pub pow2_of_bit_and : (a : ℕ) → a ≢ 0 → bit_and a (a - 1) ≡ 0 → (k : ℕ) × (a ≡ 2 ^ k)
pow2_of_bit_and a ne e = pow2_fuel a a (omega arith) ne e

-- A power of two shares no bit with its predecessor.
pub bit_and-pow2 : (k : ℕ) → bit_and (2 ^ k) (2 ^ k - 1) ≡ 0
bit_and-pow2 zero = bit_and_step 1 0 ∙ omega (arith, zero-bit_and 0)
bit_and-pow2 (suc k) =
    bit_and_step (2 ^ suc k) (2 ^ suc k - 1)
    ∙ omega (arith, two-pow-succ k, ap₂ bit_and upper lower, bit_and-pow2 k)
  where
    upper : 2 ^ suc k / 2 ≡ 2 ^ k
    upper = omega (arith, two-pow-succ k)

    lower : (2 ^ suc k - 1) / 2 ≡ 2 ^ k - 1
    lower = omega (arith, two-pow-succ k, pos_pow k)
