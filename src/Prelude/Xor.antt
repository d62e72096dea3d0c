-- ===== src/Prelude/Xor.antt =====
-- `^` at variables: its digits, and that `x ^ (x >> k)` loses nothing.
use Prim.Native.Nat.{
  ℕ, zero, suc, ◌+◌, ◌*◌, ◌/◌, ◌%◌, ◌^◌, ◌≤◌, ◌<◌, bit_xor, differ, bit_xor-bitwise,
}
use mathlib.Core.Path.{◌≡◌, refl, sym, ap, ap₂, ◌∙◌}
use native.Mathlib.Nat.{two-pow-succ, div-div-eq-div-mul}
use native.Mathlib.Omega.{arith}
use hplf_malloc.Prelude.Bits.{half_rounds}

zero-bit_xor : (right : ℕ) → bit_xor 0 right ≡ right
zero-bit_xor right = bit_xor-bitwise 0 right

-- One digit at a time.
pub bit_xor_step : (a b : ℕ) → bit_xor a b ≡ bit_xor (a / 2) (b / 2) * 2 + differ (a % 2) (b % 2)
bit_xor_step zero b = omega (arith, zero-bit_xor b, zero-bit_xor (b / 2))
bit_xor_step (suc a) b = omega (
  arith,
  bit_xor-bitwise (suc a) b,
  half_rounds (λ y. y) differ a (b / 2),
  bit_xor-bitwise (suc a / 2) (b / 2),
)

differ-le : (a b : ℕ) → a < 2 → b < 2 → differ a b ≤ 1
differ-le zero b ha hb = omega arith
differ-le (suc zero) zero ha hb = omega arith
differ-le (suc zero) (suc b) ha hb = omega arith
differ-le (suc (suc a)) b ha hb = absurd (omega arith)

differ_cancel : (a b t : ℕ) → a < 2 → b < 2 → t < 2 → differ a t ≡ differ b t → a ≡ b
differ_cancel zero zero t ha hb ht e = refl
differ_cancel zero (suc zero) zero ha hb ht e = omega arith
differ_cancel zero (suc zero) (suc zero) ha hb ht e = omega arith
differ_cancel (suc zero) zero zero ha hb ht e = omega arith
differ_cancel (suc zero) zero (suc zero) ha hb ht e = omega arith
differ_cancel (suc zero) (suc zero) t ha hb ht e = refl
differ_cancel (suc (suc a)) b t ha hb ht e = absurd (omega arith)
differ_cancel a (suc (suc b)) t ha hb ht e = absurd (omega arith)
differ_cancel a b (suc (suc t)) ha hb ht e = absurd (omega arith)

-- Both operands below `2 ^ w`: so is the result.
pub bit_xor-lt : (w a b : ℕ) → a < 2 ^ w → b < 2 ^ w → bit_xor a b < 2 ^ w
bit_xor-lt zero a b ha hb =
    let no_a : a ≡ 0 = omega arith in
    let no_b : b ≡ 0 = omega arith in omega (arith, ap₂ bit_xor no_a no_b, zero-bit_xor 0)
bit_xor-lt (suc w) a b ha hb = omega (
  arith,
  two-pow-succ w,
  bit_xor_step a b,
  differ-le (a % 2) (b % 2) (omega arith) (omega arith),
  bit_xor-lt w (a / 2) (b / 2) (omega (arith, two-pow-succ w)) (omega (arith, two-pow-succ w)),
)

-- `x ^ (x >> k)`
abbrev pub xor_shift : ℕ → ℕ → ℕ
xor_shift k x = bit_xor x (x / 2 ^ k)

half_shift : (k x : ℕ) → x / 2 ^ suc k ≡ x / 2 / 2 ^ k
half_shift k x =
    let doubled : 2 ^ suc k ≡ 2 * 2 ^ k = omega (arith, two-pow-succ k) in
    rw doubled (sym (div-div-eq-div-mul x 2 (2 ^ k)))

shift_half : (k x : ℕ) → x / 2 ^ k / 2 ≡ x / 2 / 2 ^ k
shift_half k x =
    let doubled : 2 ^ suc k ≡ 2 ^ k * 2 = omega (arith, two-pow-succ k) in
    div-div-eq-div-mul x (2 ^ k) 2 ∙ ap (λ t. x / t) (sym doubled) ∙ half_shift k x

xor_shift_step :
    (k x : ℕ) → xor_shift k x ≡ xor_shift k (x / 2) * 2 + differ (x % 2) (x / 2 ^ k % 2)
xor_shift_step k x =
    bit_xor_step x (x / 2 ^ k)
    ∙ ap (λ t. bit_xor (x / 2) t * 2 + differ (x % 2) (x / 2 ^ k % 2)) (shift_half k x)

below_injective : (n k x y : ℕ) → x ≤ n → y ≤ n → xor_shift (suc k) x ≡ xor_shift (suc k) y → x ≡ y
below_injective zero k x y hx hy e = omega arith
below_injective (suc n) k x y hx hy e =
    let dx = differ-le (x % 2) (x / 2 ^ suc k % 2) (omega arith) (omega arith) in
    let dy = differ-le (y % 2) (y / 2 ^ suc k % 2) (omega arith) (omega arith) in
    let sx = xor_shift_step (suc k) x in
    let sy = xor_shift_step (suc k) y in
    let halves : x / 2 ≡ y / 2 =
      below_injective n k (x / 2) (y / 2) (omega arith) (omega arith) (omega arith) in
    let top : x / 2 ^ suc k ≡ y / 2 ^ suc k =
      half_shift k x ∙ ap (λ t. t / 2 ^ k) halves ∙ sym (half_shift k y) in
    let bits : differ (x % 2) (x / 2 ^ suc k % 2) ≡ differ (y % 2) (x / 2 ^ suc k % 2) =
      omega (arith, ap (λ t. differ (y % 2) (t % 2)) top) in
    let low : x % 2 ≡ y % 2 =
      differ_cancel (x % 2) (y % 2) (x / 2 ^ suc k % 2) (omega arith) (omega arith) (omega arith)
        bits in
    omega arith

-- Folding a number's high part into its low part loses nothing.
pub xor_shift_injective : (k x y : ℕ) → xor_shift (suc k) x ≡ xor_shift (suc k) y → x ≡ y
xor_shift_injective k x y e = below_injective (x + y) k x y (omega arith) (omega arith) e

differ_comm : (a b : ℕ) → differ a b ≡ differ b a
differ_comm zero zero = refl
differ_comm zero (suc b) = refl
differ_comm (suc a) zero = refl
differ_comm (suc a) (suc b) = differ_comm a b

cancel_below : (n mask x y : ℕ) → x ≤ n → y ≤ n → bit_xor mask x ≡ bit_xor mask y → x ≡ y
cancel_below zero mask x y hx hy e = omega arith
cancel_below (suc n) mask x y hx hy e =
    let sx = bit_xor_step mask x in
    let sy = bit_xor_step mask y in
    let dx = differ-le (mask % 2) (x % 2) (omega arith) (omega arith) in
    let dy = differ-le (mask % 2) (y % 2) (omega arith) (omega arith) in
    let halves : x / 2 ≡ y / 2 =
      cancel_below n (mask / 2) (x / 2) (y / 2) (omega arith) (omega arith) (omega arith) in
    let bits : differ (mask % 2) (x % 2) ≡ differ (mask % 2) (y % 2) = omega arith in
    let low : x % 2 ≡ y % 2 =
      differ_cancel (x % 2) (y % 2) (mask % 2) (omega arith) (omega arith) (omega arith)
        (differ_comm (x % 2) (mask % 2) ∙ bits ∙ differ_comm (mask % 2) (y % 2)) in
    omega arith

pub bit_xor_cancel : (mask x y : ℕ) → bit_xor mask x ≡ bit_xor mask y → x ≡ y
bit_xor_cancel mask x y e = cancel_below (x + y) mask x y (omega arith) (omega arith) e
