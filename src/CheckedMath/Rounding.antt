-- ===== src/CheckedMath/Rounding.antt =====
-- Rounding up: the two routines against the least multiple that is not smaller.
use native.Mathlib.Nat.{
  div-mul-le_self, lt-div-mul-add, pow-le-pow_right, one-le-pow, mul-mod_left, mul-mod_right,
  div-add-mod, mod-lt,
}
use hplf_malloc.Prelude.{
  ℕ, ◌+◌, ◌-◌, ◌*◌, ◌/◌, ◌%◌, ◌^◌, ◌≤◌, ◌<◌, ◌≡◌, ◌≢◌, refl, ap, ap₂, ◌∙◌, true, false, Option,
  none, some, arith, bit_and, is_none, if◌then◌else◌, ltb, ◌||◌, dec_lt, ◌==◌, ℕ_discrete,
}
use hplf_malloc.Prelude.Bits.{bit_and-pow2, bit_and_high, pow2_of_bit_and}
use hplf_malloc.CheckedMath.{size_max, wrap, size_align_up_pow2, size_round_up_multiple}
use hplf_malloc.CheckedMath.Exact.{exactly, size_add-exactly}

-- The least multiple of `m` that is at least `v`.
abbrev pub round_up : ℕ → ℕ → ℕ
round_up v m = (v + (m - 1)) / m * m

pub record IsRoundUp (v m r : ℕ) : Type 0 where
  pub above : v ≤ r
  pub near : r < v + m
  pub multiple : r % m ≡ 0

pub round_up-IsRoundUp : (v m : ℕ) → 0 < m → IsRoundUp v m (round_up v m)
round_up-IsRoundUp v m h =
    let low = div-mul-le_self (v + (m - 1)) m in
    let high = lt-div-mul-add {a = v + (m - 1)} h in
    record {
      above = omega arith;
      near = omega arith;
      multiple = mul-mod_left ((v + (m - 1)) / m) m;
    }

gap : (a b m : ℕ) → a < b → m * a + m ≤ m * b
gap a b m h = grind arith

-- Two multiples of `m` less than `m` apart from `v` upwards are the same.
pub IsRoundUp-unique : {v m r s : ℕ} → 0 < m → IsRoundUp v m r → IsRoundUp v m s → r ≡ s
IsRoundUp-unique {v} {m} {r} {s} h p q = elim (dec_lt (r / m) (s / m)) [
  | yes lt ↦ absurd (omega (arith, div-add-mod r m, div-add-mod s m, gap (r / m) (s / m) m lt))
  | no ge ↦ elim (dec_lt (s / m) (r / m)) [
    | yes gt ↦ absurd (omega (arith, div-add-mod r m, div-add-mod s m, gap (s / m) (r / m) m gt))
    | no le ↦ omega (arith, div-add-mod r m, div-add-mod s m, same (omega arith))
  ]
]
  where
    same : r / m ≡ s / m → m * (r / m) ≡ m * (s / m)
    same e = ap (λ t. m * t) e

pub exact-IsRoundUp : (v m : ℕ) → 0 < m → v % m ≡ 0 → IsRoundUp v m v
exact-IsRoundUp v m h e = record { above = omega arith; near = omega arith; multiple = e }

padded-IsRoundUp : (v m : ℕ) → 0 < m → v % m ≢ 0 → IsRoundUp v m (v + (m - v % m))
padded-IsRoundUp v m h ne = record {
  above = omega arith;
  near = omega arith;
  multiple = ap (λ t. t % m) regroup ∙ mul-mod_right m (v / m + 1);
}
  where
    regroup : v + (m - v % m) ≡ m * (v / m + 1)
    regroup = omega (arith, div-add-mod v m, mod-lt v h)

-- `hplf_size_round_up_multiple` gives the least multiple that is not below the value, where that
-- fits a size_t; otherwise, for a null pointer and for the multiple 0 it returns false and leaves
-- the target unchanged.
pub size_round_up_multiple_lem :
    (v m : ℕ) (result : Option ℕ)
    → v ≤ size_max
    → m ≤ size_max
    → size_round_up_multiple v m result
      ≡ (if m == 0 then (false, result) else exactly (round_up v m) result)
unfolding size_round_up_multiple
size_round_up_multiple_lem v m none hv hm = ground arith
size_round_up_multiple_lem v m (some w) hv hm = elim (ℕ_discrete m 0) [
  | yes z ↦ ground arith
  | no nz ↦
      let pos : 0 < m = omega arith in
      let up = round_up-IsRoundUp v m pos in
      elim (ℕ_discrete (v % m) 0) [
        | yes e ↦ ground (arith, IsRoundUp-unique pos up (exact-IsRoundUp v m pos e))
        | no ne ↦ ground (
          arith,
          IsRoundUp-unique pos up (padded-IsRoundUp v m pos ne),
          size_add-exactly v (m - v % m) (some w),
        )
      ]
]

-- A power of two up to SIZE_MAX has an exponent below 64.
exponent_lt : (k : ℕ) → 2 ^ k ≤ size_max → k < 64
exponent_lt k h = elim (dec_lt k 64) [
  | yes below ↦ below
  | no above ↦
      absurd (omega (arith, pow-le-pow_right {n = 2} (omega arith) {i = 64} {j = k} (omega arith)))
]

-- The mask of `hplf_size_align_up_pow2` rounds up to the power of two.
mask_rounds :
    (k v : ℕ)
    → k < 64
    → v + (2 ^ k - 1) ≤ size_max
    → bit_and (wrap (v + (2 ^ k - 1))) (size_max - (2 ^ k - 1)) ≡ round_up v (2 ^ k)
mask_rounds k v h fits =
    ap₂ bit_and value mask ∙ bit_and_high 64 k (v + (2 ^ k - 1)) (omega arith) (omega arith)
  where
    value : wrap (v + (2 ^ k - 1)) ≡ v + (2 ^ k - 1)
    value = omega arith

    mask : size_max - (2 ^ k - 1) ≡ 2 ^ 64 - 2 ^ k
    mask = omega (arith, one-le-pow k 2 (omega arith))

abbrev pub IsPow2 : ℕ → Type 0
IsPow2 a = (k : ℕ) × (a ≡ 2 ^ k)

-- For a power of two, `hplf_size_align_up_pow2` gives the least multiple of the alignment that is
-- not below the value, unless the value plus the mask exceeds SIZE_MAX or the pointer is null: then
-- it returns false and leaves the target unchanged.
pub size_align_up_pow2_lem :
    (k v : ℕ) (result : Option ℕ)
    → v ≤ size_max
    → 2 ^ k ≤ size_max
    → size_align_up_pow2 v (2 ^ k) result ≡ (
        if is_none result || ltb size_max (v + (2 ^ k - 1))
        then (false, result)
        else (true, some (round_up v (2 ^ k))))
unfolding size_align_up_pow2
size_align_up_pow2_lem k v none hv ha = refl
size_align_up_pow2_lem k v (some w) hv ha =
    ground (arith, one-le-pow k 2 (omega arith), bit_and-pow2 k, mask_rounds k v (exponent_lt k ha))

-- Any other alignment is refused, and the target is unchanged.
pub size_align_up_pow2_refuses :
    (v a : ℕ) (result : Option ℕ) → ¬ IsPow2 a → size_align_up_pow2 v a result ≡ (false, result)
unfolding size_align_up_pow2
size_align_up_pow2_refuses v a none h = refl
size_align_up_pow2_refuses v a (some w) h = elim (ℕ_discrete a 0) [
  | yes z ↦ ground arith
  | no nz ↦ elim (ℕ_discrete (bit_and a (a - 1)) 0) [
    | yes e ↦ absurd (h (pow2_of_bit_and a nz e))
    | no ne ↦ ground arith
  ]
]
