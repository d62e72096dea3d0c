-- ===== src/CheckedMath/Exact.antt =====
-- The checked sum and product against the mathematical ones.
use native.Mathlib.Nat.{div-lt_iff_lt-mul}
use hplf_malloc.Prelude.{
  ℕ, ◌+◌, ◌*◌, ◌≤◌, ◌≡◌, refl, Bool, true, false, not, ◌&&◌, Option, none, some, arith, leb,
  is_none, if◌then◌else◌, ℕ_discrete,
}
use hplf_malloc.CheckedMath.{size_max, size_add, size_multiply, local_result}

-- What a checked operation promises: the exact value `n` where the pointer is not null and `n` is a
-- size_t, and otherwise false with the target as it was.
abbrev pub exactly : ℕ → Option ℕ → Bool × Option ℕ
exactly n result =
    if not (is_none result) && leb n size_max then (true, some n) else (false, result)

-- For operands in range, `hplf_size_add` is the exact sum where it fits a size_t; otherwise, and for
-- a null pointer, it returns false and leaves the target unchanged.
pub size_add-exactly :
    (left right : ℕ) (result : Option ℕ)
    → left ≤ size_max
    → right ≤ size_max
    → size_add left right result ≡ exactly (left + right) result
unfolding size_add
size_add-exactly left right none hl hr = refl
size_add-exactly left right (some v) hl hr = ground arith

-- For operands in range, `hplf_size_multiply` is the exact product where it fits a size_t;
-- otherwise, and for a null pointer, it returns false and leaves the target unchanged.
pub size_multiply-exactly :
    (left right : ℕ) (result : Option ℕ)
    → left ≤ size_max
    → right ≤ size_max
    → size_multiply left right result ≡ exactly (left * right) result
unfolding size_multiply
size_multiply-exactly left right none hl hr = refl
size_multiply-exactly left right (some v) hl hr = elim (ℕ_discrete left 0) [
  | yes z ↦ ground arith
  | no nz ↦
      let over = div-lt_iff_lt-mul {k = left} {x = size_max} {y = right} (omega arith) in
      ground (arith, over.0, over.1)
]

pub local-size_add :
    (a b : ℕ)
    → a ≤ size_max
    → b ≤ size_max
    → local_result (size_add a b) ≡ (if leb (a + b) size_max then some (a + b) else none)
unfolding local_result
local-size_add a b ha hb = ground (arith, size_add-exactly a b (some 0))
