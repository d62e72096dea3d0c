-- ===== src/CheckedMath.antt =====
-- src/checked_math.h: the four checked operations on size_t, 64 bits wide. A `size_t *result` is an
-- `Option ℕ`: `none` is NULL, `some v` points at `v`. Each function returns its Boolean and the
-- pointer's target after the call.
pub mod Exact
pub mod Rounding
use hplf_malloc.Prelude.{
  ℕ, ◌+◌, ◌-◌, ◌*◌, ◌/◌, ◌%◌, ◌^◌, Bool, true, false, not, ◌&&◌, ◌||◌, Option, none, some, bit_and,
  ltb, ◌==◌, is_none, if◌then◌else◌,
}

abbrev pub size_max : ℕ
size_max = 2 ^ 64 - 1

-- The value of a size_t expression: arithmetic modulo 2 ^ 64.
abbrev pub wrap : ℕ → ℕ
wrap n = n % 2 ^ 64

unfoldable pub size_add : ℕ → ℕ → Option ℕ → Bool × Option ℕ
size_add left right result =
    if is_none result || ltb (size_max - left) right
    then (false, result)
    else (true, some (wrap (left + right)))

unfoldable pub size_multiply : ℕ → ℕ → Option ℕ → Bool × Option ℕ
size_multiply left right result =
    if is_none result || (not (left == 0) && ltb (size_max / left) right)
    then (false, result)
    else (true, some (wrap (left * right)))

-- `~ mask` is `size_max - mask` on 64 bits.
unfoldable pub size_align_up_pow2 : ℕ → ℕ → Option ℕ → Bool × Option ℕ
size_align_up_pow2 value alignment result =
    if is_none result || alignment == 0 || not (bit_and alignment (alignment - 1) == 0)
    then (false, result)
    else let mask = alignment - 1 in
      if ltb (size_max - mask) value
      then (false, result)
      else (true, some (bit_and (wrap (value + mask)) (size_max - mask)))

unfoldable pub size_round_up_multiple : ℕ → ℕ → Option ℕ → Bool × Option ℕ
unfolding size_add
size_round_up_multiple value multiple result =
    if is_none result || multiple == 0
    then (false, result)
    else let remainder = value % multiple in
      if remainder == 0 then (true, some value) else size_add value (multiple - remainder) result

-- A call `f(..., &local)`: what the caller reads from the local variable, if the call succeeds. The
-- local's first value is not read.
unfoldable pub local_result : (Option ℕ → Bool × Option ℕ) → Option ℕ
local_result f = let r = f (some 0) in if r.0 then r.1 else none
