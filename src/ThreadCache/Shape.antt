-- ===== src/ThreadCache/Shape.antt =====
-- What a thread cache stands for: a list of blocks for each class, counted and measured.
use hplf_malloc.Prelude.{
  ℕ, ◌+◌, ◌*◌, ◌≤◌, ◌<◌, ◌≡◌, ap, List, arith, length, update, sum_below, sum_below-update,
  sum_below-eq, sum_below-ge, sum_below-eq-zero, ℕ_discrete,
}
use hplf_malloc.SizeClass.{class_count}
use hplf_malloc.SizeClass.Fit.{capacity_at}
use hplf_malloc.Heap.{Ptr, Heap}
use hplf_malloc.Heap.Family.{IsFamily}
use hplf_malloc.ThreadCache.{ThreadCache}

-- The bytes of the blocks of class `i`.
abbrev pub class_bytes : (ℕ → List Ptr) → ℕ → ℕ
class_bytes lists i = length (lists i) * capacity_at i

unfoldable pub slot_bytes : (ℕ → List Ptr) → ℕ
slot_bytes lists = sum_below class_count (class_bytes lists)

pub slot_bytes-update :
    (lists : ℕ → List Ptr) (i : ℕ) (zs : List Ptr)
    → i < class_count
    → slot_bytes (update lists i zs) + length (lists i) * capacity_at i
      ≡ slot_bytes lists + length zs * capacity_at i
unfolding slot_bytes
slot_bytes-update lists i zs h = omega (
  arith,
  sum_below-eq class_count (class_bytes (update lists i zs))
      (update (class_bytes lists) i (length zs * capacity_at i)) entry,
  sum_below-update class_count (class_bytes lists) i (length zs * capacity_at i) h,
)
  where
    entry :
        (j : ℕ)
        → j < class_count
        → class_bytes (update lists i zs) j
          ≡ update (class_bytes lists) i (length zs * capacity_at i) j
    entry j lt = elim (ℕ_discrete i j) [
      | yes e ↦ ground (arith, ap capacity_at e)
      | no ne ↦ ground arith
    ]

pub slot_bytes-ge :
    (lists : ℕ → List Ptr) (i : ℕ)
    → i < class_count
    → length (lists i) * capacity_at i ≤ slot_bytes lists
unfolding slot_bytes
slot_bytes-ge lists i h = sum_below-ge class_count (class_bytes lists) i h

pub slot_bytes-eq-zero :
    (lists : ℕ → List Ptr)
    → ((i : ℕ) → i < class_count → length (lists i) ≡ 0)
    → slot_bytes lists ≡ 0
unfolding slot_bytes
slot_bytes-eq-zero lists all =
    sum_below-eq-zero class_count (class_bytes lists)
      λ i lt. omega (arith, ap (λ t. t * capacity_at i) (all i lt))

-- The cache holds exactly the blocks `lists i` in class `i`, in that order, and its counts and its
-- total agree with them.
pub record IsCache (h : Heap) (c : ThreadCache) (lists : ℕ → List Ptr) : Type 0 where
  pub family : IsFamily h c.heads lists
  pub counts : (i : ℕ) → c.counts i ≡ length (lists i)
  pub total : c.total_slot_bytes ≡ slot_bytes lists
