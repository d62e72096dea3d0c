-- ===== src/Layout/Slots.antt =====
-- Slab layouts: the slots are aligned, apart from one another and from the header, and inside the
-- mapping; and the computation succeeds for every class.
use native.Mathlib.Nat.{div-mul-le_self, lt-div-mul-add, le-div_iff_mul-le}
use hplf_malloc.Prelude.{
  ℕ, zero, suc, ◌+◌, ◌-◌, ◌*◌, ◌/◌, ◌%◌, ◌^◌, ◌≤◌, ◌<◌, ◌≡◌, ◌≢◌, refl, ◌∙◌, false, ◌||◌, some,
  arith, ltb, leb, ◌==◌,
}
use hplf_malloc.CheckedMath.{
  size_max, wrap, size_add, size_multiply, size_align_up_pow2, size_round_up_multiple, local_result,
}
use hplf_malloc.CheckedMath.Exact.{size_multiply-exactly, local-size_add}
use hplf_malloc.CheckedMath.Rounding.{
  round_up, IsRoundUp, round_up-IsRoundUp, size_round_up_multiple_lem, size_align_up_pow2_lem,
}
use hplf_malloc.Heap.{Ptr, null, sizeof_block, sizeof_slab}
use hplf_malloc.Layout.{
  payload_alignment, slab_target_bytes, block_payload_offset, block_payload, block_from_payload,
  SlabLayout, slab_layout_compute,
}

-- The payload of a block starts 48 bytes behind it.
pub payload_offset_value : local_result block_payload_offset ≡ some 48
unfolding block_payload_offset local_result size_align_up_pow2
payload_offset_value = refl

-- For a block whose payload does not wrap round the address space, the payload's address leads back
-- to the block, is aligned to 16 bytes like the block, and is not null.
pub payload_round_trip :
    (block : Ptr)
    → block ≢ null
    → block + 48 < 2 ^ 64
    → (block_from_payload (block_payload block) ≡ block)
      × (block_payload block % payload_alignment ≡ block % payload_alignment)
      × (block_payload block ≢ null)
unfolding block_payload block_from_payload local_result block_payload_offset size_align_up_pow2
payload_round_trip block ne small =
    let live : (block == null) ≡ false = ground arith in
    let offset : wrap (block + 48) ≡ block + 48 = omega arith in
    let found : (block + 48 == null) ≡ false = ground arith in
    (
      rw (live, offset, found) (omega arith),
      rw (live, offset) (omega arith),
      rw (live, offset) (omega arith),
    )

pub local-round_up :
    (v m : ℕ)
    → v ≤ size_max
    → m ≤ size_max
    → 0 < m
    → round_up v m ≤ size_max
    → local_result (size_round_up_multiple v m) ≡ some (round_up v m)
unfolding local_result
local-round_up v m hv hm pos fits =
    rw (size_round_up_multiple_lem v m (some 0) hv hm) (ground arith)

pub local-align_up :
    (v : ℕ)
    → v + 15 ≤ size_max
    → local_result (size_align_up_pow2 v payload_alignment) ≡ some (round_up v payload_alignment)
unfolding local_result
local-align_up v fits =
    rw (size_align_up_pow2_lem 4 v (some 0) (omega arith) (omega arith)) (ground arith)

pub local-multiply :
    (a b : ℕ)
    → a ≤ size_max
    → b ≤ size_max
    → a * b ≤ size_max
    → local_result (size_multiply a b) ≡ some (a * b)
unfolding local_result
local-multiply a b ha hb fits = rw (size_multiply-exactly a b (some 0) ha hb) (ground arith)

pub local-add : (a b : ℕ) → a + b ≤ size_max → local_result (size_add a b) ≡ some (a + b)
local-add a b fits = local-size_add a b (omega arith) (omega arith) ∙ ground arith

-- What makes a layout right for slots of a capacity and pages of a size.
pub record IsSlabLayout (capacity page : ℕ) (l : SlabLayout) : Type 0 where
  pub pages : l.mapping_length % page ≡ 0
  pub target : slab_target_bytes ≤ l.mapping_length
  pub header : sizeof_slab ≤ l.first_slot_offset
  pub first_aligned : l.first_slot_offset % payload_alignment ≡ 0
  pub stride_aligned : l.slot_stride % payload_alignment ≡ 0
  pub holds : l.payload_offset + capacity ≤ l.slot_stride
  pub prefix : sizeof_block ≤ l.payload_offset
  pub some_slot : 0 < l.slot_count
  pub inside : l.first_slot_offset + l.slot_count * l.slot_stride ≤ l.mapping_length
  pub full : l.mapping_length < l.first_slot_offset + (l.slot_count + 1) * l.slot_stride
  pub same_capacity : l.class_capacity ≡ capacity

-- For every class capacity up to 4096 and every page size for which the target rounds up to a
-- size_t, a slab layout is computed: a whole number of pages that holds the header, at least one
-- slot and as many as fit, each aligned and with room for the prefix and the capacity.
pub slab_layout_compute-IsSlabLayout :
    (capacity page : ℕ)
    → 0 < capacity
    → capacity ≤ 4096
    → 0 < page
    → page ≤ size_max
    → round_up slab_target_bytes page ≤ size_max
    → (l : SlabLayout) × (slab_layout_compute capacity page ≡ some l) × IsSlabLayout capacity page l
unfolding slab_layout_compute
slab_layout_compute-IsSlabLayout capacity page pos small paged sized fits = (
  record {
    mapping_length = mapping;
    first_slot_offset = 64;
    payload_offset = 48;
    slot_stride = stride;
    slot_count = count;
    class_capacity = capacity;
  },
  rw (
    given,
    local-round_up slab_target_bytes page (omega arith) sized paged fits,
    local-align_up 64 (omega arith),
    payload_offset_value,
    local-add 48 capacity (omega arith),
    local-align_up (48 + capacity) (omega arith),
    room,
    some_slot,
    local-multiply count stride (omega (arith, low)) (omega (arith, up.near)) (omega (arith, low)),
    local-add 64 (count * stride) (omega (arith, low)),
    ends,
  ),
  record {
    pages = target.multiple;
    target = target.above;
    header = omega arith;
    first_aligned = omega arith;
    stride_aligned = up.multiple;
    holds = up.above;
    prefix = omega arith;
    some_slot = slots;
    inside = omega (arith, low, target.above);
    full = omega (arith, high);
    same_capacity = refl;
  },
)
  where
    mapping : ℕ
    mapping = round_up slab_target_bytes page

    stride : ℕ
    stride = round_up (48 + capacity) 16

    count : ℕ
    count = (mapping - 64) / stride

    target : IsRoundUp slab_target_bytes page mapping
    target = round_up-IsRoundUp slab_target_bytes page paged

    up : IsRoundUp (48 + capacity) 16 stride
    up = round_up-IsRoundUp (48 + capacity) 16 (omega arith)

    low : count * stride ≤ mapping - 64
    low = div-mul-le_self (mapping - 64) stride

    high : mapping - 64 < count * stride + stride
    high = lt-div-mul-add (omega (arith, up.above))

    slots : 0 < count
    slots = (le-div_iff_mul-le (omega (arith, up.above))).1 (omega (arith, target.above, up.near))

    given : (capacity == 0 || page == 0) ≡ false
    given = ground arith

    room : leb mapping 64 ≡ false
    room = ground (arith, target.above)

    some_slot : (count == 0) ≡ false
    some_slot = ground (arith, slots)

    ends : ltb mapping (64 + count * stride) ≡ false
    ends = ground (arith, low, target.above)

-- The offset of slot `i`.
abbrev pub slot_offset : SlabLayout → ℕ → ℕ
slot_offset l i = l.first_slot_offset + i * l.slot_stride

next_multiple : (a b s : ℕ) → a < b → a * s + s ≤ b * s
next_multiple a b s h = grind arith

multiple_aligned : (i s : ℕ) → s % 16 ≡ 0 → i * s % 16 ≡ 0
multiple_aligned zero s e = omega arith
multiple_aligned (suc i) s e = omega (arith, multiple_aligned i s e)

module _ {capacity page : ℕ} {l : SlabLayout} (is : IsSlabLayout capacity page l) (i : ℕ) where
  -- In a slab layout as computed (IsSlabLayout) every slot below the count is aligned, lies behind
  -- the header, and inside the mapping with its prefix and its capacity.
  pub slot_bounds :
      i < l.slot_count
      → (slot_offset l i % payload_alignment ≡ 0)
        × (sizeof_slab ≤ slot_offset l i)
        × (slot_offset l i + l.payload_offset + capacity ≤ l.mapping_length)
  slot_bounds lt = (
    omega (arith, is.first_aligned, multiple_aligned i l.slot_stride is.stride_aligned),
    omega (arith, is.header),
    omega (arith, is.holds, is.inside, next_multiple i l.slot_count l.slot_stride lt),
  )

  -- In a slab layout as computed (IsSlabLayout) a slot with its prefix and its capacity ends before
  -- any later slot begins.
  pub slots_apart :
      (j : ℕ) → i < j → slot_offset l i + l.payload_offset + capacity ≤ slot_offset l j
  slots_apart j lt = omega (arith, is.holds, next_multiple i j l.slot_stride lt)
