-- ===== src/Layout.antt =====
-- src/block.h and src/slab.h: where the payload of a block lies, and the layouts of large mappings
-- and of slabs. Alignment and structure sizes are those of a 64-bit platform whose max_align_t is
-- aligned to 16 bytes.
pub mod Slots
pub mod Large
pub mod Payload
use hplf_malloc.Prelude.{
  ℕ, ◌+◌, ◌-◌, ◌*◌, ◌/◌, ◌^◌, Bool, true, false, ◌||◌, Option, none, some, ltb, leb, ◌==◌, is_none,
  if◌then◌else◌,
}
use hplf_malloc.CheckedMath.{
  size_max, wrap, size_add, size_multiply, size_align_up_pow2, size_round_up_multiple, local_result,
}
use hplf_malloc.Heap.{Ptr, null, sizeof_block, sizeof_slab}

-- `HPLF_PAYLOAD_ALIGNMENT`
abbrev pub payload_alignment : ℕ
payload_alignment = 16

-- `HPLF_SLAB_TARGET_BYTES`
abbrev pub slab_target_bytes : ℕ
slab_target_bytes = 64 * 1024

infixl 5 ◌>>=◌ ◌>>◌
abbrev pub ◌>>=◌ {ℓ κ} : {A : Type ℓ} {B : Type κ} → Option A → (A → Option B) → Option B
none >>= f = none
some a >>= f = f a

abbrev pub ◌>>◌ {ℓ} : {B : Type ℓ} → Option (Unit {0}) → Option B → Option B
m >> k = m >>= λ _. k

-- A condition under which the function returns false.
abbrev pub refuse_if : Bool → Option (Unit {0})
refuse_if true = none
refuse_if false = some tt

-- `hplf_block_payload_offset`
unfoldable pub block_payload_offset : Option ℕ → Bool × Option ℕ
unfolding size_align_up_pow2
block_payload_offset payload_offset =
    size_align_up_pow2 sizeof_block payload_alignment payload_offset

-- `hplf_block_payload`: address arithmetic, and null for null.
unfoldable pub block_payload : Ptr → Ptr
unfolding block_payload_offset local_result
block_payload block = if block == null then null else elim (local_result block_payload_offset) [
  | none ↦ null
  | some payload_offset ↦ wrap (block + payload_offset)
]

-- `hplf_block_from_payload`
unfoldable pub block_from_payload : Ptr → Ptr
unfolding block_payload_offset local_result
block_from_payload payload =
    if payload == null then null else elim (local_result block_payload_offset) [
      | none ↦ null
      | some payload_offset ↦ wrap (payload + 2 ^ 64 - payload_offset)
    ]

-- `struct hplf_large_layout`
pub record LargeLayout : Type 0 where
  pub payload_offset : ℕ
  pub mapping_length : ℕ

-- `hplf_large_layout_compute` with a pointer that is not null: false is `none`.
unfoldable pub large_layout_compute : ℕ → ℕ → Option LargeLayout
large_layout_compute requested_size page_size = do
  refuse_if (requested_size == 0 || page_size == 0)
  payload_offset ← local_result block_payload_offset
  bytes_before_rounding ← local_result (size_add payload_offset requested_size)
  mapping_length ← local_result (size_round_up_multiple bytes_before_rounding page_size)
  some (record { payload_offset = payload_offset; mapping_length = mapping_length })

-- `struct hplf_slab_layout`
pub record SlabLayout : Type 0 where
  pub mapping_length : ℕ
  pub first_slot_offset : ℕ
  pub payload_offset : ℕ
  pub slot_stride : ℕ
  pub slot_count : ℕ
  pub class_capacity : ℕ

-- `hplf_slab_layout_compute` with a pointer that is not null: false is `none`.
unfoldable pub slab_layout_compute : ℕ → ℕ → Option SlabLayout
slab_layout_compute class_capacity page_size = do
  refuse_if (class_capacity == 0 || page_size == 0)
  mapping_length ← local_result (size_round_up_multiple slab_target_bytes page_size)
  first_slot_offset ← local_result (size_align_up_pow2 sizeof_slab payload_alignment)
  payload_offset ← local_result block_payload_offset
  slot_bytes ← local_result (size_add payload_offset class_capacity)
  slot_stride ← local_result (size_align_up_pow2 slot_bytes payload_alignment)
  refuse_if (leb mapping_length first_slot_offset)
  let slot_count = (mapping_length - first_slot_offset) / slot_stride
  refuse_if (slot_count == 0)
  occupied_bytes ← local_result (size_multiply slot_count slot_stride)
  occupied_end ← local_result (size_add first_slot_offset occupied_bytes)
  refuse_if (ltb mapping_length occupied_end)
  some (record {
    mapping_length = mapping_length;
    first_slot_offset = first_slot_offset;
    payload_offset = payload_offset;
    slot_stride = slot_stride;
    slot_count = slot_count;
    class_capacity = class_capacity;
  })
