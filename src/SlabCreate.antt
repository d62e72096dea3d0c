-- ===== src/SlabCreate.antt =====
-- src/slab.c: a new slab with its private chain of free blocks.
pub mod Fresh
pub mod Mapped
pub mod Payloads
use hplf_malloc.Prelude.{ℕ, zero, suc, ◌+◌, ◌*◌, Option, none, some, option}
use hplf_malloc.CheckedMath.{wrap}
use hplf_malloc.Heap.{
  Ptr, null, small, block_small, Block, Slab, Heap, Cmd, pure, ◌>>=◌, ◌>>◌, init_block, init_slab,
}
use hplf_malloc.Layout.{SlabLayout, slab_layout_compute}
use hplf_malloc.World.{Platform, World, enomem, set_errno, on_heap}
use hplf_malloc.OsMemory.{Mapping, os_page_size, os_map}

-- The prefix that slot initialisation writes.
abbrev pub free_block : Ptr → ℕ → Ptr → Block
free_block slab class_capacity free_list = record {
  owner = small slab;
  next_free = free_list;
  requested_size = 0;
  capacity = class_capacity;
  kind = block_small;
}

-- The `for` of `hplf_slab_create` from `index` on, with the slots that are left: the free list.
unfoldable pub slot_loop : Ptr → SlabLayout → ℕ → (left index : ℕ) → Ptr → Cmd Heap Ptr
slot_loop slab layout class_capacity zero index free_list = pure free_list
slot_loop slab layout class_capacity (suc left) index free_list = do
  let offset = wrap (layout.first_slot_offset + index * layout.slot_stride)
  init_block (slab + offset) (free_block slab class_capacity free_list)
  slot_loop slab layout class_capacity left (index + 1) (slab + offset)

-- The header and the slots of a new slab.
unfoldable pub slab_fill : Mapping → SlabLayout → ℕ → ℕ → Cmd Heap (Ptr × Ptr)
slab_fill mapping layout class_index class_capacity = do
  let slab = mapping.base
  init_slab slab (record {
    next = null;
    mapping_base = mapping.base;
    mapping_length = mapping.length;
    first_slot_offset = layout.first_slot_offset;
    slot_stride = layout.slot_stride;
    slot_count = layout.slot_count;
    class_capacity = class_capacity;
    class_index = class_index;
  })
  free_list ← slot_loop slab layout class_capacity layout.slot_count 0 null
  pure (slab, free_list)

-- `hplf_slab_create`: the slab and its free list, or `none` for false.
unfoldable pub slab_create : Platform → ℕ → ℕ → Cmd World (Option (Ptr × Ptr))
slab_create p class_index class_capacity = do
  page ← os_page_size p
  option page (pure none) λ page_size.
      option (slab_layout_compute class_capacity page_size) (do set_errno enomem; pure none)
        λ layout. do
          mapping ← os_map p layout.mapping_length
          option mapping (pure none)
              λ m. do r ← on_heap (slab_fill m layout class_index class_capacity); pure (some r)
