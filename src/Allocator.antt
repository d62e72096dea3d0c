-- ===== src/Allocator.antt =====
-- src/allocator.c: the public operations over a variant's paths for small blocks. The two variants,
-- chosen when the library is built, are in the modules Baseline and Cached.
pub mod Baseline
pub mod Cached
pub mod Trim
pub mod Large
pub mod Calloc
use hplf_malloc.Prelude.{
  ℕ, zero, suc, ◌+◌, ◌-◌, ◌^◌, Bool, true, false, not, ◌&&◌, ◌||◌, Option, none, some, ltb, leb,
  ◌==◌, is_none, option, if◌then◌else◌,
}
use hplf_malloc.CheckedMath.{size_multiply, local_result}
use hplf_malloc.SizeClass.{class_of}
use hplf_malloc.Heap.{
  Ptr, null, small, large, Owner, block_small, block_large, Block, Heap, Cmd, ok, fault, pure,
  ◌>>=◌, ◌>>◌, load_block, store_block, init_block, load_slab, small_slab,
}
use hplf_malloc.Layout.{block_payload, block_from_payload, large_layout_compute}
use hplf_malloc.World.{Platform, World, enomem, set_errno, on_heap, get, put}
use hplf_malloc.OsMemory.{Mapping, os_page_size, os_map, os_unmap}

-- PTRDIFF_MAX
abbrev pub ptrdiff_max : ℕ
ptrdiff_max = 2 ^ 63 - 1

-- What a variant provides: `hplf_allocate_small` on size, class and capacity, and the part of
-- `hplf_free` for a small block of a class.
pub record Variant : Type 0 where
  pub allocate_small : ℕ → ℕ → ℕ → Cmd World Ptr
  pub free_small : Ptr → Block → ℕ → Cmd World (Unit {0})

-- `errno = ENOMEM; return NULL;`
abbrev pub out_of_memory : Cmd World Ptr
out_of_memory = do set_errno enomem; pure null

-- `hplf_allocate_large`
unfoldable pub allocate_large : Platform → ℕ → Cmd World Ptr
allocate_large p requested_size = do
  page ← os_page_size p
  option page out_of_memory λ page_size.
      option (large_layout_compute requested_size page_size) out_of_memory λ layout. do
        mapping ← os_map p layout.mapping_length
        option mapping out_of_memory λ m. do
          on_heap (
              init_block m.base (record {
                owner = large m.base m.length;
                next_free = null;
                requested_size = requested_size;
                capacity = m.length - layout.payload_offset;
                kind = block_large;
              }))
          pure (block_payload m.base)

-- `hplf_malloc`
unfoldable pub malloc : Platform → Variant → ℕ → Cmd World Ptr
malloc p v size =
    if size == 0
    then pure null
    else if ltb ptrdiff_max size
    then out_of_memory
    else option (class_of size) (allocate_large p size) λ c. v.allocate_small size c.0 c.1

-- `block->owner.large`, read as a mapping
unfoldable pub large_mapping : Block → Cmd Heap Mapping
large_mapping b h = elim b.owner [
  | small slab ↦ fault
  | large base length ↦ ok (record { base = base; length = length }) h
]

-- `hplf_free` after its null check: large blocks are unmapped, small ones go to the variant.
unfoldable pub free_block_at : Platform → Variant → Ptr → Cmd World (Unit {0})
free_block_at p v block = do
  b ← on_heap (load_block block)
  if b.kind == block_large
      then (do mapping ← on_heap (large_mapping b); os_unmap p mapping; pure tt)
      else if b.kind == block_small
      then (do
        slab ← on_heap (small_slab b)
        header ← on_heap (load_slab slab)
        v.free_small block b header.class_index)
      else pure tt

-- `hplf_free`
unfoldable pub free : Platform → Variant → Ptr → Cmd World (Unit {0})
free p v pointer =
    if pointer == null
    then pure tt
    else do w ← get; free_block_at p v (block_from_payload pointer); set_errno w.errno

-- `memset(pointer, 0, n)`
abbrev pub zero_bytes : Ptr → ℕ → Heap → Heap
zero_bytes pointer n h = record h {
  byte = λ a. if leb pointer a && ltb a (pointer + n) then 0 else h.byte a;
}

-- `hplf_calloc`
unfoldable pub calloc : Platform → Variant → ℕ → ℕ → Cmd World Ptr
calloc p v count size =
    if count == 0 || size == 0
    then pure null
    else option (local_result (size_multiply count size)) out_of_memory λ total_size. do
      pointer ← malloc p v total_size
      if pointer == null
          then pure null
          else (do on_heap (λ h. ok tt (zero_bytes pointer total_size h)); pure pointer)

-- `hplf_realloc_can_retain`
unfoldable pub can_retain : Block → ℕ → Cmd Heap Bool
can_retain b requested_size =
    if b.kind == block_small
    then option (class_of requested_size) (pure false)
        (λ c. do slab ← small_slab b; header ← load_slab slab; pure (c.0 == header.class_index))
    else if b.kind == block_large
    then pure (is_none (class_of requested_size) && leb requested_size b.capacity)
    else pure false

-- `memcpy(target, source, n)`
abbrev pub copy_bytes : Ptr → Ptr → ℕ → Heap → Heap
copy_bytes target source n h = record h {
  byte =
      λ a. if leb target a && ltb a (target + n) then h.byte (source + (a - target)) else h.byte a;
}

-- The allocating part of `hplf_realloc`.
unfoldable pub move_block : Platform → Variant → Ptr → Ptr → ℕ → Cmd World Ptr
move_block p v pointer old_block size = do
  replacement ← malloc p v size
  if replacement == null then pure null else do
    b ← on_heap (load_block old_block)
    let copy_size = if ltb b.requested_size size then b.requested_size else size
    on_heap (λ h. ok tt (copy_bytes replacement pointer copy_size h))
    free p v pointer
    pure replacement

-- `hplf_realloc`
unfoldable pub realloc : Platform → Variant → Ptr → ℕ → Cmd World Ptr
realloc p v pointer size =
    if pointer == null
    then malloc p v size
    else if size == 0
    then (do free p v pointer; pure null)
    else if ltb ptrdiff_max size
    then out_of_memory
    else do
      let old_block = block_from_payload pointer
      b ← on_heap (load_block old_block)
      retained ← on_heap (can_retain b size)
      if retained
          then (do
            on_heap (store_block old_block (record b { requested_size = size }))
            pure pointer)
          else move_block p v pointer old_block size
