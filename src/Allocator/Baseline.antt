-- ===== src/Allocator/Baseline.antt =====
-- src/allocator.c without HPLF_VARIANT_CACHED_MUTEX: free lists under the registry mutex.
pub mod Pool
pub mod Small
pub mod Grow
pub mod Free
pub mod Requests
use hplf_malloc.Prelude.{ℕ, not, ◌==◌, option, if◌then◌else◌, update}
use hplf_malloc.Heap.{
  Ptr, null, Block, Cmd, pure, ◌>>=◌, ◌>>◌, load_block, store_block, load_slab, store_slab,
}
use hplf_malloc.Layout.{block_payload}
use hplf_malloc.World.{Platform, World, enomem, set_errno, on_heap, call, get, put}
use hplf_malloc.SlabCreate.{slab_create}
use hplf_malloc.Allocator.{Variant}

-- `slab->next = allocator_state.slabs; allocator_state.slabs = slab;`
unfoldable pub register_slab : Ptr → Cmd World (Unit {0})
register_slab slab = do
  w ← get
  header ← on_heap (load_slab slab)
  on_heap (store_slab slab (record header { next = w.slabs }))
  v ← get
  put (record v { slabs = slab })

-- Under the mutex: the head of the class's free list, after a new slab was added to an empty one;
-- null if there is no memory for a slab.
unfoldable pub find_block : Platform → ℕ → ℕ → Cmd World Ptr
find_block p class_index class_capacity = do
  w ← get
  if not (w.free_lists class_index == null) then pure (w.free_lists class_index) else do
    created ← slab_create p class_index class_capacity
    option created (pure null) λ r. do
      register_slab r.0
      v ← get
      put (record v { free_lists = update v.free_lists class_index r.1 })
      pure r.1

-- The block leaves its free list and is marked live.
unfoldable pub pop_block : ℕ → ℕ → Ptr → Cmd World (Unit {0})
pop_block class_index requested_size block = do
  b ← on_heap (load_block block)
  w ← get
  put (record w { free_lists = update w.free_lists class_index b.next_free })
  on_heap (store_block block (record b { next_free = null; requested_size = requested_size }))

-- `hplf_allocate_small`
unfoldable pub allocate_small : Platform → ℕ → ℕ → ℕ → Cmd World Ptr
allocate_small p requested_size class_index class_capacity = do
  error ← call p.mutex_lock
  if not (error == 0) then (do set_errno error; pure null) else do
    block ← find_block p class_index class_capacity
    if block == null then (do call p.mutex_unlock; set_errno enomem; pure null) else do
      pop_block class_index requested_size block
      unlock_error ← call p.mutex_unlock
      if not (unlock_error == 0)
          then (do set_errno unlock_error; pure null)
          else pure (block_payload block)

-- The part of `hplf_free` for a small block.
unfoldable pub free_small : Platform → Ptr → Block → ℕ → Cmd World (Unit {0})
free_small p block b class_index = do
  error ← call p.mutex_lock
  if not (error == 0) then pure tt else do
    w ← get
    on_heap
        (store_block block (record b { requested_size = 0; next_free = w.free_lists class_index }))
    v ← get
    put (record v { free_lists = update v.free_lists class_index block })
    call p.mutex_unlock
    pure tt

abbrev pub baseline : Platform → Variant
baseline p = record { allocate_small = allocate_small p; free_small = free_small p }
