-- ===== src/Allocator/Cached.antt =====
-- src/allocator.c with HPLF_VARIANT_CACHED_MUTEX: the thread's cache before the shared heads.
pub mod Eviction
use hplf_malloc.Prelude.{ℕ, zero, suc, not, Option, none, some, ◌==◌, option, if◌then◌else◌}
use hplf_malloc.Heap.{
  Ptr, null, Block, Cmd, out_of_fuel, pure, ◌>>=◌, ◌>>◌, load_block, store_block,
}
use hplf_malloc.Layout.{block_payload}
use hplf_malloc.TransferList.{TransferList, from_chain, take_prefix}
use hplf_malloc.ThreadCache.{ThreadCache, take_block, store, refill, extract_eviction}
use hplf_malloc.World.{Platform, World, enomem, set_errno, on_heap, call, get}
use hplf_malloc.SlabCreate.{slab_create}
use hplf_malloc.Lifecycle.{
  cache_acquire, store_cache, transfer_publish, transfer_detach, cache_flush_current,
}
use hplf_malloc.Allocator.{Variant}
use hplf_malloc.Allocator.Baseline.{register_slab}

-- `block->requested_size = requested_size; return hplf_block_payload(block);`
unfoldable pub hand_out : Ptr → ℕ → Cmd World Ptr
hand_out block requested_size = do
  b ← on_heap (load_block block)
  on_heap (store_block block (record b { requested_size = requested_size }))
  pure (block_payload block)

-- Under the registry mutex: the recheck of the shared head, and a new slab if it is still empty;
-- `none` if there is no memory for a slab.
unfoldable pub recheck :
    Platform → (fuel class_index class_capacity : ℕ) → Cmd World (Option TransferList)
recheck p fuel class_index class_capacity = do
  available ← transfer_detach fuel class_index
  if not (available.first == null) then pure (some available) else do
    created ← slab_create p class_index class_capacity
    option created (pure none)
        λ r. do register_slab r.0; list ← on_heap (from_chain fuel r.1); pure (some list)

-- Free blocks of the class from the shared head or a new slab; `none` after an error.
unfoldable pub find_blocks :
    Platform → (fuel class_index class_capacity : ℕ) → Cmd World (Option TransferList)
find_blocks p fuel class_index class_capacity = do
  available ← transfer_detach fuel class_index
  if not (available.first == null) then pure (some available) else do
    error ← call p.mutex_lock
    if not (error == 0) then (do set_errno error; pure none) else do
      found ← recheck p fuel class_index class_capacity
      call p.mutex_unlock
      option found (do set_errno enomem; pure none) (λ list. pure (some list))

-- A block from the refilled cache, or null without a cache; and what is left of the blocks.
unfoldable pub through_cache :
    Option ThreadCache → ℕ → ℕ → TransferList → Cmd World (Ptr × TransferList)
through_cache cache class_index class_capacity available =
    option cache (pure (null, available)) λ c. do
      (filled, rest) ← on_heap (refill c class_index class_capacity available)
      (block, taken) ← on_heap (take_block filled class_index class_capacity)
      store_cache taken
      pure (block, rest)

-- A block directly from the list, if the cache gave none.
unfoldable pub take_direct : Ptr × TransferList → Cmd World (Ptr × TransferList)
take_direct (block, available) =
    if not (block == null)
    then pure (block, available)
    else do (rest, direct) ← on_heap (take_prefix available 1); pure (direct.first, rest)

-- `hplf_allocate_small` after a miss of the cache.
unfoldable pub allocate_shared :
    Platform → (fuel : ℕ) → Option ThreadCache → ℕ → ℕ → ℕ → Cmd World Ptr
allocate_shared p fuel cache requested_size class_index class_capacity = do
  found ← find_blocks p fuel class_index class_capacity
  option found (pure null) λ available. do
    through ← through_cache cache class_index class_capacity available
    (block, rest) ← take_direct through
    transfer_publish class_index rest
    if block == null then (do set_errno enomem; pure null) else hand_out block requested_size

-- `hplf_allocate_small`
unfoldable pub allocate_small : Platform → (fuel : ℕ) → ℕ → ℕ → ℕ → Cmd World Ptr
allocate_small p fuel requested_size class_index class_capacity = do
  cache ← cache_acquire p
  hit ← option cache (pure null) λ c. do
    (block, taken) ← on_heap (take_block c class_index class_capacity)
    store_cache taken
    pure block
  if not (hit == null) then hand_out hit requested_size else do
    w ← get
    allocate_shared p fuel
        (option cache none (λ _. option w.current_descriptor none (λ d. some d.cache)))
        requested_size class_index class_capacity

-- The `while` of `hplf_free`, with the rounds that are left.
unfoldable pub evict_loop : (fuel : ℕ) → ℕ → ThreadCache → Cmd World ThreadCache
evict_loop zero class_index cache = λ _. out_of_fuel
evict_loop (suc fuel) class_index cache = do
  (eviction, rest) ← on_heap (extract_eviction cache class_index)
  option eviction (pure rest) λ e. do transfer_publish e.0 e.1; evict_loop fuel class_index rest

-- The part of `hplf_free` for a small block.
unfoldable pub free_small : Platform → (fuel : ℕ) → Ptr → Block → ℕ → Cmd World (Unit {0})
free_small p fuel block b class_index = do
  cache ← cache_acquire p
  on_heap (store_block block (record b { requested_size = 0 }))
  option cache
      (do
        on_heap (store_block block (record b { requested_size = 0; next_free = null }))
        transfer_publish class_index (record { first = block; last = block; count = 1 }))
      λ c. do
        stored ← on_heap (store c class_index b.capacity block)
        settled ← evict_loop fuel class_index stored
        store_cache settled

abbrev pub cached : Platform → ℕ → Variant
cached p fuel = record { allocate_small = allocate_small p fuel; free_small = free_small p fuel }

-- `hplf_thread_flush`
unfoldable pub thread_flush : Cmd World (Unit {0})
thread_flush = do cache_flush_current; pure tt
