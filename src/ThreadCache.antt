-- ===== src/ThreadCache.antt =====
-- src/thread_cache.c and src/thread_cache.h: one thread's free blocks by class, with counts and the
-- total of their capacities. An operation returns the new cache.
pub mod Shape
pub mod Single
pub mod Batch
pub mod Refill
pub mod Evict
pub mod Snapshot
use hplf_malloc.Prelude.{
  ℕ, zero, suc, ◌+◌, ◌-◌, ◌*◌, ◌/◌, ◌%◌, ◌^◌, Bool, true, false, not, ◌||◌, ◌&&◌, Option, none,
  some, ltb, leb, ◌==◌, if◌then◌else◌, update, is_none,
}
use hplf_malloc.CheckedMath.{wrap, local_result}
use hplf_malloc.SizeClass.{class_count, size_class_capacity}
use hplf_malloc.Heap.{
  Ptr, null, Block, Heap, Cmd, ok, out_of_fuel, pure, ◌>>=◌, ◌>>◌, load_block, set_next_free,
}
use hplf_malloc.TransferList.{TransferList, cleared, wrap_sub, take_prefix}

abbrev pub class_block_limit : ℕ
class_block_limit = 32

abbrev pub total_bytes_limit : ℕ
total_bytes_limit = 64 * 1024

abbrev pub refill_limit : ℕ
refill_limit = 16

-- `struct hplf_thread_cache`
pub record ThreadCache : Type 0 where
  pub heads : ℕ → Ptr
  pub counts : ℕ → ℕ
  pub total_slot_bytes : ℕ

-- `hplf_thread_cache_initialize`
abbrev pub initialize : ThreadCache
initialize = record { heads = λ i. null; counts = λ i. 0; total_slot_bytes = 0 }

-- `hplf_thread_cache_take`: the block, or null, and the cache.
unfoldable pub take_block : ThreadCache → ℕ → ℕ → Cmd Heap (Ptr × ThreadCache)
take_block cache class_index class_capacity =
    if leb class_count class_index || cache.heads class_index == null
    then pure (null, cache)
    else do
      let block = cache.heads class_index
      b ← load_block block
      set_next_free block null
      pure (
        block,
        record {
          heads = update cache.heads class_index b.next_free;
          counts = update cache.counts class_index (wrap_sub (cache.counts class_index) 1);
          total_slot_bytes = wrap_sub cache.total_slot_bytes class_capacity;
        },
      )

-- `hplf_thread_cache_store`
unfoldable pub store : ThreadCache → ℕ → ℕ → Ptr → Cmd Heap ThreadCache
store cache class_index class_capacity block = do
  set_next_free block (cache.heads class_index)
  pure (record {
    heads = update cache.heads class_index block;
    counts = update cache.counts class_index (wrap (cache.counts class_index + 1));
    total_slot_bytes = wrap (cache.total_slot_bytes + class_capacity);
  })

-- `hplf_thread_cache_restore`: the cache, and the emptied descriptor.
unfoldable pub restore : ThreadCache → ℕ → ℕ → TransferList → Cmd Heap (ThreadCache × TransferList)
restore cache class_index class_capacity list =
    if list.first == null then pure (cache, list) else do
      set_next_free list.last (cache.heads class_index)
      pure (
        record {
          heads = update cache.heads class_index list.first;
          counts = update cache.counts class_index (wrap (cache.counts class_index + list.count));
          total_slot_bytes = wrap (cache.total_slot_bytes + list.count * class_capacity);
        },
        cleared,
      )

-- The number of blocks that `hplf_thread_cache_refill` asks for.
unfoldable pub refill_room : ThreadCache → ℕ → ℕ → ℕ
refill_room cache class_index class_capacity =
    let class_space = wrap_sub class_block_limit (cache.counts class_index) in
    let byte_space = wrap_sub total_bytes_limit cache.total_slot_bytes / class_capacity in
    let limit = if ltb class_space refill_limit then class_space else refill_limit in
    if ltb byte_space limit then byte_space else limit

-- `hplf_thread_cache_refill`: the cache, and what is left of `available`.
unfoldable pub refill : ThreadCache → ℕ → ℕ → TransferList → Cmd Heap (ThreadCache × TransferList)
refill cache class_index class_capacity available = do
  (rest, accepted) ← take_prefix available (refill_room cache class_index class_capacity)
  (filled, _) ← restore cache class_index class_capacity accepted
  pure (filled, rest)

-- `hplf_thread_cache_extract_class`: false is `none`; otherwise the output and the cache.
unfoldable pub extract_class : ThreadCache → ℕ → ℕ → Cmd Heap (Option TransferList × ThreadCache)
extract_class cache class_index maximum_count =
    elim (local_result (size_class_capacity class_index)) [
      | none ↦ pure (none, cache)
      | some class_capacity ↦
          if maximum_count == 0 || cache.heads class_index == null then pure (none, cache) else do
            let available : TransferList = record {
              first = cache.heads class_index;
              last = null;
              count = cache.counts class_index;
            }
            (rest, output) ← take_prefix available maximum_count
            pure (
              some output,
              record {
                heads = update cache.heads class_index rest.first;
                counts =
                    update cache.counts class_index
                      (wrap_sub (cache.counts class_index) output.count);
                total_slot_bytes =
                    wrap_sub cache.total_slot_bytes (wrap (output.count * class_capacity));
              },
            )
    ]

-- The class that the last loop of `hplf_thread_cache_extract_eviction` stops at, with the classes
-- that are left.
unfoldable pub first_nonempty : ThreadCache → ℕ → ℕ → Option ℕ
first_nonempty cache zero index = none
first_nonempty cache (suc left) index =
    if not (cache.counts index == 0) then some index else first_nonempty cache left (index + 1)

-- One eviction: `*class_output = index; return hplf_thread_cache_extract_class(...)`.
unfoldable pub evict : ThreadCache → ℕ → ℕ → Cmd Heap (Option (ℕ × TransferList) × ThreadCache)
evict cache index count = do
  (output, rest) ← extract_class cache index count
  pure (elim output [ none ↦ none | some list ↦ some (index, list) ], rest)

-- `hplf_thread_cache_extract_eviction`: false is `none`; otherwise the class and the output.
unfoldable pub extract_eviction :
    ThreadCache → ℕ → Cmd Heap (Option (ℕ × TransferList) × ThreadCache)
extract_eviction cache current_class =
    if ltb class_block_limit (cache.counts current_class)
    then evict cache current_class (wrap_sub (cache.counts current_class) class_block_limit)
    else if leb cache.total_slot_bytes total_bytes_limit
    then pure (none, cache)
    else if not (cache.counts current_class == 0)
    then evict cache current_class (cache.counts current_class)
    else elim (first_nonempty cache class_count 0) [
      | none ↦ pure (none, cache)
      | some index ↦ evict cache index (cache.counts index)
    ]
