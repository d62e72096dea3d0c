-- ===== src/Lifecycle.antt =====
-- src/thread_cache_lifecycle.c without its test hooks: the descriptor of the calling thread. The
-- descriptor's storage is a mapping, and its contents are the thread's `current_descriptor`.
pub mod Publish
pub mod Flush
pub mod States
pub mod Acquire
use hplf_malloc.Prelude.{
  ℕ, zero, suc, ◌+◌, true, not, ◌&&◌, ◌||◌, Option, none, some, ◌==◌, option, if◌then◌else◌,
}
use hplf_malloc.CheckedMath.{size_max, wrap, size_round_up_multiple, local_result}
use hplf_malloc.SizeClass.{class_count}
use hplf_malloc.Heap.{Cmd, ok, pure, ◌>>=◌, ◌>>◌}
use hplf_malloc.TransferList.{TransferList}
use hplf_malloc.TransferMutex
use hplf_malloc.ThreadCache.{ThreadCache, initialize, extract_class}
use hplf_malloc.World.{
  Platform, on_map, uninitialized, active, uncached, Descriptor, World, set_errno, on_heap, call,
  map_memory, unmap_memory, get, put,
}

-- `sizeof(struct hplf_cache_descriptor)`: 16 heads, 16 counts, the total, the base and the length.
abbrev pub sizeof_descriptor : ℕ
sizeof_descriptor = 280

-- `hplf_transfer_mutex_publish` and `hplf_transfer_mutex_detach` on the static heads.
unfoldable pub transfer_publish : ℕ → TransferList → Cmd World (Unit {0})
transfer_publish class_index list = do
  w ← get
  (_, heads) ← on_heap (TransferMutex.publish class_index list w.heads)
  v ← get
  put (record v { heads = heads })

unfoldable pub transfer_detach : ℕ → ℕ → Cmd World TransferList
transfer_detach fuel class_index = do
  w ← get
  (list, heads) ← on_heap (TransferMutex.detach fuel class_index w.heads)
  v ← get
  put (record v { heads = heads })
  pure list

-- The `for` of `flush_descriptor` from `class_index` on, with the classes that are left: the cache
-- and the number of published blocks.
unfoldable pub flush_loop :
    ThreadCache → (left class_index published : ℕ) → Cmd World (ThreadCache × ℕ)
flush_loop cache zero class_index published = pure (cache, published)
flush_loop cache (suc left) class_index published = do
  (output, rest) ← on_heap (extract_class cache class_index size_max)
  option output (flush_loop rest left (class_index + 1) published) λ list. do
    transfer_publish class_index list
    flush_loop rest left (class_index + 1) (wrap (published + list.count))

-- `flush_descriptor`
unfoldable pub flush_descriptor : Descriptor → Cmd World (Descriptor × ℕ)
flush_descriptor descriptor = do
  (cache, published) ← flush_loop descriptor.cache class_count 0 0
  pure (record descriptor { cache = cache }, published)

-- `release_descriptor` of a descriptor that is not null
unfoldable pub release_descriptor : Platform → Descriptor → Cmd World (Unit {0})
release_descriptor p descriptor = do
  (flushed, _) ← flush_descriptor descriptor
  failed ← call (λ n. p.munmap n flushed.mapping_base flushed.mapping_length)
  option failed (on_heap (λ h. ok tt (unmap_memory flushed.mapping_base flushed.mapping_length h)))
      set_errno

-- `destroy_descriptor`, the destructor of the key
unfoldable pub destroy_descriptor : Platform → Option Descriptor → Cmd World (Unit {0})
destroy_descriptor p value = option value (pure tt) λ descriptor. do
  w ← get
  put (record w { current_descriptor = none; current_state = uncached })
  release_descriptor p descriptor

-- `create_cache_key`
unfoldable pub create_cache_key : Platform → Cmd World (Unit {0})
create_cache_key p = do
  e ← call p.key_create
  w ← get
  put (record w { cache_key_error = e; key_made = true })

-- `pthread_once(&cache_key_once, create_cache_key)`: unless it reports an error, the routine has run
-- once after it.
unfoldable pub run_once : Platform → Cmd World ℕ
run_once p = do
  e ← call p.once
  w ← get
  if e == 0 && not w.key_made then (do create_cache_key p; pure e) else pure e

-- `map_descriptor`
unfoldable pub map_descriptor : Platform → Cmd World (Option Descriptor)
map_descriptor p = do
  page ← call p.page_size
  option (if page == 0 then none else local_result (size_round_up_multiple sizeof_descriptor page))
      (pure none)
      λ mapping_length. do
        answer ← call (λ n. p.mmap n mapping_length)
        on_map answer (λ e. do set_errno e; pure none)
            λ base. do
              on_heap (λ h. ok tt (map_memory base mapping_length h))
              pure (
                  some (record {
                    cache = initialize;
                    mapping_base = base;
                    mapping_length = mapping_length;
                  }))

-- `current_state = HPLF_CACHE_UNCACHED; return NULL;`
unfoldable pub give_up : Cmd World (Option ThreadCache)
give_up = do w ← get; put (record w { current_state = uncached }); pure none

-- The thread's descriptor becomes active.
unfoldable pub activate : Descriptor → Cmd World (Option ThreadCache)
activate descriptor = do
  w ← get
  put (record w { current_descriptor = some descriptor; current_state = active })
  pure (some descriptor.cache)

-- The first call of `hplf_cache_acquire` in a thread.
unfoldable pub set_up : Platform → Cmd World (Option ThreadCache)
set_up p = do
  registration_error ← run_once p
  w ← get
  if not (registration_error == 0) || not (w.cache_key_error == 0) then give_up else do
    made ← map_descriptor p
    option made give_up λ descriptor. do
      e ← call p.setspecific
      if e == 0
          then activate descriptor
          else (do give_up; release_descriptor p descriptor; pure none)

-- `hplf_cache_acquire`: the thread's cache, or null.
unfoldable pub cache_acquire : Platform → Cmd World (Option ThreadCache)
cache_acquire p = do
  w ← get
  elim w.current_state [
    | active ↦ option w.current_descriptor (pure none) (λ descriptor. pure (some descriptor.cache))
    | uncached ↦ pure none
    | uninitialized ↦ set_up p
  ]

-- `&current_descriptor->cache` is written back.
unfoldable pub store_cache : ThreadCache → Cmd World (Unit {0})
store_cache cache = do
  w ← get
  put (record w {
    current_descriptor = option w.current_descriptor none (λ d. some (record d { cache = cache }));
  })

-- `hplf_cache_current`
unfoldable pub cache_current : World → Option ThreadCache
cache_current w = elim w.current_state [
  | active ↦ option w.current_descriptor none (λ d. some d.cache)
  | _ ↦ none
]

-- `hplf_cache_flush_current`
unfoldable pub cache_flush_current : Cmd World ℕ
cache_flush_current = do
  w ← get
  elim w.current_state [
    | active ↦ option w.current_descriptor (pure 0) λ descriptor. do
      (flushed, published) ← flush_descriptor descriptor
      v ← get
      put (record v { current_descriptor = some flushed })
      pure published
    | _ ↦ pure 0
  ]
