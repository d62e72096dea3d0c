-- ===== src/Allocator/Trim.antt =====
-- src/allocator.c: hplf_trim_quiescent and its helpers. The free lists by class are passed along and
-- returned; the baseline build keeps them in the static array, the cached build in a local one.
pub mod Owners
pub mod Parts
pub mod Links
pub mod Release
pub mod Visit
use hplf_malloc.Prelude.{ℕ, zero, suc, ◌+◌, not, ◌==◌, option, if◌then◌else◌, update}
use hplf_malloc.CheckedMath.{size_max, wrap, size_add, local_result}
use hplf_malloc.SizeClass.{class_count}
use hplf_malloc.Heap.{
  Ptr, null, Slab, Heap, Cmd, out_of_fuel, pure, ◌>>=◌, ◌>>◌, load_block, load_slab, store_slab,
  small_slab, set_next_free,
}
use hplf_malloc.TransferList.{from_chain}
use hplf_malloc.World.{Platform, World, on_heap, call, get, put}
use hplf_malloc.OsMemory.{os_unmap}
use hplf_malloc.Lifecycle.{transfer_publish, transfer_detach}

-- The loop of `hplf_slab_free_count`, with the rounds that are left.
unfoldable pub slab_free_count : (fuel : ℕ) → (slab block : Ptr) → (count : ℕ) → Cmd Heap ℕ
slab_free_count zero slab block count = λ _. out_of_fuel
slab_free_count (suc fuel) slab block count = if block == null then pure count else do
  b ← load_block block
  owner ← small_slab b
  slab_free_count fuel slab b.next_free (if owner == slab then wrap (count + 1) else count)

-- The loop of `hplf_detach_slab_blocks`: the removed and the remaining blocks.
unfoldable pub detach_slab_blocks :
    (fuel : ℕ) → (slab block removed remaining : Ptr) → Cmd Heap (Ptr × Ptr)
detach_slab_blocks zero slab block removed remaining = λ _. out_of_fuel
detach_slab_blocks (suc fuel) slab block removed remaining =
    if block == null then pure (removed, remaining) else do
      b ← load_block block
      owner ← small_slab b
      set_next_free block (if owner == slab then removed else remaining)
      detach_slab_blocks fuel slab b.next_free (if owner == slab then block else removed)
          (if owner == slab then remaining else block)

-- The loop of `hplf_join_free_lists`.
unfoldable pub find_tail : (fuel : ℕ) → Ptr → Cmd Heap Ptr
find_tail zero tail = λ _. out_of_fuel
find_tail (suc fuel) tail = do
  b ← load_block tail
  if b.next_free == null then pure tail else find_tail fuel b.next_free

-- `hplf_join_free_lists`
unfoldable pub join_free_lists : (fuel : ℕ) → (first second : Ptr) → Cmd Heap Ptr
join_free_lists fuel first second =
    if first == null
    then pure second
    else do tail ← find_tail fuel first; set_next_free tail second; pure first

-- `registry_link`: the address of the static head or of a slab's `next`.
pub data Link : Type 0 where
  registry : Link
  next_of : (slab : Ptr) → Link

-- `*registry_link`
unfoldable pub read_link : Link → Cmd World Ptr
read_link registry = do w ← get; pure w.slabs
read_link (next_of slab) = do header ← on_heap (load_slab slab); pure header.next

-- `*registry_link = target`
unfoldable pub write_link : Link → Ptr → Cmd World (Unit {0})
write_link registry target = do w ← get; put (record w { slabs = target })
write_link (next_of slab) target = do
  header ← on_heap (load_slab slab)
  on_heap (store_slab slab (record header { next = target }))

-- The variables of the walk.
pub record Walk : Type 0 where
  pub link : Link
  pub free_lists : ℕ → Ptr
  pub released_total : ℕ

-- `released_total` after a successful unmap
abbrev pub add_released : (total released : ℕ) → ℕ
add_released total released =
    option (local_result (size_add total released)) size_max (λ new_total. new_total)

-- A wholly free slab leaves the registry and is unmapped, or is put back after a failure.
unfoldable pub release_slab : Platform → (fuel : ℕ) → (slab : Ptr) → Slab → Walk → Cmd World Walk
release_slab p fuel slab header walk = do
  let class_index = header.class_index
  (removed, remaining) ←
      on_heap (detach_slab_blocks fuel slab (walk.free_lists class_index) null null)
  write_link walk.link header.next
  (released, _) ← os_unmap p (record { base = header.mapping_base; length = header.mapping_length })
  option released
      (do
        joined ← on_heap (join_free_lists fuel removed remaining)
        after ← on_heap (load_slab slab)
        on_heap (store_slab slab (record after { next = header.next }))
        write_link walk.link slab
        pure (record walk {
          link = next_of slab;
          free_lists = update walk.free_lists class_index joined;
        }))
      λ bytes. pure (record walk {
        free_lists = update walk.free_lists class_index remaining;
        released_total = add_released walk.released_total bytes;
      })

-- One round of the walk over the registry, at `slab`.
unfoldable pub visit_slab : Platform → (fuel : ℕ) → (slab : Ptr) → Walk → Cmd World Walk
visit_slab p fuel slab walk = do
  header ← on_heap (load_slab slab)
  free_count ← on_heap (slab_free_count fuel slab (walk.free_lists header.class_index) 0)
  if not (free_count == header.slot_count)
      then pure (record walk { link = next_of slab })
      else release_slab p fuel slab header walk

-- `while (*registry_link != NULL)`, with the rounds that are left for it and for the chains.
unfoldable pub trim_loop : Platform → (rounds fuel : ℕ) → Walk → Cmd World Walk
trim_loop p zero fuel walk = λ _. out_of_fuel
trim_loop p (suc rounds) fuel walk = do
  slab ← read_link walk.link
  if slab == null
      then pure walk
      else do next ← visit_slab p fuel slab walk; trim_loop p rounds fuel next

-- `hplf_trim_quiescent` of the baseline build
unfoldable pub trim_baseline : Platform → (rounds fuel : ℕ) → Cmd World ℕ
trim_baseline p rounds fuel = do
  error ← call p.mutex_lock
  if not (error == 0) then pure 0 else do
    w ← get
    done ←
        trim_loop p rounds fuel
          (record { link = registry; free_lists = w.free_lists; released_total = 0 })
    v ← get
    put (record v { free_lists = done.free_lists })
    call p.mutex_unlock
    pure done.released_total

-- The loop that detaches every shared class, with the classes that are left: their chains.
unfoldable pub detach_all : (fuel left index : ℕ) → (ℕ → Ptr) → Cmd World (ℕ → Ptr)
detach_all fuel zero index free_lists = pure free_lists
detach_all fuel (suc left) index free_lists = do
  detached ← transfer_detach fuel index
  detach_all fuel left (index + 1) (update free_lists index detached.first)

-- The loop that publishes what remains.
unfoldable pub publish_all : (fuel left index : ℕ) → (ℕ → Ptr) → Cmd World (Unit {0})
publish_all fuel zero index free_lists = pure tt
publish_all fuel (suc left) index free_lists = do
  detached ← on_heap (from_chain fuel (free_lists index))
  transfer_publish index detached
  publish_all fuel left (index + 1) free_lists

-- `hplf_trim_quiescent` of the cached build
unfoldable pub trim_cached : Platform → (rounds fuel : ℕ) → Cmd World ℕ
trim_cached p rounds fuel = do
  error ← call p.mutex_lock
  if not (error == 0) then pure 0 else do
    free_lists ← detach_all fuel class_count 0 (λ i. null)
    done ←
        trim_loop p rounds fuel
          (record { link = registry; free_lists = free_lists; released_total = 0 })
    publish_all fuel class_count 0 done.free_lists
    call p.mutex_unlock
    pure done.released_total
