-- ===== src/World.antt =====
-- The process as one thread of it sees it: memory, errno, the static variables of src/allocator.c,
-- src/transfer_mutex.c and src/thread_cache_lifecycle.c, and the thread's own variables. The
-- operating system and the threads library are parameters: an answer for each call, by its number.
pub mod Access
use hplf_malloc.Prelude.{
  ℕ, ◌+◌, Bool, ◌&&◌, Option, none, List, [], ◌∷◌, leb, ltb, ◌==◌, if◌then◌else◌,
}
use hplf_malloc.Heap.{Ptr, Heap, ok, fault, out_of_fuel, Cmd}
use hplf_malloc.ThreadCache.{ThreadCache}
use hplf_malloc.TransferMutex.{Heads}

-- `mmap`: the base of a new mapping, or MAP_FAILED with errno.
pub data MapResult : Type 0 where
  mapped : Ptr → MapResult
  map_failed : (errno : ℕ) → MapResult

abbrev pub on_map : {B : Type 0} → MapResult → (ℕ → B) → (Ptr → B) → B
on_map (map_failed e) miss hit = miss e
on_map (mapped b) miss hit = hit b

-- What the code calls and does not implement. The first argument of each field is the number of
-- calls made before.
pub record Platform : Type 0 where
  -- `sysconf(_SC_PAGESIZE)`; 0 stands for every value that is not positive
  pub page_size : ℕ → ℕ
  pub mmap : ℕ → (length : ℕ) → MapResult
  -- `munmap`: `none` is 0, `some e` is -1 with errno `e`
  pub munmap : ℕ → (base : Ptr) → (length : ℕ) → Option ℕ
  -- error codes of the registry mutex, 0 for success
  pub mutex_lock : ℕ → ℕ
  pub mutex_unlock : ℕ → ℕ
  -- error codes of `pthread_once`, `pthread_key_create` and `pthread_setspecific`
  pub once : ℕ → ℕ
  pub key_create : ℕ → ℕ
  pub setspecific : ℕ → ℕ

abbrev pub enomem : ℕ
enomem = 12

abbrev pub einval : ℕ
einval = 22

-- `enum hplf_cache_lifecycle_state`
pub data Lifecycle : Type 0 where
  uninitialized active uncached : Lifecycle

-- `struct hplf_cache_descriptor`
pub record Descriptor : Type 0 where
  pub cache : ThreadCache
  pub mapping_base : Ptr
  pub mapping_length : ℕ

pub record World : Type 0 where
  pub heap : Heap
  pub errno : ℕ
  -- the number of calls of the platform so far
  pub calls : ℕ
  -- `allocator_state`
  pub slabs : Ptr
  pub free_lists : ℕ → Ptr
  -- `transfers.heads`
  pub heads : Heads
  -- `cache_key_once` and `cache_key_error`
  pub key_made : Bool
  pub cache_key_error : ℕ
  -- the calling thread's `current_state` and `*current_descriptor`
  pub current_state : Lifecycle
  pub current_descriptor : Option Descriptor

abbrev pub set_errno : ℕ → Cmd World (Unit {0})
set_errno e w = ok tt (record w { errno = e })

-- A command on memory alone.
abbrev pub on_heap : {A : Type 0} → Cmd Heap A → Cmd World A
on_heap m w = elim (m w.heap) [
  | ok a h ↦ ok a (record w { heap = h })
  | fault ↦ fault
  | out_of_fuel ↦ out_of_fuel
]

-- One call of the platform.
abbrev pub call : {A : Type 0} → (ℕ → A) → Cmd World A
call f w = ok (f w.calls) (record w { calls = w.calls + 1 })

abbrev pub in_range : Ptr → ℕ → Ptr → Bool
in_range base length a = leb base a && ltb a (base + length)

-- A new mapping: zero-filled memory without objects.
abbrev pub map_memory : Ptr → ℕ → Heap → Heap
map_memory base length h = record h {
  byte = λ a. if in_range base length a then 0 else h.byte a;
  mappings = (base, length) ∷ h.mappings;
}

unfoldable pub drop_mapping : Ptr → ℕ → List (Ptr × ℕ) → List (Ptr × ℕ)
drop_mapping base length [] = []
drop_mapping base length ((b, n) ∷ ms) =
    if b == base && n == length then ms else (b, n) ∷ drop_mapping base length ms

-- The end of a mapping: its objects are gone, so an access to one is a fault.
abbrev pub unmap_memory : Ptr → ℕ → Heap → Heap
unmap_memory base length h = record h {
  block = λ a. if in_range base length a then none else h.block a;
  slab = λ a. if in_range base length a then none else h.slab a;
  mappings = drop_mapping base length h.mappings;
}

abbrev pub get : Cmd World World
get w = ok w w

abbrev pub put : World → Cmd World (Unit {0})
put v w = ok tt v
