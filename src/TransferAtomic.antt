-- ===== src/TransferAtomic.antt =====
-- src/transfer_atomic.c without its test hooks: publication by compare-and-swap and detachment by
-- exchange, one access to the shared heads at a time, for any number of threads in any order.
pub mod Ownership
pub mod Invariant
pub mod Safety
pub mod Conservation
pub mod Alone
use hplf_malloc.Prelude.{
  ℕ, ◌+◌, ◌<◌, ◌≡◌, Bool, true, false, not, ◌&&◌, ◌==◌, if◌then◌else◌, update,
}
use hplf_malloc.CheckedMath.{wrap}
use hplf_malloc.Heap.{
  Ptr, null, Heap, Run, ok, fault, out_of_fuel, Cmd, pure, ◌>>=◌, ◌>>◌, load_block, set_next_free,
}
use hplf_malloc.TransferList.{TransferList, cleared}

-- What the threads share: memory, and `heads` with the atomic values alone.
pub record Shared : Type 0 where
  pub heap : Heap
  pub heads : ℕ → Ptr

-- Where a thread stands, with the local variables that are live there. Between two calls it holds
-- one descriptor.
pub data Pc : Type 0 where
  holding : (list : TransferList) → Pc
  -- publish, before `list->last->next_free = observed`
  observing : (class_index : ℕ) → (list : TransferList) → (observed : Ptr) → Pc
  -- publish, before the compare-exchange
  linked : (class_index : ℕ) → (list : TransferList) → (observed : Ptr) → Pc
  -- detach, at the test of the loop of `hplf_transfer_list_from_chain`
  counting : (first block last : Ptr) → (count : ℕ) → Pc

-- What the program leaves open at a step: which call the client makes, on which class, and whether
-- the weak compare-exchange fails although the head is the observed one.
pub record Choice : Type 0 where
  pub publishes : Bool
  pub class_index : ℕ
  pub spurious : Bool

abbrev pub on_memory : {A : Type 0} → Cmd Heap A → Cmd Shared A
on_memory c m = elim (c m.heap) [
  | ok a h ↦ ok a (record m { heap = h })
  | fault ↦ fault
  | out_of_fuel ↦ out_of_fuel
]

-- The start of `hplf_transfer_atomic_publish`: the null test and the relaxed load.
unfoldable pub begin_publish : ℕ → TransferList → Cmd Shared Pc
begin_publish class_index list m =
    if list.first == null
    then ok (holding list) m
    else ok (observing class_index list (m.heads class_index)) m

-- The compare-exchange: a failure loads the head into `observed`.
unfoldable pub compare_exchange : (spurious : Bool) → ℕ → TransferList → Ptr → Cmd Shared Pc
compare_exchange spurious class_index list observed m =
    if (m.heads class_index == observed) && not spurious
    then ok (holding cleared) (record m { heads = update m.heads class_index list.first })
    else ok (observing class_index list (m.heads class_index)) m

-- The exchange of `hplf_transfer_atomic_detach`. A client that still holds blocks makes no such call:
-- the call would overwrite its descriptor.
unfoldable pub begin_detach : ℕ → TransferList → Cmd Shared Pc
begin_detach class_index list m =
    if list.first == null
    then ok (counting (m.heads class_index) (m.heads class_index) null 0)
        (record m { heads = update m.heads class_index null })
    else ok (holding list) m

-- One round of the loop that counts the detached chain.
unfoldable pub count_next : (first block last : Ptr) → ℕ → Cmd Shared Pc
count_next first block last count =
    if block == null
    then pure (holding (record { first = first; last = last; count = count }))
    else do
      b ← on_memory (load_block block)
      pure (counting first b.next_free block (wrap (count + 1)))

-- One step of one thread.
unfoldable pub step : Choice → Pc → Cmd Shared Pc
step c (holding list) =
    if c.publishes then begin_publish c.class_index list else begin_detach c.class_index list
step c (observing class_index list observed) = do
  on_memory (set_next_free list.last observed)
  pure (linked class_index list observed)
step c (linked class_index list observed) = compare_exchange c.spurious class_index list observed
step c (counting first block last count) = count_next first block last count

-- Threads, by number, over what they share.
pub record System : Type 0 where
  pub memory : Shared
  pub pc : ℕ → Pc

-- A step of the system: one thread moves, and leaves the others where they stand.
pub data Step (s : System) : System → Type 0 where
  move :
      (t : ℕ) (c : Choice) {p : Pc} {m : Shared}
      → step c (s.pc t) s.memory ≡ ok p m
      → Step s (record { memory = m; pc = update s.pc t p })

pub data Reach (s : System) : System → Type 0 where
  here : Reach s s
  later : {t u : System} → Reach s t → Step t u → Reach s u
