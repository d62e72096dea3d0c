-- ===== src/TransferMutex.antt =====
-- src/transfer_mutex.c: the shared heads by class. `transfers.heads` is passed in and returned. Each
-- critical section is one step: the code ignores the mutex's error codes.
pub mod Refines
pub mod Snapshot
use hplf_malloc.Prelude.{ℕ, Bool, true, false, ◌==◌, if◌then◌else◌, update}
use hplf_malloc.Heap.{Ptr, null, Heap, Cmd, pure, ◌>>=◌, ◌>>◌, set_next_free}
use hplf_malloc.TransferList.{TransferList, cleared, from_chain}

-- `transfers.heads`
abbrev pub Heads : Type 0
Heads = ℕ → Ptr

-- `hplf_transfer_mutex_publish`: the caller's descriptor after it, and the heads.
unfoldable pub publish : ℕ → TransferList → Heads → Cmd Heap (TransferList × Heads)
publish class_index list heads = if list.first == null then pure (list, heads) else do
  set_next_free list.last (heads class_index)
  pure (cleared, update heads class_index list.first)

-- `hplf_transfer_mutex_detach`: the descriptor that it fills, and the heads.
unfoldable pub detach : ℕ → ℕ → Heads → Cmd Heap (TransferList × Heads)
detach fuel class_index heads = do
  list ← from_chain fuel (heads class_index)
  pure (list, update heads class_index null)
