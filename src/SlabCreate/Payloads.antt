-- ===== src/SlabCreate/Payloads.antt =====
-- src/slab.c and src/block.h: the payloads that a new slab has to hand out.
use hplf_malloc.Prelude.{ℕ, ◌+◌, ◌%◌, ◌≤◌, ◌<◌, ◌≡◌, ◌≢◌, ◌⊎◌, true, List, has, length}
use hplf_malloc.Heap.{Ptr, null}
use hplf_malloc.Heap.Chain.{Chain}
use hplf_malloc.Heap.Returns.{Returns}
use hplf_malloc.Layout.{SlabLayout, payload_alignment, block_payload}
use hplf_malloc.World.{World}

-- The blocks of the chain from `free` are as many as the layout has slots; their payloads are aligned,
-- lie with their capacity inside the mapping, and no two overlap.
pub record Payloads (capacity base : ℕ) (l : SlabLayout) (free : Ptr) (v : World) : Type 0 where
  pub blocks : List Ptr
  pub chain : Chain v.heap null free blocks
  pub count : length blocks ≡ l.slot_count
  pub aligned : (a : Ptr) → has a blocks ≡ true → block_payload a % payload_alignment ≡ 0
  pub above : (a : Ptr) → has a blocks ≡ true → base < block_payload a
  pub inside :
      (a : Ptr) → has a blocks ≡ true → block_payload a + capacity ≤ base + l.mapping_length
  pub apart :
      (a b : Ptr)
      → has a blocks ≡ true
      → has b blocks ≡ true
      → a ≢ b
      → (block_payload a + capacity ≤ block_payload b)
        ⊎ (block_payload b + capacity ≤ block_payload a)
