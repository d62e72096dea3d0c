-- ===== src/Allocator/Baseline/Pool.antt =====
-- The free blocks of the baseline build, by class, and what is known of each.
use hplf_malloc.Prelude.{ℕ, ◌+◌, ◌≤◌, ◌≡◌, ◌≢◌, true, false, List, some, arith, ◌==◌, has}
use hplf_malloc.CheckedMath.{size_max}
use hplf_malloc.SizeClass.Fit.{capacity_at}
use hplf_malloc.Heap.{Ptr, null, small, block_small, Block, Slab, Heap, put_block}
use hplf_malloc.Heap.Family.{IsFamily}

-- A block of class `i` at `a`: what never changes in its prefix, and the header that it names.
pub record IsSmall (h : Heap) (i : ℕ) (a : Ptr) : Type 0 where
  pub block : Block
  pub at : h.block a ≡ some block
  pub kind : block.kind ≡ block_small
  pub capacity : block.capacity ≡ capacity_at i
  pub slab : Ptr
  pub owner : block.owner ≡ small slab
  pub live : slab ≢ null
  pub header : Slab
  pub there : h.slab slab ≡ some header
  pub class_index : header.class_index ≡ i
  pub some_address : a ≢ null
  pub room : a + 48 ≤ size_max

-- The free lists hold the blocks of `lists`.
pub record IsPool (h : Heap) (free_lists : ℕ → Ptr) (lists : ℕ → List Ptr) : Type 0 where
  pub family : IsFamily h free_lists lists
  pub members : (i a : ℕ) → has a (lists i) ≡ true → IsSmall h i a

-- Another block is written.
pub IsSmall-other :
    {h : Heap} {i a : ℕ} (x : Ptr) (c : Block)
    → IsSmall h i a
    → (x == a) ≡ false
    → IsSmall (put_block h x c) i a
IsSmall-other {h} x c s ne = record {
  block = s.block;
  at = rw ne s.at;
  kind = s.kind;
  capacity = s.capacity;
  slab = s.slab;
  owner = s.owner;
  live = s.live;
  header = s.header;
  there = s.there;
  class_index = s.class_index;
  some_address = s.some_address;
  room = s.room;
}

-- Its own link and requested size are written.
pub IsSmall-self :
    {h : Heap} {i x : ℕ} {b : Block} (next requested : ℕ)
    → IsSmall h i x
    → h.block x ≡ some b
    → IsSmall (put_block h x (record b { next_free = next; requested_size = requested })) i x
IsSmall-self {h} {i} {x} {b} next requested s e = record {
  block = record b { next_free = next; requested_size = requested };
  at = ground arith;
  kind = ground (arith, e, s.at, s.kind);
  capacity = ground (arith, e, s.at, s.capacity);
  slab = s.slab;
  owner = ground (arith, e, s.at, s.owner);
  live = s.live;
  header = s.header;
  there = s.there;
  class_index = s.class_index;
  some_address = s.some_address;
  room = s.room;
}
