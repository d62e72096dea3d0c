-- ===== src/ThreadCache/Refill.antt =====
-- src/thread_cache.c: `hplf_thread_cache_refill` against the cache's limits.
use native.Mathlib.Nat.{le-div_iff_mul-le}
use hplf_malloc.Prelude.{
  ℕ, ◌+◌, ◌-◌, ◌*◌, ◌/◌, ◌≤◌, ◌<◌, ◌≡◌, refl, ap, true, false, List, ◌++◌, arith, ltb, ◌==◌, length,
  update, take, drop, length-append, length-take, if◌then◌else◌, Bool-cases, inl, inr,
}
use hplf_malloc.CheckedMath.{size_max}
use hplf_malloc.SizeClass.{class_count}
use hplf_malloc.SizeClass.Fit.{capacity_at, capacity_bounds}
use hplf_malloc.Heap.{Ptr, Heap}
use hplf_malloc.Heap.Chain.{
  Disjoint, OnlyLinks, OnlyLinks-trans, OnlyLinks-mono, frame-links, has-take, split-Disjoint,
}
use hplf_malloc.Heap.Family.{Disjoint-symm, Disjoint-take, IsFamily-links}
use hplf_malloc.Heap.Returns.{Returns, returns, outcome}
use hplf_malloc.TransferList.{TransferList, wrap_sub}
use hplf_malloc.TransferList.Prefix.{Owns, take_prefix-Cut}
use hplf_malloc.ThreadCache.{
  ThreadCache, class_block_limit, total_bytes_limit, refill_limit, refill_room, refill,
}
use hplf_malloc.ThreadCache.Shape.{IsCache, slot_bytes-update}
use hplf_malloc.ThreadCache.Batch.{restore-Restored}

scale : (a b k : ℕ) → a ≤ b → a * k ≤ b * k
scale a b k le = grind arith

-- The limits of a cache between two calls of the allocator.
pub record IsWithin (c : ThreadCache) : Type 0 where
  pub blocks : (i : ℕ) → i < class_count → c.counts i ≤ class_block_limit
  pub bytes : c.total_slot_bytes ≤ total_bytes_limit

pub record Room (c : ThreadCache) (i n : ℕ) : Type 0 where
  pub batch : n ≤ refill_limit
  pub blocks : c.counts i + n ≤ class_block_limit
  pub bytes : c.total_slot_bytes + n * capacity_at i ≤ total_bytes_limit

least_of :
    (a b n : ℕ)
    → n ≡ (if ltb b (if ltb a 16 then a else 16) then b else (if ltb a 16 then a else 16))
    → (n ≤ 16) × (n ≤ a) × (n ≤ b)
least_of a b n e = ground arith

-- For a cache within its limits, the number of blocks that a refill asks for keeps it within the
-- limits on the class's count, on the total and on one refill.
pub refill_room-Room :
    (c : ThreadCache) (i : ℕ)
    → i < class_count
    → IsWithin c
    → Room c i (refill_room c i (capacity_at i))
unfolding refill_room
refill_room-Room c i in_table within =
    let (batch, blocks, bytes) =
      least_of (wrap_sub class_block_limit (c.counts i))
        (wrap_sub total_bytes_limit c.total_slot_bytes / capacity_at i)
        (refill_room c i (capacity_at i)) refl in
    let exact : wrap_sub total_bytes_limit c.total_slot_bytes
        ≡ total_bytes_limit - c.total_slot_bytes =
      omega (arith, within.bytes) in
    let pos : 0 < capacity_at i = omega (arith, (capacity_bounds i in_table).0) in
    record {
      batch = batch;
      blocks = omega (arith, within.blocks i in_table);
      bytes = omega (arith, within.bytes, exact, (le-div_iff_mul-le pos).0 bytes);
    }

greatest_of :
    (a b n m : ℕ)
    → n ≡ (if ltb b (if ltb a 16 then a else 16) then b else (if ltb a 16 then a else 16))
    → m ≤ 16
    → m ≤ a
    → m ≤ b
    → m ≤ n
greatest_of a b n m e batch blocks bytes = ground arith

-- A refill asks for no fewer blocks than there is room for.
refill_room-most :
    (c : ThreadCache) (i : ℕ)
    → i < class_count
    → (m : ℕ) → Room c i m
    → m ≤ refill_room c i (capacity_at i)
unfolding refill_room
refill_room-most c i in_table m fit =
    let pos : 0 < capacity_at i = omega (arith, (capacity_bounds i in_table).0) in
    let space : m * capacity_at i ≤ wrap_sub total_bytes_limit c.total_slot_bytes =
      omega (arith, fit.bytes) in
    greatest_of (wrap_sub class_block_limit (c.counts i))
      (wrap_sub total_bytes_limit c.total_slot_bytes / capacity_at i)
      (refill_room c i (capacity_at i)) m refl fit.batch (omega (arith, fit.blocks))
      ((le-div_iff_mul-le pos).1 space)

-- The cache after a refill of class `i` from the blocks `zs`, and what is left of them. The number that
-- the refill asks for is the greatest that the limits leave room for.
pub record Refilled (h : Heap) (c : ThreadCache) (lists : ℕ → List Ptr) (i : ℕ) (zs : List Ptr)
    (r : ThreadCache × TransferList) (g : Heap) : Type 0 where
  pub moved : ℕ
  pub room : Room c i moved
  pub most : (m : ℕ) → Room c i m → m ≤ moved
  pub cache : IsCache g r.0 (update lists i (take moved zs ++ lists i))
  pub rest : Owns g r.1 (drop moved zs)
  pub within : IsWithin r.0
  pub links : OnlyLinks zs h g

module _ {h : Heap} {c : ThreadCache} {lists : ℕ → List Ptr} (is : IsCache h c lists) (i : ℕ)
    (in_table : i < class_count) (within : IsWithin c) where
  -- The limits hold for a cache that has at most `n` more blocks of class `i`.
  grown-IsWithin :
      {g : Heap} {d : ThreadCache} (xs : List Ptr) (n : ℕ)
      → IsCache g d (update lists i (xs ++ lists i))
      → length xs ≤ n
      → Room c i n
      → IsWithin d
  grown-IsWithin {d} xs n is' few room = record {
    blocks = λ j lt. elim (Bool-cases (i == j)) [
      | inl here ↦ omega (
        arith,
        is'.counts j,
        ap length (chosen j here),
        length-append xs (lists i),
        is.counts i,
        room.blocks,
      )
      | inr away ↦
          omega (arith, is'.counts j, ap length (kept j away), is.counts j, within.blocks j lt)
    ];
    bytes = omega (
      arith,
      is'.total,
      is.total,
      slot_bytes-update lists i (xs ++ lists i) in_table,
      ap (λ t. t * capacity_at i) (length-append xs (lists i)),
      scale (length xs) n (capacity_at i) few,
      room.bytes,
    );
  }
    where
      chosen : (j : ℕ) → (i == j) ≡ true → update lists i (xs ++ lists i) j ≡ xs ++ lists i
      chosen j e = rw e

      kept : (j : ℕ) → (i == j) ≡ false → update lists i (xs ++ lists i) j ≡ lists j
      kept j e = rw e

  -- For a cache that holds the blocks of `lists` and is within its limits, a refill from blocks
  -- that the cache does not hold moves the first of them to the front of the class, as many as the
  -- limits leave room for, and leaves the others in the descriptor; the cache stays within its
  -- limits, and only links of those blocks change.
  pub refill-Refilled :
      {available : TransferList} {zs : List Ptr}
      → Owns h available zs
      → ((j : ℕ) → Disjoint zs (lists j))
      → length zs ≤ size_max
      → Returns (Refilled h c lists i zs) (refill c i (capacity_at i) available h)
  unfolding refill
  refill-Refilled {available} {zs} owns apart small =
      let n = refill_room c i (capacity_at i) in
      let room = refill_room-Room c i in_table within in
      let batch : n ≤ size_max = omega (arith, room.batch) in
      let first = take_prefix-Cut {source = available} n owns.chain owns.count small batch in
      let (r, g, run, cut) = outcome first in
      let clear : (j : ℕ) → Disjoint (take n zs) (lists j) =
        λ j. Disjoint-take n zs (lists j) (apart j) in
      let is' : IsCache g c lists = record {
        family =
            IsFamily-links is.family cut.links λ j. Disjoint-symm (take n zs) (lists j) (clear j);
        counts = is.counts;
        total = is.total;
      } in
      let few : length (take n zs) ≤ n = omega (arith, length-take n zs) in
      let fits = scale (length (take n zs)) n (capacity_at i) few in
      let second =
        restore-Restored is' i in_table cut.taken clear (omega (arith, room.bytes, fits)) in
      let (r', k, run', done) = outcome second in
      let back = Disjoint-symm (take n zs) (drop n zs) (split-Disjoint n owns.chain) in
      rw (run, run')
        (returns (record {
          moved = n;
          room = room;
          most = λ m fit. refill_room-most c i in_table m fit;
          cache = done.cache;
          rest = record {
            chain = frame-links cut.left done.links back;
            last = cut.last owns.last;
            count = cut.count;
          };
          within = grown-IsWithin (take n zs) n done.cache few room;
          links =
              OnlyLinks-mono zs (λ a o. has-take n a zs o) (OnlyLinks-trans cut.links done.links);
        }))
