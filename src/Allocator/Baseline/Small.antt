-- ===== src/Allocator/Baseline/Small.antt =====
-- Small requests of the baseline build that find a free block, and the release of small blocks.
use hplf_malloc.Prelude.{
  ◌⊎◌, ℕ, ◌+◌, ◌≡◌, refl, sym, subst, ap, ◌∙◌, true, false, Bool-cases, inl, inr, List, ◌∷◌, some,
  arith, ◌==◌, has, update,
}
use hplf_malloc.SizeClass.Fit.{capacity_at}
use hplf_malloc.Heap.{Ptr, null, Block, Heap, put_block}
use hplf_malloc.Heap.Chain.{load_block-ok, store_block-ok}
use hplf_malloc.Heap.Stack.{IsFamily-pop}
use hplf_malloc.Heap.Returns.{Returns, returns, outcome}
use hplf_malloc.Layout.Payload.{block_payload-ok}
use hplf_malloc.World.{Platform, World, on_heap}
use hplf_malloc.Allocator.Baseline.{pop_block, find_block, allocate_small}
use hplf_malloc.Allocator.Baseline.Pool.{IsSmall, IsPool, IsSmall-other, IsSmall-self}

-- What an operation on the block `x` leaves alone.
pub record OnlyBlock (x : Ptr) (h g : Heap) : Type 0 where
  pub others : (a : Ptr) → (x == a) ≡ false → g.block a ≡ h.block a
  pub slabs : g.slab ≡ h.slab
  pub bytes : g.byte ≡ h.byte
  pub maps : g.mappings ≡ h.mappings

pub put-OnlyBlock : (x : Ptr) (h : Heap) (c : Block) → OnlyBlock x h (put_block h x c)
put-OnlyBlock x h c = record { others = λ a ne. rw ne; slabs = refl; bytes = refl; maps = refl }

-- The memory and the free lists after the block `x` of class `i` was handed out for `n` bytes.
pub record HandedOut (h : Heap) (lists : ℕ → List Ptr) (i n : ℕ) (x : Ptr) (xs : List Ptr)
    (g : Heap) (free_lists : ℕ → Ptr) : Type 0 where
  pub pool : IsPool g free_lists (update lists i xs)
  pub free_no_more : (j : ℕ) → has x (update lists i xs j) ≡ false
  pub block : IsSmall g i x
  pub written : (b : Block) × (g.block x ≡ some b) × (b.requested_size ≡ n) × (b.next_free ≡ null)
  pub only : OnlyBlock x h g

-- The other free blocks are as they were.
rest-IsSmall :
    {h : Heap} {heads : ℕ → Ptr} {lists : ℕ → List Ptr} {x : Ptr} {xs : List Ptr} (i : ℕ)
    → IsPool h heads lists
    → lists i ≡ x ∷ xs
    → (c : Block) (j a : ℕ) → has x (update lists i xs j) ≡ false
    → has a (update lists i xs j) ≡ true
    → IsSmall (put_block h x c) j a
rest-IsSmall {lists} {x} {xs} i pool e c j a out hit =
    IsSmall-other x c (pool.members j a (was_there (Bool-cases (i == j))))
      (ground (arith, apart (Bool-cases (x == a))))
  where
    was_there : ((i == j) ≡ true) ⊎ ((i == j) ≡ false) → has a (lists j) ≡ true
    was_there (inl here) =
        let same : i ≡ j = ground arith in
        subst (λ k. has a (lists k) ≡ true) same
          (subst (λ l. has a l ≡ true) (sym e) (ground (arith, rw here at hit)))
    was_there (inr away) = rw away at hit

    apart : ((x == a) ≡ true) ⊎ ((x == a) ≡ false) → (x == a) ≡ false
    apart (inr ne) = ne
    apart (inl same) =
        let at : x ≡ a = ground arith in
        absurd (clash (subst (λ t. has t (update lists i xs j) ≡ false) at out))
      where
        clash : has a (update lists i xs j) ≡ false → ⊥
        clash no_hit = cc

module _ {w : World} {lists : ℕ → List Ptr} {x : Ptr} {xs : List Ptr}
    (pool : IsPool w.heap w.free_lists lists) (i : ℕ) (e : lists i ≡ x ∷ xs) (n : ℕ) where
  pub pop_block-HandedOut :
      Returns
        (λ _ v.
          (w.free_lists i ≡ x)
          × HandedOut w.heap lists i n x xs v.heap v.free_lists
          × (v ≡ record w { heap = v.heap; free_lists = v.free_lists }))
        (pop_block i n x w)
  unfolding pop_block
  pop_block-HandedOut =
      let (b, first, at, fresh, family) = IsFamily-pop i pool.family e in
      let mine = pool.members i x (subst (λ l. has x l ≡ true) (sym e) (ground arith)) in
      let c : Block = record b { next_free = null; requested_size = n } in
      rw (on_heap, load_block-ok at, store_block-ok at c)
        (returns (
          first,
          record {
            pool = record {
              family = family c;
              members = λ j a hit. rest-IsSmall i pool e c j a (out fresh j) hit;
            };
            free_no_more = out fresh;
            block = IsSmall-self null n mine at.holds;
            written = (c, ground arith, refl, refl);
            only = put-OnlyBlock x w.heap c;
          },
          refl,
        ))
    where
      in_front : has x (lists i) ≡ true
      in_front = subst (λ l. has x l ≡ true) (sym e) (ground arith)

      out : has x xs ≡ false → (j : ℕ) → has x (update lists i xs j) ≡ false
      out fresh j = elim (Bool-cases (i == j)) [
        | inl here ↦ rw here fresh
        | inr away ↦ rw away (pool.family.apart i j (ground arith) x in_front)
      ]

module _ {w : World} {lists : ℕ → List Ptr} {x : Ptr} {xs : List Ptr}
    (pool : IsPool w.heap w.free_lists lists) (i : ℕ) (e : lists i ≡ x ∷ xs) (n : ℕ) where
  -- A request that finds a free block, with a mutex that works: the payload of the first one.
  pub allocate_small-HandedOut :
      (p : Platform)
      → p.mutex_lock w.calls ≡ 0
      → p.mutex_unlock (w.calls + 1) ≡ 0
      → Returns
          (λ r v.
            (r ≡ x + 48)
            × HandedOut w.heap lists i n x xs v.heap v.free_lists
            × (v ≡ record w { heap = v.heap; free_lists = v.free_lists; calls = w.calls + 1 + 1 }))
          (allocate_small p n i (capacity_at i) w)
  unfolding allocate_small find_block
  allocate_small-HandedOut p locks unlocks =
      let locked : World = record w { calls = w.calls + 1 } in
      let (u, v, run, (first, out, same)) = outcome (pop_block-HandedOut {w = locked} pool i e n) in
      let live : (w.free_lists i == null) ≡ false = ground (arith, out.block.some_address) in
      let some_block : (x == null) ≡ false = ground (arith, out.block.some_address) in
      let released : p.mutex_unlock v.calls ≡ 0 =
        ap (λ (t : World). p.mutex_unlock t.calls) same ∙ unlocks in
      let payload = block_payload-ok x (omega (arith, out.block.some_address)) out.block.room in
      rw (locks, live, first, some_block, run, released, payload)
        (returns (
          refl,
          record {
            pool = out.pool;
            free_no_more = out.free_no_more;
            block = out.block;
            written = out.written;
            only = out.only;
          },
          ap
              (λ (t : World). record t {
                heap = v.heap;
                free_lists = v.free_lists;
                calls = t.calls + 1;
              })
              same,
        ))
