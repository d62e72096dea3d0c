-- ===== src/Allocator/Baseline/Free.antt =====
-- The release of a small block in the baseline build.
use hplf_malloc.Prelude.{
  ℕ, ◌+◌, ◌<◌, ◌≡◌, refl, sym, subst, ap, true, false, Bool-cases, inl, inr, some, List, ◌∷◌, arith,
  ◌==◌, has, update,
}
use hplf_malloc.Heap.{Ptr, null, small, block_small, block_large, Block, ok, put_block, small_slab}
use hplf_malloc.Heap.Stack.{IsFamily-push}
use hplf_malloc.Heap.Returns.{Returns, returns, outcome}
use hplf_malloc.Layout.Payload.{block_from_payload-ok}
use hplf_malloc.World.{Platform, World, on_heap}
use hplf_malloc.World.Access.{load_block-there, store_block-there, load_slab-there}
use hplf_malloc.Allocator.{free, free_block_at}
use hplf_malloc.Allocator.Baseline.{free_small, baseline}
use hplf_malloc.Allocator.Baseline.Pool.{IsSmall, IsPool, IsSmall-other, IsSmall-self}
use hplf_malloc.Allocator.Baseline.Small.{OnlyBlock, put-OnlyBlock}

small_slab-ok :
    (w : World) (b : Block) (s : Ptr) → b.owner ≡ small s → on_heap (small_slab b) w ≡ ok s w
unfolding small_slab
small_slab-ok w b s e = rw (e, on_heap)

-- The free lists after the block `x` came back to class `i`.
pub record Freed (w : World) (lists : ℕ → List Ptr) (i : ℕ) (x : Ptr) (v : World) : Type 0 where
  pub pool : IsPool v.heap v.free_lists (update lists i (x ∷ lists i))
  pub block : Block
  pub at : v.heap.block x ≡ some block
  pub requested_size : block.requested_size ≡ 0
  pub only : OnlyBlock x w.heap v.heap
  pub same : v ≡ record w { heap = v.heap; free_lists = v.free_lists; calls = w.calls + 1 + 1 }

-- Where a block of the lists was before.
before_push :
    (lists : ℕ → List Ptr) (i x j a : ℕ)
    → (x == a) ≡ false
    → has a (update lists i (x ∷ lists i) j) ≡ true
    → has a (lists j) ≡ true
before_push lists i x j a ne hit = elim (Bool-cases (i == j)) [
  | inl here ↦
      let same : i ≡ j = ground arith in
      subst (λ k. has a (lists k) ≡ true) same (ground (arith, rw here at hit))
  | inr away ↦ rw away at hit
]

-- The new block is in its class alone.
pushed_class :
    (lists : ℕ → List Ptr) (i x j : ℕ)
    → has x (lists j) ≡ false
    → has x (update lists i (x ∷ lists i) j) ≡ true
    → i ≡ j
pushed_class lists i x j out hit = elim (Bool-cases (i == j)) [
  | inl here ↦ ground arith
  | inr away ↦ absurd (clash (rw away at hit))
]
  where
    clash : has x (lists j) ≡ true → ⊥
    clash e = cc out

module _ (w : World) {lists : ℕ → List Ptr} {i : ℕ} {x : Ptr}
    (pool : IsPool w.heap w.free_lists lists) (is : IsSmall w.heap i x)
    (out : (j : ℕ) → has x (lists j) ≡ false) where
  pushed-IsPool :
      IsPool
        (put_block w.heap x (record is.block { requested_size = 0; next_free = w.free_lists i }))
        (update w.free_lists i x)
        (update lists i (x ∷ lists i))
  pushed-IsPool =
      let c : Block = record is.block { requested_size = 0; next_free = w.free_lists i } in
      record {
        family = IsFamily-push i x c pool.family is.some_address out refl;
        members = λ j a hit. elim (Bool-cases (x == a)) [
          | inl mine ↦
              let at : x ≡ a = ground arith in
              let class_of_x =
                pushed_class lists i x j (out j)
                  (subst (λ t. has t (update lists i (x ∷ lists i) j) ≡ true) (sym at) hit) in
              subst (λ t. IsSmall (put_block w.heap x c) j t) at
                (subst (λ k. IsSmall (put_block w.heap x c) k x) class_of_x
                  (IsSmall-self (w.free_lists i) 0 is is.at))
          | inr other ↦
              IsSmall-other x c (pool.members j a (before_push lists i x j a other hit)) other
        ];
      }

  free_small-Freed :
      (p : Platform)
      → p.mutex_lock w.calls ≡ 0
      → Returns (λ _ v. Freed w lists i x v) (free_small p x is.block i w)
  unfolding free_small
  free_small-Freed p locks =
      let c : Block = record is.block { requested_size = 0; next_free = w.free_lists i } in
      rw
        (
          locks,
          store_block-there (record w { calls = w.calls + 1 }) x is.block c is.some_address is.at,
        )
        (returns (record {
          pool = pushed-IsPool;
          block = c;
          at = ground arith;
          requested_size = refl;
          only = put-OnlyBlock x w.heap c;
          same = refl;
        }))

  -- For a small block of class `i` that is in no free list of the pool, and a mutex that can be locked,
  -- `hplf_free` of its payload puts the block in front of class `i` with requested size 0; the pool's
  -- invariant holds again, and no other block, no header, byte or mapping changes, nor does errno.
  pub free-Freed :
      (p : Platform)
      → p.mutex_lock w.calls ≡ 0
      → Returns (λ _ v. Freed w lists i x v) (free p (baseline p) (x + 48) w)
  unfolding free free_block_at
  free-Freed p locks =
      let (u, v, run, freed) = outcome (free_small-Freed p locks) in
      let live : (x + 48 == null) ≡ false = ground arith in
      let pos : 0 < x = omega (arith, is.some_address) in
      let back = block_from_payload-ok x pos is.room in
      let loaded = load_block-there w x is.block is.some_address is.at in
      let not_large : (is.block.kind == block_large) ≡ false = ground (arith, is.kind) in
      let is_small : (is.block.kind == block_small) ≡ true = ground (arith, is.kind) in
      let owner = small_slab-ok w is.block is.slab is.owner in
      let header = load_slab-there w is.slab is.header is.live is.there in
      rw (live, back, loaded, not_large, is_small, owner, header, is.class_index, run)
        (returns (record {
          pool = freed.pool;
          block = freed.block;
          at = freed.at;
          requested_size = freed.requested_size;
          only = freed.only;
          same =
              ap
                (λ (t : World). record t {
                  heap = v.heap;
                  free_lists = v.free_lists;
                  errno = w.errno;
                })
                freed.same;
        }))
