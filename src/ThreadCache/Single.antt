-- ===== src/ThreadCache/Single.antt =====
-- src/thread_cache.c, one block at a time: `hplf_thread_cache_take` and `hplf_thread_cache_store`.
use hplf_malloc.Prelude.{
  ℕ, suc, ◌+◌, ◌*◌, ◌≤◌, ◌<◌, ◌≡◌, refl, subst, ap, false, ◌||◌, List, [], ◌∷◌, arith, ◌==◌, leb,
  length, update, has, Bool-cases, inl, inr,
}
use hplf_malloc.CheckedMath.{size_max}
use hplf_malloc.SizeClass.{class_count}
use hplf_malloc.SizeClass.Fit.{capacity_at, capacity_bounds}
use hplf_malloc.Heap.{ok, Ptr, null, Block, Heap}
use hplf_malloc.Heap.Chain.{
  Points, Points-put, Chain, nil, cons, single-Disjoint, nil-eq, not_null, load_block-ok,
  set_next_free-ok, OnlyLinks,
}
use hplf_malloc.Heap.Family.{prepend, behead}
use hplf_malloc.Heap.Returns.{Returns, returns}
use hplf_malloc.ThreadCache.{ThreadCache, take_block, store}
use hplf_malloc.ThreadCache.Shape.{IsCache, slot_bytes-update, slot_bytes-ge}

-- The counts after a change of class `i`.
pub counts-update :
    {counts : ℕ → ℕ} (lists : ℕ → List Ptr) (i n : ℕ) (zs : List Ptr)
    → ((j : ℕ) → counts j ≡ length (lists j))
    → n ≡ length zs
    → (j : ℕ) → update counts i n j ≡ length (update lists i zs j)
counts-update lists i n zs old new j = elim (Bool-cases (i == j)) [
  | inl here ↦ rw here new
  | inr away ↦ rw away (old j)
]

module _ {h : Heap} {c : ThreadCache} {lists : ℕ → List Ptr} (is : IsCache h c lists) (i : ℕ)
    (in_table : i < class_count) where
  -- The number of cached blocks of a class is at most the bytes of the cache.
  pub length-le-total : length (lists i) * 16 ≤ c.total_slot_bytes
  length-le-total =
      let least = (capacity_bounds i in_table).0 in
      let scaled = scale (length (lists i)) (capacity_at i) least in
      omega (arith, is.total, slot_bytes-ge lists i in_table)
    where
      scale : (n k : ℕ) → 16 ≤ k → n * 16 ≤ n * k
      scale n k le = grind arith

  -- For a cache that holds the blocks of `lists`: storing a block that it does not hold pushes the
  -- block in front of its class, where the new total fits a size_t. The invariant holds with that
  -- block added, and only the block's link changes.
  pub store-IsCache :
      {x : Ptr} {b : Block}
      → Points h x b
      → ((j : ℕ) → has x (lists j) ≡ false)
      → c.total_slot_bytes + capacity_at i ≤ size_max
      → Returns
          (λ c' g. IsCache g c' (update lists i (x ∷ lists i)) × OnlyLinks (x ∷ []) h g)
          (store c i (capacity_at i) x h)
  unfolding store
  store-IsCache {x} {b} at out room =
      let alone : Chain h b.next_free x (x ∷ []) = cons refl refl at (nil refl) in
      let (b', at', family, links) =
        prepend i is.family alone (λ j. single-Disjoint x (lists j) (out j)) in
      let few = length-le-total in
      rw (set_next_free-ok at' (c.heads i)) (
        returns (
          record {
            family = family;
            counts = counts-update lists i _ (x ∷ lists i) is.counts (omega (arith, is.counts i));
            total = omega (arith, is.total, slot_bytes-update lists i (x ∷ lists i) in_table);
          },
          links,
        ))

  -- Taking from an empty class returns null and changes nothing.
  pub take_block-nil : lists i ≡ [] → take_block c i (capacity_at i) h ≡ ok (null, c) h
  unfolding take_block
  take_block-nil e =
      ground (arith, nil-eq (subst (λ t. Chain h null (c.heads i) t) e (is.family.chains i)))

  -- For a cache that holds the blocks of `lists`, with a total that fits a size_t: taking from a
  -- nonempty class returns its first block, the invariant holds with that block gone, and only the
  -- block's link changes, to null.
  pub take_block-cons :
      {x : Ptr} {xs : List Ptr}
      → lists i ≡ x ∷ xs
      → c.total_slot_bytes ≤ size_max
      → Returns
          (λ r g.
            (r.0 ≡ x)
            × IsCache g r.1 (update lists i xs)
            × OnlyLinks (x ∷ []) h g
            × ((b : Block) × Points g x (record b { next_free = null })))
          (take_block c i (capacity_at i) h)
  unfolding take_block
  take_block-cons {x} {xs} e room =
      let (b, first, at, family, links) = behead i is.family e in
      let few = length-le-total in
      let long : length (lists i) ≡ suc (length xs) = ap length e in
      let known : (leb class_count i || c.heads i == null) ≡ false = ground (arith, not_null at) in
      rw (known, first, load_block-ok at, set_next_free-ok at null)
        (returns (
          refl,
          record {
            family = family;
            counts = counts-update lists i _ xs is.counts (omega (arith, is.counts i));
            total = omega (
              arith,
              is.total,
              slot_bytes-update lists i xs in_table,
              slot_bytes-ge lists i in_table,
              ap (λ n. n * capacity_at i) long,
            );
          },
          links,
          (b, Points-put at _),
        ))
