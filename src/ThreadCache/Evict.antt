-- ===== src/ThreadCache/Evict.antt =====
-- src/thread_cache.c: `hplf_thread_cache_extract_eviction` against the cache's limits.
use hplf_malloc.Prelude.{
  ℕ, zero, suc, ◌+◌, ◌*◌, ◌≤◌, ◌<◌, ◌≡◌, refl, ap, sym, ◌∙◌, true, false, not, Option, none, some,
  List, [], ◌∷◌, arith, ltb, leb, ◌==◌, length, update, take, drop, length-drop, ◌⊎◌, inl, inr,
  dec_lt, ℕ_discrete,
}
use hplf_malloc.CheckedMath.{size_max}
use hplf_malloc.SizeClass.{class_count}
use hplf_malloc.SizeClass.Fit.{capacity_at, capacity_bounds}
use hplf_malloc.Heap.{ok, Ptr, Heap}
use hplf_malloc.Heap.Chain.{OnlyLinks}
use hplf_malloc.Heap.Returns.{Returns, returns, outcome}
use hplf_malloc.TransferList.{TransferList, wrap_sub}
use hplf_malloc.TransferList.Prefix.{Owns}
use hplf_malloc.ThreadCache.{
  ThreadCache, class_block_limit, total_bytes_limit, first_nonempty, evict, extract_eviction,
}
use hplf_malloc.ThreadCache.Shape.{IsCache, slot_bytes-eq-zero, slot_bytes-update}
use hplf_malloc.ThreadCache.Single.{length-le-total}
use hplf_malloc.ThreadCache.Batch.{extract_class-Extracted}

-- The search finds a class with blocks, or all that it looked at are empty.
first_nonempty-cases :
    (c : ThreadCache) (left index : ℕ)
    → ((k : ℕ) × (first_nonempty c left index ≡ some k)
        × (index ≤ k)
        × (k < index + left)
        × (0 < c.counts k))
      ⊎ ((first_nonempty c left index ≡ none)
          × ((k : ℕ) → index ≤ k → k < index + left → c.counts k ≡ 0))
unfolding first_nonempty
first_nonempty-cases c zero index = inr (refl, λ k lo hi. absurd (omega arith))
first_nonempty-cases c (suc left) index = elim (ℕ_discrete (c.counts index) 0) [
  | no some_there ↦ inl (index, ground arith, omega arith, omega arith, omega arith)
  | yes empty ↦ elim (first_nonempty-cases c left (index + 1)) [
    | inl (k, e, lo, hi, pos) ↦ inl (k, ground arith, omega arith, omega arith, pos)
    | inr (e, all) ↦ inr (
      ground arith,
      λ k lo hi. elim (ℕ_discrete index k) [
        | yes here ↦ omega (arith, ap c.counts here)
        | no off ↦ all k (omega arith) (omega arith)
      ],
    )
  ]
]

nonempty : (l : List ℕ) → 0 < length l → (x : ℕ) × (xs : List ℕ) × (l ≡ x ∷ xs)
nonempty [] h = absurd (omega arith)
nonempty (x ∷ xs) h = (x, xs, refl)

scale : (a b k : ℕ) → a ≤ b → a * k ≤ b * k
scale a b k le = grind arith

-- The outcome of an eviction: the first `n` blocks of class `k`, which is not empty, were handed out.
pub record Evicted (h : Heap) (c : ThreadCache) (lists : ℕ → List Ptr)
    (r : Option (ℕ × TransferList) × ThreadCache) (g : Heap) : Type 0 where
  pub class_index : ℕ
  pub amount : ℕ
  pub in_table : class_index < class_count
  pub output :
      (list : TransferList) × (r.0 ≡ some (class_index, list))
      × Owns g list (take amount (lists class_index))
  pub cache : IsCache g r.1 (update lists class_index (drop amount (lists class_index)))
  pub links : OnlyLinks (take amount (lists class_index)) h g
  pub less : r.1.total_slot_bytes < c.total_slot_bytes

module _ {h : Heap} {c : ThreadCache} {lists : ℕ → List Ptr} (is : IsCache h c lists)
    (room : c.total_slot_bytes ≤ size_max) where
  evict-Evicted :
      (k n : ℕ)
      → k < class_count
      → 0 < c.counts k
      → 0 < n
      → n ≤ size_max
      → Returns (Evicted h c lists) (evict c k n h)
  unfolding evict
  evict-Evicted k n in_table some_there pos fits =
      let (x, xs, e) = nonempty (lists k) (omega (arith, is.counts k)) in
      let (r, g, run, got) = outcome (extract_class-Extracted is k in_table n e pos fits room) in
      let (list, found, owns) = got.output in
      rw run (
        returns (record {
          class_index = k;
          amount = n;
          in_table = in_table;
          output = (list, rw found, owns);
          cache = got.cache;
          links = got.links;
          less = omega (
            arith,
            is.total,
            got.cache.total,
            (capacity_bounds k in_table).0,
            slot_bytes-update lists k (drop n (lists k)) in_table,
            scale (length (drop n (lists k)) + 1) (length (lists k)) (capacity_at k)
                (omega (arith, length-drop n (lists k), is.counts k)),
          );
        }))

  -- A cache whose counts are all 0 has no bytes.
  total-eq-zero : ((k : ℕ) → k < class_count → c.counts k ≡ 0) → c.total_slot_bytes ≡ 0
  total-eq-zero all = is.total ∙ slot_bytes-eq-zero lists (λ k lt. sym (is.counts k) ∙ all k lt)

  over_bytes :
      (i : ℕ)
      → i < class_count
      → ltb class_block_limit (c.counts i) ≡ false
      → total_bytes_limit < c.total_slot_bytes
      → Returns (Evicted h c lists) (extract_eviction c i h)
  unfolding extract_eviction
  over_bytes i in_table few over =
      let bytes : leb c.total_slot_bytes total_bytes_limit ≡ false = ground arith in
      elim (ℕ_discrete (c.counts i) 0) [
        | no some_there ↦
            let test : not (c.counts i == 0) ≡ true = ground arith in
            rw (few, bytes, test)
              (evict-Evicted i (c.counts i) in_table (omega arith) (omega arith)
                (count_fits i in_table))
        | yes empty ↦
            let test : not (c.counts i == 0) ≡ false = ground arith in
            elim (first_nonempty-cases c class_count 0) [
              | inl (k, e, lo, hi, pos) ↦
                  rw (few, bytes, test, e, extract_eviction)
                    (evict-Evicted k (c.counts k) (omega arith) pos pos
                      (count_fits k (omega arith)))
              | inr (e, all) ↦
                  absurd (omega (arith, total-eq-zero (λ k lt. all k (omega arith) (omega arith))))
            ]
      ]
    where
      count_fits : (k : ℕ) → k < class_count → c.counts k ≤ size_max
      count_fits k lt = omega (arith, is.counts k, length-le-total is k lt)

  -- Nothing is evicted while the current class has at most 32 blocks and the total is at most 64
  -- KiB: cache and memory are unchanged.
  pub extract_eviction-none :
      (i : ℕ)
      → c.counts i ≤ class_block_limit
      → c.total_slot_bytes ≤ total_bytes_limit
      → extract_eviction c i h ≡ ok (none, c) h
  unfolding extract_eviction
  extract_eviction-none i few small = ground arith

  -- For a cache that holds the blocks of `lists`, with a total that fits a size_t: if the current
  -- class has more than 32 blocks or the total is above 64 KiB, an eviction takes place. It hands
  -- out the first blocks of one class as a counted list that the caller owns, the invariant holds
  -- for the cache without them, only links of those blocks change, and the total gets strictly
  -- smaller.
  pub extract_eviction-Evicted :
      (i : ℕ)
      → i < class_count
      → (class_block_limit < c.counts i) ⊎ (total_bytes_limit < c.total_slot_bytes)
      → Returns (Evicted h c lists) (extract_eviction c i h)
  unfolding extract_eviction
  extract_eviction-Evicted i in_table over = elim (dec_lt class_block_limit (c.counts i)) [
    | yes many ↦
        let test : ltb class_block_limit (c.counts i) ≡ true = ground arith in
        let fits = length-le-total is i in_table in
        rw test (
          evict-Evicted i (wrap_sub (c.counts i) class_block_limit) in_table (omega arith)
            (omega (arith, is.counts i, fits)) (omega (arith, is.counts i, fits)))
    | no few ↦ over_bytes i in_table (ground arith) (only_bytes few over)
  ]
    where
      only_bytes :
          ¬ (class_block_limit < c.counts i)
          → (class_block_limit < c.counts i) ⊎ (total_bytes_limit < c.total_slot_bytes)
          → total_bytes_limit < c.total_slot_bytes
      only_bytes few (inl many) = absurd (few many)
      only_bytes few (inr bytes) = bytes
