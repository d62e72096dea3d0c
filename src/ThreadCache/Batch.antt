-- ===== src/ThreadCache/Batch.antt =====
-- src/thread_cache.c, several blocks at a time: `hplf_thread_cache_restore`,
-- `hplf_thread_cache_extract_class` and `hplf_thread_cache_refill`.
use hplf_malloc.Prelude.{
  ℕ, suc, ◌+◌, ◌*◌, ◌≤◌, ◌<◌, ◌≡◌, ◌≢◌, refl, subst, ap, true, false, ◌||◌, Option, none, some,
  List, [], ◌∷◌, ◌++◌, arith, ◌==◌, length, update, update_self, take, drop, length-append,
  length-take, length-drop,
}
use hplf_malloc.CheckedMath.{size_max, wrap}
use hplf_malloc.SizeClass.{class_count}
use hplf_malloc.SizeClass.Fit.{capacity_at, capacity_bounds, size_class_capacity-capacity_at}
use hplf_malloc.Heap.{ok, Ptr, null, Heap}
use hplf_malloc.Heap.Chain.{
  Chain, nil-eq, first_live, set_next_free-ok, OnlyLinks, OnlyLinks-refl, Disjoint,
}
use hplf_malloc.Heap.Family.{prepend, IsFamily-update, Disjoint-symm, Disjoint-take, Disjoint-drop}
use hplf_malloc.Heap.Returns.{Returns, returns, outcome}
use hplf_malloc.TransferList.{TransferList, cleared, wrap_sub}
use hplf_malloc.TransferList.Prefix.{Owns, Cut, take_prefix-Cut}
use hplf_malloc.ThreadCache.{ThreadCache, restore, extract_class}
use hplf_malloc.ThreadCache.Shape.{IsCache, slot_bytes-update, slot_bytes-ge}
use hplf_malloc.ThreadCache.Single.{counts-update, length-le-total}

-- The cache after the blocks `xs` were put in front of class `i`.
pub record Restored (h : Heap) (lists : ℕ → List Ptr) (i : ℕ) (xs : List Ptr)
    (r : ThreadCache × TransferList) (g : Heap) : Type 0 where
  pub cache : IsCache g r.0 (update lists i (xs ++ lists i))
  pub empty : r.1 ≡ cleared
  pub links : OnlyLinks xs h g

-- The cache after its first `n` blocks of class `i` were handed out.
pub record Extracted (h : Heap) (lists : ℕ → List Ptr) (i n : ℕ)
    (r : Option TransferList × ThreadCache) (g : Heap) : Type 0 where
  pub output : (list : TransferList) × (r.0 ≡ some list) × Owns g list (take n (lists i))
  pub cache : IsCache g r.1 (update lists i (drop n (lists i)))
  pub links : OnlyLinks (take n (lists i)) h g

grow : (n k : ℕ) → 16 ≤ k → n ≤ n * k
grow n k le = grind arith

module _ {h : Heap} {c : ThreadCache} {lists : ℕ → List Ptr} (is : IsCache h c lists) (i : ℕ)
    (in_table : i < class_count) where
  restore-nil :
      {list : TransferList}
      → Owns h list []
      → Returns (Restored h lists i []) (restore c i (capacity_at i) list h)
  unfolding restore
  restore-nil {list} owns =
      let no_first : list.first ≡ null = nil-eq owns.chain in
      let test : (list.first == null) ≡ true = ground arith in
      rw test (
        returns (record {
          cache = rw (update_self lists i) is;
          empty = ground (arith, owns.last, owns.count);
          links = OnlyLinks-refl [] h;
        }))

  restore-cons :
      {list : TransferList} {x : Ptr} {xs : List Ptr}
      → Owns h list (x ∷ xs)
      → ((j : ℕ) → Disjoint (x ∷ xs) (lists j))
      → c.total_slot_bytes + suc (length xs) * capacity_at i ≤ size_max
      → Returns (Restored h lists i (x ∷ xs)) (restore c i (capacity_at i) list h)
  unfolding restore
  restore-cons {list} {x} {xs} owns apart room =
      let (b, at, family, links) = prepend i is.family owns.chain apart in
      let few = length-le-total is i in_table in
      let least = (capacity_bounds i in_table).0 in
      rw (first_live owns.chain, owns.last, set_next_free-ok at (c.heads i))
        (returns (record {
          cache = record {
            family = family;
            counts = counts-update lists i _ ((x ∷ xs) ++ lists i) is.counts (
                omega (
                  arith,
                  is.counts i,
                  owns.count,
                  few,
                  grow (suc (length xs)) (capacity_at i) least,
                  length-append (x ∷ xs) (lists i),
                ));
            total = omega (
              arith,
              is.total,
              slot_bytes-update lists i ((x ∷ xs) ++ lists i) in_table,
              ap (λ t. t * capacity_at i) owns.count,
              ap (λ t. t * capacity_at i) (length-append (x ∷ xs) (lists i)),
            );
          };
          empty = refl;
          links = links;
        }))

  -- For a cache that holds the blocks of `lists`: restoring a list of blocks that the cache does
  -- not hold puts them, in order, in front of the class and clears the descriptor, where the new
  -- total fits a size_t.
  pub restore-Restored :
      {list : TransferList} {xs : List Ptr}
      → Owns h list xs
      → ((j : ℕ) → Disjoint xs (lists j))
      → c.total_slot_bytes + length xs * capacity_at i ≤ size_max
      → Returns (Restored h lists i xs) (restore c i (capacity_at i) list h)
  restore-Restored {xs = []} owns apart room = restore-nil owns
  restore-Restored {xs = x ∷ xs} owns apart room = restore-cons owns apart room

  -- The cache without the blocks that a cut has taken.
  cut-IsCache :
      {g : Heap} {r : TransferList × TransferList} (n : ℕ)
      → Cut h n (lists i) null r g
      → c.total_slot_bytes ≤ size_max
      → IsCache g
          (record {
            heads = update c.heads i r.0.first;
            counts = update c.counts i (wrap_sub (c.counts i) r.1.count);
            total_slot_bytes = wrap_sub c.total_slot_bytes (wrap (r.1.count * capacity_at i));
          })
          (update lists i (drop n (lists i)))
  cut-IsCache {r} n cut room = record {
    family =
        IsFamily-update i is.family cut.links
          (λ j ne.
            Disjoint-symm (take n l) (lists j) (Disjoint-take n l (lists j) (fam_apart j ne)))
          cut.left (λ j ne. Disjoint-drop n l (lists j) (fam_apart j ne));
    counts =
        counts-update lists i _ (drop n l) is.counts
          (omega (arith, is.counts i, cut.taken.count, few, length-take n l, length-drop n l));
    total = omega (
      arith,
      is.total,
      slot_bytes-update lists i (drop n l) in_table,
      slot_bytes-ge lists i in_table,
      ap (λ t. t * capacity_at i) cut.taken.count,
      ap (λ t. t * capacity_at i) parts,
    );
  }
    where
      l : List Ptr
      l = lists i

      few : length l * 16 ≤ c.total_slot_bytes
      few = length-le-total is i in_table

      fam_apart : (j : ℕ) → i ≢ j → Disjoint l (lists j)
      fam_apart j ne = is.family.apart i j ne

      parts : length (take n l) + length (drop n l) ≡ length l
      parts = omega (arith, length-take n l, length-drop n l)

  -- For a cache that holds the blocks of `lists`, with a total that fits a size_t: extracting up to
  -- `n` blocks, `n` not 0, of a nonempty class hands out its first `n` (or all) as a counted list,
  -- keeps the others in order, and the invariant holds for what is left.
  pub extract_class-Extracted :
      (n : ℕ) {x : Ptr} {xs : List Ptr}
      → lists i ≡ x ∷ xs
      → 0 < n
      → n ≤ size_max
      → c.total_slot_bytes ≤ size_max
      → Returns (Extracted h lists i n) (extract_class c i n h)
  unfolding extract_class
  extract_class-Extracted n {x} {xs} e pos fits room =
      let chain = subst (λ t. Chain h null (c.heads i) t) e (is.family.chains i) in
      let test : (n == 0 || c.heads i == null) ≡ false = ground (arith, first_live chain) in
      let few = length-le-total is i in_table in
      let source : TransferList = record { first = c.heads i; last = null; count = c.counts i } in
      let cut =
        take_prefix-Cut {source = source} n (is.family.chains i) (is.counts i) (omega arith) fits in
      let (r, g, run, done) = outcome cut in
      rw (size_class_capacity-capacity_at i in_table, extract_class, test, run)
        (returns (record {
          output = (r.1, refl, done.taken);
          cache = cut-IsCache n done room;
          links = done.links;
        }))

  -- Nothing is extracted from an empty class, and nothing changes.
  pub extract_class-nil : (n : ℕ) → lists i ≡ [] → extract_class c i n h ≡ ok (none, c) h
  unfolding extract_class
  extract_class-nil n e =
      let first = nil-eq (subst (λ t. Chain h null (c.heads i) t) e (is.family.chains i)) in
      let test : (n == 0 || c.heads i == null) ≡ true = ground arith in
      rw (size_class_capacity-capacity_at i in_table, extract_class, test)
