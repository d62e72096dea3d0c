-- ===== src/Lifecycle/Flush.antt =====
-- src/thread_cache_lifecycle.c: `flush_descriptor` publishes every cached block and empties the cache.
use hplf_malloc.Prelude.{
  ℕ, zero, suc, ◌+◌, ◌*◌, ◌≤◌, ◌<◌, ◌≡◌, refl, subst, ap, ◌∙◌, Bool, true, false, ◌&&◌, Bool-cases,
  inl, inr, List, [], ◌∷◌, ◌++◌, arith, ◌==◌, ltb, leb, length, take, drop, update, if◌then◌else◌,
  List-cases,
}
use hplf_malloc.CheckedMath.{size_max, wrap}
use hplf_malloc.SizeClass.{class_count}
use hplf_malloc.SizeClass.Fit.{capacity_at}
use hplf_malloc.Heap.{Ptr, Heap}
use hplf_malloc.Heap.Returns.{Returns, returns, outcome, weaken}
use hplf_malloc.ThreadCache.{ThreadCache}
use hplf_malloc.ThreadCache.Shape.{IsCache, slot_bytes-update}
use hplf_malloc.ThreadCache.Single.{length-le-total}
use hplf_malloc.ThreadCache.Batch.{extract_class-nil, extract_class-Extracted}
use hplf_malloc.World.{World, on_heap, Descriptor}
use hplf_malloc.Lifecycle.{flush_loop, flush_descriptor}
use hplf_malloc.Lifecycle.Publish.{
  Holds, left_in, shared_with, Relinked, Relinked-refl, Relinked-trans, publish-Moved,
}

-- Is `j` one of the `left` classes from `i` on?
abbrev pub among : (i left j : ℕ) → Bool
among i left j = leb i j && ltb j (i + left)

-- The number of blocks in those classes.
abbrev pub count_from : (ℕ → List Ptr) → (left i : ℕ) → ℕ
count_from lists zero i = 0
count_from lists (suc left) i = length (lists i) + count_from lists left (i + 1)

-- The state after those classes were flushed, with the counter started at `published`.
pub record Flushed (w : World) (lists shared : ℕ → List Ptr) (left i published : ℕ)
    (r : ThreadCache × ℕ) (v : World) : Type 0 where
  pub cached_blocks : ℕ → List Ptr
  pub shared_blocks : ℕ → List Ptr
  pub holds : Holds v r.0 cached_blocks shared_blocks
  pub emptied : (j : ℕ) → cached_blocks j ≡ (if among i left j then [] else lists j)
  pub gathered :
      (j : ℕ) → shared_blocks j ≡ (if among i left j then lists j ++ shared j else shared j)
  pub total : r.1 ≡ wrap (published + count_from lists left i)
  pub relinked : Relinked w.heap v.heap
  pub same : v ≡ record w { heap = v.heap; heads = v.heads }

take_all : (n : ℕ) (xs : List Ptr) → length xs ≤ n → (take n xs ≡ xs) × (drop n xs ≡ [])
take_all zero [] le = (refl, refl)
take_all zero (x ∷ xs) le = absurd (omega arith)
take_all (suc n) [] le = (refl, refl)
take_all (suc n) (x ∷ xs) le =
    let (front, back) = take_all n xs (omega arith) in (ap (λ l. x ∷ l) front, back)

-- Later classes are counted alike after a change of an earlier one.
count_from-update :
    (lists : ℕ → List Ptr) (k : ℕ) (zs : List Ptr) (left i : ℕ)
    → k < i
    → count_from (update lists k zs) left i ≡ count_from lists left i
count_from-update lists k zs zero i lt = refl
count_from-update lists k zs (suc left) i lt =
    let away : (k == i) ≡ false = ground arith in
    omega (
      arith,
      ap (λ (t : Bool). length (if t then zs else lists i)) away,
      count_from-update lists k zs left (i + 1) (omega arith),
    )

flush-start :
    {w : World} {c : ThreadCache} {lists shared : ℕ → List Ptr} (i published : ℕ)
    → Holds w c lists shared
    → published ≤ size_max
    → Flushed w lists shared 0 i published (c, published) w
flush-start {w} {c} {lists} {shared} i published now small = record {
  cached_blocks = lists;
  shared_blocks = shared;
  holds = now;
  emptied = λ j. ground arith;
  gathered = λ j. ground arith;
  total = omega arith;
  relinked = Relinked-refl w.heap;
  same = refl;
}

among-first : (i left : ℕ) → (among i (suc left) i ≡ true) × (among (i + 1) left i ≡ false)
among-first i left = (ground arith, ground arith)

among-later : (i left j : ℕ) → (i == j) ≡ false → among i (suc left) j ≡ among (i + 1) left j
among-later i left j away = ground arith

-- One class was flushed before the others.
record OneFlushed (lists shared : ℕ → List Ptr) (i : ℕ) (lists' shared' : ℕ → List Ptr)
    : Type 0 where
  emptied : lists' i ≡ []
  gathered : shared' i ≡ lists i ++ shared i
  other_lists : (j : ℕ) → (i == j) ≡ false → lists' j ≡ lists j
  other_shared : (j : ℕ) → (i == j) ≡ false → shared' j ≡ shared j

flush-both :
    {w u v : World} {lists shared lists' shared' : ℕ → List Ptr} {r : ThreadCache × ℕ}
    (left i published published' : ℕ)
    → OneFlushed lists shared i lists' shared'
    → published' ≡ wrap (published + length (lists i))
    → count_from lists' left (i + 1) ≡ count_from lists left (i + 1)
    → Relinked w.heap u.heap
    → u ≡ record w { heap = u.heap; heads = u.heads }
    → Flushed u lists' shared' left (i + 1) published' r v
    → Flushed w lists shared (suc left) i published r v
flush-both {w} {u} {v} {lists} {shared} {lists'} {shared'} {r} left i published published' one
      counted rest relinked same f =
    record {
      cached_blocks = f.cached_blocks;
      shared_blocks = f.shared_blocks;
      holds = f.holds;
      emptied = λ j. elim (Bool-cases (i == j)) [
        | inl here ↦
            let same_class : i ≡ j = ground arith in
            subst (λ k. f.cached_blocks k ≡ (if among i (suc left) k then [] else lists k))
              same_class
              (rw (among-first i left).0 (f.emptied i ∙ rw (among-first i left).1 one.emptied))
        | inr away ↦ rw (among-later i left j away) (
            f.emptied j ∙ ap (λ l. if among (i + 1) left j then [] else l) (one.other_lists j away))
      ];
      gathered = λ j. elim (Bool-cases (i == j)) [
        | inl here ↦
            let same_class : i ≡ j = ground arith in
            subst
              (λ k.
                f.shared_blocks k
                ≡ (if among i (suc left) k then lists k ++ shared k else shared k))
              same_class
              (rw (among-first i left).0 (f.gathered i ∙ rw (among-first i left).1 one.gathered))
        | inr away ↦
            rw (among-later i left j away, ← one.other_lists j away, ← one.other_shared j away)
              (f.gathered j)
      ];
      total = omega (arith, f.total, counted, rest);
      relinked = Relinked-trans relinked f.relinked;
      same = f.same ∙ ap (λ (x : World). record x { heap = v.heap; heads = v.heads }) same;
    }

-- A cache with an empty class needs less room.
left_in-room :
    {h g : Heap} {c d : ThreadCache} {lists : ℕ → List Ptr} (i n : ℕ)
    → i < class_count
    → IsCache h c lists
    → IsCache g d (left_in lists i n)
    → drop n (lists i) ≡ []
    → d.total_slot_bytes ≤ c.total_slot_bytes
left_in-room {lists} i n in_table is is' e = omega (
  arith,
  is.total,
  is'.total,
  slot_bytes-update lists i (drop n (lists i)) in_table,
  ap (λ l. length l * capacity_at i) e,
)

left_in-OneFlushed :
    (lists shared : ℕ → List Ptr) (i n : ℕ)
    → length (lists i) ≤ n
    → OneFlushed lists shared i (left_in lists i n) (shared_with lists shared i n)
left_in-OneFlushed lists shared i n le =
    let (front, back) = take_all n (lists i) le in
    let here : (i == i) ≡ true = ground arith in
    record {
      emptied = rw here back;
      gathered = rw (here, front);
      other_lists = λ j away. rw away;
      other_shared = λ j away. rw away;
    }

flush_loop-Flushed :
    (left : ℕ) {w : World} {c : ThreadCache} {lists shared : ℕ → List Ptr} (i published : ℕ)
    → i + left ≤ class_count
    → Holds w c lists shared
    → c.total_slot_bytes ≤ size_max
    → published ≤ size_max
    → Returns (Flushed w lists shared left i published) (flush_loop c left i published w)
unfolding flush_loop
flush_loop-Flushed zero i published in_table now room small =
    returns (flush-start i published now small)
flush_loop-Flushed (suc left) {w} {c} {lists} {shared} i published in_table now room small =
    let lt : i < class_count = omega arith in
    let few = length-le-total now.cache i lt in
    elim (List-cases (lists i)) [
      | inl e ↦
          rw (on_heap, extract_class-nil now.cache i lt size_max e)
            (weaken (flush_loop-Flushed left (i + 1) published (omega arith) now room small)
              λ r v f.
                flush-both left i published published
                  (record {
                    emptied = e;
                    gathered = rw e;
                    other_lists = λ j away. refl;
                    other_shared = λ j away. refl;
                  })
                  (omega (arith, ap length e)) refl (Relinked-refl w.heap) refl f)
      | inr (x, xs, e) ↦
          let (r, g, run, ex) =
            outcome (
              extract_class-Extracted now.cache i lt size_max e (omega arith) (omega arith) room) in
          let (list, given, owns) = ex.output in
          let (u, v, published_run, moved) =
            outcome (publish-Moved i size_max now owns ex.cache ex.links) in
          let (all, none_left) = take_all size_max (lists i) (omega arith) in
          let less = left_in-room i size_max lt now.cache ex.cache none_left in
          let rest =
            flush_loop-Flushed left (i + 1) (wrap (published + list.count)) (omega arith)
              moved.holds (omega arith) (omega arith) in
          rw (on_heap, run)
            (rw given (
              rw published_run (
                weaken rest λ r' v' f.
                  flush-both left i published (wrap (published + list.count))
                    (left_in-OneFlushed lists shared i size_max (omega arith))
                    (omega (arith, owns.count, ap length all))
                    (count_from-update lists i (drop size_max (lists i)) left (i + 1) (omega arith))
                    moved.relinked moved.same f)))
    ]

-- The thread's descriptor after a flush: its cache is empty, and its mapping is the same.
pub record DescriptorFlushed (w : World) (d : Descriptor) (lists shared : ℕ → List Ptr)
    (r : Descriptor × ℕ) (v : World) : Type 0 where
  pub flushed : Flushed w lists shared class_count 0 0 (r.0.cache, r.1) v
  pub mapping_base : r.0.mapping_base ≡ d.mapping_base
  pub mapping_length : r.0.mapping_length ≡ d.mapping_length

-- For a descriptor whose cache holds the blocks of `lists`, with a total that fits a size_t, and shared
-- heads that hold those of `shared`, none in both: a flush empties all 16 classes of the cache, puts
-- each class's blocks, in order, in front of the shared ones of that class, and returns their number,
-- modulo 2 ^ 64; nothing but links, heads and the cache changes.
pub flush_descriptor-Flushed :
    {w : World} {lists shared : ℕ → List Ptr} (d : Descriptor)
    → Holds w d.cache lists shared
    → d.cache.total_slot_bytes ≤ size_max
    → Returns (DescriptorFlushed w d lists shared) (flush_descriptor d w)
unfolding flush_descriptor
flush_descriptor-Flushed d now room =
    let (r, v, run, f) =
      outcome (flush_loop-Flushed class_count 0 0 (omega arith) now room (omega arith)) in
    rw run (returns (record { flushed = f; mapping_base = refl; mapping_length = refl }))
