-- ===== src/Lifecycle/Publish.antt =====
-- src/thread_cache_lifecycle.c and src/allocator.c: blocks of a thread's cache are published on the
-- shared heads.
use hplf_malloc.Prelude.{
  ℕ, zero, suc, ◌≡◌, refl, sym, subst, ◌∙◌, Bool-cases, inl, inr, List, [], ◌∷◌, ◌++◌, arith, ◌==◌,
  ◌||◌, has, has-append, take, drop, update, some,
}
use hplf_malloc.Heap.{Ptr, Heap, Block}
use hplf_malloc.Heap.Chain.{Disjoint, OnlyLinks, split-Disjoint}
use hplf_malloc.Heap.Family.{
  IsFamily, IsFamily-links, Disjoint-symm, Disjoint-append, Disjoint-take, Disjoint-drop,
}
use hplf_malloc.Heap.Returns.{Returns, returns, outcome}
use hplf_malloc.TransferList.{TransferList}
use hplf_malloc.TransferList.Prefix.{Owns}
use hplf_malloc.TransferMutex.Refines.{publish-Published}
use hplf_malloc.ThreadCache.{ThreadCache}
use hplf_malloc.ThreadCache.Shape.{IsCache}
use hplf_malloc.World.{World, on_heap}
use hplf_malloc.Lifecycle.{transfer_publish}

has-parts : (n : ℕ) (a : Ptr) (xs : List Ptr) → (has a (drop n xs) || has a (take n xs)) ≡ has a xs
has-parts zero a xs = ground arith
has-parts (suc n) a [] = refl
has-parts (suc n) a (x ∷ xs) = ground (arith, has-parts n a xs)

-- The cache `c` holds the blocks `lists` and the shared heads hold the blocks `shared`, by class, and
-- no block is in both.
pub record Holds (w : World) (c : ThreadCache) (lists shared : ℕ → List Ptr) : Type 0 where
  pub cache : IsCache w.heap c lists
  pub family : IsFamily w.heap w.heads shared
  pub apart : (i j : ℕ) → Disjoint (lists i) (shared j)

-- The same blocks, class by class, in other places.
abbrev pub Kept : (lists shared lists' shared' : ℕ → List Ptr) → Type 0
Kept lists shared lists' shared' =
    (a : Ptr) (j : ℕ)
    → (has a (lists' j) || has a (shared' j)) ≡ (has a (lists j) || has a (shared j))

-- Blocks that leave the cache for the shared heads: the first `n` of class `k`.
abbrev pub left_in : (lists : ℕ → List Ptr) → (k n : ℕ) → ℕ → List Ptr
left_in lists k n = update lists k (drop n (lists k))

abbrev pub shared_with : (lists shared : ℕ → List Ptr) → (k n : ℕ) → ℕ → List Ptr
shared_with lists shared k n = update shared k (take n (lists k) ++ shared k)

left_in-Disjoint :
    (lists : ℕ → List Ptr) (k n i : ℕ) (ys : List Ptr)
    → Disjoint (lists i) ys
    → Disjoint (left_in lists k n i) ys
left_in-Disjoint lists k n i ys d = elim (Bool-cases (k == i)) [
  | inl here ↦
      let same : k ≡ i = ground arith in
      rw here (Disjoint-drop n (lists k) ys (subst (λ t. Disjoint (lists t) ys) (sym same) d))
  | inr away ↦ rw away d
]

pub left_in-clear :
    {h : Heap} {heads : ℕ → Ptr} (lists : ℕ → List Ptr) (k n : ℕ)
    → IsFamily h heads lists
    → (j : ℕ) → Disjoint (left_in lists k n j) (take n (lists k))
left_in-clear lists k n fam j = elim (Bool-cases (k == j)) [
  | inl here ↦
      rw here
        (Disjoint-symm (take n (lists k)) (drop n (lists k)) (split-Disjoint n (fam.chains k)))
  | inr away ↦ rw away (
      Disjoint-symm (take n (lists k)) (lists j)
        (Disjoint-take n (lists k) (lists j) (fam.apart k j (ground arith))))
]

moved-Disjoint :
    {h : Heap} {heads : ℕ → Ptr} (lists shared : ℕ → List Ptr) (k n : ℕ)
    → IsFamily h heads lists
    → ((i j : ℕ) → Disjoint (lists i) (shared j))
    → (i j : ℕ) → Disjoint (left_in lists k n i) (shared_with lists shared k n j)
moved-Disjoint lists shared k n fam apart i j = elim (Bool-cases (k == j)) [
  | inl here ↦
      let rest = left_in lists k n i in
      rw here (
        Disjoint-symm (take n (lists k) ++ shared k) rest (
          Disjoint-append (take n (lists k)) (shared k) rest
            (Disjoint-symm rest (take n (lists k)) (left_in-clear lists k n fam i))
            (Disjoint-symm rest (shared k) (left_in-Disjoint lists k n i (shared k) (apart i k)))))
  | inr away ↦ rw away (left_in-Disjoint lists k n i (shared j) (apart i j))
]

pub moved-Kept :
    (lists shared : ℕ → List Ptr) (k n : ℕ)
    → Kept lists shared (left_in lists k n) (shared_with lists shared k n)
moved-Kept lists shared k n a j = elim (Bool-cases (k == j)) [
  | inl here ↦
      let same : k ≡ j = ground arith in
      subst
        (λ t.
          (has a (left_in lists k n t) || has a (shared_with lists shared k n t))
          ≡ (has a (lists t) || has a (shared t)))
        same (ground (arith, has-append a (take n (lists k)) (shared k), has-parts n a (lists k)))
  | inr away ↦ rw away refl
]

-- `g` has the objects and bytes of `h`, but for links.
pub record Relinked (h g : Heap) : Type 0 where
  pub blocks :
      (a : Ptr) (b : Block)
      → h.block a ≡ some b
      → (q : Ptr) × (g.block a ≡ some (record b { next_free = q }))
  pub slabs : g.slab ≡ h.slab
  pub bytes : g.byte ≡ h.byte
  pub maps : g.mappings ≡ h.mappings

pub Relinked-refl : (h : Heap) → Relinked h h
Relinked-refl h = record {
  blocks = λ a b e. (b.next_free, e);
  slabs = refl;
  bytes = refl;
  maps = refl;
}

pub Relinked-trans : {h g k : Heap} → Relinked h g → Relinked g k → Relinked h k
Relinked-trans l m = record {
  blocks = λ a b e.
      let (q, f) = l.blocks a b e in
      let (r, last) = m.blocks a (record b { next_free = q }) f in (r, last);
  slabs = m.slabs ∙ l.slabs;
  bytes = m.bytes ∙ l.bytes;
  maps = m.maps ∙ l.maps;
}

OnlyLinks-Relinked : {xs : List Ptr} {h g : Heap} → OnlyLinks xs h g → Relinked h g
OnlyLinks-Relinked l = record { blocks = l.inside; slabs = l.slabs; bytes = l.bytes; maps = l.maps }

-- The world after the first `n` blocks of class `k` were published: heap and heads alone differ.
pub record Moved (w : World) (d : ThreadCache) (lists shared : ℕ → List Ptr) (k n : ℕ) (v : World)
    : Type 0 where
  pub holds : Holds v d (left_in lists k n) (shared_with lists shared k n)
  pub relinked : Relinked w.heap v.heap
  pub same : v ≡ record w { heap = v.heap; heads = v.heads }

pub publish-Moved :
    {w : World} {c d : ThreadCache} {lists shared : ℕ → List Ptr} {g : Heap} {list : TransferList}
    (k n : ℕ)
    → Holds w c lists shared
    → Owns g list (take n (lists k))
    → IsCache g d (left_in lists k n)
    → OnlyLinks (take n (lists k)) w.heap g
    → Returns
        (λ _ v. Moved w d lists shared k n v)
        (transfer_publish k list (record w { heap = g }))
unfolding transfer_publish
publish-Moved {w} {c} {d} {lists} {shared} {g} {list} k n now owns cache links =
    let xs = take n (lists k) in
    let clear = λ (j : ℕ). Disjoint-take n (lists k) (shared j) (now.apart k j) in
    let fam = IsFamily-links now.family links (λ j. Disjoint-symm xs (shared j) (clear j)) in
    let (r, h, run, done) = outcome (publish-Published k fam owns clear) in
    rw (on_heap, run)
      (returns (record {
        holds = record {
          cache = record {
            family =
                IsFamily-links cache.family done.links (left_in-clear lists k n now.cache.family);
            counts = cache.counts;
            total = cache.total;
          };
          family = done.family;
          apart = moved-Disjoint lists shared k n now.cache.family now.apart;
        };
        relinked = Relinked-trans (OnlyLinks-Relinked links) (OnlyLinks-Relinked done.links);
        same = refl;
      }))
