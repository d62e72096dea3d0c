-- ===== src/Allocator/Baseline/Requests.antt =====
-- Whole small requests of the baseline build: hplf_malloc, and hplf_free of what it returned.
use hplf_malloc.Prelude.{
  ℕ, ◌+◌, ◌≤◌, ◌<◌, ◌≡◌, refl, sym, subst, ap, ap₂, ◌∙◌, true, false, Bool-cases, inl, inr, ◌⊎◌,
  List, ◌∷◌, some, arith, ◌==◌, ltb, get_or, update,
}
use mathlib.Core.Path.{fun_ext}
use hplf_malloc.SizeClass.{max_small_size, capacities, class_of}
use hplf_malloc.SizeClass.Fit.{capacity_at, IsFirstFit, IsFirstFit-mono, size_class_for-IsFirstFit}
use hplf_malloc.Heap.{Ptr, Heap, ◌>>=◌}
use hplf_malloc.Heap.Returns.{Returns, returns, outcome}
use hplf_malloc.World.{Platform, World}
use hplf_malloc.Allocator.{Variant, ptrdiff_max, malloc, free}
use hplf_malloc.Allocator.Baseline.{baseline}
use hplf_malloc.Allocator.Baseline.Pool.{IsPool}
use hplf_malloc.Allocator.Baseline.Small.{HandedOut, OnlyBlock, allocate_small-HandedOut}
use hplf_malloc.Allocator.Baseline.Free.{free-Freed}

-- The class of a small size is its first fit.
pub class_of-IsFirstFit :
    (n i c : ℕ)
    → 0 < n
    → n ≤ max_small_size
    → IsFirstFit n capacities i c
    → (class_of n ≡ some (i, capacity_at i)) × (c ≡ capacity_at i)
unfolding class_of capacity_at
class_of-IsFirstFit n i c pos small fit =
    let (j, d, found, in_table, same, fit') = size_class_for-IsFirstFit n 0 0 pos small in
    let one = IsFirstFit-mono (omega arith) fit fit' in
    let other = IsFirstFit-mono (omega arith) fit' fit in
    let same_class : j ≡ i = omega arith in
    let entry = ap (λ k. get_or capacities k 0) same_class in
    (rw found (ap₂ (λ s t. some (s, t)) same_class (sym fit'.entry ∙ entry)), sym fit.entry)

pub malloc-class :
    (p : Platform) (v : Variant) (n i c : ℕ)
    → 0 < n
    → n ≤ max_small_size
    → IsFirstFit n capacities i c
    → malloc p v n ≡ v.allocate_small n i (capacity_at i)
unfolding malloc
malloc-class p v n i c pos small fit =
    let some_size : (n == 0) ≡ false = ground arith in
    let allowed : ltb ptrdiff_max n ≡ false = ground arith in
    rw (some_size, allowed, (class_of-IsFirstFit n i c pos small fit).0)

-- What a small request returns that finds free blocks.
pub record Served (w : World) (lists : ℕ → List Ptr) (i n : ℕ) (x : Ptr) (xs : List Ptr) (r : Ptr)
    (v : World) : Type 0 where
  pub address : r ≡ x + 48
  pub out : HandedOut w.heap lists i n x xs v.heap v.free_lists
  pub same : v ≡ record w { heap = v.heap; free_lists = v.free_lists; calls = w.calls + 1 + 1 }

-- Putting the first block back gives the old list.
pushed_back :
    (lists : ℕ → List Ptr) (i x : ℕ) (xs : List Ptr)
    → lists i ≡ x ∷ xs
    → update (update lists i xs) i (x ∷ update lists i xs i) ≡ lists
pushed_back lists i x xs e = fun_ext (λ j. at_class j (Bool-cases (i == j)))
  where
    at_class :
        (j : ℕ)
        → ((i == j) ≡ true) ⊎ ((i == j) ≡ false)
        → update (update lists i xs) i (x ∷ update lists i xs i) j ≡ lists j
    at_class j (inl here) =
        let same : i ≡ j = ground arith in
        let same_class : update lists i xs i ≡ xs = ground arith in
        rw here (ap (λ t. x ∷ t) same_class ∙ sym e ∙ ap lists same)
    at_class j (inr away) = rw away refl

OnlyBlock-trans : (x : Ptr) {g h k : Heap} → OnlyBlock x h g → OnlyBlock x g k → OnlyBlock x h k
OnlyBlock-trans x a b = record {
  others = λ t ne. b.others t ne ∙ a.others t ne;
  slabs = b.slabs ∙ a.slabs;
  bytes = b.bytes ∙ a.bytes;
  maps = b.maps ∙ a.maps;
}

module _ (p : Platform) (w : World) {lists : ℕ → List Ptr} {x : Ptr} {xs : List Ptr} (n i c : ℕ)
    (pos : 0 < n) (small : n ≤ max_small_size) (fit : IsFirstFit n capacities i c)
    (pool : IsPool w.heap w.free_lists lists) (e : lists i ≡ x ∷ xs)
    (locks : p.mutex_lock w.calls ≡ 0) (unlocks : p.mutex_unlock (w.calls + 1) ≡ 0) where
  -- For a size from 1 to 4096 whose class has free blocks, and a mutex that works, `hplf_malloc` of
  -- the baseline build returns the payload of the first free block of the smallest class that fits.
  -- The block then is in no free list, its link is null and its requested size the size asked for;
  -- the pool's invariant holds for the other free blocks, in order, and nothing else changes.
  pub malloc-Served : Returns (Served w lists i n x xs) (malloc p (baseline p) n w)
  malloc-Served =
      let (r, v, run, (address, out, same)) =
        outcome (allocate_small-HandedOut {w = w} pool i e n p locks unlocks) in
      rw (malloc-class p (baseline p) n i c pos small fit, run)
        (returns (record { address = address; out = out; same = same }))

  -- For a size from 1 to 4096 whose class has free blocks, and a mutex that works and can be locked
  -- once more, `hplf_malloc` of the baseline build and then `hplf_free` of what it returned give back
  -- the pool as it was, every free list in its old order; only the block's own prefix may have changed,
  -- no header, byte or mapping did, and errno is what it was.
  pub malloc-free_restores :
      p.mutex_lock (w.calls + 1 + 1) ≡ 0
      → Returns
          (λ _ v.
            IsPool v.heap v.free_lists lists × OnlyBlock x w.heap v.heap × (v.errno ≡ w.errno))
          ((malloc p (baseline p) n >>= free p (baseline p)) w)
  malloc-free_restores again =
      let (r, v, run, served) = outcome malloc-Served in
      let locks_again : p.mutex_lock v.calls ≡ 0 =
        ap (λ (t : World). p.mutex_lock t.calls) served.same ∙ again in
      let (u, g, run', freed) =
        outcome
          (free-Freed v served.out.pool served.out.block served.out.free_no_more p locks_again) in
      rw (run, served.address, run')
        (returns (
          subst (λ l. IsPool g.heap g.free_lists l) (pushed_back lists i x xs e) freed.pool,
          OnlyBlock-trans x served.out.only freed.only,
          ap (λ (t : World). t.errno) freed.same ∙ ap (λ (t : World). t.errno) served.same,
        ))
