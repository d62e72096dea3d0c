-- ===== src/Samples/Caches.antt =====
-- The theorems on thread caches, on a cache with blocks in class 15 alone.
use hplf_malloc.Prelude.{
  ℕ, true, length, ◌<◌, ◌↔◌, ◌*◌, ◌≡◌, refl, inr, List, [], arith, update, sum_below,
}
use hplf_malloc.SizeClass.Fit.{capacity_at}
use hplf_malloc.Heap.{Ptr, null}
use hplf_malloc.Heap.Chain.{nil}
use hplf_malloc.Heap.Returns.{Returns}
use hplf_malloc.ThreadCache.{ThreadCache, refill, extract_class, extract_eviction}
use hplf_malloc.ThreadCache.Shape.{IsCache, slot_bytes}
use hplf_malloc.ThreadCache.Single.{counts-update}
use hplf_malloc.ThreadCache.Batch.{Extracted, extract_class-Extracted}
use hplf_malloc.ThreadCache.Refill.{IsWithin, Refilled, refill-Refilled}
use hplf_malloc.ThreadCache.Snapshot.{Told, cache_snapshot, cache_snapshot-Told}
use hplf_malloc.SizeClass.{class_count}
use hplf_malloc.ThreadCache.Evict.{Evicted, extract_eviction-Evicted}
use hplf_malloc.World.{World}
use hplf_malloc.Lifecycle.Publish.{Holds}
use hplf_malloc.Allocator.Cached.{evict_loop}
use hplf_malloc.Allocator.Cached.Eviction.{Settled, evict_loop-Settled}
use hplf_malloc.Samples.Layouts.{world}
use hplf_malloc.Samples.{memory, start, down, sample-IsFamily, sample_apart}
use hplf_malloc.Samples.Lists.{three, three-Owns}

abbrev pub cache : ℕ → ThreadCache
cache n = record {
  heads = update (λ j. null) 15 (start 0 n);
  counts = update (λ j. 0) 15 n;
  total_slot_bytes = n * 4096;
}

abbrev pub lists : ℕ → ℕ → List Ptr
lists n = update (λ j. []) 15 (down 0 n)

five-IsCache : IsCache memory (cache 5) (lists 5)
unfolding slot_bytes sum_below capacity_at
five-IsCache = record {
  family = sample-IsFamily 5;
  counts = counts-update {counts = λ j. 0} (λ j. []) 15 5 (down 0 5) (λ j. refl) refl;
  total = refl;
}

-- 17 blocks of 4096 bytes are more than 64 KiB.
full-IsCache : IsCache memory (cache 17) (lists 17)
unfolding slot_bytes sum_below capacity_at
full-IsCache = record {
  family = sample-IsFamily 17;
  counts = counts-update {counts = λ j. 0} (λ j. []) 15 17 (down 0 17) (λ j. refl) refl;
  total = refl;
}

five-IsWithin : IsWithin (cache 5)
five-IsWithin = record { blocks = λ i lt. ground arith; bytes = omega arith }

cache_snapshot-Told_example :
    Returns
      (λ r g.
        ((r.0 ≡ true) ↔ (
          ((i : ℕ) → i < class_count → (cache 5).counts i ≡ length (lists 5 i))
          × (20480 ≡ slot_bytes (lists 5))))
        × Told (cache 5) (lists 5) r
        × (g ≡ memory))
      (cache_snapshot 6 (cache 5) memory)
cache_snapshot-Told_example =
    cache_snapshot-Told 6 (sample-IsFamily 5) (λ i. ground arith)
      (omega (arith, five-IsCache.total))

extract_class-Extracted_example :
    Returns (Extracted memory (lists 5) 15 2) (extract_class (cache 5) 15 2 memory)
extract_class-Extracted_example =
    extract_class-Extracted five-IsCache 15 (omega arith) 2 refl (omega arith) (omega arith)
      (omega arith)

refill-Refilled_example :
    Returns
      (Refilled memory (cache 5) (lists 5) 15 (down 8 3))
      (refill (cache 5) 15 (capacity_at 15) three memory)
refill-Refilled_example =
    refill-Refilled five-IsCache 15 (omega arith) five-IsWithin three-Owns (sample_apart 3 5)
      (omega arith)

extract_eviction-Evicted_example :
    Returns (Evicted memory (cache 17) (lists 17)) (extract_eviction (cache 17) 3 memory)
extract_eviction-Evicted_example =
    extract_eviction-Evicted full-IsCache (omega arith) 3 (omega arith) (inr (omega arith))

-- Nothing is shared before.
abbrev pub alone : World
alone = record world { heap = memory }

pub alone-Holds : Holds alone (cache 17) (lists 17) (λ j. [])
alone-Holds = record {
  cache = full-IsCache;
  family = record { chains = λ i. nil refl; apart = λ i j ne a h. refl };
  apart = λ i j a h. refl;
}

evict_loop-Settled_example :
    Returns (Settled 3 (lists 17) (λ j. [])) (evict_loop 70000 3 (cache 17) alone)
evict_loop-Settled_example =
    evict_loop-Settled 70000 3 (omega arith) alone-Holds (omega arith) (omega arith)
