-- ===== src/Samples/Threads.antt =====
-- The theorems on a thread's way, for a thread that has cached 17 blocks.
use hplf_malloc.Prelude.{
  ℕ, zero, suc, ◌*◌, ◌≤◌, ◌≡◌, ◌≢◌, true, Bool-cases, inl, inr, [], some, arith, ◌==◌, has,
}
use hplf_malloc.Heap.Returns.{Returns}
use hplf_malloc.World.{Descriptor, uninitialized}
use hplf_malloc.Lifecycle.{flush_descriptor, destroy_descriptor, cache_acquire}
use hplf_malloc.Lifecycle.Flush.{DescriptorFlushed, flush_descriptor-Flushed}
use hplf_malloc.Lifecycle.States.{Outside, Destroyed, destroy_descriptor-Destroyed}
use hplf_malloc.Lifecycle.Acquire.{Acquired, cache_acquire-Acquired}
use hplf_malloc.Samples.{down}
use hplf_malloc.Samples.Caches.{cache, lists, alone, alone-Holds}
use hplf_malloc.Samples.Layouts.{platform, world}

abbrev descriptor : Descriptor
descriptor = record { cache = cache 17; mapping_base = 1048576; mapping_length = 4096 }

pub down_le : (n a : ℕ) → has a (down 0 n) ≡ true → a ≤ 16 * n
down_le zero a hit = cc
down_le (suc n) a hit = ground (arith, down_le n a)

blocks-Outside : Outside 1048576 4096 (lists 17)
blocks-Outside i a hit = elim (Bool-cases (15 == i)) [
  | inl here ↦ ground (arith, down_le 17 a (rw here at hit))
  | inr away ↦ absurd (nothing (rw away at hit))
]
  where
    nothing : has a [] ≡ true → ⊥
    nothing e = cc

flush_descriptor-Flushed_example :
    Returns
      (DescriptorFlushed alone descriptor (lists 17) (λ j. []))
      (flush_descriptor descriptor alone)
flush_descriptor-Flushed_example = flush_descriptor-Flushed descriptor alone-Holds (omega arith)

destroy_descriptor-Destroyed_example :
    Returns
      (λ _ v. Destroyed (lists 17) (λ j. []) v)
      (destroy_descriptor platform (some descriptor) alone)
destroy_descriptor-Destroyed_example =
    destroy_descriptor-Destroyed platform descriptor alone-Holds (omega arith) blocks-Outside
      (λ i a hit. cc)

cache_acquire-Acquired_example :
    Returns
      (λ r v. Acquired r v × (world.current_state ≢ uninitialized → v ≡ world))
      (cache_acquire platform world)
cache_acquire-Acquired_example = cache_acquire-Acquired platform world
