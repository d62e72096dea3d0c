-- ===== src/Samples/Trims.antt =====
-- The theorems on trimming: a slab of 15 slots, all free.
use hplf_malloc.Prelude.{
  ℕ, ◌≡◌, refl, sym, ap, option, true, Bool-cases, inl, inr, List, [], arith, ◌==◌, has, update,
}
use hplf_malloc.Heap.{Ptr, null, Block, small}
use hplf_malloc.Heap.Returns.{Returns}
use hplf_malloc.World.{World}
use hplf_malloc.Lifecycle.States.{Outside}
use hplf_malloc.Allocator.Trim.{Walk, registry, visit_slab}
use hplf_malloc.Allocator.Trim.Owners.{Owners}
use hplf_malloc.Allocator.Trim.Links.{at_registry}
use hplf_malloc.Allocator.Trim.Release.{Visits, remaining_lists}
use hplf_malloc.Allocator.Trim.Visit.{Visited, visit_slab-Visited}
use hplf_malloc.Samples.Layouts.{platform, world}
use hplf_malloc.Samples.{memory, start, down, sample_slab, sample-IsFamily}

abbrev lists : ℕ → List Ptr
lists = update (λ j. []) 15 (down 0 15)

abbrev quiescent : World
quiescent = record world { heap = memory; slabs = 7 }

abbrev walk : Walk
walk = record {
  link = registry;
  free_lists = update (λ j. null) 15 (start 0 15);
  released_total = 0;
}

all_of_7 : Owners memory (λ a. 7) (down 0 15)
all_of_7 a b i e = ap (λ o. option o (small 7) (λ (c : Block). c.owner)) (sym e)

visits : Visits quiescent walk lists (λ a. 7) 7 sample_slab
visits = record {
  family = sample-IsFamily 15;
  owners = all_of_7;
  live = omega arith;
  there = refl;
  link = at_registry refl;
  base = omega arith;
  size = omega arith;
}

none_left : Outside 1048576 65536 (remaining_lists lists (λ a. 7) 7 15)
none_left i a hit = elim (Bool-cases (15 == i)) [
  | inl here ↦ absurd (nothing (rw here at hit))
  | inr away ↦ absurd (nothing (rw away at hit))
]
  where
    nothing : has a [] ≡ true → ⊥
    nothing e = cc

visit_slab-Visited_example :
    Returns
      (Visited platform quiescent walk lists (λ a. 7) 7 sample_slab)
      (visit_slab platform 16 7 walk quiescent)
visit_slab-Visited_example =
    visit_slab-Visited platform 16 visits (omega arith) (omega arith) none_left
