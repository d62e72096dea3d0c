-- ===== src/Allocator/Trim/Visit.antt =====
-- src/allocator.c: one round of the walk of hplf_trim_quiescent over the registry of slabs.
use hplf_malloc.Prelude.{
  ℕ, ◌≤◌, ◌<◌, ◌≡◌, ◌≢◌, inl, inr, Bool-cases, Option-cases, none, some, List, arith, ◌==◌, length,
}
use hplf_malloc.CheckedMath.{size_max}
use hplf_malloc.Heap.{Ptr, Slab}
use hplf_malloc.Heap.Returns.{Returns, returns, weaken}
use hplf_malloc.World.{Platform, World, on_heap}
use hplf_malloc.World.Access.{load_slab-there}
use hplf_malloc.Lifecycle.States.{Outside}
use hplf_malloc.Allocator.Trim.{Walk, next_of, visit_slab}
use hplf_malloc.Allocator.Trim.Owners.{belonging, slab_free_count_lem}
use hplf_malloc.Allocator.Trim.Release.{
  Visits, Restored, Released, remaining_lists, release_slab-Restored, release_slab-Released,
}

-- The three ways in which a round ends.
pub data Visited (p : Platform) (w : World) (walk : Walk) (lists : ℕ → List Ptr) (owner : Ptr → Ptr)
    (slab : Ptr) (header : Slab) : Walk → World → Type 0 where
  -- Some slot is in use: nothing changes, and the walk goes on behind the slab.
  in_use :
      length (belonging owner slab (lists header.class_index)) ≢ header.slot_count
      → Visited p w walk lists owner slab header (record walk { link = next_of slab }) w
  kept :
      {done : Walk} {v : World} (error : ℕ)
      → length (belonging owner slab (lists header.class_index)) ≡ header.slot_count
      → p.munmap w.calls header.mapping_base header.mapping_length ≡ some error
      → Restored w walk lists owner slab header.class_index error done v
      → Visited p w walk lists owner slab header done v
  released :
      {done : Walk} {v : World}
      → length (belonging owner slab (lists header.class_index)) ≡ header.slot_count
      → p.munmap w.calls header.mapping_base header.mapping_length ≡ none
      → Released w walk lists owner slab header done v
      → Visited p w walk lists owner slab header done v

-- At a registered slab with a mapping of some length, with free lists of disjoint chains, small blocks
-- in the slab's class, a fuel above that class's length, a number of free blocks of the slab that fits
-- a size_t, and no other free block in the slab's mapping, a round of the walk returns. If some slot of
-- the slab is not free, nothing changes and the walk goes on behind it. If all are and the unmap fails,
-- the class has the same blocks, the slab's own first, the registry and every header are as before,
-- and so is the total. If the unmap succeeds, exactly the slab's own blocks leave the free lists, the
-- link leads past the slab, and the total grows by the mapping's length, up to SIZE_MAX.
pub visit_slab-Visited :
    {w : World} {walk : Walk} {lists : ℕ → List Ptr} {owner : Ptr → Ptr} {slab : Ptr}
    {header : Slab} (p : Platform) (fuel : ℕ)
    → Visits w walk lists owner slab header
    → length (lists header.class_index) < fuel
    → length (belonging owner slab (lists header.class_index)) ≤ size_max
    → Outside header.mapping_base header.mapping_length
        (remaining_lists lists owner slab header.class_index)
    → Returns (Visited p w walk lists owner slab header) (visit_slab p fuel slab walk w)
unfolding visit_slab
visit_slab-Visited {w} {walk} {lists} {owner} {slab} {header} p fuel now enough fits outside =
    let loaded = load_slab-there w slab header now.live now.there in
    let own = length (belonging owner slab (lists header.class_index)) in
    let counted =
      slab_free_count_lem fuel slab (now.family.chains header.class_index) now.owners enough fits in
    elim (Bool-cases (own == header.slot_count)) [
      | inr some_used ↦ rw (loaded, on_heap, counted, some_used) (returns (in_use (ground arith)))
      | inl whole ↦
          let all : own ≡ header.slot_count = ground arith in
          elim (Option-cases (p.munmap w.calls header.mapping_base header.mapping_length)) [
            | inl ended ↦
                rw (loaded, on_heap, counted, whole)
                  (weaken (release_slab-Released now p fuel enough ended outside)
                    λ done v r. released all ended r)
            | inr (error, failed) ↦
                rw (loaded, on_heap, counted, whole)
                  (weaken (release_slab-Restored now p fuel error enough failed)
                    λ done v r. kept error all failed r)
          ]
    ]
