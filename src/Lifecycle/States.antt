-- ===== src/Lifecycle/States.antt =====
-- src/thread_cache_lifecycle.c: a thread's way from its first request to its end.
use hplf_malloc.Prelude.{
  ℕ, ◌≤◌, ◌≡◌, subst, ap, ◌∙◌, true, false, Bool-cases, Option-cases, inl, inr, List, ◌++◌, none,
  some, arith, has, has-append, if◌then◌else◌,
}
use hplf_malloc.CheckedMath.{size_max}
use hplf_malloc.SizeClass.{class_count}
use hplf_malloc.Heap.{Ptr, Heap}
use hplf_malloc.Heap.Chain.{frame}
use hplf_malloc.Heap.Family.{IsFamily}
use hplf_malloc.Heap.Returns.{Returns, returns, outcome}
use hplf_malloc.World.{Platform, uncached, Descriptor, World, in_range, unmap_memory}
use hplf_malloc.Lifecycle.{release_descriptor, destroy_descriptor}
use hplf_malloc.Lifecycle.Publish.{Holds}
use hplf_malloc.Lifecycle.Flush.{among, flush_descriptor-Flushed}

-- No block of the lists lies in a range of addresses.
abbrev pub Outside : (base length : ℕ) → (ℕ → List Ptr) → Type 0
Outside base length lists = (i a : ℕ) → has a (lists i) ≡ true → in_range base length a ≡ false

pub IsFamily-unmap :
    {h : Heap} {heads : ℕ → Ptr} {lists : ℕ → List Ptr} (base length : ℕ)
    → IsFamily h heads lists
    → Outside base length lists
    → IsFamily (unmap_memory base length h) heads lists
IsFamily-unmap base length fam outside = record {
  chains = λ i. frame (fam.chains i) λ a hit. rw (outside i a hit);
  apart = fam.apart;
}

-- The thread has ended: all its blocks are shared.
pub record Destroyed (lists shared : ℕ → List Ptr) (v : World) : Type 0 where
  pub shared_blocks : ℕ → List Ptr
  pub family : IsFamily v.heap v.heads shared_blocks
  pub gathered :
      (j : ℕ) → shared_blocks j ≡ (if among 0 class_count j then lists j ++ shared j else shared j)
  pub no_descriptor : v.current_descriptor ≡ none
  pub state : v.current_state ≡ uncached

gathered-Outside :
    (base length : ℕ) (lists shared blocks : ℕ → List Ptr)
    → Outside base length lists
    → Outside base length shared
    → ((j : ℕ) → blocks j ≡ (if among 0 class_count j then lists j ++ shared j else shared j))
    → Outside base length blocks
gathered-Outside base length lists shared blocks outside away gathered j a hit =
    elim (Bool-cases (among 0 class_count j)) [
      | inl inside ↦
          let all : blocks j ≡ lists j ++ shared j = gathered j ∙ rw inside in
          elim (Bool-cases (has a (lists j))) [
            | inl mine ↦ outside j a mine
            | inr other ↦
                let there : has a (lists j ++ shared j) ≡ true =
                  subst (λ l. has a l ≡ true) all hit in
                away j a (ground (arith, has-append a (lists j) (shared j)))
          ]
      | inr beyond ↦
          let all : blocks j ≡ shared j = gathered j ∙ rw beyond in
          away j a (subst (λ l. has a l ≡ true) all hit)
    ]

-- For a thread whose descriptor lies apart from all blocks, whose cache holds the blocks of `lists`,
-- with a total that fits a size_t, and for shared heads that hold those of `shared`, none in both:
-- its destructor returns, whatever `munmap` answers. Every cached block of the 16 classes is then in
-- front of its class's shared blocks, in order, the chains survive the end of the descriptor's
-- mapping, and the thread is uncached without a descriptor.
pub destroy_descriptor-Destroyed :
    {w : World} {lists shared : ℕ → List Ptr} (p : Platform) (d : Descriptor)
    → Holds w d.cache lists shared
    → d.cache.total_slot_bytes ≤ size_max
    → Outside d.mapping_base d.mapping_length lists
    → Outside d.mapping_base d.mapping_length shared
    → Returns (λ _ v. Destroyed lists shared v) (destroy_descriptor p (some d) w)
unfolding destroy_descriptor release_descriptor
destroy_descriptor-Destroyed {w} {lists} {shared} p d now room outside away =
    let ended : World = record w { current_descriptor = none; current_state = uncached } in
    let there : Holds ended d.cache lists shared = record {
      cache = now.cache;
      family = now.family;
      apart = now.apart;
    } in
    let (r, v, run, f) = outcome (flush_descriptor-Flushed d there room) in
    let g = f.flushed in
    let apart =
      gathered-Outside d.mapping_base d.mapping_length lists shared g.shared_blocks outside away
        g.gathered in
    let gone : v.current_descriptor ≡ none = ap (λ (x : World). x.current_descriptor) g.same in
    let ended_state : v.current_state ≡ uncached = ap (λ (x : World). x.current_state) g.same in
    elim (Option-cases (p.munmap v.calls d.mapping_base d.mapping_length)) [
      | inl done ↦
          rw (run, f.mapping_base, f.mapping_length, done)
            (returns (record {
              shared_blocks = g.shared_blocks;
              family = IsFamily-unmap d.mapping_base d.mapping_length g.holds.family apart;
              gathered = g.gathered;
              no_descriptor = gone;
              state = ended_state;
            }))
      | inr (e, failed) ↦
          rw (run, f.mapping_base, f.mapping_length, failed)
            (returns (record {
              shared_blocks = g.shared_blocks;
              family = g.holds.family;
              gathered = g.gathered;
              no_descriptor = gone;
              state = ended_state;
            }))
    ]
