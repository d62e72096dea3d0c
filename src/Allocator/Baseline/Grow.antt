-- ===== src/Allocator/Baseline/Grow.antt =====
-- A small request of the baseline build whose class is empty: a new slab joins the registry, and all
-- its slots the class.
use hplf_malloc.Prelude.{
  ℕ, zero, suc, ◌+◌, ◌≤◌, ◌<◌, ◌≡◌, ◌≢◌, refl, sym, subst, ap, ap₂, ◌∙◌, true, false, Bool-cases,
  inl, inr, none, some, List, [], arith, ◌==◌, has, update,
}
use hplf_malloc.CheckedMath.{size_max}
use hplf_malloc.SizeClass.Fit.{capacity_at}
use hplf_malloc.Heap.{Ptr, null, Slab, Heap, ok, put_slab}
use hplf_malloc.Heap.Chain.{Chain, Disjoint, frame, nil-eq, OnlyLinks-refl}
use hplf_malloc.Heap.Family.{IsFamily, IsFamily-update, Disjoint-symm}
use hplf_malloc.Heap.Returns.{Returns, returns, outcome}
use hplf_malloc.Layout.{SlabLayout}
use hplf_malloc.Layout.Slots.{IsSlabLayout, slot_offset, slot_bounds}
use hplf_malloc.World.{Platform, World, in_range, map_memory}
use hplf_malloc.World.Access.{load_slab-there, store_slab-there}
use hplf_malloc.SlabCreate.{free_block}
use hplf_malloc.SlabCreate.Fresh.{Built, header, slot_list}
use hplf_malloc.SlabCreate.Mapped.{GrantsSlab, slab_create-Created}
use hplf_malloc.Lifecycle.States.{Outside}
use hplf_malloc.Allocator.Baseline.{register_slab, find_block}
use hplf_malloc.Allocator.Baseline.Pool.{IsSmall, IsPool}

module _ {capacity page : ℕ} {l : SlabLayout} (is : IsSlabLayout capacity page l) (base : Ptr) where
  -- Every slot lies in the mapping, with its prefix.
  slots_inside :
      (n a : ℕ)
      → n ≤ l.slot_count
      → has a (slot_list base l n) ≡ true
      → (base < a) × (a + 48 ≤ base + l.mapping_length)
  slots_inside zero a le i = cc
  slots_inside (suc n) a le i = elim (Bool-cases (a == base + slot_offset l n)) [
    | inl here ↦
        let (aligned, behind, inside) = slot_bounds is n (omega arith) in
        let same : a ≡ base + slot_offset l n = ground arith in (omega arith, omega arith)
    | inr away ↦ slots_inside n a (omega arith) (rw away at i)
  ]

  slots_in_range :
      (a : Ptr)
      → has a (slot_list base l l.slot_count) ≡ true
      → in_range base l.mapping_length a ≡ true
  slots_in_range a i =
      let (above, below) = slots_inside l.slot_count a (omega arith) i in ground arith

  apart_of :
      (lists : ℕ → List Ptr)
      → Outside base l.mapping_length lists
      → (j : ℕ) → Disjoint (lists j) (slot_list base l l.slot_count)
  apart_of lists outside j a i = elim (Bool-cases (has a (slot_list base l l.slot_count))) [
    | inl new ↦ absurd (clash (slots_in_range a new) (outside j a i))
    | inr old ↦ old
  ]
    where
      clash : in_range base l.mapping_length a ≡ true → in_range base l.mapping_length a ≡ false → ⊥
      clash t f = cc

-- The pool with a new slab for class `i`, and the registry with that slab in front.
pub record Grown (w : World) (lists : ℕ → List Ptr) (i capacity base : ℕ) (l : SlabLayout)
    (v : World) : Type 0 where
  pub pool : IsPool v.heap v.free_lists (update lists i (slot_list base l l.slot_count))
  pub registered : v.heap.slab base ≡ some (record (header base l capacity i) { next = w.slabs })
  pub front : v.slabs ≡ base
  pub other_slabs : (a : Ptr) → (base == a) ≡ false → v.heap.slab a ≡ w.heap.slab a
  pub blocks :
      (a : Ptr) → has a (slot_list base l l.slot_count) ≡ false → v.heap.block a ≡ w.heap.block a
  pub errno : v.errno ≡ w.errno

module _ (w : World) {lists : ℕ → List Ptr} (i : ℕ) {page : ℕ} {l : SlabLayout} (base : Ptr)
    (pool : IsPool w.heap w.free_lists lists) (is : IsSlabLayout (capacity_at i) page l)
    (live : base ≢ null) (outside : Outside base l.mapping_length lists)
    (fresh : w.heap.slab base ≡ none) (fits : base + l.mapping_length ≤ size_max) {free : Ptr}
    {g : Heap}
    (built : Built base l
      (capacity_at i)
      l.slot_count
      (put_slab (map_memory base l.mapping_length w.heap) base (header base l (capacity_at i) i))
      free
      g) where
  abbrev linked_header : Slab
  linked_header = record (header base l (capacity_at i) i) { next = w.slabs }

  kept_block : (j a : ℕ) → has a (lists j) ≡ true → g.block a ≡ w.heap.block a
  kept_block j a hit = built.outside a (apart_of is base lists outside j a hit)

  new-IsSmall :
      (a : Ptr)
      → has a (slot_list base l l.slot_count) ≡ true
      → IsSmall (put_slab g base linked_header) i a
  new-IsSmall a hit =
      let (q, e) = built.blocks a hit in
      let (above, below) = slots_inside is base l.slot_count a (omega arith) hit in
      record {
        block = free_block base (capacity_at i) q;
        at = e;
        kind = refl;
        capacity = refl;
        slab = base;
        owner = refl;
        live = live;
        header = linked_header;
        there = ground arith;
        class_index = refl;
        some_address = omega arith;
        room = omega arith;
      }

  -- No older header was in the new mapping.
  other_header : (s : Ptr) {known : Slab} → w.heap.slab s ≡ some known → (base == s) ≡ false
  other_header s there = elim (Bool-cases (base == s)) [
    | inl here ↦
        let same : base ≡ s = ground arith in
        absurd (clash (sym fresh ∙ ap w.heap.slab same ∙ there))
    | inr away ↦ away
  ]
    where
      clash : {known : Slab} → none ≡ some known → ⊥
      clash e = cc

  old-IsSmall : (j a : ℕ) → has a (lists j) ≡ true → IsSmall (put_slab g base linked_header) j a
  old-IsSmall j a hit =
      let s = pool.members j a hit in
      let other : (base == s.slab) ≡ false = other_header s.slab s.there in
      record {
        block = s.block;
        at = kept_block j a hit ∙ s.at;
        kind = s.kind;
        capacity = s.capacity;
        slab = s.slab;
        owner = s.owner;
        live = s.live;
        header = s.header;
        there = rw other (ap (λ f. f s.slab) built.slabs ∙ rw other s.there);
        class_index = s.class_index;
        some_address = s.some_address;
        room = s.room;
      }

  kept-IsFamily : IsFamily (put_slab g base linked_header) w.free_lists lists
  kept-IsFamily = record {
    chains = λ j. frame (pool.family.chains j) (λ a hit. kept_block j a hit);
    apart = pool.family.apart;
  }

  grown-IsPool :
      IsPool
        (put_slab g base linked_header)
        (update w.free_lists i free)
        (update lists i (slot_list base l l.slot_count))
  grown-IsPool = record {
    family =
        IsFamily-update {xs = []} i kept-IsFamily (OnlyLinks-refl [] _) (λ j ne a o. refl)
          (frame built.chain (λ a hit. refl))
          (λ j ne.
            Disjoint-symm (lists j) (slot_list base l l.slot_count)
              (apart_of is base lists outside j));
    members = λ j a hit. elim (Bool-cases (i == j)) [
      | inl here ↦
          let same : i ≡ j = ground arith in
          subst (λ k. IsSmall (put_slab g base linked_header) k a) same
            (new-IsSmall a (rw here at hit))
      | inr away ↦ old-IsSmall j a (rw away at hit)
    ];
  }

-- For a class without free blocks, where the platform answers a page size twice and grants the length
-- of the class's slab layout at an address, where no header and no free block was in that range before
-- and the range fits a size_t: the search for a block of the baseline build returns the head of the
-- class, which then consists of all slots of a new slab. The pool's invariant holds with these, the
-- slab is in front of the registry, no other header or block changes, and errno is untouched.
pub find_block-Grown :
    (p : Platform) (w : World) {lists : ℕ → List Ptr} (i : ℕ) {page : ℕ} {l : SlabLayout}
    (base : Ptr)
    → IsPool w.heap w.free_lists lists
    → lists i ≡ []
    → GrantsSlab p w (capacity_at i) page l base
    → Outside base l.mapping_length lists
    → w.heap.slab base ≡ none
    → base + l.mapping_length ≤ size_max
    → Returns
        (λ r v. (v.free_lists i ≡ r) × Grown w lists i (capacity_at i) base l v)
        (find_block p i (capacity_at i) w)
unfolding find_block register_slab
find_block-Grown p w {lists} i {l} base pool empty grants outside fresh fits =
    let (found, w', created, (free, same, made)) =
      outcome (slab_create-Created p w i base grants) in
    let head : w.free_lists i ≡ null =
      nil-eq (subst (λ t. Chain w.heap null (w.free_lists i) t) empty (pool.family.chains i)) in
    let no_block : (w.free_lists i == null) ≡ true = ground (arith, head) in
    let old : Slab = header base l (capacity_at i) i in
    let here : w'.heap.slab base ≡ some old = ap (λ f. f base) made.built.slabs ∙ ground arith in
    let made_of_w : World = record w { heap = w'.heap; calls = w.calls + 1 + 1 + 1 } in
    let run = created ∙ ap₂ (λ o (t : World). ok o t) same made.same in
    let loaded = load_slab-there made_of_w base old grants.live here in
    let linked : Slab = record old { next = w.slabs } in
    let stored = store_slab-there made_of_w base old linked grants.live here in
    rw (no_block, run, loaded, stored)
      (returns (
        ground arith,
        record {
          pool = grown-IsPool w i base pool grants.layout grants.live outside fresh fits made.built;
          registered = ground arith;
          front = refl;
          other_slabs = λ a off. rw off (ap (λ f. f a) made.built.slabs ∙ rw off refl);
          blocks = made.built.outside;
          errno = refl;
        },
      ))
