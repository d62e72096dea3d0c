-- ===== src/SlabCreate/Fresh.antt =====
-- What a new slab looks like: a chain of all its slots, last slot first, each free and owned by the
-- slab, and nothing else written.
use native.Mathlib.Numerals.{add-one}
use hplf_malloc.Prelude.{
  ℕ, zero, suc, ◌+◌, ◌*◌, ◌≤◌, ◌<◌, ◌≡◌, ◌≢◌, refl, sym, subst, ◌∙◌, true, false, some, List, [],
  ◌∷◌, arith, ◌==◌, Bool-cases, inl, inr, has,
}
use hplf_malloc.CheckedMath.{size_max, wrap}
use hplf_malloc.Heap.{
  Ptr, null, Block, Slab, Heap, ok, put_block, put_slab, within, init_block, init_slab,
  sizeof_block, sizeof_slab,
}
use hplf_malloc.Heap.Chain.{Chain, nil, cons, frame-put}
use hplf_malloc.Heap.Returns.{Returns, returns, outcome}
use hplf_malloc.Layout.{SlabLayout}
use hplf_malloc.Layout.Slots.{IsSlabLayout, slot_offset, slot_bounds, slots_apart}
use hplf_malloc.SlabCreate.{free_block, slot_loop, slab_fill}

-- The addresses of the first `n` slots, last first.
abbrev pub slot_list : Ptr → SlabLayout → ℕ → List Ptr
slot_list base l zero = []
slot_list base l (suc n) = (base + slot_offset l n) ∷ slot_list base l n

-- The first `n` slots of a slab have been made in `h`, and `free` leads through them.
pub record Built (base : Ptr) (l : SlabLayout) (capacity n : ℕ) (h : Heap) (free : Ptr) (g : Heap)
    : Type 0 where
  pub chain : Chain g null free (slot_list base l n)
  pub blocks :
      (a : Ptr)
      → has a (slot_list base l n) ≡ true
      → (q : Ptr) × (g.block a ≡ some (free_block base capacity q))
  pub outside : (a : Ptr) → has a (slot_list base l n) ≡ false → g.block a ≡ h.block a
  pub slabs : g.slab ≡ h.slab
  pub bytes : g.byte ≡ h.byte
  pub maps : g.mappings ≡ h.mappings

above_slots :
    (base : Ptr) (l : SlabLayout) (n a : ℕ)
    → ((i : ℕ) → i < n → base + slot_offset l i < a)
    → has a (slot_list base l n) ≡ false
above_slots base l zero a h = refl
above_slots base l (suc n) a h =
    ground (arith, h n (omega arith), above_slots base l n a (λ i lt. h i (omega arith)))

module _ {capacity page : ℕ} {l : SlabLayout} (is : IsSlabLayout capacity page l) (base : Ptr)
    (live : base ≢ null) (fits : l.mapping_length ≤ size_max) (h : Heap) {ms : List (Ptr × ℕ)}
    (mapped : h.mappings ≡ (base, l.mapping_length) ∷ ms) where
  slot_new : (n : ℕ) → has (base + slot_offset l n) (slot_list base l n) ≡ false
  slot_new n =
      above_slots base l n (base + slot_offset l n)
        λ i lt. omega (arith, slots_apart is i n lt, is.prefix)

  Built-step :
      {g : Heap} {free : Ptr} (n : ℕ)
      → Built base l capacity n h free g
      → Built base l capacity
          (suc n)
          h
          (base + slot_offset l n)
          (put_block g (base + slot_offset l n) (free_block base capacity free))
  Built-step {g} {free} n b = record {
    chain =
        cons {b = free_block base capacity free} refl (slot_new n)
          (record { ne_null = omega arith; holds = ground arith })
          (frame-put _ _ b.chain (slot_new n));
    blocks = λ a i. elim (Bool-cases (base + slot_offset l n == a)) [
      | inl here ↦ (free, rw here)
      | inr away ↦ let (q, e) = b.blocks a (ground arith) in (q, rw away e)
    ];
    outside = λ a o. ground (arith, b.outside a);
    slabs = b.slabs;
    bytes = b.bytes;
    maps = b.maps;
  }

  init_slot-ok :
      (g : Heap) (n : ℕ) (b : Block)
      → n < l.slot_count
      → g.mappings ≡ h.mappings
      → init_block (base + slot_offset l n) b g ≡ ok tt (put_block g (base + slot_offset l n) b)
  unfolding init_block
  init_slot-ok g n b lt same =
      let (aligned, behind, inside) = slot_bounds is n lt in
      let known : within (base + slot_offset l n) sizeof_block ((base, l.mapping_length) ∷ ms)
          ≡ true =
        ground (arith, is.prefix) in
      rw (
        subst (λ t. within (base + slot_offset l n) sizeof_block t ≡ true) (sym (same ∙ mapped))
          known)

  slot_loop-Built :
      (left index : ℕ) (g : Heap) (free : Ptr)
      → index + left ≡ l.slot_count
      → Built base l capacity index h free g
      → Returns (Built base l capacity l.slot_count h) (slot_loop base l capacity left index free g)
  unfolding slot_loop
  slot_loop-Built zero index g free all b =
      returns (subst (λ t. Built base l capacity t h free g) (omega arith) b)
  slot_loop-Built (suc left) index g free all b =
      let (aligned, behind, inside) = slot_bounds is index (omega arith) in
      let offset : wrap (l.first_slot_offset + index * l.slot_stride) ≡ slot_offset l index =
        omega arith in
      let at = base + slot_offset l index in
      let g' = put_block g at (free_block base capacity free) in
      let next : Built base l capacity (index + 1) h at g' =
        subst (λ t. Built base l capacity t h at g') (sym (add-one index)) (Built-step index b) in
      rw (offset, init_slot-ok g index (free_block base capacity free) (omega arith) b.maps)
        (slot_loop-Built left (index + 1) g' at (omega arith) next)

-- The header that slab creation writes.
abbrev pub header : Ptr → SlabLayout → ℕ → ℕ → Slab
header base l capacity class_index = record {
  next = null;
  mapping_base = base;
  mapping_length = l.mapping_length;
  first_slot_offset = l.first_slot_offset;
  slot_stride = l.slot_stride;
  slot_count = l.slot_count;
  class_capacity = capacity;
  class_index = class_index;
}

-- In a new mapping of the layout's length, filling the slab returns the mapping's base as the slab
-- and a chain of all its slots, each a free small block of that slab with the class capacity; the
-- header describes the slab, and no other block or header, no byte and no mapping changes.
pub slab_fill-Built :
    {capacity page : ℕ} {l : SlabLayout} (class_index base : ℕ) (h : Heap) (ms : List (Ptr × ℕ))
    → IsSlabLayout capacity page l
    → base ≢ null
    → l.mapping_length ≤ size_max
    → h.mappings ≡ (base, l.mapping_length) ∷ ms
    → Returns
        (λ r g.
          (r.0 ≡ base)
          × Built base l capacity l.slot_count
              (put_slab h base (header base l capacity class_index))
              r.1
              g)
        (slab_fill (record { base = base; length = l.mapping_length }) l class_index capacity h)
unfolding slab_fill init_slab
slab_fill-Built {capacity} {l} class_index base h ms is live fits mapped =
    let room : within base sizeof_slab ((base, l.mapping_length) ∷ ms) ≡ true =
      ground (arith, is.target) in
    let known = subst (λ t. within base sizeof_slab t ≡ true) (sym mapped) room in
    let h' = put_slab h base (header base l capacity class_index) in
    let start : Built base l capacity 0 h' null h' = record {
      chain = nil refl;
      blocks = λ a i. cc;
      outside = λ a o. refl;
      slabs = refl;
      bytes = refl;
      maps = refl;
    } in
    let (free, g, run, built) =
      outcome
        (slot_loop-Built is base live fits h' mapped l.slot_count 0 h' null (omega arith) start) in
    rw (known, run) (returns (refl, built))
