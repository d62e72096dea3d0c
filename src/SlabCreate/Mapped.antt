-- ===== src/SlabCreate/Mapped.antt =====
-- src/slab.c: hplf_slab_create, where the platform grants the mapping.
use hplf_malloc.Prelude.{
  ℕ, ◌+◌, ◌%◌, ◌≤◌, ◌<◌, ◌≡◌, ◌≢◌, refl, sym, subst, ap, ◌∙◌, false, some, arith, ◌==◌,
}
use hplf_malloc.CheckedMath.{size_max}
use hplf_malloc.CheckedMath.Rounding.{
  round_up, round_up-IsRoundUp, exact-IsRoundUp, IsRoundUp-unique,
}
use hplf_malloc.Heap.{Ptr, null, ok, put_slab}
use hplf_malloc.Heap.Returns.{Returns, returns, outcome}
use hplf_malloc.Layout.{SlabLayout, slab_layout_compute}
use hplf_malloc.Layout.Slots.{IsSlabLayout}
use hplf_malloc.World.{Platform, mapped, World, on_heap, map_memory}
use hplf_malloc.OsMemory.{os_page_size}
use hplf_malloc.OsMemory.Outcome.{after_map, os_map-mapped}
use hplf_malloc.SlabCreate.{slab_create}
use hplf_malloc.SlabCreate.Fresh.{Built, header, slab_fill-Built}

-- A new slab at `base`: its header and its slots in a new mapping of its length.
pub record Created (w : World) (class_index capacity base : ℕ) (l : SlabLayout) (free : Ptr)
    (v : World) : Type 0 where
  pub built :
      Built base l capacity l.slot_count
        (put_slab
          (map_memory base l.mapping_length w.heap)
          base
          (header base l capacity class_index))
        free
        v.heap
  pub same : v ≡ record w { heap = v.heap; calls = w.calls + 1 + 1 + 1 }

whole_pages : (n page : ℕ) → 0 < page → n % page ≡ 0 → round_up n page ≡ n
whole_pages n page pos e =
    IsRoundUp-unique pos (round_up-IsRoundUp n page pos) (exact-IsRoundUp n page pos e)

-- The platform answers a page size twice, and grants the length of the slab layout at `base`.
pub record GrantsSlab (p : Platform) (w : World) (capacity page : ℕ) (l : SlabLayout) (base : Ptr)
    : Type 0 where
  pub computed : slab_layout_compute capacity page ≡ some l
  pub layout : IsSlabLayout capacity page l
  pub some_page : 0 < page
  pub sized : page ≤ size_max
  pub fits : l.mapping_length ≤ size_max
  pub first_page : p.page_size w.calls ≡ page
  pub second_page : p.page_size (w.calls + 1) ≡ page
  pub answer : p.mmap (w.calls + 1 + 1) l.mapping_length ≡ mapped base
  pub live : base ≢ null

-- Where the platform answers the same page size twice and grants the length of the slab layout at an
-- address, creation for a class returns that address as the slab and a chain of all its slots, each a
-- free small block of the slab with the class's capacity; the header describes the slab and its
-- mapping, no other block or header and no other mapping changes, and errno is untouched.
pub slab_create-Created :
    (p : Platform) (w : World) {capacity page : ℕ} {l : SlabLayout} (class_index base : ℕ)
    → GrantsSlab p w capacity page l base
    → Returns
        (λ r v.
          (free : Ptr) × (r ≡ some (base, free)) × Created w class_index capacity base l free v)
        (slab_create p class_index capacity w)
unfolding slab_create os_page_size
slab_create-Created p w {capacity} {page} {l} class_index base grants =
    let w1 : World = record w { calls = w.calls + 1 } in
    let n = l.mapping_length in
    let second = sym grants.second_page in
    let whole : round_up n (p.page_size (w.calls + 1)) ≡ n =
      ap (λ t. round_up n t) grants.second_page
      ∙ whole_pages n page grants.some_page grants.layout.pages in
    let granted =
      os_map-mapped p w1 n base (omega (arith, grants.layout.target)) grants.fits
        (subst (λ t. 0 < t) second grants.some_page) (subst (λ t. t ≤ size_max) second grants.sized)
        (subst (λ t. t ≤ size_max) (sym whole) grants.fits)
        (ap (λ t. p.mmap (w.calls + 1 + 1) t) whole ∙ grants.answer)
      ∙ ap (λ t. ok (some (record { base = base; length = t })) (after_map base t w1)) whole in
    let (r, g, run, (at, built)) = outcome (
      slab_fill-Built class_index base (map_memory base n w.heap) w.heap.mappings grants.layout
        grants.live grants.fits refl) in
    let paged : (p.page_size w.calls == 0) ≡ false =
      ground (arith, grants.first_page, grants.some_page) in
    let laid = ap (λ t. slab_layout_compute capacity t) grants.first_page ∙ grants.computed in
    rw (paged, laid, granted, on_heap, run)
      (returns (r.1, ap (λ t. some (t, r.1)) at, record { built = built; same = refl }))
