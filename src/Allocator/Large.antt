-- ===== src/Allocator/Large.antt =====
-- src/allocator.c: large requests, from the mapping to its release.
use hplf_malloc.Prelude.{
  ℕ, ◌+◌, ◌-◌, ◌≤◌, ◌<◌, ◌≡◌, refl, ap, ◌∙◌, true, false, none, some, List, ◌∷◌, inl, inr, arith,
  ltb, ◌==◌,
}
use hplf_malloc.CheckedMath.{size_max}
use hplf_malloc.CheckedMath.Rounding.{round_up, round_up-IsRoundUp, IsRoundUp-unique}
use hplf_malloc.SizeClass.{max_small_size, class_of}
use hplf_malloc.SizeClass.Fit.{size_class_for-refuses}
use hplf_malloc.Heap.Returns.{Returns, returns}
use hplf_malloc.Heap.{
  Ptr, null, large, block_large, Block, ok, ◌>>=◌, within, put_block, init_block, sizeof_block,
}
use hplf_malloc.Layout.{large_layout_compute}
use hplf_malloc.Layout.Payload.{block_payload-ok, block_from_payload-ok}
use hplf_malloc.World.Access.{load_block-there}
use hplf_malloc.Layout.Large.{large_layout_compute_lem}
use hplf_malloc.World.{
  Platform, mapped, World, on_heap, map_memory, unmap_memory, in_range, drop_mapping,
}
use hplf_malloc.OsMemory.{os_page_size, os_map}
use hplf_malloc.OsMemory.Outcome.{after_map, os_map-mapped, os_unmap-outcome}
use hplf_malloc.Allocator.{
  Variant, ptrdiff_max, malloc, allocate_large, large_mapping, free_block_at, free,
}

round_up_twice : (v m : ℕ) → 0 < m → round_up (round_up v m) m ≡ round_up v m
round_up_twice v m pos =
    let r = round_up v m in
    IsRoundUp-unique pos (round_up-IsRoundUp r m pos) (record {
      above = omega arith;
      near = omega arith;
      multiple = (round_up-IsRoundUp v m pos).multiple;
    })

os_page_size-ok :
    (p : Platform) (w : World) (page : ℕ)
    → p.page_size w.calls ≡ page
    → 0 < page
    → os_page_size p w ≡ ok (some page) (record w { calls = w.calls + 1 })
unfolding os_page_size
os_page_size-ok p w page e pos =
    let live : (p.page_size w.calls == 0) ≡ false = ground arith in rw (live, e)

-- The prefix of a large block.
abbrev pub large_block : (base length requested : ℕ) → Block
large_block base length requested = record {
  owner = large base length;
  next_free = null;
  requested_size = requested;
  capacity = length - 48;
  kind = block_large;
}

-- The world after a large allocation at `base`.
abbrev pub after_large : (base length requested : ℕ) → World → World
after_large base length requested w = record w {
  heap = put_block (map_memory base length w.heap) base (large_block base length requested);
  calls = w.calls + 1 + 1 + 1;
}

init_block-ok :
    (w : World) (p : Ptr) (b : Block)
    → within p sizeof_block w.heap.mappings ≡ true
    → on_heap (init_block p b) w ≡ ok tt (record w { heap = put_block w.heap p b })
unfolding init_block
init_block-ok w p b room = rw (room, on_heap)

-- What the platform answers to a large request.
pub record Grants (p : Platform) (w : World) (page length base : ℕ) : Type 0 where
  pub first_page : p.page_size w.calls ≡ page
  pub second_page : p.page_size (w.calls + 1) ≡ page
  pub answer : p.mmap (w.calls + 1 + 1) length ≡ mapped base
  pub live : 0 < base
  pub inside : base + length ≤ size_max

module _ (p : Platform) (w : World) (n page base : ℕ) (pos : 0 < n) (paged : 0 < page)
    (grants : Grants p w page (round_up (48 + n) page) base) where
  abbrev mapping_length : ℕ
  mapping_length = round_up (48 + n) page

  above : 48 + n ≤ mapping_length
  above = (round_up-IsRoundUp (48 + n) page paged).above

  layout_value :
      page ≤ size_max
      → large_layout_compute n page
        ≡ some (record { payload_offset = 48; mapping_length = mapping_length })
  layout_value sized =
      large_layout_compute_lem n page (omega (arith, above, grants.inside)) sized pos paged
      ∙ ground (arith, above, grants.inside)

  map_value :
      page ≤ size_max
      → os_map p mapping_length (record w { calls = w.calls + 1 })
        ≡ ok
            (some (record { base = base; length = mapping_length }))
            (after_map base mapping_length (record w { calls = w.calls + 1 }))
  map_value sized =
      let whole : round_up mapping_length (p.page_size (w.calls + 1)) ≡ mapping_length =
        ap (λ k. round_up mapping_length k) grants.second_page
        ∙ round_up_twice (48 + n) page paged in
      os_map-mapped p (record w { calls = w.calls + 1 }) mapping_length base (omega (arith, above))
        (omega (arith, grants.inside)) (omega (arith, grants.second_page))
        (omega (arith, grants.second_page)) (omega (arith, whole, grants.inside))
        (ap (λ k. p.mmap (w.calls + 1 + 1) k) whole ∙ grants.answer)
      ∙ ap
          (λ k.
            ok (some (record { base = base; length = k }))
              (after_map base k (record w { calls = w.calls + 1 })))
          whole

  pub allocate_large_lem :
      page ≤ size_max → allocate_large p n w ≡ ok (base + 48) (after_large base mapping_length n w)
  unfolding allocate_large
  allocate_large_lem sized =
      let page_known = os_page_size-ok p w page grants.first_page paged in
      let layout = layout_value sized in
      let mapping = map_value sized in
      let room : within base sizeof_block ((base, mapping_length) ∷ w.heap.mappings) ≡ true =
        ground (arith, above) in
      let payload = block_payload-ok base grants.live (omega (arith, above, grants.inside)) in
      rw (
        page_known,
        layout,
        mapping,
        init_block-ok (after_map base mapping_length (record w { calls = w.calls + 1 })) base
            (large_block base mapping_length n) room,
        payload,
      )

free_large :
    (p : Platform) (v : Variant) (w : World) (base length n : ℕ)
    → w.heap.block base ≡ some (large_block base length n)
    → 0 < base
    → 0 < length
    → base + 48 ≤ size_max
    → p.munmap w.calls base length ≡ none
    → free p v (base + 48) w
      ≡ ok tt (record w { heap = unmap_memory base length w.heap; calls = w.calls + 1 })
unfolding free free_block_at large_mapping
free_large p v w base length n at live long fits unmapped =
    let given : (base + 48 == null) ≡ false = ground arith in
    let back = block_from_payload-ok base live fits in
    let load = load_block-there w base (large_block base length n) (omega arith) at in
    let release =
      os_unmap-outcome p w (record { base = base; length = length }) (omega arith) long in
    rw (given, back, load, release, unmapped)

malloc-large :
    (p : Platform) (v : Variant) (n : ℕ)
    → max_small_size < n
    → n ≤ ptrdiff_max
    → malloc p v n ≡ allocate_large p n
unfolding malloc class_of
malloc-large p v n big fits =
    let some_size : (n == 0) ≡ false = ground arith in
    let allowed : ltb ptrdiff_max n ≡ false = ground arith in
    rw (some_size, allowed, size_class_for-refuses n (some 0) (some 0) (inr (inl big)))

drop_mapping-head :
    (base length : ℕ) (ms : List (Ptr × ℕ)) → drop_mapping base length ((base, length) ∷ ms) ≡ ms
unfolding drop_mapping
drop_mapping-head base length ms = ground arith

-- The world after a large request was granted and given back: its calls apart, that before it, but
-- for the memory of the mapping.
pub record Restored (base length : ℕ) (w g : World) : Type 0 where
  pub errno : g.errno ≡ w.errno
  pub mappings : g.heap.mappings ≡ w.heap.mappings
  pub blocks : (a : Ptr) → in_range base length a ≡ false → g.heap.block a ≡ w.heap.block a
  pub slabs : (a : Ptr) → in_range base length a ≡ false → g.heap.slab a ≡ w.heap.slab a
  pub bytes : (a : Ptr) → in_range base length a ≡ false → g.heap.byte a ≡ w.heap.byte a
  pub gone : (a : Ptr) → in_range base length a ≡ true → g.heap.block a ≡ none

module _ (p : Platform) (v : Variant) (w : World) (n page base : ℕ) (big : max_small_size < n)
    (fits : n ≤ ptrdiff_max) (paged : 0 < page) (sized : page ≤ size_max)
    (grants : Grants p w page (round_up (48 + n) page) base) where
  -- For a size above 4096 and up to PTRDIFF_MAX, where the platform answers a page size twice and
  -- grants the rounded length at an address whose range fits a size_t, `hplf_malloc` returns the
  -- address 48 bytes behind the new mapping, whose prefix records the mapping, the requested size and
  -- the room behind the prefix; nothing else changes.
  pub malloc-large_lem :
      malloc p v n w ≡ ok (base + 48) (after_large base (round_up (48 + n) page) n w)
  malloc-large_lem =
      ap (λ m. m w) (malloc-large p v n big fits)
      ∙ allocate_large_lem p w n page base (omega arith) paged grants sized

  -- For a size above 4096 and up to PTRDIFF_MAX, where the platform answers a page size twice, grants
  -- the rounded length at an address whose range fits a size_t and later unmaps that range, `hplf_free`
  -- of what `hplf_malloc` returned restores errno and the list of mappings; outside of the mapping
  -- every object and byte is as before, and no block is left in it.
  pub malloc-free_round_trip :
      p.munmap (w.calls + 1 + 1 + 1) base (round_up (48 + n) page) ≡ none
      → Returns (λ _ g. Restored base (round_up (48 + n) page) w g) ((malloc p v n >>= free p v) w)
  malloc-free_round_trip unmapped =
      let length = round_up (48 + n) page in
      let after = after_large base length n w in
      let above = (round_up-IsRoundUp (48 + n) page paged).above in
      let there : after.heap.block base ≡ some (large_block base length n) = ground arith in
      let release =
        free_large p v after base length n there grants.live (omega (arith, above))
          (omega (arith, above, grants.inside)) unmapped in
      rw (malloc-large_lem, release)
        (returns (record {
          errno = refl;
          mappings = drop_mapping-head base length w.heap.mappings;
          blocks = λ a out. ground (arith, above);
          slabs = λ a out. rw out;
          bytes = λ a out. rw out;
          gone = λ a i. rw i;
        }))
