-- ===== src/OsMemory/Outcome.antt =====
-- Mapping and unmapping on every answer of the platform.
use hplf_malloc.Prelude.{
  ℕ, ◌+◌, ◌≤◌, ◌<◌, ◌≡◌, ◌≢◌, false, ◌||◌, none, some, arith, ◌==◌, option, Option-cases, inl, inr,
}
use hplf_malloc.CheckedMath.{size_max}
use hplf_malloc.CheckedMath.Rounding.{round_up}
use hplf_malloc.Heap.{Ptr, null, ok}
use hplf_malloc.Layout.Slots.{local-round_up}
use hplf_malloc.World.{Platform, mapped, World, map_memory, unmap_memory}
use hplf_malloc.OsMemory.{Mapping, os_page_size, os_map, os_unmap}

-- The world after a successful mapping at `base`.
abbrev pub after_map : Ptr → ℕ → World → World
after_map base length w = record w { heap = map_memory base length w.heap; calls = w.calls + 1 + 1 }

-- Asked for a length that is not 0 and rounds up to a size_t, and given a page size and an address,
-- `hplf_os_map` maps exactly the least whole number of pages that is not shorter, there, and leaves
-- errno alone.
pub os_map-mapped :
    (p : Platform) (w : World) (n : ℕ) (base : Ptr)
    → 0 < n
    → n ≤ size_max
    → 0 < p.page_size w.calls
    → p.page_size w.calls ≤ size_max
    → round_up n (p.page_size w.calls) ≤ size_max
    → p.mmap (w.calls + 1) (round_up n (p.page_size w.calls)) ≡ mapped base
    → os_map p n w
      ≡ ok
          (some (record { base = base; length = round_up n (p.page_size w.calls) }))
          (after_map base (round_up n (p.page_size w.calls)) w)
unfolding os_map os_page_size
os_map-mapped p w n base pos sized paged psized fits answer =
    let given : (n == 0) ≡ false = ground arith in
    let page : (p.page_size w.calls == 0) ≡ false = ground arith in
    let rounded = local-round_up n (p.page_size w.calls) sized psized paged fits in
    rw (given, page, rounded, answer)

-- Unmapping a mapping clears the descriptor and reports its exact length on success, its objects
-- and its entry are gone, and errno is untouched; a failure keeps the descriptor and the memory and
-- reports the platform's errno.
pub os_unmap-outcome :
    (p : Platform) (w : World) (m : Mapping)
    → m.base ≢ null
    → 0 < m.length
    → os_unmap p m w
      ≡ option
          (p.munmap w.calls m.base m.length)
          (ok
            (some m.length, record { base = null; length = 0 })
            (record w { heap = unmap_memory m.base m.length w.heap; calls = w.calls + 1 }))
          (λ e. ok (none, m) (record w { errno = e; calls = w.calls + 1 }))
unfolding os_unmap
os_unmap-outcome p w m ne pos =
    let live : (m.base == null || m.length == 0) ≡ false = ground arith in
    elim (Option-cases (p.munmap w.calls m.base m.length)) [
      | inl done ↦ rw (live, done)
      | inr (e, failed) ↦ rw (live, failed)
    ]
