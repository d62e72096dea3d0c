-- ===== src/Layout/Large.antt =====
-- Large layouts: the exact condition for success, and the length.
use hplf_malloc.Prelude.{
  ℕ, ◌+◌, ◌≤◌, ◌<◌, ◌≡◌, false, ◌||◌, ◌&&◌, none, some, arith, leb, ◌==◌, if◌then◌else◌, Bool-cases,
  leb→le, inl, inr,
}
use hplf_malloc.CheckedMath.{size_max, size_round_up_multiple, local_result}
use hplf_malloc.CheckedMath.Exact.{local-size_add}
use hplf_malloc.CheckedMath.Rounding.{round_up, size_round_up_multiple_lem}
use hplf_malloc.Layout.{large_layout_compute}
use hplf_malloc.Layout.Slots.{payload_offset_value}

local-round_up_lem :
    (v m : ℕ)
    → v ≤ size_max
    → m ≤ size_max
    → 0 < m
    → local_result (size_round_up_multiple v m)
      ≡ (if leb (round_up v m) size_max then some (round_up v m) else none)
unfolding local_result
local-round_up_lem v m hv hm pos = rw (size_round_up_multiple_lem v m (some 0) hv hm) (ground arith)

-- For a size and a page size of size_t that are not 0, a large layout is computed exactly if the
-- prefix and the size, rounded up to whole pages, fit a size_t: the payload
-- starts behind the prefix, and the mapping is the least whole number of pages that holds both.
pub large_layout_compute_lem :
    (requested page : ℕ)
    → requested ≤ size_max
    → page ≤ size_max
    → 0 < requested
    → 0 < page
    → large_layout_compute requested page ≡ (
        if leb (48 + requested) size_max && leb (round_up (48 + requested) page) size_max
        then some (record { payload_offset = 48; mapping_length = round_up (48 + requested) page })
        else none)
unfolding large_layout_compute
large_layout_compute_lem requested page hr hp pos paged =
    let given : (requested == 0 || page == 0) ≡ false = ground arith in
    let sum = local-size_add 48 requested (omega arith) hr in
    elim (Bool-cases (leb (48 + requested) size_max)) [
      | inl fits ↦
          let bytes : 48 + requested ≤ size_max = leb→le _ _ fits in
          let rounded = local-round_up_lem (48 + requested) page bytes hp paged in
          elim (Bool-cases (leb (round_up (48 + requested) page) size_max)) [
            | inl whole ↦ rw (given, payload_offset_value, sum, fits, rounded, whole)
            | inr part ↦ rw (given, payload_offset_value, sum, fits, rounded, part)
          ]
      | inr over ↦ rw (given, payload_offset_value, sum, over)
    ]
