-- ===== src/Samples/Layouts.antt =====
-- The theorems on arithmetic, classes, layouts and mappings, at sizes and answers of a usual system.
use hplf_malloc.Prelude.{ℕ, ◌^◌, ◌<◌, ◌≡◌, refl, true, false, none, some, [], arith}
use hplf_malloc.CheckedMath.{
  size_add, local_result, size_multiply, size_align_up_pow2, size_round_up_multiple,
}
use hplf_malloc.CheckedMath.Rounding.{size_align_up_pow2_lem}
use hplf_malloc.SizeClass.{class_count, capacities, size_class_for, size_class_capacity}
use hplf_malloc.SizeClass.Fit.{IsFirstFit, size_class_for-IsFirstFit}
use hplf_malloc.Heap.{Ptr, null}
use hplf_malloc.Heap.Returns.{Returns}
use hplf_malloc.Layout.{block_payload_offset, large_layout_compute, SlabLayout, slab_layout_compute}
use hplf_malloc.Layout.Slots.{IsSlabLayout, slab_layout_compute-IsSlabLayout}
use hplf_malloc.Layout.Large.{large_layout_compute_lem}
use hplf_malloc.SlabCreate.{slab_create}
use hplf_malloc.SlabCreate.Payloads.{Payloads}
use hplf_malloc.SlabCreate.Mapped.{GrantsSlab, Created, slab_create-Created}
use hplf_malloc.World.{Platform, mapped, Lifecycle, World}

size_align_up_pow2_lem_example : size_align_up_pow2 49 (2 ^ 4) (some 9) ≡ (true, some 64)
size_align_up_pow2_lem_example = size_align_up_pow2_lem 4 49 (some 9) (omega arith) (omega arith)

size_class_for-IsFirstFit_example :
    (i : ℕ) × (c : ℕ) × (size_class_for 65 (some 9) (some 9) ≡ (true, some i, some c))
    × (i < class_count)
    × (size_class_capacity i (some 9) ≡ (true, some c))
    × IsFirstFit 65 capacities i c
size_class_for-IsFirstFit_example = size_class_for-IsFirstFit 65 9 9 (omega arith) (omega arith)

slab_layout_compute-IsSlabLayout_example :
    (l : SlabLayout) × (slab_layout_compute 128 4096 ≡ some l) × IsSlabLayout 128 4096 l
slab_layout_compute-IsSlabLayout_example =
    slab_layout_compute-IsSlabLayout 128 4096 (omega arith) (omega arith) (omega arith)
      (omega arith) (omega arith)

-- The layout for 4096 bytes: 15 slots.
abbrev pub layout : SlabLayout
layout = record {
  mapping_length = 65536;
  first_slot_offset = 64;
  payload_offset = 48;
  slot_stride = 4144;
  slot_count = 15;
  class_capacity = 4096;
}

pub layout-IsSlabLayout : IsSlabLayout 4096 4096 layout
layout-IsSlabLayout = record {
  pages = refl;
  target = omega arith;
  header = omega arith;
  first_aligned = refl;
  stride_aligned = refl;
  holds = omega arith;
  prefix = omega arith;
  some_slot = omega arith;
  inside = omega arith;
  full = omega arith;
  same_capacity = refl;
}

large_layout_compute_lem_example :
    large_layout_compute 5000 4096 ≡ some (record { payload_offset = 48; mapping_length = 8192 })
large_layout_compute_lem_example =
    large_layout_compute_lem 5000 4096 (omega arith) (omega arith) (omega arith) (omega arith)

abbrev pub platform : Platform
platform = record {
  page_size = λ n. 4096;
  mmap = λ n length. mapped 8192;
  munmap = λ n base length. none;
  mutex_lock = λ n. 0;
  mutex_unlock = λ n. 0;
  once = λ n. 0;
  key_create = λ n. 0;
  setspecific = λ n. 0;
}

abbrev pub world : World
world = record {
  heap = record { block = λ a. none; slab = λ a. none; byte = λ a. 0; mappings = [] };
  errno = 0;
  calls = 0;
  slabs = null;
  free_lists = λ i. null;
  heads = λ i. null;
  key_made = false;
  cache_key_error = 0;
  current_state = Lifecycle.uninitialized;
  current_descriptor = none;
}

layout_computed : slab_layout_compute 4096 4096 ≡ some layout
unfolding slab_layout_compute local_result size_round_up_multiple size_align_up_pow2 size_multiply
    size_add block_payload_offset
layout_computed = refl

pub grants_slab : GrantsSlab platform world 4096 4096 layout 8192
grants_slab = record {
  computed = layout_computed;
  layout = layout-IsSlabLayout;
  some_page = omega arith;
  sized = omega arith;
  fits = omega arith;
  first_page = refl;
  second_page = refl;
  answer = refl;
  live = omega arith;
}

slab_create-Created_example :
    Returns
      (λ r v. (free : Ptr) × (r ≡ some (8192, free)) × Created world 15 4096 8192 layout free v)
      (slab_create platform 15 4096 world)
slab_create-Created_example = slab_create-Created platform world 15 8192 grants_slab
