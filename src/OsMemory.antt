-- ===== src/OsMemory.antt =====
-- src/os_memory.c without its test hooks: page size, mapping, unmapping. Output pointers are not
-- null: an output is the result, and `none` is false.
pub mod Outcome
use hplf_malloc.Prelude.{
  ℕ, ◌+◌, Bool, true, false, ◌||◌, Option, none, some, ◌==◌, option, if◌then◌else◌,
}
use hplf_malloc.CheckedMath.{size_round_up_multiple, local_result}
use hplf_malloc.Heap.{Ptr, null, Cmd, pure, ◌>>=◌, ◌>>◌}
use hplf_malloc.World.{
  Platform, on_map, World, enomem, einval, set_errno, on_heap, call, map_memory, unmap_memory,
}
use hplf_malloc.Heap.{ok}

-- `struct hplf_os_mapping`
pub record Mapping : Type 0 where
  pub base : Ptr
  pub length : ℕ

-- `hplf_os_page_size`
unfoldable pub os_page_size : Platform → Cmd World (Option ℕ)
os_page_size p = do
  queried_page_size ← call p.page_size
  if queried_page_size == 0 then (do set_errno einval; pure none) else pure (some queried_page_size)

-- `hplf_os_map`
unfoldable pub os_map : Platform → ℕ → Cmd World (Option Mapping)
os_map p minimum_length = if minimum_length == 0 then (do set_errno einval; pure none) else do
  page ← os_page_size p
  option page (pure none) λ page_size.
      option (local_result (size_round_up_multiple minimum_length page_size))
        (do set_errno enomem; pure none)
        λ mapping_length. do
          answer ← call (λ n. p.mmap n mapping_length)
          on_map answer (λ e. do set_errno e; pure none)
              λ base. do
                on_heap (λ h. ok tt (map_memory base mapping_length h))
                pure (some (record { base = base; length = mapping_length }))

-- `hplf_os_unmap`: the released bytes, and the mapping after the call.
unfoldable pub os_unmap : Platform → Mapping → Cmd World (Option ℕ × Mapping)
os_unmap p mapping =
    if mapping.base == null || mapping.length == 0
    then (do set_errno einval; pure (none, mapping))
    else do
      failed ← call (λ n. p.munmap n mapping.base mapping.length)
      option failed
          (do
            on_heap (λ h. ok tt (unmap_memory mapping.base mapping.length h))
            pure (some mapping.length, record { base = null; length = 0 }))
          λ e. do set_errno e; pure (none, mapping)
