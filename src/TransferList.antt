-- ===== src/TransferList.antt =====
-- src/transfer_list.h: descriptors of privately owned chains. A `struct hplf_transfer_list` is a
-- local of its users, outside the heap, so a function returns the new value.
pub mod Prefix
use hplf_malloc.Prelude.{
  ℕ, zero, suc, ◌+◌, ◌-◌, ◌%◌, ◌^◌, Bool, true, false, ◌||◌, ltb, ◌==◌, if◌then◌else◌,
}
use hplf_malloc.CheckedMath.{size_max, wrap}
use hplf_malloc.Heap.{
  Ptr, null, Heap, Cmd, out_of_fuel, pure, ◌>>=◌, ◌>>◌, load_block, set_next_free,
}

-- `struct hplf_transfer_list`
pub record TransferList : Type 0 where
  pub first : Ptr
  pub last : Ptr
  pub count : ℕ

-- `a - b` on size_t
abbrev pub wrap_sub : ℕ → ℕ → ℕ
wrap_sub a b = wrap (a + 2 ^ 64 - b)

-- `hplf_transfer_list_clear`: the value that it stores
abbrev pub cleared : TransferList
cleared = record { first = null; last = null; count = 0 }

-- The `while` of `hplf_transfer_list_from_chain`, with the rounds that are left.
unfoldable pub chain_loop : ℕ → Ptr → Ptr → Ptr → ℕ → Cmd Heap TransferList
chain_loop zero first block last count = λ _. out_of_fuel
chain_loop (suc fuel) first block last count =
    if block == null
    then pure (record { first = first; last = last; count = count })
    else do b ← load_block block; chain_loop fuel first b.next_free block (wrap (count + 1))

-- `hplf_transfer_list_from_chain`
unfoldable pub from_chain : ℕ → Ptr → Cmd Heap TransferList
from_chain fuel first = chain_loop fuel first first null 0

-- `while (--taken != 0) last = last->next_free`, with the value of `taken` after the decrement.
unfoldable pub walk : ℕ → Ptr → Cmd Heap Ptr
walk zero last = pure last
walk (suc taken) last = do b ← load_block last; walk taken b.next_free

-- `hplf_transfer_list_take_prefix`: the source after it, and the output.
unfoldable pub take_prefix : TransferList → ℕ → Cmd Heap (TransferList × TransferList)
take_prefix source maximum_count =
    if source.first == null || maximum_count == 0 then pure (source, cleared) else do
      let taken = if ltb source.count maximum_count then source.count else maximum_count
      last ← walk (wrap_sub taken 1) source.first
      b ← load_block last
      set_next_free last null
      pure (
        record {
          first = b.next_free;
          last = if b.next_free == null then null else source.last;
          count = wrap_sub source.count taken;
        },
        record { first = source.first; last = last; count = taken },
      )
