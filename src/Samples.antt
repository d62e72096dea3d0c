-- ===== src/Samples.antt =====
-- Concrete memory on which the theorems are run: blocks of class 15 in two chains, at the multiples
-- of 16 and 8 bytes behind those.
pub mod Lists
pub mod Caches
pub mod Layouts
pub mod Atomic
pub mod Threads
pub mod Requests
pub mod Pools
pub mod Trims
pub mod Jobs
pub mod Runs
pub mod Sleepers
pub mod Commands
use hplf_malloc.Prelude.{
  ℕ, zero, suc, ◌+◌, ◌-◌, ◌*◌, ◌%◌, ◌≤◌, ◌<◌, ◌≡◌, ◌≢◌, refl, ap, Bool, true, false, Option, none,
  some, List, [], ◌∷◌, arith, leb, ◌==◌, if◌then◌else◌, has, update, Bool-cases, inl, inr, ◌||◌,
}
use hplf_malloc.Heap.{Ptr, null, small, block_small, Block, Slab, Heap, put_block}
use hplf_malloc.Heap.Chain.{Points, Chain, nil, cons, Disjoint, OnlyLinks-refl}
use hplf_malloc.Heap.Family.{IsFamily, IsFamily-update}

abbrev pub sample_block : Ptr → Block
sample_block next = record {
  owner = small 7;
  next_free = next;
  requested_size = 0;
  capacity = 4096;
  kind = block_small;
}

-- The header that the blocks name.
abbrev pub sample_slab : Slab
sample_slab = record {
  next = null;
  mapping_base = 1048576;
  mapping_length = 65536;
  first_slot_offset = 64;
  slot_stride = 4144;
  slot_count = 15;
  class_capacity = 4096;
  class_index = 15;
}

abbrev pub memory : Heap
memory = record {
  block = λ a. some (sample_block (if leb a 24 then null else a - 16));
  slab = λ a. some sample_slab;
  byte = λ a. 0;
  mappings = [];
}

-- The first block of the chain of `n` blocks with offset `o`, and its blocks.
abbrev pub start : ℕ → ℕ → Ptr
start o zero = null
start o (suc n) = 16 * suc n + o

abbrev pub down : ℕ → ℕ → List Ptr
down o zero = []
down o (suc n) = (16 * suc n + o) ∷ down o n

down_fresh : (o n a : ℕ) → 16 * n + o < a → has a (down o n) ≡ false
down_fresh o zero a h = refl
down_fresh o (suc n) a h = ground (arith, down_fresh o n a)

down_offset : (o n a : ℕ) → o ≤ 8 → has a (down o n) ≡ true → a % 16 ≡ o
down_offset o zero a small_o i = cc
down_offset o (suc n) a small_o i = ground (arith, down_offset o n a)

pub down-Disjoint : (n m : ℕ) → Disjoint (down 8 n) (down 0 m)
down-Disjoint n m a i = elim (Bool-cases (has a (down 0 m))) [
  | inl there ↦
      absurd
        (omega (arith, down_offset 8 n a (omega arith) i, down_offset 0 m a (omega arith) there))
  | inr out ↦ out
]

link_below :
    (o n : ℕ) → o ≤ 8 → (if leb (16 * suc n + o) 24 then null else 16 * suc n + o - 16) ≡ start o n
link_below o zero h = ground arith
link_below o (suc n) h = ground arith

pub down-Chain : (o n : ℕ) → o ≤ 8 → Chain memory null (start o n) (down o n)
down-Chain o zero h = nil refl
down-Chain o (suc n) h =
    cons {b = sample_block (start o n)} refl (down_fresh o n (16 * suc n + o) (omega arith))
      (record { ne_null = omega arith; holds = ap (λ t. some (sample_block t)) (link_below o n h) })
      (down-Chain o n h)

-- Class 15 has `n` blocks, the others none.
pub sample-IsFamily :
    (n : ℕ) → IsFamily memory (update (λ j. null) 15 (start 0 n)) (update (λ j. []) 15 (down 0 n))
sample-IsFamily n =
    IsFamily-update {xs = []} 15 empty (OnlyLinks-refl [] memory) (λ j ne a i. refl)
      (down-Chain 0 n (omega arith)) (λ j ne a i. refl)
  where
    empty : IsFamily memory (λ j. null) (λ j. [])
    empty = record { chains = λ i. nil refl; apart = λ i j ne a h. refl }

-- The second chain shares no block with class 15, nor with the others.
pub sample_apart : (n m : ℕ) (j : ℕ) → Disjoint (down 8 n) (update (λ i. []) 15 (down 0 m) j)
sample_apart n m j a i = elim (Bool-cases (15 == j)) [
  | inl here ↦ rw here (down-Disjoint n m a i)
  | inr away ↦ rw away
]
