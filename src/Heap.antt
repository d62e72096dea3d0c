-- ===== src/Heap.antt =====
-- The memory that the allocator manages: src/block.h's prefix and src/slab.h's header as typed
-- objects at addresses, the live mappings, and commands that read and write them. An access that C
-- leaves undefined (NULL, an address with no such object, a write outside every mapping, the wrong
-- member of the union) is a fault.
pub mod Chain
pub mod Family
pub mod Stack
pub mod Returns
use hplf_malloc.Prelude.{
  ℕ, suc, ◌+◌, Bool, true, false, ◌&&◌, ◌||◌, Option, none, some, List, [], ◌∷◌, leb, ◌==◌,
  if◌then◌else◌, update,
}

abbrev pub Ptr : Type 0
Ptr = ℕ

abbrev pub null : Ptr
null = 0

-- `union { small; large } owner`
pub data Owner : Type 0 where
  small : (slab : Ptr) → Owner
  large : (base : Ptr) → (length : ℕ) → Owner

-- `enum hplf_block_kind`
abbrev pub block_small : ℕ
block_small = 1

abbrev pub block_large : ℕ
block_large = 2

-- `struct hplf_block`
pub record Block : Type 0 where
  pub owner : Owner
  pub next_free : Ptr
  pub requested_size : ℕ
  pub capacity : ℕ
  pub kind : ℕ

-- `struct hplf_slab`
pub record Slab : Type 0 where
  pub next : Ptr
  pub mapping_base : Ptr
  pub mapping_length : ℕ
  pub first_slot_offset : ℕ
  pub slot_stride : ℕ
  pub slot_count : ℕ
  pub class_capacity : ℕ
  pub class_index : ℕ

-- sizeof(struct hplf_block) and sizeof(struct hplf_slab) where pointers and size_t have 8 bytes.
abbrev pub sizeof_block : ℕ
sizeof_block = 48

abbrev pub sizeof_slab : ℕ
sizeof_slab = 64

-- `mappings` holds base and length of each live mapping; `byte` is the clients' storage.
pub record Heap : Type 0 where
  pub block : Ptr → Option Block
  pub slab : Ptr → Option Slab
  pub byte : Ptr → ℕ
  pub mappings : List (Ptr × ℕ)

-- Do the `n` bytes from `p` on lie inside one live mapping?
abbrev pub within : Ptr → ℕ → List (Ptr × ℕ) → Bool
within p n [] = false
within p n ((base, length) ∷ ms) = (leb base p && leb (p + n) (base + length)) || within p n ms

abbrev pub put_block : Heap → Ptr → Block → Heap
put_block h p b = record h { block = update h.block p (some b) }

abbrev pub put_slab : Heap → Ptr → Slab → Heap
put_slab h p s = record h { slab = update h.slab p (some s) }

-- A run over the state `S`: a result and the state after it, undefined behaviour, or a loop that
-- has used up its rounds.
pub data Run (S A : Type 0) : Type 0 where
  ok : A → S → Run S A
  fault : Run S A
  out_of_fuel : Run S A

abbrev pub Cmd : Type 0 → Type 0 → Type 0
Cmd S A = S → Run S A

module _ {S : Type 0} where
  abbrev pub pure : {A : Type 0} → A → Cmd S A
  pure a s = ok a s

  module _ {A B : Type 0} where
    abbrev pub continue : Run S A → (A → Cmd S B) → Run S B
    continue (ok a s) k = k a s
    continue fault k = fault
    continue out_of_fuel k = out_of_fuel

    infixl 5 ◌>>=◌ ◌>>◌
    abbrev pub ◌>>=◌ : Cmd S A → (A → Cmd S B) → Cmd S B
    m >>= k = λ s. continue (m s) k

    abbrev pub ◌>>◌ : Cmd S A → Cmd S B → Cmd S B
    m >> n = m >>= λ _. n

-- `*p` for a block and for a slab header
unfoldable pub load_block : Ptr → Cmd Heap Block
load_block p h = if p == null then fault else elim (h.block p) [ none ↦ fault | some b ↦ ok b h ]

unfoldable pub load_slab : Ptr → Cmd Heap Slab
load_slab p h = if p == null then fault else elim (h.slab p) [ none ↦ fault | some s ↦ ok s h ]

-- a write to fields of an object that is there
unfoldable pub store_block : Ptr → Block → Cmd Heap (Unit {0})
unfolding load_block
store_block p b = load_block p >> λ h. ok tt (put_block h p b)

unfoldable pub store_slab : Ptr → Slab → Cmd Heap (Unit {0})
unfolding load_slab
store_slab p s = load_slab p >> λ h. ok tt (put_slab h p s)

-- `*p = (struct hplf_block){...}`, which makes a new object in mapped memory
unfoldable pub init_block : Ptr → Block → Cmd Heap (Unit {0})
init_block p b h = if within p sizeof_block h.mappings then ok tt (put_block h p b) else fault

unfoldable pub init_slab : Ptr → Slab → Cmd Heap (Unit {0})
init_slab p s h = if within p sizeof_slab h.mappings then ok tt (put_slab h p s) else fault

-- `p->next_free = q`
unfoldable pub set_next_free : Ptr → Ptr → Cmd Heap (Unit {0})
unfolding load_block store_block
set_next_free p q = do b ← load_block p; store_block p (record b { next_free = q })

-- `block->owner.small.slab`
unfoldable pub small_slab : Block → Cmd Heap Ptr
small_slab b h = elim b.owner [ small slab ↦ ok slab h | large base length ↦ fault ]
