-- ===== src/SizeClass.antt =====
-- src/size_class.c and src/size_class.h: the table of slot capacities. Output pointers are
-- `Option ℕ` as in src/checked_math.h.
pub mod Fit
use hplf_malloc.Prelude.{
  ℕ, suc, ◌+◌, Bool, true, false, ◌||◌, Option, none, some, List, [], ◌∷◌, ltb, leb, ◌==◌, is_none,
  if◌then◌else◌, get_or,
}

abbrev pub class_count : ℕ
class_count = 16

abbrev pub max_small_size : ℕ
max_small_size = 4096

-- `size_class_capacities`
abbrev pub capacities : List ℕ
capacities =
    16 ∷ 32 ∷ 48 ∷ 64 ∷ 96 ∷ 128 ∷ 192 ∷ 256 ∷ 384 ∷ 512 ∷ 768 ∷ 1024 ∷ 1536 ∷ 2048 ∷ 3072 ∷ 4096
    ∷ []

-- The `for` of `hplf_size_class_for` from `index` on, over the entries that are left: the first
-- that holds `size`, with its index.
unfoldable pub find_class : ℕ → ℕ → List ℕ → Option (ℕ × ℕ)
find_class size index [] = none
find_class size index (c ∷ cs) =
    if leb size c then some (index, c) else find_class size (index + 1) cs

-- `hplf_size_class_for`: the Boolean, and the two targets after the call.
unfoldable pub size_class_for : ℕ → Option ℕ → Option ℕ → Bool × Option ℕ × Option ℕ
size_class_for size class_index class_capacity =
    if size == 0 || ltb max_small_size size || is_none class_index || is_none class_capacity
    then (false, class_index, class_capacity)
    else elim (find_class size 0 capacities) [
      | none ↦ (false, class_index, class_capacity)
      | some (index, capacity) ↦ (true, some index, some capacity)
    ]

-- `hplf_size_class_capacity`
unfoldable pub size_class_capacity : ℕ → Option ℕ → Bool × Option ℕ
size_class_capacity class_index class_capacity =
    if leb class_count class_index || is_none class_capacity
    then (false, class_capacity)
    else (true, some (get_or capacities class_index 0))

-- A call of `hplf_size_class_for` with the addresses of two locals.
unfoldable pub class_of : ℕ → Option (ℕ × ℕ)
class_of size = let r = size_class_for size (some 0) (some 0) in if r.0 then both r.1 r.2 else none
  where
    both : Option ℕ → Option ℕ → Option (ℕ × ℕ)
    both (some i) (some c) = some (i, c)
    both _ _ = none
