-- ===== src/SizeClass/Fit.antt =====
-- The class that is chosen: the first whose capacity holds the size.
use hplf_malloc.Prelude.{
  ℕ, zero, suc, ◌+◌, ◌≤◌, ◌<◌, ◌≡◌, refl, ◌⊎◌, inl, inr, Bool, true, false, ◌&&◌, Option, none,
  some, List, [], ◌∷◌, arith, leb, get_or, length, dec_le, dec_lt,
}
use hplf_malloc.CheckedMath.{local_result}
use hplf_malloc.SizeClass.{
  class_count, max_small_size, capacities, find_class, size_class_for, size_class_capacity,
}

-- The capacity of a class, 0 from the class count on.
unfoldable pub capacity_at : ℕ → ℕ
capacity_at i = get_or capacities i 0

bounded : List ℕ → Bool
bounded [] = true
bounded (c ∷ cs) = (leb 16 c && leb c 4096) && bounded cs

entry_bounds :
    (table : List ℕ) (i : ℕ)
    → bounded table ≡ true
    → i < length table
    → (16 ≤ get_or table i 0) × (get_or table i 0 ≤ 4096)
unfolding bounded
entry_bounds [] i b h = absurd (omega arith)
entry_bounds (c ∷ cs) zero b h = ground arith
entry_bounds (c ∷ cs) (suc i) b h = entry_bounds cs i (ground arith) (omega arith)

-- Every class has room for at least 16 bytes and at most 4096 in a block.
pub capacity_bounds : (i : ℕ) → i < class_count → (16 ≤ capacity_at i) × (capacity_at i ≤ 4096)
unfolding capacity_at bounded
capacity_bounds i h = entry_bounds capacities i refl h

pub size_class_capacity-capacity_at :
    (i : ℕ) → i < class_count → local_result (size_class_capacity i) ≡ some (capacity_at i)
unfolding size_class_capacity capacity_at local_result
size_class_capacity-capacity_at i h = ground arith

-- Entry `i` of a table is the first that holds `size`.
pub record IsFirstFit (size : ℕ) (table : List ℕ) (i c : ℕ) : Type 0 where
  pub in_table : i < length table
  pub entry : get_or table i 0 ≡ c
  pub fits : size ≤ c
  pub first : (j : ℕ) → j < i → get_or table j 0 < size

below_cons :
    (size c n : ℕ) (cs : List ℕ)
    → c < size
    → ((j : ℕ) → j < n → get_or cs j 0 < size)
    → (j : ℕ) → j < suc n
    → get_or (c ∷ cs) j 0 < size
below_cons size c n cs small rest zero h = small
below_cons size c n cs small rest (suc j) h = rest j (omega arith)

-- The search finds the first fit, counted from the start index, or no entry holds the size.
find_class-IsFirstFit :
    (size start : ℕ) (table : List ℕ)
    → ((i : ℕ) × (c : ℕ) × (find_class size start table ≡ some (start + i, c))
        × IsFirstFit size table i c)
      ⊎ ((find_class size start table ≡ none)
          × ((j : ℕ) → j < length table → get_or table j 0 < size))
unfolding find_class
find_class-IsFirstFit size start [] = inr (refl, λ j h. absurd (omega arith))
find_class-IsFirstFit size start (c ∷ cs) = elim (dec_le size c) [
  | yes fits ↦ inl (
    0,
    c,
    ground arith,
    record {
      in_table = omega arith;
      entry = refl;
      fits = fits;
      first = λ j h. absurd (omega arith);
    },
  )
  | no small ↦ elim (find_class-IsFirstFit size (start + 1) cs) [
    | inl (i, d, found, fit) ↦ inl (
      suc i,
      d,
      ground arith,
      record {
        in_table = omega arith;
        entry = fit.entry;
        fits = fit.fits;
        first = below_cons size c i cs (omega arith) fit.first;
      },
    )
    | inr (missing, all) ↦ inr (ground arith, below_cons size c (length cs) cs (omega arith) all)
  ]
]

-- For every size from 1 to 4096 `hplf_size_class_for` returns the first class whose capacity holds
-- the size, and its capacity, and stores both; the class is below the class count and
-- `hplf_size_class_capacity` gives the same capacity for it.
pub size_class_for-IsFirstFit :
    (size old_index old_capacity : ℕ)
    → 0 < size
    → size ≤ max_small_size
    → (i : ℕ) × (c : ℕ) × (size_class_for size (some old_index) (some old_capacity)
        ≡ (true, some i, some c))
      × (i < class_count)
      × (size_class_capacity i (some old_capacity) ≡ (true, some c))
      × IsFirstFit size capacities i c
unfolding size_class_for size_class_capacity
size_class_for-IsFirstFit size old_index old_capacity pos small =
    elim (find_class-IsFirstFit size 0 capacities) [
      | inl (i, c, found, fit) ↦
          (i, c, ground arith, fit.in_table, ground (arith, fit.in_table, fit.entry), fit)
      | inr (missing, all) ↦ absurd (omega (arith, all 15 (omega arith)))
    ]

-- Zero and sizes above 4096 are refused, and so is a null output pointer: both targets are
-- unchanged.
pub size_class_for-refuses :
    (size : ℕ) (class_index class_capacity : Option ℕ)
    → (size ≡ 0) ⊎ (max_small_size < size) ⊎ (class_index ≡ none) ⊎ (class_capacity ≡ none)
    → size_class_for size class_index class_capacity ≡ (false, class_index, class_capacity)
unfolding size_class_for
size_class_for-refuses size class_index class_capacity h = ground arith

-- A greater size has no smaller class.
pub IsFirstFit-mono :
    {s t i j c d : ℕ} → s ≤ t → IsFirstFit s capacities i c → IsFirstFit t capacities j d → i ≤ j
IsFirstFit-mono {i} {j} h p q = elim (dec_lt j i) [
  | yes lt ↦ absurd (omega (arith, p.first j lt, q.fits, q.entry))
  | no ge ↦ omega arith
]
