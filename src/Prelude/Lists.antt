-- ===== src/Prelude/Lists.antt =====
-- Lists measured by native numbers, membership of numbers as a test, and families by class index.
use Prim.Native.Nat.{ℕ, zero, suc, ◌+◌, ◌-◌, ◌≤◌, ◌<◌, min}
use mathlib.Core.Logic.{◌⊎◌, inl, inr}
use mathlib.Core.Path.{◌≡◌, refl, ap, fun_ext}
use mathlib.Core.Bool.{Bool, false, ◌||◌}
use mathlib.Core.List.{List, [], ◌∷◌, ◌++◌}
use native.Mathlib.Omega.{arith}
use package.hplf_malloc.Prelude.Tests.{◌==◌, if◌then◌else◌}
use native.Mathlib.Decide.{dec_lt, ℕ_discrete}

module _ {ℓ} {A : Type ℓ} where
  abbrev pub length : List A → ℕ
  length [] = 0
  length (x ∷ xs) = suc (length xs)

  abbrev pub get_or : List A → ℕ → A → A
  get_or [] i d = d
  get_or (x ∷ xs) zero d = x
  get_or (x ∷ xs) (suc i) d = get_or xs i d

  abbrev pub take : ℕ → List A → List A
  take zero xs = []
  take (suc n) [] = []
  take (suc n) (x ∷ xs) = x ∷ take n xs

  abbrev pub drop : ℕ → List A → List A
  drop zero xs = xs
  drop (suc n) [] = []
  drop (suc n) (x ∷ xs) = drop n xs

  pub length-append : (xs ys : List A) → length (xs ++ ys) ≡ length xs + length ys
  length-append [] ys = omega arith
  length-append (x ∷ xs) ys = omega (arith, length-append xs ys)

module _ {ℓ} {A : Type ℓ} where
  pub length-take : (n : ℕ) (xs : List A) → length (take n xs) ≡ min n (length xs)
  length-take zero xs = omega arith
  length-take (suc n) [] = omega arith
  length-take (suc n) (x ∷ xs) = omega (arith, length-take n xs)

  pub length-drop : (n : ℕ) (xs : List A) → length (drop n xs) ≡ length xs - n
  length-drop zero xs = omega arith
  length-drop (suc n) [] = omega arith
  length-drop (suc n) (x ∷ xs) = omega (arith, length-drop n xs)

pub List-cases {ℓ} :
    {A : Type ℓ} (xs : List A) → (xs ≡ []) ⊎ ((y : A) × (ys : List A) × (xs ≡ y ∷ ys))
List-cases [] = inl refl
List-cases (x ∷ xs) = inr (x, xs, refl)

-- Membership of an address in a list of addresses.
abbrev pub has : ℕ → List ℕ → Bool
has a [] = false
has a (x ∷ xs) = (a == x) || has a xs

pub has-append : (a : ℕ) (xs ys : List ℕ) → has a (xs ++ ys) ≡ (has a xs || has a ys)
has-append a [] ys = refl
has-append a (x ∷ xs) ys = ground (arith, has-append a xs ys)

-- An array indexed by class, as a function: `a[i] = v`.
abbrev pub update {ℓ} : {A : Type ℓ} → (ℕ → A) → ℕ → A → ℕ → A
update f i v j = if i == j then v else f j

-- The sum of the first `n` entries.
unfoldable pub sum_below : ℕ → (ℕ → ℕ) → ℕ
sum_below zero f = 0
sum_below (suc n) f = sum_below n f + f n

sum_below-update_above :
    (n : ℕ) (f : ℕ → ℕ) (i a : ℕ) → n ≤ i → sum_below n (update f i a) ≡ sum_below n f
unfolding sum_below
sum_below-update_above zero f i a h = refl
sum_below-update_above (suc n) f i a h = ground (arith, sum_below-update_above n f i a)

pub sum_below-update :
    (n : ℕ) (f : ℕ → ℕ) (i a : ℕ) → i < n → sum_below n (update f i a) + f i ≡ sum_below n f + a
unfolding sum_below
sum_below-update zero f i a h = absurd (omega arith)
sum_below-update (suc n) f i a h = elim (dec_lt i n) [
  | yes below ↦ ground (arith, sum_below-update n f i a below)
  | no last ↦ ground (arith, sum_below-update_above n f i a)
]

pub sum_below-ge : (n : ℕ) (f : ℕ → ℕ) (i : ℕ) → i < n → f i ≤ sum_below n f
unfolding sum_below
sum_below-ge zero f i h = absurd (omega arith)
sum_below-ge (suc n) f i h = elim (dec_lt i n) [
  | yes below ↦ omega (arith, sum_below-ge n f i below)
  | no last ↦ let same : i ≡ n = omega arith in omega (arith, ap f same)
]

pub sum_below-eq :
    (n : ℕ) (f g : ℕ → ℕ) → ((i : ℕ) → i < n → f i ≡ g i) → sum_below n f ≡ sum_below n g
unfolding sum_below
sum_below-eq zero f g h = refl
sum_below-eq (suc n) f g h =
    omega (arith, sum_below-eq n f g (λ i lt. h i (omega arith)), h n (omega arith))

pub sum_below-eq-zero : (n : ℕ) (f : ℕ → ℕ) → ((i : ℕ) → i < n → f i ≡ 0) → sum_below n f ≡ 0
unfolding sum_below
sum_below-eq-zero zero f h = refl
sum_below-eq-zero (suc n) f h =
    omega (arith, sum_below-eq-zero n f (λ i lt. h i (omega arith)), h n (omega arith))

pub update_self {ℓ} : {A : Type ℓ} (f : ℕ → A) (i : ℕ) → update f i (f i) ≡ f
update_self f i =
    fun_ext λ j. elim (ℕ_discrete i j) [ yes e ↦ ground (arith, ap f e) | no ne ↦ ground arith ]
