-- ===== src/Allocator/Calloc.antt =====
-- src/allocator.c: hplf_calloc against the exact product of its arguments.
use native.Mathlib.Nat.{mul-pos}
use hplf_malloc.Prelude.{
  ℕ, zero, suc, ◌+◌, ◌≢◌, sym, ap, subst, ◌∙◌, ◌*◌, ◌≤◌, ◌<◌, ◌≡◌, refl, true, false, ◌||◌,
  Bool-cases, inl, inr, none, some, arith, leb, ◌==◌, if◌then◌else◌,
}
use hplf_malloc.CheckedMath.{size_max, size_multiply, local_result}
use hplf_malloc.CheckedMath.Exact.{size_multiply-exactly}
use hplf_malloc.Heap.{Ptr, null, ok, fault, out_of_fuel, Run, Cmd, pure, ◌>>=◌, ◌>>◌}
use hplf_malloc.World.{Platform, World, enomem, on_heap}
use hplf_malloc.Allocator.{Variant, malloc, calloc, zero_bytes}

-- `n` bytes from `a` on are 0, and nothing else differs.
pub record Zeroed (a : Ptr) (n : ℕ) (w v : World) : Type 0 where
  pub zero : (b : ℕ) → a ≤ b → b < a + n → v.heap.byte b ≡ 0
  pub before : (b : ℕ) → b < a → v.heap.byte b ≡ w.heap.byte b
  pub behind : (b : ℕ) → a + n ≤ b → v.heap.byte b ≡ w.heap.byte b
  pub same : v ≡ record w { heap = record w.heap { byte = v.heap.byte } }

-- What a request for `n` bytes, `n` of any size, answers when it is to be cleared.
pub data Answered (p : Platform) (v : Variant) (n : ℕ) (w : World) : Run World Ptr → Type 0 where
  nothing_asked : n ≡ 0 → Answered p v n w (ok null w)
  too_large : size_max < n → Answered p v n w (ok null (record w { errno = enomem }))
  -- As `hplf_malloc`, where it returns null or does not return.
  refused :
      {u : World} → 0 < n → n ≤ size_max → malloc p v n w ≡ ok null u → Answered p v n w (ok null u)
  faults : 0 < n → n ≤ size_max → malloc p v n w ≡ fault → Answered p v n w fault
  runs_out : 0 < n → n ≤ size_max → malloc p v n w ≡ out_of_fuel → Answered p v n w out_of_fuel
  granted :
      {a : Ptr} {u z : World}
      → 0 < n
      → n ≤ size_max
      → malloc p v n w ≡ ok a u
      → a ≢ null
      → Zeroed a n u z
      → Answered p v n w (ok a z)

-- What follows the request in `hplf_calloc`.
abbrev and_clear : ℕ → Run World Ptr → Run World Ptr
and_clear n (ok a u) =
    if a == null then ok null u else ok a (record u { heap = zero_bytes a n u.heap })
and_clear n fault = fault
and_clear n out_of_fuel = out_of_fuel

zero_bytes-Zeroed : (a n : ℕ) (u : World) → Zeroed a n u (record u { heap = zero_bytes a n u.heap })
zero_bytes-Zeroed a n u = record {
  zero = λ b ge lt. ground arith;
  before = λ b lt. ground arith;
  behind = λ b ge. ground arith;
  same = refl;
}

clear_step :
    (n : ℕ) (request : Cmd World Ptr) (w : World)
    → (request >>= λ pointer.
          if pointer == null
          then pure null
          else (do on_heap (λ h. ok tt (zero_bytes pointer n h)); pure pointer))
        w
      ≡ and_clear n (request w)
clear_step n request w = go (request w) refl
  where
    go :
        (r : Run World Ptr)
        → request w ≡ r
        → (request >>= λ pointer.
              if pointer == null
              then pure null
              else (do on_heap (λ h. ok tt (zero_bytes pointer n h)); pure pointer))
            w
          ≡ and_clear n (request w)
    go (ok a u) e = elim (Bool-cases (a == null)) [
      | inl none_left ↦ rw (e, none_left) refl
      | inr some_left ↦ rw (e, some_left) refl
    ]
    go fault e = rw e refl
    go out_of_fuel e = rw e refl

and_clear-Answered :
    (p : Platform) (v : Variant) (n : ℕ) (w : World) (r : Run World Ptr)
    → 0 < n
    → n ≤ size_max
    → malloc p v n w ≡ r
    → Answered p v n w (and_clear n r)
and_clear-Answered p v n w (ok a u) pos fits run = elim (Bool-cases (a == null)) [
  | inl none_left ↦
      let is_null : a ≡ null = ground arith in
      rw none_left (refused pos fits (run ∙ ap (λ t. ok t u) is_null))
  | inr some_left ↦ rw some_left (granted pos fits run (ground arith) (zero_bytes-Zeroed a n u))
]
and_clear-Answered p v n w fault pos fits run = faults pos fits run
and_clear-Answered p v n w out_of_fuel pos fits run = runs_out pos fits run

local_product :
    (a b : ℕ)
    → a ≤ size_max
    → b ≤ size_max
    → local_result (size_multiply a b) ≡ (if leb (a * b) size_max then some (a * b) else none)
unfolding local_result
local_product a b ha hb = rw (size_multiply-exactly a b (some 0) ha hb) (ground arith)

product_zero : (a b : ℕ) → (a == 0 || b == 0) ≡ true → a * b ≡ 0
product_zero zero b e = omega arith
product_zero (suc a) zero e = omega arith
product_zero (suc a) (suc b) e = absurd (clash (ground arith))
  where
    clash : false ≡ true → ⊥
    clash same = cc

-- For every count and size of size_t, `hplf_calloc` answers by their exact product: null and nothing
-- done where it is 0, null with errno ENOMEM and nothing else done where it exceeds a size_t, and
-- otherwise what `hplf_malloc` returns for the product; where that is an address, exactly that many
-- bytes from there on are then 0, and nothing else differs from what `hplf_malloc` left.
pub calloc-Answered :
    (p : Platform) (v : Variant) (count size : ℕ) (w : World)
    → count ≤ size_max
    → size ≤ size_max
    → Answered p v (count * size) w (calloc p v count size w)
unfolding calloc
calloc-Answered p v count size w count_fits size_fits =
    elim (Bool-cases (count == 0 || size == 0)) [
      | inl none_asked ↦ rw none_asked (nothing_asked (product_zero count size none_asked))
      | inr asked ↦
          let some_count : 0 < count = ground arith in
          let some_size : 0 < size = ground arith in
          let pos = mul-pos some_count some_size in
          elim (Bool-cases (leb (count * size) size_max)) [
            | inl fits ↦
                let run = malloc p v (count * size) w in
                rw (asked, local_product count size count_fits size_fits, fits)
                  (subst (λ r. Answered p v (count * size) w r)
                    (sym (clear_step (count * size) (malloc p v (count * size)) w))
                    (and_clear-Answered p v (count * size) w run pos (ground arith) refl))
            | inr over ↦
                rw (asked, local_product count size count_fits size_fits, over)
                  (too_large (ground arith))
          ]
    ]
