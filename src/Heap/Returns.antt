-- ===== src/Heap/Returns.antt =====
-- Total correctness of a run: no fault, enough fuel, and a postcondition.
use hplf_malloc.Prelude.{◌≡◌, refl, subst, ◌⊎◌, inl, inr}
use hplf_malloc.Heap.{Run, ok, fault, out_of_fuel, Cmd, continue}

pub data Returns {S A : Type 0} (P : A → S → Type 0) : Run S A → Type 0 where
  returns : {a : A} {s : S} → P a s → Returns P (ok a s)

module _ {S A : Type 0} {P : A → S → Type 0} where
  pub bind :
      {B : Type 0} {Q : B → S → Type 0} {r : Run S A} {k : A → Cmd S B}
      → Returns P r
      → ((a : A) (s : S) → P a s → Returns Q (k a s))
      → Returns Q (continue r k)
  bind (returns p) next = next _ _ p

  pub weaken :
      {Q : A → S → Type 0} {r : Run S A}
      → Returns P r
      → ((a : A) (s : S) → P a s → Q a s)
      → Returns Q r
  weaken (returns p) f = returns (f _ _ p)

  -- The result and the final state of a run that returns.
  pub outcome : {r : Run S A} → Returns P r → (a : A) × (s : S) × (r ≡ ok a s) × P a s
  outcome (returns {a} {s} p) = (a, s, refl, p)

  -- What a run that returns gives is what was promised.
  pub value_at : {r : Run S A} {a : A} {s : S} → Returns P r → r ≡ ok a s → P a s
  value_at ret e = held (subst (λ q. Returns P q) e ret)
    where
      held : {b : A} {t : S} → Returns P (ok b t) → P b t
      held (returns p) = p

-- The three ways in which a run ends, as equations.
pub Run-cases :
    {S A : Type 0} (r : Run S A)
    → ((a : A) × (s : S) × (r ≡ ok a s)) ⊎ (r ≡ fault) ⊎ (r ≡ out_of_fuel)
Run-cases (ok a s) = inl (a, s, refl)
Run-cases fault = inr (inl refl)
Run-cases out_of_fuel = inr (inr refl)
