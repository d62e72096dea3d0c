-- ===== src/TransferAtomic/Conservation.antt =====
-- Any number of steps: the system refines its specification, and no block is lost.
use hplf_malloc.Prelude.{
  ℕ, ◌≡◌, sym, subst, true, Bool-cases, inl, inr, [], arith, ◌==◌, has, has-append,
}
use hplf_malloc.Heap.{Ptr}
use hplf_malloc.Heap.Returns.{value_at}
use hplf_malloc.TransferAtomic.{System, move, Reach, here, later}
use hplf_malloc.TransferAtomic.Invariant.{Blocks, Act, stay, push, pop, Inv}
use hplf_malloc.TransferAtomic.Safety.{step-Next}

-- Any number of pushes and removals, by any threads.
pub data Acts (b : Blocks) : Blocks → Type 0 where
  start : Acts b b
  after : {c d : Blocks} (t : ℕ) → Acts b c → Act c t d → Acts b d

-- A place of a block.
pub data Located (b : Blocks) (a : Ptr) : Type 0 where
  at_class : (i : ℕ) → has a (b.shared i) ≡ true → Located b a
  at_thread : (t : ℕ) → has a (b.private t) ≡ true → Located b a

Act-Located : {b : Blocks} {t : ℕ} {c : Blocks} (a : Ptr) → Act b t c → Located b a → Located c a
Act-Located a stay place = place
Act-Located {b} {t} a (push i) (at_class j hit) = elim (Bool-cases (i == j)) [
  | inl here' ↦
      let same : i ≡ j = ground arith in
      at_class j (
        rw here' (
          ground (
            arith,
            has-append a (b.private t) (b.shared i),
            subst (λ k. has a (b.shared k) ≡ true) (sym same) hit,
          )))
  | inr away ↦ at_class j (rw away hit)
]
Act-Located {b} {t} a (push i) (at_thread u hit) = elim (Bool-cases (t == u)) [
  | inl mine ↦
      let same : t ≡ u = ground arith in
      at_class i (
        ground (
          arith,
          has-append a (b.private t) (b.shared i),
          subst (λ k. has a (b.private k) ≡ true) (sym same) hit,
        ))
  | inr other ↦ at_thread u (rw other hit)
]
Act-Located {b} {t} a (pop i free) (at_class j hit) = elim (Bool-cases (i == j)) [
  | inl here' ↦
      let same : i ≡ j = ground arith in
      at_thread t (ground (arith, subst (λ k. has a (b.shared k) ≡ true) (sym same) hit))
  | inr away ↦ at_class j (rw away hit)
]
Act-Located {b} {t} a (pop i free) (at_thread u hit) = elim (Bool-cases (t == u)) [
  | inl mine ↦
      let same : t ≡ u = ground arith in
      absurd (
        not_here (
          subst (λ l. has a l ≡ true) free
            (subst (λ k. has a (b.private k) ≡ true) (sym same) hit)))
  | inr other ↦ at_thread u (rw other hit)
]
  where
    not_here : has a [] ≡ true → ⊥
    not_here e = cc

Acts-Located : {b c : Blocks} (a : Ptr) → Acts b c → Located b a → Located c a
Acts-Located a start place = place
Acts-Located a (after t acts act) place = Act-Located a act (Acts-Located a acts place)

-- Every interleaving of the threads' steps refines pushes and removals of whole lists: where memory
-- held the lists of `b`, it holds lists that such operations lead to, no block is in two places, and
-- every block that was shared or private is still shared or private.
pub Reach-Acts :
    {s u : System} {b : Blocks}
    → Inv s b
    → Reach s u
    → (c : Blocks) × Acts b c × Inv u c × ((a : Ptr) → Located b a → Located c a)
Reach-Acts {b} inv here = (b, start, inv, λ a place. place)
Reach-Acts inv (later before (move t c e)) =
    let (mid, acts, held, kept) = Reach-Acts inv before in
    let next = value_at (step-Next held t c) e in
    let all = after t acts next.act in
    (next.blocks, all, next.inv, λ a place. Acts-Located a all place)
