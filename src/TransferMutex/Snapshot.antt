-- ===== src/TransferMutex/Snapshot.antt =====
-- src/transfer_mutex.c: hplf_transfer_mutex_snapshot, which counts the shared blocks of each class.
use hplf_malloc.Prelude.{
  ℕ, zero, suc, ◌+◌, ◌≤◌, ◌<◌, ◌≡◌, refl, ap, ◌∙◌, List, arith, length, update, dec_lt,
}
use hplf_malloc.CheckedMath.{size_max}
use hplf_malloc.SizeClass.{class_count}
use hplf_malloc.Heap.{Ptr, Heap, Cmd, ok, pure, ◌>>=◌}
use hplf_malloc.Heap.Family.{IsFamily}
use hplf_malloc.Heap.Returns.{Returns, returns, weaken}
use hplf_malloc.TransferMutex.{Heads}
use hplf_malloc.ThreadCache.Snapshot.{chain_length, chain_length-ok}

-- The loop over the classes, with the classes that are left and the counts so far.
unfoldable pub count_classes : (fuel left index : ℕ) → Heads → (counts : ℕ → ℕ) → Cmd Heap (ℕ → ℕ)
count_classes fuel zero index heads counts = pure counts
count_classes fuel (suc left) index heads counts = do
  n ← chain_length fuel (heads index) 0
  count_classes fuel left (index + 1) heads (update counts index n)

-- `hplf_transfer_mutex_snapshot` into `counts`.
unfoldable pub transfer_snapshot : (fuel : ℕ) → Heads → (counts : ℕ → ℕ) → Cmd Heap (ℕ → ℕ)
transfer_snapshot fuel heads counts = count_classes fuel class_count 0 heads counts

-- The counts of the classes from `index` on are those of the chains, the ones before are kept.
record Counted (h : Heap) (lists : ℕ → List Ptr) (left index : ℕ) (counts r : ℕ → ℕ) (g : Heap)
    : Type 0 where
  same : g ≡ h
  before : (i : ℕ) → i < index → r i ≡ counts i
  lengths : (i : ℕ) → index ≤ i → i < index + left → r i ≡ length (lists i)

module _ {h : Heap} {heads : Heads} {lists : ℕ → List Ptr} (family : IsFamily h heads lists)
    (fuel : ℕ) (enough : (i : ℕ) → i < class_count → length (lists i) < fuel)
    (fits : (i : ℕ) → i < class_count → length (lists i) ≤ size_max) where
  count_classes-Counted :
      (left index : ℕ) (counts : ℕ → ℕ)
      → index + left ≤ class_count
      → Returns (Counted h lists left index counts) (count_classes fuel left index heads counts h)
  unfolding count_classes
  count_classes-Counted zero index counts inside =
      returns
        (record { same = refl; before = λ i lt. refl; lengths = λ i ge lt. absurd (omega arith) })
  count_classes-Counted (suc left) index counts inside =
      let below : index < class_count = omega arith in
      let n = length (lists index) in
      let counted : chain_length fuel (heads index) 0 h ≡ ok n h =
        chain_length-ok fuel 0 (family.chains index) (enough index below)
          (omega (arith, fits index below))
        ∙ ap (λ k. ok k h) (omega arith) in
      rw counted (
        weaken (count_classes-Counted left (index + 1) (update counts index n) (omega arith))
          λ r g is. record {
            same = is.same;
            before = λ i lt. is.before i (omega arith) ∙ ground arith;
            lengths = λ i ge lt. elim (dec_lt index i) [
              | yes later ↦ is.lengths i (omega arith) (omega arith)
              | no here ↦
                  let at : index ≡ i = omega arith in
                  is.before i (omega arith) ∙ ground (arith, ap (λ k. length (lists k)) at)
            ];
          })

  -- Where the heads are chains that share no block, with a fuel above each length and lengths that fit a
  -- size_t, the snapshot gives every class the number of its blocks and changes nothing.
  pub transfer_snapshot_lem :
      (counts : ℕ → ℕ)
      → Returns
          (λ r g. (g ≡ h) × ((i : ℕ) → i < class_count → r i ≡ length (lists i)))
          (transfer_snapshot fuel heads counts h)
  unfolding transfer_snapshot
  transfer_snapshot_lem counts =
      weaken (count_classes-Counted class_count 0 counts (omega arith))
        λ r g is. (is.same, λ i lt. is.lengths i (omega arith) (omega arith))
