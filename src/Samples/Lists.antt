-- ===== src/Samples/Lists.antt =====
-- The theorems on transfer lists and shared heads, on chains of 5 and 3 blocks.
use hplf_malloc.Prelude.{
  ℕ, ◌≡◌, refl, List, [], arith, update, length, ◌<◌, ◌≤◌, Bool-cases, inl, inr, ◌==◌,
}
use hplf_malloc.Heap.{Ptr, null}
use hplf_malloc.Heap.Family.{IsFamily}
use hplf_malloc.Heap.Returns.{Returns}
use hplf_malloc.TransferList.{TransferList, take_prefix}
use hplf_malloc.TransferList.Prefix.{Owns, Cut, take_prefix-Cut}
use hplf_malloc.TransferMutex.{Heads, publish, detach}
use hplf_malloc.CheckedMath.{size_max}
use hplf_malloc.TransferMutex.Snapshot.{transfer_snapshot, transfer_snapshot_lem}
use hplf_malloc.SizeClass.{class_count}
use hplf_malloc.TransferMutex.Refines.{Published, publish-Published, detach-Owns}
use hplf_malloc.Samples.{memory, down, down-Chain, sample-IsFamily, sample_apart}

abbrev pub five : TransferList
five = record { first = 80; last = 16; count = 5 }

abbrev pub three : TransferList
three = record { first = 56; last = 24; count = 3 }

pub three-Owns : Owns memory three (down 8 3)
three-Owns = record { chain = down-Chain 8 3 (omega arith); last = refl; count = refl }

take_prefix-Cut_example : Returns (Cut memory 2 (down 0 5) 16) (take_prefix five 2 memory)
take_prefix-Cut_example =
    take_prefix-Cut {source = five} 2 (down-Chain 0 5 (omega arith)) refl (omega arith)
      (omega arith)

abbrev heads : Heads
heads = update (λ j. null) 15 80

abbrev lists : ℕ → List Ptr
lists = update (λ j. []) 15 (down 0 5)

publish-Published_example :
    Returns (Published memory heads lists 15 (down 8 3)) (publish 15 three heads memory)
publish-Published_example = publish-Published 15 (sample-IsFamily 5) three-Owns (sample_apart 3 5)

detach-Owns_example :
    Returns
      (λ r g. Owns g r.0 (down 0 5) × IsFamily g r.1 (update lists 15 []) × (g ≡ memory))
      (detach 6 15 heads memory)
detach-Owns_example = detach-Owns 6 15 (sample-IsFamily 5) (omega arith) (omega arith)

short : (i : ℕ) → i < class_count → length (lists i) < 6
short i lt = elim (Bool-cases (15 == i)) [
  | inl here ↦ rw here (omega arith)
  | inr away ↦ rw away (omega arith)
]

short_enough : (i : ℕ) → i < class_count → length (lists i) ≤ size_max
short_enough i lt = omega (arith, short i lt)

transfer_snapshot_lem_example :
    Returns
      (λ r g. (g ≡ memory) × ((i : ℕ) → i < class_count → r i ≡ length (lists i)))
      (transfer_snapshot 6 heads (λ i. 0) memory)
transfer_snapshot_lem_example =
    transfer_snapshot_lem (sample-IsFamily 5) 6 short short_enough (λ i. 0)
