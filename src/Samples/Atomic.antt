-- ===== src/Samples/Atomic.antt =====
-- The theorems on the atomic transfers: thread 0 holds three blocks, class 15 has five shared ones,
-- and the other threads hold none.
use hplf_malloc.Prelude.{◌≡◌, refl, inl, inr, Bool-cases, [], arith, ◌==◌, update}
use hplf_malloc.Heap.{Ptr, null}
use hplf_malloc.Heap.Chain.{nil}
use hplf_malloc.Heap.Returns.{Returns}
use hplf_malloc.TransferList.{cleared}
use hplf_malloc.TransferMutex.{publish}
use hplf_malloc.TransferAtomic.{
  Shared, holding, observing, begin_publish, step, System, Reach, here, later, move,
}
use hplf_malloc.TransferAtomic.Ownership.{at_rest, Owned}
use hplf_malloc.TransferAtomic.Invariant.{Blocks, Inv, Next}
use hplf_malloc.TransferAtomic.Safety.{step-Next}
use hplf_malloc.TransferAtomic.Conservation.{Acts, Located, Reach-Acts}
use hplf_malloc.TransferAtomic.Alone.{
  publishing, alone, as_atomic, Finishes, alone-publish, alone-Finishes,
}
use hplf_malloc.Samples.{memory, start, down, sample-IsFamily, sample_apart}
use hplf_malloc.Samples.Lists.{three, three-Owns}

abbrev shared_memory : Shared
shared_memory = record { heap = memory; heads = update (λ j. null) 15 (start 0 5) }

abbrev threads : System
threads = record { memory = shared_memory; pc = update (λ t. holding cleared) 0 (holding three) }

abbrev places : Blocks
places = record { shared = update (λ j. []) 15 (down 0 5); private = update (λ t. []) 0 (down 8 3) }

three-Owned : Owned memory (holding three) (down 8 3)
three-Owned = at_rest (record { chain = three-Owns.chain; last = three-Owns.last; count = refl })

places-Inv : Inv threads places
places-Inv = record {
  family = sample-IsFamily 5;
  owned = λ t. elim (Bool-cases (0 == t)) [
    | inl first ↦ rw first three-Owned
    | inr other ↦ rw other (at_rest (record { chain = nil refl; last = refl; count = refl }))
  ];
  apart = λ t i. elim (Bool-cases (0 == t)) [
    | inl first ↦ rw first (sample_apart 3 5 i)
    | inr other ↦ rw other (λ a hit. cc)
  ];
  threads = λ t u ne. elim (Bool-cases (0 == t)) [
    | inl first ↦ elim (Bool-cases (0 == u)) [
      | inl same ↦ absurd (ne (ground arith))
      | inr other ↦ rw (first, other) (λ a hit. refl)
    ]
    | inr other ↦ rw other (λ a hit. cc)
  ];
}

step-Next_example :
    Returns (Next threads places 0) (step (publishing 15) (holding three) shared_memory)
step-Next_example = step-Next places-Inv 0 (publishing 15)

-- Thread 0 starts to publish, and thread 1 detaches the class before thread 0 goes on.
abbrev observed : System
observed = record {
  memory = shared_memory;
  pc = update threads.pc 0 (observing 15 three (start 0 5));
}

first_step : Reach threads observed
unfolding step begin_publish
first_step = later here (move 0 (publishing 15) refl)

Reach-Acts_example :
    (c : Blocks) × Acts places c × Inv observed c × ((a : Ptr) → Located places a → Located c a)
Reach-Acts_example = Reach-Acts places-Inv first_step

alone-Finishes_example : Finishes (publishing 15) (holding three) shared_memory 8
alone-Finishes_example = alone-Finishes (publishing 15) refl three-Owned

alone-publish_example :
    alone 3 (publishing 15) (holding three) shared_memory
    ≡ as_atomic (publish 15 three shared_memory.heads memory)
alone-publish_example = alone-publish 15 three shared_memory
