-- ===== src/WorkerPool/JobQueue/Ends.antt =====
-- examples/worker_pool.c: the queue's beginning and end.
use hplf_malloc.Prelude.{
  ℕ, zero, suc, ◌+◌, ◌*◌, ◌≤◌, ◌<◌, ◌≡◌, refl, ap, ◌∙◌, Bool, true, false, ◌⊎◌, Bool-cases, inl,
  inr, some, List, [], ◌∷◌, arith, ◌==◌, length,
}
use hplf_malloc.CheckedMath.{size_max, wrap}
use hplf_malloc.WorkerPool.Job.{Job}
use hplf_malloc.WorkerPool.JobQueue.{
  JobQueue, queue_initialize, release_loop, queue_release_remaining,
}
use hplf_malloc.WorkerPool.JobQueue.Ring.{IsRing, after_pop, after_pop-IsRing}

release_loop-all :
    (fuel : ℕ) {q : JobQueue} (released : ℕ) (xs : List Job)
    → IsRing q xs
    → length xs < fuel
    → released + length xs ≤ size_max
    → (r : JobQueue) × (release_loop fuel q released ≡ some (released + length xs, r)) × IsRing r []
unfolding release_loop
release_loop-all zero released xs ring enough fits = absurd (omega arith)
release_loop-all (suc fuel) {q} released [] ring enough fits =
    let none_left : (q.count == 0) ≡ true = ground (arith, ring.count) in
    let same : released ≡ released + 0 = omega arith in
    (q, rw none_left (ap (λ n. some (n, q)) same), ring)
release_loop-all (suc fuel) {q} released (x ∷ xs) ring enough fits =
    let some_left : (q.count == 0) ≡ false = ground (arith, ring.count) in
    let (r, run, empty) =
      release_loop-all fuel {q = after_pop q} (wrap (released + 1)) xs (after_pop-IsRing ring)
        (omega arith) (omega arith) in
    let all : wrap (released + 1) + length xs ≡ released + suc (length xs) = omega arith in
    (r, rw some_left (run ∙ ap (λ n. some (n, r)) all), empty)

-- What is left in the queue at the end is released, one job after the other, and counted.
pub queue_release_remaining_lem :
    {q : JobQueue} (xs : List Job)
    → IsRing q xs
    → (r : JobQueue) × (queue_release_remaining q ≡ some (length xs, r)) × IsRing r []
queue_release_remaining_lem {q} xs ring =
    let (r, run, empty) =
      release_loop-all (q.count + 1) 0 xs ring (omega (arith, ring.count))
        (omega (arith, ring.count, ring.count_in, ring.size)) in
    (r, run ∙ ap (λ n. some (n, r)) (omega arith), empty)

-- Either the queue is ready, empty and open with all its resources, or nothing of it is in use.
pub queue_initialize_lem :
    (capacity : ℕ) (allocated : Bool) (mutex_error not_empty_error not_full_error : ℕ)
    → 0 < capacity
    → (allocated ≡ true → capacity * 8 ≤ size_max)
    → let (done, q, held) =
        queue_initialize capacity allocated mutex_error not_empty_error not_full_error in
      ((done ≡ true)
        × IsRing q []
        × (q.closed ≡ false)
        × (q.capacity ≡ capacity)
        × (held ≡ record { slots = true; mutex = true; not_empty = true; not_full = true }))
      ⊎ ((done ≡ false)
          × (held ≡ record { slots = false; mutex = false; not_empty = false; not_full = false }))
unfolding queue_initialize
queue_initialize_lem capacity allocated m e f pos granted = elim (Bool-cases allocated) [
  | inr refused ↦ simp refused (inr (refl, refl))
  | inl got ↦ elim (Bool-cases (m == 0)) [
    | inr bad ↦ simp (got, bad) (inr (refl, refl))
    | inl one ↦ elim (Bool-cases (e == 0)) [
      | inr bad ↦ simp (got, one, bad) (inr (refl, refl))
      | inl two ↦ elim (Bool-cases (f == 0)) [
        | inr bad ↦ simp (got, one, two, bad) (inr (refl, refl))
        | inl three ↦
            simp (got, one, two, three)
              (inl (
                refl,
                record {
                  jobs = tt;
                  count = refl;
                  head_in = pos;
                  count_in = omega arith;
                  size = granted got;
                },
                refl,
                refl,
                refl,
              ))
      ]
    ]
  ]
]
