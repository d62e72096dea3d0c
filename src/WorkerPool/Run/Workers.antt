-- ===== src/WorkerPool/Run/Workers.antt =====
-- examples/worker_pool.c: a step of a worker keeps the ledger.
use hplf_malloc.Prelude.{
  ℕ, ◌+◌, ◌≤◌, ◌<◌, ◌≡◌, refl, ap, subst, ◌∙◌, true, ◌⊎◌, inl, inr, none, some, List, [], arith,
  ◌==◌, ltb, update, sum_below-ge, Bool-cases, ℕ_discrete,
}
use hplf_malloc.CheckedMath.{size_max, wrap}
use hplf_malloc.WorkerPool.Job.{Job, job_checksum}
use hplf_malloc.WorkerPool.JobQueue.{
  JobQueue, Section, returned, Popped, queue_pop, pop_test, queue_close,
}
use hplf_malloc.WorkerPool.JobQueue.Ring.{IsRing, PoppedAs, gives, drains, empty, pop_test-PoppedAs}
use hplf_malloc.WorkerPool.State.{
  WorkerPc, not_started, popping, working, leaving, ended, crashed, WorkerResult, Worker,
  Configuration, Answers,
}
use hplf_malloc.WorkerPool.Run.{popped, mark_job, check_job, worker_run}
use hplf_malloc.WorkerPool.Run.Ledger.{total, at_hand, is_id, one, AllMade, IsWorker, Ledger}
use hplf_malloc.WorkerPool.Run.Changes.{worker_change}

-- The ledger after a step of worker `i`, with what is then in the queue.
abbrev Kept :
    Configuration
    → (ws : ℕ → Worker) → (i produced expected : ℕ) → Worker × JobQueue × (ℕ → ℕ)
    → Type 0
Kept config ws i produced expected (w, r, marks) =
    (ys : List Job) × Ledger config.workers config.jobs r marks (update ws i w) produced expected ys

-- `queue_pop` fails without a change, or does what it does at the lock.
pub queue_pop-answers :
    (error : ℕ) (q : JobQueue)
    → (queue_pop error q ≡ pop_test q) ⊎ (queue_pop error q ≡ returned Popped.failed q)
unfolding queue_pop
queue_pop-answers error q = elim (Bool-cases (error == 0)) [
  | inl ok ↦ rw ok (inl refl)
  | inr bad ↦ rw bad (inr refl)
]

module _ (config : Configuration) {q : JobQueue} {seen : ℕ → ℕ} {ws : ℕ → Worker}
    {produced expected : ℕ} {xs : List Job}
    (ledger : Ledger config.workers config.jobs q seen ws produced expected xs) (i : ℕ)
    (below : i < config.workers) (result : WorkerResult) where
  -- A step that changes neither the queue nor what the worker has at hand.
  stays :
      (pc : WorkerPc)
      → ws i ≡ record { pc = pc; result = result }
      → Kept config ws i produced expected (record { pc = pc; result = result }, q, seen)
  stays pc at = (
    xs,
    worker_change ledger i (record { pc = pc; result = result })
        (record { pc = pc; result = result }) seen xs below at ledger.ring ledger.made
        (subst (λ v. IsWorker config.jobs q.closed xs v) at (ledger.each i below)) (λ both. both)
        (λ id. refl) refl refl,
  )

  -- A job at hand is marked neither by this worker nor by another.
  unseen :
      (job : Job) → ws i ≡ record { pc = working (some job); result = result } → seen job.id ≡ 0
  unseen job at =
      let here = sum_below-ge config.workers (λ j. at_hand (is_id job.id) (ws j).pc) i below in
      let mine : at_hand (is_id job.id) (ws i).pc ≡ 1 =
        ap (λ v. at_hand (is_id job.id) v.pc) at ∙ ground arith in
      ground (arith, here, mine, ledger.once job.id)

  -- A worker with a job at hand has processed fewer jobs than there are.
  not_yet :
      (job : Job)
      → ws i ≡ record { pc = working (some job); result = result }
      → result.consumed < produced
  not_yet job at =
      let here = sum_below-ge config.workers (λ j. at_hand one (ws j).pc) i below in
      let mine : at_hand one (ws i).pc ≡ 1 = ap (λ v. at_hand one v.pc) at in
      let counted = sum_below-ge config.workers (λ j. (ws j).result.consumed) i below in
      let same : (ws i).result.consumed ≡ result.consumed = ap (λ v. v.result.consumed) at in
      omega (arith, here, mine, counted, same, ledger.tally)

  facts_at :
      (pc : WorkerPc)
      → ws i ≡ record { pc = pc; result = result }
      → IsWorker config.jobs q.closed xs (record { pc = pc; result = result })
  facts_at pc at = subst (λ v. IsWorker config.jobs q.closed xs v) at (ledger.each i below)

  processed :
      (job : Job)
      → produced ≤ size_max
      → ws i ≡ record { pc = working (some job); result = result }
      → (mark_job config.jobs seen result job ≡ (update seen job.id 1, result))
        × (check_job result job ≡ record result {
          checksum = wrap (result.checksum + job_checksum job);
          consumed = result.consumed + 1;
        })
  unfolding mark_job check_job
  processed job fits at =
      let is = facts_at (working (some job)) at in
      let inside : ltb job.id config.jobs ≡ true = ground (arith, is.facts.0.0) in
      let new : (seen job.id == 0) ≡ true = ground (arith, unseen job at) in
      let count : wrap (result.consumed + 1) ≡ result.consumed + 1 =
        omega (arith, not_yet job at) in
      (simp (inside, new) refl, simp (is.facts.0.1, count) refl)

  processes :
      (job : Job)
      → produced ≤ size_max
      → ws i ≡ record { pc = working (some job); result = result }
      → Kept config ws i produced expected (
        record {
          pc = popping;
          result = record result {
            checksum = wrap (result.checksum + job_checksum job);
            consumed = result.consumed + 1;
          };
        },
        q,
        update seen job.id 1,
      )
  processes job fits at =
      let before : Worker = record { pc = working (some job); result = result } in
      let is = facts_at (working (some job)) at in
      let none_yet = unseen job at in
      (
        xs,
        worker_change ledger i before
            (record {
              pc = popping;
              result = record result {
                checksum = wrap (result.checksum + job_checksum job);
                consumed = result.consumed + 1;
              };
            })
            (update seen job.id 1) xs below at ledger.ring ledger.made
            (record { duplicates = is.duplicates; invalids = is.invalids; facts = is.facts.1 })
            (λ both. both)
            (λ id. elim (ℕ_discrete job.id id) [
              | yes e ↦ ground (arith, none_yet, ap seen e)
              | no ne ↦ ground arith
            ])
            (omega arith) (omega arith),
      )

  pops :
      {s : Section Popped}
      → PoppedAs q xs s
      → ws i ≡ record { pc = popping; result = result }
      → Kept config ws i produced expected (popped result seen s)
  pops (gives job rest r e ring shut cap) at =
      let is = facts_at popping at in
      let made = subst (λ t. AllMade config.jobs t) e ledger.made in
      (
        rest,
        worker_change ledger i (record { pc = popping; result = result })
            (record { pc = working (some job); result = result }) seen rest below at ring made.1
            (record {
              duplicates = is.duplicates;
              invalids = is.invalids;
              facts = (made.0, is.facts);
            })
            (λ both. absurd (cc (both.1, e))) (λ id. omega (arith, ap (total (is_id id)) e))
            (omega (arith, ap (total one) e)) (ap wrap (omega (arith, ap (total job_checksum) e))),
      )
  pops (drains shut e) at =
      let is = facts_at popping at in
      (
        xs,
        worker_change ledger i (record { pc = popping; result = result })
            (record { pc = ended; result = result }) seen xs below at ledger.ring ledger.made
            (record { duplicates = is.duplicates; invalids = is.invalids; facts = inr (shut, e) })
            (λ both. both) (λ id. refl) refl refl,
      )
  pops (empty still_open e) at = stays popping at

  fails :
      ws i ≡ record { pc = popping; result = result }
      → Kept config ws i produced expected
          (record { pc = leaving; result = record result { queue_error = true } }, q, seen)
  fails at =
      let is = facts_at popping at in
      (
        xs,
        worker_change ledger i (record { pc = popping; result = result })
            (record { pc = leaving; result = record result { queue_error = true } }) seen xs below
            at ledger.ring ledger.made
            (record { duplicates = is.duplicates; invalids = is.invalids; facts = refl })
            (λ both. both) (λ id. refl) refl refl,
      )

  leaves :
      (error first_broadcast second_broadcast unlock_error : ℕ)
      → ws i ≡ record { pc = leaving; result = result }
      → let (_, r) = queue_close error first_broadcast second_broadcast unlock_error q in
        Kept config ws i produced expected (record { pc = ended; result = result }, r, seen)
  unfolding queue_close
  leaves error b c d at =
      let is = facts_at leaving at in
      let done =
        λ (r : JobQueue) (ring : IsRing r xs)
            (keep : (q.closed ≡ true) × (xs ≡ []) → (r.closed ≡ true) × (xs ≡ [])).
          worker_change ledger i (record { pc = leaving; result = result })
            (record { pc = ended; result = result }) {r = r} seen xs below at ring ledger.made
            (record { duplicates = is.duplicates; invalids = is.invalids; facts = inl is.facts })
            keep (λ id. refl) refl refl in
      elim (Bool-cases (error == 0)) [
        | inr bad ↦ simp bad (xs, done q ledger.ring (λ both. both))
        | inl ok ↦ simp ok (
          xs,
          done (record q { closed = true })
              (record {
                jobs = ledger.ring.jobs;
                count = ledger.ring.count;
                head_in = ledger.ring.head_in;
                count_in = ledger.ring.count_in;
                size = ledger.ring.size;
              })
              (λ both. (refl, both.1)),
        )
      ]

  -- Whatever the calls answer, a step of a worker keeps the ledger.
  pub worker_run-Ledger :
      (answers : Answers) (pc : WorkerPc)
      → produced ≤ size_max
      → ws i ≡ record { pc = pc; result = result }
      → Kept config ws i produced expected (worker_run config answers pc result q seen)
  unfolding worker_run
  worker_run-Ledger answers not_started fits at = stays not_started at
  worker_run-Ledger answers popping fits at = elim (queue_pop-answers answers.error q) [
    | inl test ↦ rw test (pops (pop_test-PoppedAs xs ledger.ring) at)
    | inr bad ↦ rw bad (fails at)
  ]
  worker_run-Ledger answers (working none) fits at = absurd (facts_at (working none) at).facts
  worker_run-Ledger answers (working (some job)) fits at =
      let (marked, checked) = processed job fits at in
      simp (marked, checked) (processes job fits at)
  worker_run-Ledger answers leaving fits at =
      leaves answers.error answers.first_broadcast answers.second_broadcast answers.unlock_error at
  worker_run-Ledger answers ended fits at = stays ended at
  worker_run-Ledger answers crashed fits at = stays crashed at
