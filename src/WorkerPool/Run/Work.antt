-- ===== src/WorkerPool/Run/Work.antt =====
-- examples/worker_pool.c: how much there is still to do, and what a step of a worker takes from it.
use hplf_malloc.Prelude.{
  ℕ, ◌+◌, ◌-◌, ◌*◌, ◌<◌, ◌≡◌, ◌≢◌, refl, ap, ◌∙◌, false, ◌⊎◌, inl, inr, none, some, List, arith,
  ◌==◌, length, sum_below, Bool-cases,
}
use hplf_malloc.WorkerPool.Job.{Job}
use hplf_malloc.WorkerPool.JobQueue.{JobQueue, Section, Popped, queue_close}
use hplf_malloc.WorkerPool.JobQueue.Ring.{IsRing, PoppedAs, gives, drains, empty, pop_test-PoppedAs}
use hplf_malloc.WorkerPool.State.{
  Configuration, Answers, WorkerPc, not_started, popping, working, leaving, ended, crashed,
  WorkerResult, Worker, MainPc, starting, producing, pushing, closing, joining, joined, Pool,
}
use hplf_malloc.WorkerPool.Run.{popped, worker_run}
use hplf_malloc.WorkerPool.Run.Workers.{queue_pop-answers}

abbrev pub worker_work : WorkerPc → ℕ
worker_work not_started = 3
worker_work popping = 2
worker_work (working job) = 3
worker_work leaving = 1
worker_work ended = 0
worker_work crashed = 0

-- A job takes four steps: it is made, pushed, popped and processed.
abbrev pub main_work : Configuration → MainPc → ℕ
main_work config (starting index) = config.workers - index + 4 * config.jobs + config.workers + 4
main_work config (producing index) = 4 * (config.jobs - index) + config.workers + 3
main_work config (pushing index job checksum) = 4 * (config.jobs - index) + config.workers + 2
main_work config closing = config.workers + 2
main_work config (joining index) = config.workers + 1 - index
main_work config joined = 0

abbrev pub work : Configuration → Pool → ℕ
work config p =
    main_work config p.main.pc
    + 2 * p.queue.count
    + sum_below config.workers (λ i. worker_work (p.workers i).pc)

-- A worker has nothing to do before its start and after its end, and at an empty open queue.
abbrev pub Blocked : JobQueue → WorkerPc → Type 0
Blocked q not_started = Unit {0}
Blocked q popping = (q.count ≡ 0) × (q.closed ≡ false)
Blocked q (working job) = ⊥
Blocked q leaving = ⊥
Blocked q ended = Unit {0}
Blocked q crashed = Unit {0}

-- A step of a worker lowers its work with the queue's, or the worker is blocked and nothing changes.
abbrev pub Advances :
    JobQueue → (ℕ → ℕ) → WorkerPc → WorkerResult → Worker × JobQueue × (ℕ → ℕ) → Type 0
Advances q seen pc result (w, r, marks) =
    (worker_work w.pc + 2 * r.count < worker_work pc + 2 * q.count)
    ⊎ (Blocked q pc
        × (◌≡◌ {A = Worker × JobQueue × (ℕ → ℕ)} (w, r, marks)
            (record { pc = pc; result = result }, q, seen)))

module _ {q : JobQueue} {xs : List Job} (ring : IsRing q xs) (seen : ℕ → ℕ)
    (result : WorkerResult) where
  pops :
      {s : Section Popped} → PoppedAs q xs s → Advances q seen popping result (popped result seen s)
  pops (gives job rest r e after shut cap) =
      inl (omega (arith, ring.count, after.count, ap length e))
  pops (drains shut e) = inl (omega arith)
  pops (empty still_open e) = inr ((ring.count ∙ ap length e, still_open), refl)

  pub worker_run-Advances :
      (config : Configuration) (answers : Answers) (pc : WorkerPc)
      → pc ≢ working none
      → Advances q seen pc result (worker_run config answers pc result q seen)
  unfolding worker_run queue_close
  worker_run-Advances config answers not_started ne = inr (tt, refl)
  worker_run-Advances config answers popping ne = elim (queue_pop-answers answers.error q) [
    | inl test ↦ rw test (pops (pop_test-PoppedAs xs ring))
    | inr bad ↦ rw bad (inl (omega arith))
  ]
  worker_run-Advances config answers (working none) ne = absurd (ne refl)
  worker_run-Advances config answers (working (some job)) ne = inl (omega arith)
  worker_run-Advances config answers leaving ne = elim (Bool-cases (answers.error == 0)) [
    | inl ok ↦ rw ok (inl (omega arith))
    | inr bad ↦ rw bad (inl (omega arith))
  ]
  worker_run-Advances config answers ended ne = inr (tt, refl)
  worker_run-Advances config answers crashed ne = inr (tt, refl)
