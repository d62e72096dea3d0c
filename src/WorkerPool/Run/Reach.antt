-- ===== src/WorkerPool/Run/Reach.antt =====
-- examples/worker_pool.c: every pool that steps lead to.
use hplf_malloc.Prelude.{
  ℕ, ◌≤◌, ◌<◌, ◌≡◌, ◌≢◌, none, some, refl, sym, subst, inl, [], arith, sum_below-eq-zero,
}
use hplf_malloc.CheckedMath.{size_max}
use hplf_malloc.WorkerPool.JobQueue.{
  JobQueue, Section, returned, waits, Popped, owned, drained, queue_pop,
}
use hplf_malloc.WorkerPool.JobQueue.Ring.{IsRing}
use hplf_malloc.WorkerPool.State.{
  WorkerPc, not_started, popping, working, leaving, ended, crashed, Configuration, Answers, MainPc,
  starting, producing, pushing, closing, joining, joined, Pool, WorkerResult,
}
use hplf_malloc.WorkerPool.Run.{
  main_run, start, Step, worker_steps, main_steps, Reached, at_start, after_step, popped,
  worker_run, worker_step,
}
use hplf_malloc.WorkerPool.Run.Whole.{IsPool}
use hplf_malloc.WorkerPool.Run.Place.{Place-worker}
use hplf_malloc.WorkerPool.Run.Workers.{worker_run-Ledger}
use hplf_malloc.WorkerPool.Run.Starting.{start_worker-IsPool}
use hplf_malloc.WorkerPool.Run.Producer.{produce-IsPool, push_job-IsPool}
use hplf_malloc.WorkerPool.Run.Closing.{close_queue-IsPool, join_worker-IsPool}

popped-running :
    (s : Section Popped) (result : WorkerResult) (seen : ℕ → ℕ)
    → (popped result seen s).0.pc ≢ not_started
popped-running (waits q) result seen e = cc e
popped-running (returned drained q) result seen e = cc e
popped-running (returned Popped.failed q) result seen e = cc e
popped-running (returned (owned job) q) result seen e = cc e

-- A worker that was started is not made to wait for its start again.
worker_run-running :
    (config : Configuration) (answers : Answers) (pc : WorkerPc) (result : WorkerResult)
    (q : JobQueue) (seen : ℕ → ℕ)
    → pc ≢ not_started
    → (worker_run config answers pc result q seen).0.pc ≢ not_started
unfolding worker_run
worker_run-running config answers not_started result q seen ne e = ne refl
worker_run-running config answers popping result q seen ne e =
    popped-running (queue_pop answers.error q) result seen e
worker_run-running config answers (working none) result q seen ne e = cc e
worker_run-running config answers (working (some job)) result q seen ne e = cc e
worker_run-running config answers leaving result q seen ne e = cc e
worker_run-running config answers ended result q seen ne e = cc e
worker_run-running config answers crashed result q seen ne e = cc e

-- A worker that has ended makes no more steps.
worker_run-ended :
    (config : Configuration) (answers : Answers) (pc : WorkerPc) (result : WorkerResult)
    (q : JobQueue) (seen : ℕ → ℕ)
    → pc ≡ ended
    → (worker_run config answers pc result q seen).0.pc ≡ ended
unfolding worker_run
worker_run-ended config answers pc result q seen e =
    subst (λ t. (worker_run config answers t result q seen).0.pc ≡ ended) (sym e) refl

module _ (config : Configuration) (some_worker : 0 < config.workers)
    (workers_fit : config.workers ≤ size_max) (jobs_fit : config.jobs ≤ size_max) where
  main_run-IsPool :
      (answers : Answers) (p : Pool)
      → IsPool config p
      → (pc : MainPc) → p.main.pc ≡ pc
      → IsPool config (main_run config answers pc p)
  unfolding main_run
  main_run-IsPool answers p is (starting index) at =
      start_worker-IsPool config some_worker workers_fit answers p is index at
  main_run-IsPool answers p is (producing index) at =
      produce-IsPool config jobs_fit answers p is index at
  main_run-IsPool answers p is (pushing index job checksum) at =
      push_job-IsPool config jobs_fit answers p is index job checksum at
  main_run-IsPool answers p is closing at = close_queue-IsPool config answers p is at
  main_run-IsPool answers p is (joining index) at = join_worker-IsPool config answers p is index at
  main_run-IsPool answers p is joined at = is

  -- Whatever the calls answer, a step of any thread keeps the whole ledger: each job that was produced
  -- is once in the queue, in the hands of one worker, or processed.
  pub step-IsPool : {p r : Pool} → IsPool config p → Step config p r → IsPool config r
  unfolding worker_step
  step-IsPool {p} is (main_steps answers) = main_run-IsPool answers p is p.main.pc refl
  step-IsPool {p} is (worker_steps answers index started) =
      let w = p.workers index in
      let (queued, ledger) =
        worker_run-Ledger config is.ledger index (omega (arith, is.place.started_in)) w.result
          answers w.pc (omega (arith, is.place.few)) refl in
      let after = worker_run config answers w.pc w.result p.queue p.seen in
      record {
        queued = queued;
        ledger = ledger;
        place =
            Place-worker p.workers index after.0
              (worker_run-ended config answers w.pc w.result p.queue p.seen) started
              (worker_run-running config answers w.pc w.result p.queue p.seen) is.place;
      }

  start-IsPool : (q : JobQueue) → IsRing q [] → IsPool config (start q)
  start-IsPool q ring = record {
    queued = [];
    ledger = record {
      ring = ring;
      made = tt;
      each = λ i lt. record { duplicates = refl; invalids = refl; facts = refl };
      once = λ id. ground (arith, sum_below-eq-zero config.workers (λ i. 0) (λ i lt. refl));
      tally = omega (arith, sum_below-eq-zero config.workers (λ i. 0) (λ i lt. refl));
      sums = omega (arith, sum_below-eq-zero config.workers (λ i. 0) (λ i lt. refl));
    };
    place = record {
      started_in = omega arith;
      idle = λ j ge lt. refl;
      running = λ j lt. absurd (omega arith);
      covered = inl refl;
      few = omega arith;
      facts = (refl, refl, refl, refl);
    };
  }

  pub Reached-IsPool :
      {q : JobQueue} {p : Pool} → IsRing q [] → Reached config q p → IsPool config p
  Reached-IsPool {q} ring at_start = start-IsPool q ring
  Reached-IsPool ring (after_step before step) = step-IsPool (Reached-IsPool ring before) step
