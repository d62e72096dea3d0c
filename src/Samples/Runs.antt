-- ===== src/Samples/Runs.antt =====
-- A small run of the worker pool, and the theorems about it at that run.
use hplf_malloc.Prelude.{
  ℕ, zero, suc, ◌<◌, ◌≡◌, refl, true, false, ◌∙◌, none, [], arith, ◌≢◌, ◌≤◌, ap, ◌*◌, ◌+◌,
}
use hplf_malloc.WorkerPool.Job.{payload_size_for, build_job, mix64}
use hplf_malloc.WorkerPool.JobQueue.{
  JobQueue, push_test, pop_test, queue_push, queue_pop, queue_close,
}
use hplf_malloc.WorkerPool.JobQueue.Ring.{IsRing}
use hplf_malloc.WorkerPool.State.{Configuration, Answers, Pool, blank_result, joined}
use hplf_malloc.WorkerPool.Run.{
  start, worker_steps, main_steps, Reached, at_start, after_step, main_run, worker_step, worker_run,
  mark_job, start_worker, produce, push_job, close_queue, join_worker,
}
use hplf_malloc.WorkerPool.Waits.Guard.{check_job-queue_error, mark_job-queue_error}
use hplf_malloc.WorkerPool.Run.Whole.{IsPool}
use hplf_malloc.WorkerPool.Run.Reach.{step-IsPool, Reached-IsPool}
use hplf_malloc.WorkerPool.Run.Work.{main_work}
use hplf_malloc.WorkerPool.Run.Progress.{Changed, unchanged, changes, steps_bounded}

abbrev pub config : Configuration
config = record {
  workers = 1;
  jobs = 1;
  queue_capacity = 1;
  seed = 7;
  fail_allocation_at = 0;
  fail_thread_at = 0;
}

abbrev pub fine : Answers
fine = record {
  error = 0;
  first_broadcast = 0;
  second_broadcast = 0;
  unlock_error = 0;
  create_error = 0;
  join_error = 0;
  allocated = true;
  garbage = λ offset. 0;
}

abbrev pub empty_queue : JobQueue
empty_queue = record { slots = λ i. none; capacity = 1; head = 0; count = 0; closed = false }

pub empty_queue-IsRing : IsRing empty_queue []
empty_queue-IsRing = record {
  jobs = tt;
  count = refl;
  head_in = omega arith;
  count_in = omega arith;
  size = omega arith;
}

unfoldable by_main : Pool → Pool
by_main p = main_run config fine p.main.pc p

unfoldable by_worker : Pool → Pool
by_worker p = worker_step config fine 0 p

-- The pool with one job in its queue.
unfoldable filled_pool : Pool
filled_pool = by_main (by_main (by_main (by_main (start empty_queue))))

-- The worker is started, a job is pushed, popped and processed, the queue is closed, the worker ends.
pub joined_pool : Pool
unfolding filled_pool
joined_pool = by_main (by_main (by_worker (by_main (by_main (by_worker (by_worker filled_pool))))))

pub at_end : (joined_pool.main.pc ≡ joined) × (joined_pool.main.all_joined ≡ true)
unfolding joined_pool filled_pool by_main by_worker main_run worker_step worker_run start_worker
    produce push_job close_queue join_worker queue_push queue_pop queue_close push_test pop_test
    payload_size_for mix64
at_end = (refl, refl)

pub no_error :
    (i : ℕ)
    → i < joined_pool.main.workers_started
    → (joined_pool.workers i).result.queue_error ≡ false
unfolding joined_pool filled_pool by_main by_worker main_run worker_step worker_run start_worker
    produce push_job close_queue join_worker queue_push queue_pop queue_close push_test pop_test
    payload_size_for mix64
no_error zero lt =
    let job = build_job 7 0 (λ offset. 0) in
    let (marks, after) = mark_job 1 (λ id. 0) blank_result job in
    check_job-queue_error after job ∙ mark_job-queue_error 1 (λ id. 0) blank_result job
no_error (suc i) lt = absurd (omega arith)

main_Reached : {p : Pool} → Reached config empty_queue p → Reached config empty_queue (by_main p)
unfolding by_main
main_Reached reached = after_step reached (main_steps fine)

worker_Reached :
    {p : Pool}
    → Reached config empty_queue p
    → 0 < p.main.workers_started
    → Reached config empty_queue (by_worker p)
unfolding by_worker
worker_Reached reached started = after_step reached (worker_steps fine 0 started)

filled-Reached : Reached config empty_queue filled_pool
unfolding filled_pool
filled-Reached = main_Reached (main_Reached (main_Reached (main_Reached at_start)))

pub joined-Reached : Reached config empty_queue joined_pool
unfolding joined_pool filled_pool by_main by_worker main_run worker_step worker_run start_worker
    produce push_job close_queue join_worker queue_push queue_pop queue_close push_test pop_test
    payload_size_for mix64
joined-Reached = main_Reached (
    main_Reached (
      worker_Reached
        (main_Reached (
          main_Reached
            (worker_Reached (worker_Reached filled-Reached (omega arith)) (omega arith))))
        (omega arith)))

filled_started : 0 < filled_pool.main.workers_started
unfolding filled_pool by_main by_worker main_run worker_step worker_run start_worker produce
    push_job close_queue join_worker queue_push queue_pop queue_close push_test pop_test
    payload_size_for mix64
filled_started = omega arith

filled-IsPool : IsPool config filled_pool
filled-IsPool =
    Reached-IsPool config (omega arith) (omega arith) (omega arith) empty_queue-IsRing
      filled-Reached

step-IsPool_example : IsPool config (worker_step config fine 0 filled_pool)
step-IsPool_example =
    step-IsPool config (omega arith) (omega arith) (omega arith) filled-IsPool
      (worker_steps fine 0 filled_started)

-- The first two steps of the run change something.
first_changes : by_main (start empty_queue) ≢ start empty_queue
unfolding joined_pool filled_pool by_main by_worker main_run worker_step worker_run start_worker
    produce push_job close_queue join_worker queue_push queue_pop queue_close push_test pop_test
    payload_size_for mix64
first_changes e = omega (arith, ap (λ (p : Pool). p.main.workers_started) e)

second_changes : by_main (by_main (start empty_queue)) ≢ by_main (start empty_queue)
unfolding joined_pool filled_pool by_main by_worker main_run worker_step worker_run start_worker
    produce push_job close_queue join_worker queue_push queue_pop queue_close push_test pop_test
    payload_size_for mix64
second_changes e = omega (arith, ap (λ (p : Pool). main_work config p.main.pc) e)

two_changes : Changed config empty_queue 2 (by_main (by_main (start empty_queue)))
unfolding by_main
two_changes =
    changes (changes unchanged (main_steps fine) first_changes) (main_steps fine) second_changes

steps_bounded_example : 2 ≤ 4 * config.jobs + 5 * config.workers + 4
steps_bounded_example =
    steps_bounded config (omega arith) (omega arith) (omega arith) empty_queue-IsRing two_changes
