-- ===== src/Samples/Sleepers.antt =====
-- A run of the worker pool in which a worker waits and is woken by the signal of a push.
use hplf_malloc.Prelude.{ℕ, ◌≡◌, refl, true, false, ◌≤◌}
use hplf_malloc.WorkerPool.Job.{payload_size_for, mix64}
use hplf_malloc.WorkerPool.JobQueue.{push_test, pop_test, queue_push, queue_pop, queue_close}
use hplf_malloc.WorkerPool.Run.{
  start, main_run, worker_step, worker_run, start_worker, produce, push_job, close_queue,
  join_worker,
}
use hplf_malloc.Samples.Runs.{config, fine, empty_queue}
use hplf_malloc.WorkerPool.Waits.{Waiting, worker_moved, main_moved}
use hplf_malloc.Prelude.{ℕ, Bool, update, ◌≤◌}

-- The signal wakes the first worker.
abbrev wake_first : (ℕ → Bool) → ℕ → Bool
wake_first asleep = update asleep 0 false

unfoldable by_main : Waiting → Waiting
by_main s = main_moved config fine wake_first s

unfoldable by_worker : Waiting → Waiting
by_worker s = worker_moved config fine 0 s

-- The worker waits at the empty queue, and later a job is pushed.
unfoldable waiting : Waiting
waiting =
    by_worker
      (by_main (record { pool = start empty_queue; asleep = λ j. false; main_asleep = false }))

unfoldable woken : Waiting
woken = by_main (by_main (by_main waiting))

worker_sleeps : waiting.asleep 0 ≡ true
unfolding waiting by_main by_worker main_run worker_step worker_run start_worker produce push_job
    close_queue join_worker queue_push queue_pop queue_close push_test pop_test payload_size_for
    mix64
worker_sleeps = refl
