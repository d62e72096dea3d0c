-- ===== src/WorkerPool/Run.antt =====
-- examples/worker_pool.c: the producer and the workers as steps, in any order. A step is what a
-- thread does up to its next access to what it shares: a critical section of the queue, the exchange
-- of a job's mark with the local work after it, or a call that starts or joins a thread.
pub mod Finish
pub mod Ledger
pub mod Changes
pub mod Workers
pub mod Place
pub mod Whole
pub mod Starting
pub mod Producer
pub mod Closing
pub mod Reach
pub mod Collected
pub mod Outcome
pub mod Work
pub mod Advance
pub mod Progress
use hplf_malloc.Prelude.{
  ℕ, zero, suc, ◌+◌, ◌-◌, ◌<◌, ◌||◌, option, Bool, true, false, not, ◌&&◌, Option, none, some, ◌==◌,
  if◌then◌else◌, ltb, update,
}
use hplf_malloc.CheckedMath.{size_max, wrap}
use hplf_malloc.WorkerPool.Job.{Job, payload_size_for, job_checksum, job_is_valid, build_job}
use hplf_malloc.WorkerPool.JobQueue.{
  JobQueue, Section, returned, waits, Pushed, accepted, Popped, owned, drained, queue_push,
  queue_pop, queue_close, queue_release_remaining,
}
use hplf_malloc.WorkerPool.State.{
  Status, run_ok, allocation_failure, thread_failure, data_failure, internal_error,
  status_exit_code, is_ok, Configuration, WorkerResult, blank_result, WorkerPc, not_started,
  popping, working, leaving, ended, crashed, Worker, MainPc, starting, producing, pushing, closing,
  joining, joined, Main, Pool, Answers, Report,
}

-- The marks and the result after a job, in `worker_main`.
unfoldable pub mark_job : (seen_count : ℕ) → (ℕ → ℕ) → WorkerResult → Job → (ℕ → ℕ) × WorkerResult
mark_job seen_count seen result job =
    if not (ltb job.id seen_count)
    then (seen, record result { invalid_jobs = wrap (result.invalid_jobs + 1) })
    else if not (seen job.id == 0)
    then (update seen job.id 1, record result { duplicate_jobs = wrap (result.duplicate_jobs + 1) })
    else (update seen job.id 1, result)

unfoldable pub check_job : WorkerResult → Job → WorkerResult
check_job result job =
    let checked =
      if not (job_is_valid job)
      then record result { invalid_jobs = wrap (result.invalid_jobs + 1) }
      else result in
    record checked {
      checksum = wrap (checked.checksum + job_checksum job);
      consumed = wrap (checked.consumed + 1);
    }

-- What `worker_main` does with the result of `queue_pop`.
abbrev pub popped : WorkerResult → (seen : ℕ → ℕ) → Section Popped → Worker × JobQueue × (ℕ → ℕ)
popped result seen (waits q) = (record { pc = popping; result = result }, q, seen)
popped result seen (returned drained q) = (record { pc = ended; result = result }, q, seen)
popped result seen (returned Popped.failed q) =
    (record { pc = leaving; result = record result { queue_error = true } }, q, seen)
popped result seen (returned (owned job) q) =
    (record { pc = working job; result = result }, q, seen)

-- A step of `worker_main`.
unfoldable pub worker_run :
    Configuration
    → Answers
    → WorkerPc
    → WorkerResult
    → JobQueue
    → (seen : ℕ → ℕ) → Worker × JobQueue × (ℕ → ℕ)
worker_run config answers not_started result queue seen =
    (record { pc = not_started; result = result }, queue, seen)
worker_run config answers popping result queue seen =
    popped result seen (queue_pop answers.error queue)
worker_run config answers (working none) result queue seen =
    (record { pc = crashed; result = result }, queue, seen)
worker_run config answers (working (some job)) result queue seen =
    let (marked, after) = mark_job config.jobs seen result job in
    (record { pc = popping; result = check_job after job }, queue, marked)
worker_run config answers leaving result queue seen =
    let (_, q) =
      queue_close answers.error answers.first_broadcast answers.second_broadcast
        answers.unlock_error queue in
    (record { pc = ended; result = result }, q, seen)
worker_run config answers ended result queue seen =
    (record { pc = ended; result = result }, queue, seen)
worker_run config answers crashed result queue seen =
    (record { pc = crashed; result = result }, queue, seen)

unfoldable pub worker_step : Configuration → Answers → ℕ → Pool → Pool
worker_step config answers index pool =
    let worker = pool.workers index in
    let (after, queue, seen) =
      worker_run config answers worker.pc worker.result pool.queue pool.seen in
    record pool { workers = update pool.workers index after; queue = queue; seen = seen }

-- A round of the loop that starts the workers.
unfoldable pub start_worker : Configuration → Answers → (index : ℕ) → Pool → Pool
start_worker config answers index pool =
    let main = pool.main in
    if index == config.workers
    then record pool { main = record main { pc = producing 0 } }
    else if config.fail_thread_at == index + 1
    then record pool { main = record main { pc = closing; status = thread_failure } }
    else if not (answers.create_error == 0)
    then record pool { main = record main { pc = closing; status = thread_failure } }
    else record pool {
      workers =
          update pool.workers index (record { pc = popping; result = (pool.workers index).result });
      main = record main {
        pc = starting (index + 1);
        workers_started = wrap (main.workers_started + 1);
      };
    }

-- A round of the producer's loop, up to its push. `sizeof(struct job)` is 24.
unfoldable pub produce : Configuration → Answers → (index : ℕ) → Main → Main
produce config answers index main =
    let attempts = wrap (main.allocation_attempts + 1) in
    let job = build_job config.seed index answers.garbage in
    let tried : Main = record main { allocation_attempts = attempts } in
    if index == config.jobs
    then record main { pc = closing }
    else if config.fail_allocation_at == attempts
    then record tried { pc = closing; status = allocation_failure }
    else if ltb (size_max - 24) (payload_size_for config.seed index)
    then record tried { pc = closing; status = internal_error }
    else if not answers.allocated
    then record tried { pc = closing; status = allocation_failure }
    else record tried { pc = pushing index job (job_checksum job) }

-- What the producer does with the result of `queue_push`.
abbrev pub pushed : (index checksum : ℕ) → Pool → Section Pushed → Pool
pushed index checksum pool (waits q) = record pool { queue = q }
pushed index checksum pool (returned accepted q) = record pool {
  queue = q;
  main = record pool.main {
    pc = producing (index + 1);
    expected_checksum = wrap (pool.main.expected_checksum + checksum);
    jobs_produced = wrap (pool.main.jobs_produced + 1);
  };
}
pushed index checksum pool (returned _ q) = record pool {
  queue = q;
  main = record pool.main { pc = closing; status = internal_error };
}

unfoldable pub push_job : Answers → (index : ℕ) → Job → (checksum : ℕ) → Pool → Pool
push_job answers index job checksum pool =
    pushed index checksum pool (queue_push answers.error pool.queue job)

unfoldable pub close_queue : Answers → Pool → Pool
close_queue answers pool =
    let main = pool.main in
    let (closed, q) =
      queue_close answers.error answers.first_broadcast answers.second_broadcast
        answers.unlock_error pool.queue in
    record pool {
      queue = q;
      main = record main {
        pc = joining 0;
        status = if not closed && is_ok main.status then internal_error else main.status;
      };
    }

abbrev pub has_ended : WorkerPc → Bool
has_ended ended = true
has_ended _ = false

-- A round of the loop that joins the workers: `pthread_join` returns 0 when the thread has ended.
unfoldable pub join_worker : Answers → (index : ℕ) → (ℕ → Worker) → Main → Main
join_worker answers index workers main =
    if index == main.workers_started
    then record main { pc = joined }
    else if not (answers.join_error == 0)
    then record main { pc = joining (index + 1); all_joined = false; status = internal_error }
    else if has_ended (workers index).pc
    then record main { pc = joining (index + 1) }
    else main

unfoldable pub main_run : Configuration → Answers → MainPc → Pool → Pool
main_run config answers (starting index) pool = start_worker config answers index pool
main_run config answers (producing index) pool = record pool {
  main = produce config answers index pool.main;
}
main_run config answers (pushing index job checksum) pool = push_job answers index job checksum pool
main_run config answers closing pool = close_queue answers pool
main_run config answers (joining index) pool = record pool {
  main = join_worker answers index pool.workers pool.main;
}
main_run config answers joined pool = pool

-- The threads before the first step, with the queue as it was initialised.
abbrev pub start : JobQueue → Pool
start queue = record {
  queue = queue;
  seen = λ id. 0;
  workers = λ index. record { pc = not_started; result = blank_result };
  main = record {
    pc = starting 0;
    status = run_ok;
    expected_checksum = 0;
    allocation_attempts = 0;
    workers_started = 0;
    jobs_produced = 0;
    all_joined = true;
  };
}

-- One step of a thread that was started, or of the main thread.
pub data Step (config : Configuration) (pool : Pool) : Pool → Type 0 where
  worker_steps :
      (answers : Answers) (index : ℕ)
      → index < pool.main.workers_started
      → Step config pool (worker_step config answers index pool)
  main_steps : (answers : Answers) → Step config pool (main_run config answers pool.main.pc pool)

-- The pools that steps lead to.
pub data Reached (config : Configuration) (queue : JobQueue) : Pool → Type 0 where
  at_start : Reached config queue (start queue)
  after_step : {p r : Pool} → Reached config queue p → Step config p r → Reached config queue r
