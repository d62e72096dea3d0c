-- ===== src/WorkerPool/Run/Finish.antt =====
-- examples/worker_pool.c: what `main` counts after it has joined the workers.
use hplf_malloc.Prelude.{
  ℕ, zero, suc, ◌+◌, ◌||◌, option, not, Option, none, some, ◌==◌, if◌then◌else◌,
}
use hplf_malloc.CheckedMath.{wrap}
use hplf_malloc.WorkerPool.JobQueue.{JobQueue, queue_release_remaining}
use hplf_malloc.WorkerPool.State.{data_failure, internal_error, Worker, Main, Pool, Report}

-- The loop over the results of the joined workers, with the rounds that are left.
unfoldable pub collect_loop : (ℕ → Worker) → (left index : ℕ) → Report → Report
collect_loop workers zero index report = report
collect_loop workers (suc left) index report =
    let result = (workers index).result in
    collect_loop workers left (index + 1) (record report {
      jobs_consumed = wrap (report.jobs_consumed + result.consumed);
      duplicate_jobs = wrap (report.duplicate_jobs + result.duplicate_jobs);
      invalid_jobs = wrap (report.invalid_jobs + result.invalid_jobs);
      observed_checksum = wrap (report.observed_checksum + result.checksum);
      status = if result.queue_error then internal_error else report.status;
    })

-- The loop over the marks of the jobs that were produced.
unfoldable pub missing_loop : (seen : ℕ → ℕ) → (left index missing : ℕ) → ℕ
missing_loop seen zero index missing = missing
missing_loop seen (suc left) index missing =
    missing_loop seen left (index + 1) (if seen index == 0 then wrap (missing + 1) else missing)

-- The report before the counts, and the counts of a pool whose workers are joined.
abbrev pub no_results : Pool → Report
no_results pool = record {
  status = pool.main.status;
  jobs_consumed = 0;
  duplicate_jobs = 0;
  invalid_jobs = 0;
  observed_checksum = 0;
  missing_jobs = 0;
  abandoned_jobs = 0;
}

abbrev pub results : Pool → Report
results pool = collect_loop pool.workers pool.main.workers_started 0 (no_results pool)

abbrev pub missing : Pool → ℕ
missing pool = missing_loop pool.seen pool.main.jobs_produced 0 0

-- The test for lost, repeated and damaged jobs.
unfoldable pub judge : Main → Report → Report
judge main report =
    let wrong =
      not (report.jobs_consumed == main.jobs_produced)
      || not (report.duplicate_jobs == 0)
      || not (report.invalid_jobs == 0)
      || not (report.missing_jobs == 0)
      || not (report.abandoned_jobs == 0)
      || not (report.observed_checksum == main.expected_checksum) in
    record report { status = if wrong then data_failure else report.status }

-- What `main` does after the joins, with the queue that it leaves.
unfoldable pub finish : Pool → Option (Report × JobQueue)
finish pool =
    if not pool.main.all_joined
    then some (no_results pool, pool.queue)
    else option (queue_release_remaining pool.queue) none (λ (released, queue). some (
      judge pool.main
          (record (results pool) { missing_jobs = missing pool; abandoned_jobs = released }),
      queue,
    ))
