-- ===== src/WorkerPool/State.antt =====
-- examples/worker_pool.c: the state of the main thread and of the workers.
use hplf_malloc.Prelude.{ℕ, Bool, true, false, Option}
use hplf_malloc.WorkerPool.Job.{Job}
use hplf_malloc.WorkerPool.JobQueue.{JobQueue}

-- `enum run_status`
pub data Status : Type 0 where
  run_ok allocation_failure thread_failure data_failure internal_error : Status

abbrev pub status_exit_code : Status → ℕ
status_exit_code run_ok = 0
status_exit_code allocation_failure = 3
status_exit_code thread_failure = 4
status_exit_code data_failure = 5
status_exit_code internal_error = 6

abbrev pub is_ok : Status → Bool
is_ok run_ok = true
is_ok _ = false

pub record Configuration : Type 0 where
  pub workers : ℕ
  pub jobs : ℕ
  pub queue_capacity : ℕ
  pub seed : ℕ
  pub fail_allocation_at : ℕ
  pub fail_thread_at : ℕ

pub record WorkerResult : Type 0 where
  pub consumed : ℕ
  pub duplicate_jobs : ℕ
  pub invalid_jobs : ℕ
  pub checksum : ℕ
  pub queue_error : Bool

-- Where a worker stands in `worker_main`; it is `crashed` when it reads through a null job.
pub data WorkerPc : Type 0 where
  not_started popping : WorkerPc
  working : (job : Option Job) → WorkerPc
  leaving ended crashed : WorkerPc

pub record Worker : Type 0 where
  pub pc : WorkerPc
  pub result : WorkerResult

-- Where `main` stands, from the first thread it starts to the last one it joins.
pub data MainPc : Type 0 where
  starting producing : (index : ℕ) → MainPc
  pushing : (index : ℕ) → (job : Job) → (checksum : ℕ) → MainPc
  closing : MainPc
  joining : (index : ℕ) → MainPc
  joined : MainPc

pub record Main : Type 0 where
  pub pc : MainPc
  pub status : Status
  pub expected_checksum : ℕ
  pub allocation_attempts : ℕ
  pub workers_started : ℕ
  pub jobs_produced : ℕ
  pub all_joined : Bool

pub record Pool : Type 0 where
  pub queue : JobQueue
  pub seen : ℕ → ℕ
  pub workers : ℕ → Worker
  pub main : Main

-- What the calls outside the program answer at a step; `garbage` is what new memory holds.
pub record Answers : Type 0 where
  pub error : ℕ
  pub first_broadcast : ℕ
  pub second_broadcast : ℕ
  pub unlock_error : ℕ
  pub create_error : ℕ
  pub join_error : ℕ
  pub allocated : Bool
  pub garbage : ℕ → ℕ

abbrev pub blank_result : WorkerResult
blank_result = record {
  consumed = 0;
  duplicate_jobs = 0;
  invalid_jobs = 0;
  checksum = 0;
  queue_error = false;
}

-- What `main` reports of a run.
pub record Report : Type 0 where
  pub status : Status
  pub jobs_consumed : ℕ
  pub duplicate_jobs : ℕ
  pub invalid_jobs : ℕ
  pub observed_checksum : ℕ
  pub missing_jobs : ℕ
  pub abandoned_jobs : ℕ
