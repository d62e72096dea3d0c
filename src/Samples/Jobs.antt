-- ===== src/Samples/Jobs.antt =====
-- The theorems on a small queue and on single jobs of the worker pool.
use hplf_malloc.Prelude.{ℕ, ◌≡◌, refl, true, false, none, some, [], ◌∷◌, arith, ◌==◌, if◌then◌else◌}
use hplf_malloc.WorkerPool.Job.{Job, build_job, job_is_valid}
use hplf_malloc.WorkerPool.Job.Filled.{build_job-valid}
use hplf_malloc.WorkerPool.Job.Keys.{keys_differ}
use hplf_malloc.WorkerPool.JobQueue.{JobQueue, push_test, pop_test}
use hplf_malloc.WorkerPool.JobQueue.Ring.{
  IsRing, PushedAs, PoppedAs, push_test-PushedAs, pop_test-PoppedAs,
}

-- A queue of two slots with one job.
abbrev sample_job : Job
sample_job = record { id = 3; key = 9; payload_size = 0; payload = λ offset. 0 }

abbrev half_full : JobQueue
half_full = record {
  slots = λ i. if i == 1 then some sample_job else none;
  capacity = 2;
  head = 1;
  count = 1;
  closed = false;
}

half_full-IsRing : IsRing half_full (sample_job ∷ [])
half_full-IsRing = record {
  jobs = (refl, tt);
  count = refl;
  head_in = omega arith;
  count_in = omega arith;
  size = omega arith;
}

push_test-PushedAs_example :
    PushedAs half_full (sample_job ∷ []) sample_job (push_test half_full sample_job)
push_test-PushedAs_example = push_test-PushedAs sample_job half_full-IsRing

pop_test-PoppedAs_example : PoppedAs half_full (sample_job ∷ []) (pop_test half_full)
pop_test-PoppedAs_example = pop_test-PoppedAs (sample_job ∷ []) half_full-IsRing

build_job-valid_example :
    ((build_job 7 3 (λ offset. 255)).id ≡ 3) × (job_is_valid (build_job 7 3 (λ offset. 255)) ≡ true)
build_job-valid_example = build_job-valid 7 3 (λ offset. 255)

keys_differ_example : ◌≡◌ {A = ℕ} 3 3
keys_differ_example =
    keys_differ 7 3 3 (λ offset. 0) (λ offset. 0) (omega arith) (omega arith) (omega arith) refl
