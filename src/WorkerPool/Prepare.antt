-- ===== src/WorkerPool/Prepare.antt =====
-- examples/worker_pool.c: `main` up to the first thread.
pub mod Ready
use hplf_malloc.Prelude.{ℕ, ◌/◌, Bool, true, false, not, ◌&&◌, ◌||◌, List, ltb, ◌==◌, if◌then◌else◌}
use hplf_malloc.CheckedMath.{size_max}
use hplf_malloc.WorkerPool.JobQueue.{JobQueue, Resources, queue_initialize}
use hplf_malloc.WorkerPool.State.{Configuration}
use hplf_malloc.WorkerPool.Arguments.{Text, Number, helps, rejects, accepts, parse_arguments}

-- What the C library answers: whether `calloc` and `malloc` give the memory for the threads, the
-- workers' contexts, the marks and the queue's slots, and the results of the initialisations.
pub record Grants : Type 0 where
  pub threads : Bool
  pub workers : Bool
  pub seen : Bool
  pub slots : Bool
  pub mutex_error : ℕ
  pub not_empty_error : ℕ
  pub not_full_error : ℕ

-- `main` has ended with an exit code, or is about to start the threads. The marks are then 0, and the
-- results of the workers as `calloc` left them: the pool is `start queue`.
pub data Prepared : Type 0 where
  exits : (code : ℕ) → Prepared
  ready : (config : Configuration) (queue : JobQueue) (held : Resources) → Prepared

-- The storage of a run. `pthread_t` has 8 bytes, a worker's context 64, a mark 1.
unfoldable pub provide : Grants → Configuration → Prepared
provide grants config =
    let (done, queue, held) =
      queue_initialize config.queue_capacity grants.slots grants.mutex_error grants.not_empty_error
        grants.not_full_error in
    if ltb (size_max / 8) config.workers
      || ltb (size_max / 64) config.workers
      || ltb (size_max / 1) config.jobs
    then exits 2
    else if not grants.threads
        || not grants.workers
        || (not (config.jobs == 0) && not grants.seen)
        || not done
    then exits 6
    else ready config queue held

unfoldable pub prepare : (strtoull : Text → Number) → (args : List Text) → Grants → Prepared
prepare strtoull args grants = elim (parse_arguments strtoull args) [
  | helps ↦ exits 0
  | rejects ↦ exits 2
  | accepts config ↦ provide grants config
]
