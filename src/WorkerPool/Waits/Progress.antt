-- ===== src/WorkerPool/Waits/Progress.antt =====
-- examples/worker_pool.c: the threads do not wait for one another.
use hplf_malloc.Prelude.{◌<◌}
use hplf_malloc.WorkerPool.JobQueue.{JobQueue}
use hplf_malloc.WorkerPool.State.{Configuration}
use hplf_malloc.WorkerPool.Run.Work.{work}
use hplf_malloc.WorkerPool.Waits.{Waiting, WaitStep}

-- A step of a thread that is awake, which lowers the work that is left.
abbrev pub Advances : Configuration → Waiting → Type 0
Advances config s = (t : Waiting) × WaitStep config s t × (work config t.pool < work config s.pool)
