-- ===== src/WorkerPool/Waits.antt =====
-- examples/worker_pool.c: the condition variables of the queue. A thread that waits is asleep until a
-- signal, a broadcast or the platform wakes it, and makes no step before; the steps are those of Run,
-- and each tells what it does to the conditions. Workers wait for `not_empty`, `main` for `not_full`.
pub mod Guard
pub mod Watch
pub mod Kept
pub mod Progress
use hplf_malloc.Prelude.{ℕ, ◌<◌, ◌≡◌, ◌⊎◌, Bool, true, false, ◌==◌, if◌then◌else◌, update}
use hplf_malloc.WorkerPool.JobQueue.{
  JobQueue, Section, returned, waits, Pushed, accepted, Popped, owned, queue_push, queue_pop,
}
use hplf_malloc.WorkerPool.State.{
  Configuration, Answers, WorkerPc, popping, leaving, MainPc, pushing, closing, Pool,
}
use hplf_malloc.WorkerPool.Run.{start, worker_step, main_run}

pub record Waiting : Type 0 where
  pub pool : Pool
  pub asleep : ℕ → Bool
  pub main_asleep : Bool

-- What a step does to the conditions: nothing, a wait, a signal of the condition for which the other
-- side waits, or a broadcast of both.
pub data Notice : Type 0 where
  quiet sleeps signals broadcasts : Notice

-- `queue_push`: `pthread_cond_wait(&queue->not_full, ...)` and `pthread_cond_signal(&queue->not_empty)`.
abbrev pub push_notice : Section Pushed → Notice
push_notice (waits q) = sleeps
push_notice (returned accepted q) = signals
push_notice (returned _ q) = quiet

-- `queue_pop`: `pthread_cond_wait(&queue->not_empty, ...)` and `pthread_cond_signal(&queue->not_full)`.
abbrev pub pop_notice : Section Popped → Notice
pop_notice (waits q) = sleeps
pop_notice (returned (owned job) q) = signals
pop_notice (returned _ q) = quiet

-- `queue_close`: both broadcasts, once it holds the mutex.
abbrev pub close_notice : (error : ℕ) → Notice
close_notice error = if error == 0 then broadcasts else quiet

abbrev pub worker_notice : Answers → WorkerPc → JobQueue → Notice
worker_notice answers popping q = pop_notice (queue_pop answers.error q)
worker_notice answers leaving q = close_notice answers.error
worker_notice answers _ q = quiet

abbrev pub main_notice : Answers → MainPc → JobQueue → Notice
main_notice answers (pushing index job checksum) q = push_notice (queue_push answers.error q job)
main_notice answers closing q = close_notice answers.error
main_notice answers _ q = quiet

-- Who is asleep after a step of worker `index`.
abbrev pub workers_after : Notice → (index : ℕ) → (ℕ → Bool) → ℕ → Bool
workers_after sleeps index asleep = update asleep index true
workers_after broadcasts index asleep = λ j. false
workers_after _ index asleep = asleep

abbrev pub main_after : Notice → Bool → Bool
main_after signals main_asleep = false
main_after broadcasts main_asleep = false
main_after _ main_asleep = main_asleep

-- The same after a step of `main`, where `signal` is who is asleep after a signal of `not_empty`.
abbrev pub workers_told : Notice → (signal : (ℕ → Bool) → ℕ → Bool) → (ℕ → Bool) → ℕ → Bool
workers_told signals signal asleep = signal asleep
workers_told broadcasts signal asleep = λ j. false
workers_told _ signal asleep = asleep

abbrev pub main_told : Notice → Bool → Bool
main_told sleeps main_asleep = true
main_told broadcasts main_asleep = false
main_told _ main_asleep = main_asleep

-- `pthread_cond_signal` puts nobody to sleep, and wakes at least one of the threads that are asleep.
pub record IsSignal (started : ℕ) (signal : (ℕ → Bool) → ℕ → Bool) : Type 0 where
  pub only : (asleep : ℕ → Bool) (j : ℕ) → asleep j ≡ false → signal asleep j ≡ false
  pub wakes :
      (asleep : ℕ → Bool)
      → ((j : ℕ) → j < started → asleep j ≡ false)
        ⊎ ((j : ℕ) × (j < started) × (asleep j ≡ true) × (signal asleep j ≡ false))

-- The queue's locks, waits and broadcasts succeed.
pub record IsFine (answers : Answers) : Type 0 where
  pub error : answers.error ≡ 0
  pub first_broadcast : answers.first_broadcast ≡ 0
  pub second_broadcast : answers.second_broadcast ≡ 0

abbrev pub worker_moved : Configuration → Answers → (index : ℕ) → Waiting → Waiting
worker_moved config answers index s =
    let notice = worker_notice answers (s.pool.workers index).pc s.pool.queue in
    record {
      pool = worker_step config answers index s.pool;
      asleep = workers_after notice index s.asleep;
      main_asleep = main_after notice s.main_asleep;
    }

abbrev pub main_moved :
    Configuration → Answers → (signal : (ℕ → Bool) → ℕ → Bool) → Waiting → Waiting
main_moved config answers signal s =
    let notice = main_notice answers s.pool.main.pc s.pool.queue in
    record {
      pool = main_run config answers s.pool.main.pc s.pool;
      asleep = workers_told notice signal s.asleep;
      main_asleep = main_told notice s.main_asleep;
    }

-- A thread that is awake makes a step, or one that is asleep is woken without a reason.
pub data WaitStep (config : Configuration) (s : Waiting) : Waiting → Type 0 where
  worker_moves :
      (answers : Answers) (index : ℕ)
      → IsFine answers
      → index < s.pool.main.workers_started
      → s.asleep index ≡ false
      → WaitStep config s (worker_moved config answers index s)
  main_moves :
      (answers : Answers) (signal : (ℕ → Bool) → ℕ → Bool)
      → IsFine answers
      → IsSignal s.pool.main.workers_started signal
      → s.main_asleep ≡ false
      → WaitStep config s (main_moved config answers signal s)
  worker_wakes : (index : ℕ) → WaitStep config s (record s { asleep = update s.asleep index false })
  main_wakes : WaitStep config s (record s { main_asleep = false })

-- What steps lead to, when nobody waits at first.
pub data WaitReached (config : Configuration) (q : JobQueue) : Waiting → Type 0 where
  all_awake :
      WaitReached config q (record { pool = start q; asleep = λ j. false; main_asleep = false })
  then_step :
      {s t : Waiting} → WaitReached config q s → WaitStep config s t → WaitReached config q t
