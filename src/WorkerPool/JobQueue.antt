-- ===== src/WorkerPool/JobQueue.antt =====
-- examples/worker_pool.c: the bounded queue between the producer and the workers. Each definition is
-- what one thread does while it holds the queue's mutex: from the lock to the unlock or the wait, or
-- from the end of a wait on. What the waits, signals and broadcasts do to the threads is in Waits.
pub mod Ring
pub mod Ends
use hplf_malloc.Prelude.{
  ℕ, zero, suc, ◌+◌, ◌-◌, ◌*◌, ◌/◌, ◌%◌, ◌^◌, Bool, true, false, not, ◌&&◌, ◌||◌, Option, none,
  some, List, [], ◌∷◌, ◌==◌, if◌then◌else◌, leb, update,
}
use hplf_malloc.CheckedMath.{size_max, wrap}
use hplf_malloc.WorkerPool.Job.{Job}

-- The data of `struct job_queue`, which its mutex owns; a slot is null or owns a job. The mutex is taken
-- as exclusive, and the threads that sleep at the two conditions are the state of Waits.
pub record JobQueue : Type 0 where
  pub slots : ℕ → Option Job
  pub capacity : ℕ
  pub head : ℕ
  pub count : ℕ
  pub closed : Bool

-- What a thread has of the queue's resources after the initialisation.
pub record Resources : Type 0 where
  pub slots : Bool
  pub mutex : Bool
  pub not_empty : Bool
  pub not_full : Bool

-- How a critical section ends: with a result, or waiting for a condition.
pub data Section (A : Type 0) : Type 0 where
  returned : A → JobQueue → Section A
  waits : JobQueue → Section A

-- The three results of `queue_push` and `queue_pop`: 1, 0 and -1.
pub data Pushed : Type 0 where
  accepted refused failed : Pushed

pub data Popped : Type 0 where
  owned : (job : Option Job) → Popped
  drained : Popped
  failed : Popped

-- `queue_initialize`: with what `calloc` and the three initialisations answer; the result, the queue
-- and the resources that are then in use.
unfoldable pub queue_initialize :
    (capacity : ℕ)
    → (allocated : Bool) → (mutex_error not_empty_error not_full_error : ℕ)
    → Bool × JobQueue × Resources
queue_initialize capacity allocated mutex_error not_empty_error not_full_error =
    let cleared : JobQueue = record {
      slots = λ i. none;
      capacity = 0;
      head = 0;
      count = 0;
      closed = false;
    } in
    let queue : JobQueue = record cleared { capacity = capacity } in
    let nothing : Resources = record {
      slots = false;
      mutex = false;
      not_empty = false;
      not_full = false;
    } in
    let one : Resources = record nothing { slots = true } in
    let two : Resources = record one { mutex = true } in
    let three : Resources = record two { not_empty = true } in
    if not allocated
    then (false, cleared, nothing)
    else if not (mutex_error == 0)
    then (false, queue, record one { slots = false })
    else if not (not_empty_error == 0)
    then (false, queue, record two { mutex = false; slots = false })
    else if not (not_full_error == 0)
    then (false, queue, record three { not_empty = false; mutex = false; slots = false })
    else (true, queue, record three { not_full = true })

-- `queue_push` from its test on: at the lock, and again after each wait. Its wait and its signal are
-- `push_notice` of the result.
unfoldable pub push_test : JobQueue → Job → Section Pushed
push_test queue job =
    if (queue.count == queue.capacity) && not queue.closed
    then waits queue
    else if queue.closed
    then returned refused queue
    else returned accepted (record queue {
      slots = update queue.slots (wrap (queue.head + queue.count) % queue.capacity) (some job);
      count = wrap (queue.count + 1);
    })

-- `queue_push` from its start, and from the end of a wait.
unfoldable pub queue_push : (error : ℕ) → JobQueue → Job → Section Pushed
queue_push error queue job = if not (error == 0) then returned failed queue else push_test queue job

-- `queue_pop` from its test on. Its wait and its signal are `pop_notice` of the result.
unfoldable pub pop_test : JobQueue → Section Popped
pop_test queue =
    if (queue.count == 0) && not queue.closed
    then waits queue
    else if queue.count == 0
    then returned drained queue
    else returned (owned (queue.slots queue.head)) (record queue {
      slots = update queue.slots queue.head none;
      head = wrap (queue.head + 1) % queue.capacity;
      count = queue.count - 1;
    })

unfoldable pub queue_pop : (error : ℕ) → JobQueue → Section Popped
queue_pop error queue = if not (error == 0) then returned failed queue else pop_test queue

-- `queue_close`. What its broadcasts do is `close_notice`.
unfoldable pub queue_close :
    (error first_broadcast second_broadcast unlock_error : ℕ) → JobQueue → Bool × JobQueue
queue_close error first_broadcast second_broadcast unlock_error queue =
    if not (error == 0) then (false, queue) else (
      (first_broadcast == 0) && (second_broadcast == 0) && (unlock_error == 0),
      record queue { closed = true },
    )

-- The loop of `queue_release_remaining`, with the rounds that are left: the number of released jobs.
unfoldable pub release_loop : (fuel : ℕ) → JobQueue → (released : ℕ) → Option (ℕ × JobQueue)
release_loop zero queue released = none
release_loop (suc fuel) queue released =
    let rest =
      release_loop fuel
        (record queue {
          slots = update queue.slots queue.head none;
          head = wrap (queue.head + 1) % queue.capacity;
          count = queue.count - 1;
        })
        (wrap (released + 1)) in
    if queue.count == 0 then some (released, queue) else rest

-- `queue_release_remaining`
abbrev pub queue_release_remaining : JobQueue → Option (ℕ × JobQueue)
queue_release_remaining queue = release_loop (queue.count + 1) queue 0
