-- ===== src/WorkerPool/Waits/Guard.antt =====
-- examples/worker_pool.c: no wake-up is lost. What each step of a thread does to the queue and to those
-- who sleep keeps a reason for every sleeper.
use hplf_malloc.Prelude.{
  ℕ, ◌<◌, ◌≡◌, ◌≢◌, refl, sym, ap, subst, ◌∙◌, Bool, true, false, ◌⊎◌, inl, inr, none, some, List,
  arith, ◌==◌, length, ltb, Bool-cases,
}
use hplf_malloc.WorkerPool.Job.{Job, job_is_valid}
use hplf_malloc.WorkerPool.JobQueue.{
  JobQueue, Section, Pushed, Popped, queue_push, queue_pop, push_test, pop_test,
}
use hplf_malloc.WorkerPool.JobQueue.Ring.{
  IsRing, PushedAs, takes, refuses, full, PoppedAs, gives, drains, empty, pop_test-PoppedAs,
}
use hplf_malloc.WorkerPool.State.{
  Configuration, Answers, WorkerPc, not_started, popping, working, leaving, ended, crashed,
  WorkerResult, Pool,
}
use hplf_malloc.WorkerPool.Run.{popped, pushed, worker_run, mark_job, check_job}
use hplf_malloc.WorkerPool.Waits.{
  IsFine, IsSignal, pop_notice, push_notice, worker_notice, workers_after, main_after, workers_told,
  main_told,
}

-- Nobody sleeps at a closed queue, `main` sleeps only at a full one, and where the queue has a job some
-- started worker is awake.
pub record IsGuarded (started : ℕ) (q : JobQueue) (asleep : ℕ → Bool) (main_asleep : Bool)
    : Type 0 where
  pub shut : (q.closed ≡ false) ⊎ (((j : ℕ) → asleep j ≡ false) × (main_asleep ≡ false))
  pub full : (main_asleep ≡ false) ⊎ (q.count ≡ q.capacity)
  pub alert : (q.count ≡ 0) ⊎ ((j : ℕ) × (j < started) × (asleep j ≡ false))

-- Only an error of the queue sets the flag.
pub check_job-queue_error :
    (result : WorkerResult) (job : Job) → (check_job result job).queue_error ≡ result.queue_error
unfolding check_job
check_job-queue_error result job = elim (Bool-cases (job_is_valid job)) [
  | inl valid ↦ rw valid refl
  | inr damaged ↦ rw damaged refl
]

pub mark_job-queue_error :
    (seen_count : ℕ) (seen : ℕ → ℕ) (result : WorkerResult) (job : Job)
    → (mark_job seen_count seen result job).1.queue_error ≡ result.queue_error
unfolding mark_job
mark_job-queue_error seen_count seen result job = elim (Bool-cases (ltb job.id seen_count)) [
  | inr outside ↦ rw outside refl
  | inl inside ↦ elim (Bool-cases (seen job.id == 0)) [
    | inl new ↦ rw (inside, new) refl
    | inr again ↦ rw (inside, again) refl
  ]
]

queue_pop-fine :
    (answers : Answers) (q : JobQueue) → IsFine answers → queue_pop answers.error q ≡ pop_test q
unfolding queue_pop
queue_pop-fine answers q fine =
    let ok : (answers.error == 0) ≡ true = ground (arith, fine.error) in rw ok refl

pub queue_push-fine :
    (answers : Answers) (q : JobQueue) (job : Job)
    → IsFine answers
    → queue_push answers.error q job ≡ push_test q job
unfolding queue_push
queue_push-fine answers q job fine =
    let ok : (answers.error == 0) ≡ true = ground (arith, fine.error) in rw ok refl

module _ {q : JobQueue} {xs : List Job} (ring : IsRing q xs) (started i : ℕ) (below : i < started)
    {asleep : ℕ → Bool} {main_asleep : Bool} (guarded : IsGuarded started q asleep main_asleep)
    (awake : asleep i ≡ false) (result : WorkerResult) (seen : ℕ → ℕ) where
  -- A worker's step at the queue leaves the sleepers guarded, the queue open or closed as it was, and
  -- the worker without an error.
  abbrev Guards : WorkerPc → Section Popped → Type 0
  Guards pc s =
      let (w, r, marks) = popped result seen s in
      IsGuarded started r (workers_after (pop_notice s) i asleep)
        (main_after (pop_notice s) main_asleep)
      × (r.closed ≡ q.closed)
      × (w.result.queue_error ≡ result.queue_error)

  popped-Guards : {s : Section Popped} → PoppedAs q xs s → Guards popping s
  popped-Guards (gives job rest r e after same_closed same_size) = (
    record {
      shut = elim guarded.shut [
        | inl still_open ↦ inl (same_closed ∙ still_open)
        | inr nobody ↦ inr (nobody.0, refl)
      ];
      full = inl refl;
      alert = inr (i, below, awake);
    },
    same_closed,
    refl,
  )
  popped-Guards (drains shut e) = (guarded, refl, refl)
  popped-Guards (empty still_open e) = (
    record { shut = inl still_open; full = guarded.full; alert = inl (ring.count ∙ ap length e) },
    refl,
    refl,
  )

  pub worker_run-Guards :
      (config : Configuration) (answers : Answers) (pc : WorkerPc)
      → IsFine answers
      → pc ≢ leaving
      → let (w, r, marks) = worker_run config answers pc result q seen in
        let notice = worker_notice answers pc q in
        IsGuarded started r (workers_after notice i asleep) (main_after notice main_asleep)
        × (r.closed ≡ q.closed)
        × (w.result.queue_error ≡ result.queue_error)
  unfolding worker_run
  worker_run-Guards config answers not_started fine stays = (guarded, refl, refl)
  worker_run-Guards config answers popping fine stays =
      subst (λ s. Guards popping s) (sym (queue_pop-fine answers q fine))
        (popped-Guards (pop_test-PoppedAs xs ring))
  worker_run-Guards config answers (working none) fine stays = (guarded, refl, refl)
  worker_run-Guards config answers (working (some job)) fine stays = (
    guarded,
    refl,
    check_job-queue_error _ job ∙ mark_job-queue_error config.jobs seen result job,
  )
  worker_run-Guards config answers leaving fine stays = absurd (stays refl)
  worker_run-Guards config answers ended fine stays = (guarded, refl, refl)
  worker_run-Guards config answers crashed fine stays = (guarded, refl, refl)

-- The same for the producer's push.
module _ {q : JobQueue} {xs : List Job} (ring : IsRing q xs) (started : ℕ)
    (some_started : 0 < started) {asleep : ℕ → Bool} (guarded : IsGuarded started q asleep false)
    (signal : (ℕ → Bool) → ℕ → Bool) (is : IsSignal started signal) (index checksum : ℕ) (p : Pool)
    (job : Job) where
  pub pushed-Guards :
      {s : Section Pushed}
      → PushedAs q xs job s
      → q.closed ≡ false
      → let r = (pushed index checksum p s).queue in
        IsGuarded started r
          (workers_told (push_notice s) signal asleep)
          (main_told (push_notice s) false)
        × (r.closed ≡ false)
  pushed-Guards (takes r still_open space after keeps_open same_size) open_before = (
    record {
      shut = inl keeps_open;
      full = inl refl;
      alert = elim (is.wakes asleep) [
        | inl nobody ↦ inr (0, some_started, is.only asleep 0 (nobody 0 some_started))
        | inr (j, lt, was, woken) ↦ inr (j, lt, woken)
      ];
    },
    keeps_open,
  )
  pushed-Guards (refuses shut) open_before = (guarded, open_before)
  pushed-Guards (full still_open e) open_before = (
    record { shut = inl still_open; full = inr (ring.count ∙ e); alert = guarded.alert },
    still_open,
  )
