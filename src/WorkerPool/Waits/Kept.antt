-- ===== src/WorkerPool/Waits/Kept.antt =====
-- examples/worker_pool.c: every step of a run with sleeping threads keeps what holds of them.
use hplf_malloc.Prelude.{
  ℕ, ◌≤◌, ◌<◌, ◌≡◌, refl, sym, subst, ◌∙◌, Bool, true, false, inl, inr, [], arith, ◌==◌, update,
  Bool-cases,
}
use hplf_malloc.CheckedMath.{size_max}
use hplf_malloc.WorkerPool.Job.{Job}
use hplf_malloc.WorkerPool.JobQueue.{JobQueue, queue_close}
use hplf_malloc.WorkerPool.JobQueue.Ring.{IsRing, push_test-PushedAs}
use hplf_malloc.WorkerPool.State.{
  Configuration, Answers, MainPc, starting, producing, pushing, closing, joining, joined,
}
use hplf_malloc.WorkerPool.Run.{
  Reached, at_start, after_step, worker_steps, main_steps, main_run, pushed, push_job, close_queue,
}
use hplf_malloc.WorkerPool.Run.Whole.{IsPool, facts_at}
use hplf_malloc.WorkerPool.Run.Reach.{Reached-IsPool}
use hplf_malloc.WorkerPool.Waits.{
  Waiting, IsFine, IsSignal, WaitStep, worker_moves, main_moves, worker_wakes, main_wakes,
  WaitReached, all_awake, then_step, workers_told, main_told, main_notice, push_notice,
}
use hplf_malloc.WorkerPool.Waits.Guard.{IsGuarded, queue_push-fine, pushed-Guards}
use hplf_malloc.WorkerPool.Waits.Watch.{
  IsWatched, worker_moved-IsWatched, Gate-at, start_worker-IsWatched, produce-IsWatched,
  join_worker-IsWatched,
}
use hplf_malloc.WorkerPool.JobQueue.{Section, Pushed, queue_push}
use hplf_malloc.WorkerPool.JobQueue.Ring.{PushedAs, takes, refuses, full}

module _ (config : Configuration) (workers_fit : config.workers ≤ size_max) {s : Waiting}
    (is : IsPool config s.pool) (watched : IsWatched s) (awake : s.main_asleep ≡ false)
    (signal : (ℕ → Bool) → ℕ → Bool) (told : IsSignal s.pool.main.workers_started signal) where
  -- After a push with result `r`.
  abbrev after_push : (index : ℕ) (job : Job) (checksum : ℕ) → Section Pushed → Waiting
  after_push index job checksum r = record {
    pool = pushed index checksum s.pool r;
    asleep = workers_told (push_notice r) signal s.asleep;
    main_asleep = main_told (push_notice r) false;
  }

  IsGuarded-awake : IsGuarded s.pool.main.workers_started s.pool.queue s.asleep false
  IsGuarded-awake =
      subst (λ b. IsGuarded s.pool.main.workers_started s.pool.queue s.asleep b) awake
        watched.guarded

  pushed-IsWatched :
      {r : Section Pushed} (index : ℕ) (job : Job) (checksum : ℕ)
      → s.pool.main.pc ≡ pushing index job checksum
      → PushedAs s.pool.queue is.queued job r
      → IsWatched (after_push index job checksum r)
  pushed-IsWatched index job checksum at (takes r still_open space ring keeps_open same_size) =
      let started = (facts_at config s.pool is (pushing index job checksum) at).2 in
      let kept =
        pushed-Guards is.ledger.ring s.pool.main.workers_started started IsGuarded-awake signal told
          index checksum s.pool job (takes r still_open space ring keeps_open same_size)
          still_open in
      record { calm = watched.calm; gate = keeps_open; guarded = kept.0 }
  pushed-IsWatched index job checksum at (refuses shut) =
      absurd (cc (shut, Gate-at config workers_fit is watched (pushing index job checksum) at))
  pushed-IsWatched index job checksum at (full still_open e) = record {
    calm = watched.calm;
    gate = watched.gate;
    guarded = record {
      shut = inl still_open;
      full = inr (is.ledger.ring.count ∙ e);
      alert = watched.guarded.alert;
    };
  }

  -- After the broadcasts of `queue_close` nobody is asleep.
  close_queue-IsWatched :
      (answers : Answers)
      → IsFine answers
      → IsWatched (record {
        pool = close_queue answers s.pool;
        asleep = workers_told (main_notice answers closing s.pool.queue) signal s.asleep;
        main_asleep = main_told (main_notice answers closing s.pool.queue) s.main_asleep;
      })
  unfolding close_queue queue_close
  close_queue-IsWatched answers fine =
      let ok : (answers.error == 0) ≡ true = ground (arith, fine.error) in
      rw ok (record {
        calm = watched.calm;
        gate = refl;
        guarded = record {
          shut = inr ((λ j. refl), refl);
          full = inl refl;
          alert = elim watched.guarded.alert [
            | inl none_left ↦ inl none_left
            | inr (j, lt, up) ↦ inr (j, lt, refl)
          ];
        };
      })

  main_moved-IsWatched :
      (answers : Answers) (pc : MainPc)
      → IsFine answers
      → s.pool.main.pc ≡ pc
      → IsWatched (record {
        pool = main_run config answers pc s.pool;
        asleep = workers_told (main_notice answers pc s.pool.queue) signal s.asleep;
        main_asleep = main_told (main_notice answers pc s.pool.queue) s.main_asleep;
      })
  unfolding main_run push_job
  main_moved-IsWatched answers (starting index) fine at =
      start_worker-IsWatched config workers_fit is watched answers index at
  main_moved-IsWatched answers (producing index) fine at =
      produce-IsWatched config workers_fit is watched answers index at
  main_moved-IsWatched answers (pushing index job checksum) fine at =
      subst
        (λ b. IsWatched (record {
          pool = push_job answers index job checksum s.pool;
          asleep =
              workers_told (push_notice (queue_push answers.error s.pool.queue job)) signal
                s.asleep;
          main_asleep = main_told (push_notice (queue_push answers.error s.pool.queue job)) b;
        }))
        (sym awake)
        (subst (λ r. IsWatched (after_push index job checksum r))
          (sym (queue_push-fine answers s.pool.queue job fine))
          (pushed-IsWatched index job checksum at (push_test-PushedAs job is.ledger.ring)))
  main_moved-IsWatched answers closing fine at = close_queue-IsWatched answers fine
  main_moved-IsWatched answers (joining index) fine at =
      join_worker-IsWatched config workers_fit is watched answers index at
  main_moved-IsWatched answers joined fine at = watched

-- A thread that is woken without a reason.
woken : (asleep : ℕ → Bool) (i j : ℕ) → asleep j ≡ false → update asleep i false j ≡ false
woken asleep i j awake = elim (Bool-cases (i == j)) [
  | inl here ↦ rw here refl
  | inr away ↦ rw away awake
]

WaitStep-IsWatched :
    (config : Configuration)
    → config.workers ≤ size_max
    → {s t : Waiting} → IsPool config s.pool
    → IsWatched s
    → WaitStep config s t
    → IsWatched t
WaitStep-IsWatched config workers_fit is watched (worker_moves answers index fine started awake) =
    worker_moved-IsWatched config workers_fit is watched answers index fine started awake
WaitStep-IsWatched config workers_fit {s} is watched (main_moves answers signal fine told awake) =
    main_moved-IsWatched config workers_fit is watched awake signal told answers s.pool.main.pc fine
      refl
WaitStep-IsWatched config workers_fit {s} is watched (worker_wakes index) = record {
  calm = watched.calm;
  gate = watched.gate;
  guarded = record {
    shut = elim watched.guarded.shut [
      | inl still_open ↦ inl still_open
      | inr (nobody, main) ↦ inr ((λ j. woken s.asleep index j (nobody j)), main)
    ];
    full = watched.guarded.full;
    alert = elim watched.guarded.alert [
      | inl none_left ↦ inl none_left
      | inr (j, lt, awake) ↦ inr (j, lt, woken s.asleep index j awake)
    ];
  };
}
WaitStep-IsWatched config workers_fit is watched main_wakes = record {
  calm = watched.calm;
  gate = watched.gate;
  guarded = record {
    shut = elim watched.guarded.shut [
      | inl still_open ↦ inl still_open
      | inr (nobody, main) ↦ inr (nobody, refl)
    ];
    full = inl refl;
    alert = watched.guarded.alert;
  };
}

-- The runs with sleeping threads are runs of the threads.
pub WaitReached-Reached :
    {config : Configuration} {q : JobQueue} {s : Waiting}
    → WaitReached config q s
    → Reached config q s.pool
WaitReached-Reached all_awake = at_start
WaitReached-Reached (then_step before (worker_moves answers index fine started awake)) =
    after_step (WaitReached-Reached before) (worker_steps answers index started)
WaitReached-Reached (then_step before (main_moves answers signal fine told awake)) =
    after_step (WaitReached-Reached before) (main_steps answers)
WaitReached-Reached (then_step before (worker_wakes index)) = WaitReached-Reached before
WaitReached-Reached (then_step before main_wakes) = WaitReached-Reached before

module _ (config : Configuration) (some_worker : 0 < config.workers)
    (workers_fit : config.workers ≤ size_max) (jobs_fit : config.jobs ≤ size_max) {q : JobQueue}
    (ring : IsRing q []) (still_open : q.closed ≡ false) where
  -- In every run whose calls on the queue succeed, whatever threads wake without a reason.
  pub WaitReached-IsWatched : {s : Waiting} → WaitReached config q s → IsWatched s
  WaitReached-IsWatched all_awake = record {
    calm = λ i. refl;
    gate = still_open;
    guarded = record { shut = inl still_open; full = inl refl; alert = inl ring.count };
  }
  WaitReached-IsWatched (then_step before step) =
      WaitStep-IsWatched config workers_fit
        (Reached-IsPool config some_worker workers_fit jobs_fit ring (WaitReached-Reached before))
        (WaitReached-IsWatched before) step
