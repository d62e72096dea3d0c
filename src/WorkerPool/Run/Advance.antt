-- ===== src/WorkerPool/Run/Advance.antt =====
-- examples/worker_pool.c: what a step of the main thread takes from the work that is left.
use hplf_malloc.Prelude.{
  ℕ, ◌+◌, ◌-◌, ◌<◌, ◌≡◌, refl, ap, ◌∙◌, false, ◌⊎◌, inl, inr, [], ◌∷◌, arith, ◌==◌, ltb,
  length-append, Bool-cases,
}
use hplf_malloc.CheckedMath.{size_max, wrap}
use hplf_malloc.WorkerPool.Job.{Job, payload_size_for}
use hplf_malloc.WorkerPool.JobQueue.{Section, Pushed, queue_push, queue_close}
use hplf_malloc.WorkerPool.JobQueue.Ring.{PushedAs, takes, refuses, full, push_test-PushedAs}
use hplf_malloc.WorkerPool.State.{
  Configuration, Answers, MainPc, starting, producing, pushing, closing, joining, joined, Pool,
  Worker, popping,
}
use hplf_malloc.WorkerPool.Run.{
  has_ended, start_worker, produce, pushed, push_job, close_queue, join_worker, main_run,
}
use hplf_malloc.WorkerPool.Run.Ledger.{sum_below-at}
use hplf_malloc.WorkerPool.Run.Whole.{IsPool, facts_at}
use hplf_malloc.WorkerPool.Run.Work.{worker_work, main_work, work}

-- The main thread waits at a full open queue and for a worker that it joins, and is done at the end.
abbrev pub MainBlocked : Pool → MainPc → Type 0
MainBlocked p (starting index) = ⊥
MainBlocked p (producing index) = ⊥
MainBlocked p (pushing index job checksum) =
    (p.queue.count ≡ p.queue.capacity) × (p.queue.closed ≡ false)
MainBlocked p closing = ⊥
MainBlocked p (joining index) =
    (index < p.main.workers_started) × (has_ended (p.workers index).pc ≡ false)
MainBlocked p joined = Unit {0}

module _ (config : Configuration) (answers : Answers) (p : Pool) (is : IsPool config p) where
  -- The step lowers the work, or the main thread is blocked and nothing changes.
  abbrev MainAdvances : MainPc → Pool → Type 0
  MainAdvances pc r = (work config r < work config p) ⊎ (MainBlocked p pc × (r ≡ p))

  work_at : (pc : MainPc) → p.main.pc ≡ pc → main_work config p.main.pc ≡ main_work config pc
  work_at pc at = ap (main_work config) at

  starts :
      (index : ℕ)
      → p.main.pc ≡ starting index
      → MainAdvances (starting index) (start_worker config answers index p)
  unfolding start_worker
  starts index at =
      let (here, good, nothing, all) = facts_at config p is (starting index) at in
      let before = work_at (starting index) at in
      elim (Bool-cases (index == config.workers)) [
        | inl last ↦ rw last (inl (omega (arith, before)))
        | inr more ↦ elim (Bool-cases (config.fail_thread_at == index + 1)) [
          | inl chosen ↦ rw (more, chosen) (inl (omega (arith, before)))
          | inr free ↦ elim (Bool-cases (answers.create_error == 0)) [
            | inr bad ↦ rw (more, free, bad) (inl (omega (arith, before)))
            | inl ok ↦
                let below : index < config.workers = ground (arith, here, is.place.started_in) in
                let w : Worker = record { pc = popping; result = (p.workers index).result } in
                let idle : worker_work (p.workers index).pc ≡ 3 =
                  ap (λ (v : Worker). worker_work v.pc)
                    (is.place.idle index (omega (arith, here)) below) in
                let changed =
                  sum_below-at config.workers (λ v. worker_work v.pc) p.workers index w below in
                rw (more, free, ok) (inl (omega (arith, before, idle, changed)))
          ]
        ]
      ]

  produces :
      (index : ℕ)
      → p.main.pc ≡ producing index
      → MainAdvances (producing index) (record p { main = produce config answers index p.main })
  unfolding produce
  produces index at =
      let before = work_at (producing index) at in
      elim (Bool-cases (index == config.jobs)) [
        | inl last ↦ rw last (inl (omega (arith, before)))
        | inr more ↦
            elim (Bool-cases (config.fail_allocation_at == wrap (p.main.allocation_attempts + 1))) [
              | inl chosen ↦ rw (more, chosen) (inl (omega (arith, before)))
              | inr free ↦
                  elim (Bool-cases (ltb (size_max - 24) (payload_size_for config.seed index))) [
                    | inl large ↦ rw (more, free, large) (inl (omega (arith, before)))
                    | inr fits ↦ elim (Bool-cases answers.allocated) [
                      | inr none_left ↦
                          rw (more, free, fits, none_left) (inl (omega (arith, before)))
                      | inl got ↦ rw (more, free, fits, got) (inl (omega (arith, before)))
                    ]
                  ]
            ]
      ]

  index_in :
      (index : ℕ) (job : Job) (checksum : ℕ)
      → p.main.pc ≡ pushing index job checksum
      → index < config.jobs
  index_in index job checksum at =
      let (good, here, started, all, made, id, sum) =
        facts_at config p is (pushing index job checksum) at in
      omega (arith, made.0, id)

  pushes :
      {s : Section Pushed} (index : ℕ) (job : Job) (checksum : ℕ)
      → PushedAs p.queue is.queued job s
      → p.main.pc ≡ pushing index job checksum
      → MainAdvances (pushing index job checksum) (pushed index checksum p s)
  pushes index job checksum (refuses shut) at =
      inl (omega (arith, work_at (pushing index job checksum) at, index_in index job checksum at))
  pushes index job checksum (full still_open e) at =
      inr ((is.ledger.ring.count ∙ e, still_open), refl)
  pushes index job checksum (takes r still_open space ring keeps_open same_size) at = inl (
      omega (
        arith,
        work_at (pushing index job checksum) at,
        ring.count,
        is.ledger.ring.count,
        length-append is.queued (job ∷ []),
        index_in index job checksum at,
      ))

  push_job-MainAdvances :
      (index : ℕ) (job : Job) (checksum : ℕ)
      → p.main.pc ≡ pushing index job checksum
      → MainAdvances (pushing index job checksum) (push_job answers index job checksum p)
  unfolding push_job queue_push
  push_job-MainAdvances index job checksum at = elim (Bool-cases (answers.error == 0)) [
    | inl ok ↦ rw ok (pushes index job checksum (push_test-PushedAs job is.ledger.ring) at)
    | inr bad ↦ rw bad (
        inl
          (omega (arith, work_at (pushing index job checksum) at, index_in index job checksum at)))
  ]

  closes : p.main.pc ≡ closing → MainAdvances closing (close_queue answers p)
  unfolding close_queue queue_close
  closes at = elim (Bool-cases (answers.error == 0)) [
    | inl ok ↦ rw ok (inl (omega (arith, work_at closing at)))
    | inr bad ↦ rw bad (inl (omega (arith, work_at closing at)))
  ]

  joins :
      (index : ℕ)
      → p.main.pc ≡ joining index
      → MainAdvances
          (joining index)
          (record p { main = join_worker answers index p.workers p.main })
  unfolding join_worker
  joins index at =
      let (complete, done, inside) = facts_at config p is (joining index) at in
      let before = work_at (joining index) at in
      elim (Bool-cases (index == p.main.workers_started)) [
        | inl last ↦ rw last (inl (omega (arith, before, inside, is.place.started_in)))
        | inr more ↦ elim (Bool-cases (answers.join_error == 0)) [
          | inr bad ↦ rw (more, bad) (inl (omega (arith, before, inside, is.place.started_in)))
          | inl ok ↦ elim (Bool-cases (has_ended (p.workers index).pc)) [
            | inr running ↦ rw (more, ok, running) (inr ((ground (arith, inside), refl), refl))
            | inl over ↦
                rw (more, ok, over) (inl (omega (arith, before, inside, is.place.started_in)))
          ]
        ]
      ]

  pub main_run-MainAdvances :
      (pc : MainPc)
      → p.main.pc ≡ pc
      → (work config (main_run config answers pc p) < work config p)
        ⊎ (MainBlocked p pc × (main_run config answers pc p ≡ p))
  unfolding main_run
  main_run-MainAdvances (starting index) at = starts index at
  main_run-MainAdvances (producing index) at = produces index at
  main_run-MainAdvances (pushing index job checksum) at =
      push_job-MainAdvances index job checksum at
  main_run-MainAdvances closing at = closes at
  main_run-MainAdvances (joining index) at = joins index at
  main_run-MainAdvances joined at = inr (tt, refl)
