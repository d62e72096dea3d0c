-- ===== src/WorkerPool/Waits/Watch.antt =====
-- examples/worker_pool.c: what holds of who sleeps, in every run whose calls on the queue succeed.
use hplf_malloc.Prelude.{
  ℕ, ◌+◌, ◌-◌, ◌≤◌, ◌<◌, ◌≡◌, ◌≢◌, refl, sym, ap, subst, ◌∙◌, Bool, true, false, inl, inr, List,
  arith, ◌==◌, ltb, ℕ_discrete, Bool-cases,
}
use hplf_malloc.CheckedMath.{size_max, wrap}
use hplf_malloc.WorkerPool.Job.{Job, payload_size_for}
use hplf_malloc.WorkerPool.JobQueue.{JobQueue}
use hplf_malloc.WorkerPool.State.{
  Configuration, Answers, WorkerPc, leaving, MainPc, starting, producing, joining, joined, Main,
  Pool,
}
use hplf_malloc.WorkerPool.Run.{worker_step, start_worker, produce, join_worker, has_ended}
use hplf_malloc.WorkerPool.Run.Ledger.{PcFacts}
use hplf_malloc.WorkerPool.Run.Whole.{IsPool, facts_at}
use hplf_malloc.WorkerPool.Waits.{Waiting, IsFine, worker_moved}
use hplf_malloc.WorkerPool.Waits.Guard.{IsGuarded, worker_run-Guards}

-- `main` alone closes the queue, before it joins the workers.
abbrev pub Gate : MainPc → (closed : Bool) → Type 0
Gate (joining index) closed = closed ≡ true
Gate joined closed = closed ≡ true
Gate _ closed = closed ≡ false

pub record IsWatched (s : Waiting) : Type 0 where
  pub calm : (i : ℕ) → (s.pool.workers i).result.queue_error ≡ false
  pub gate : Gate s.pool.main.pc s.pool.queue.closed
  pub guarded : IsGuarded s.pool.main.workers_started s.pool.queue s.asleep s.main_asleep

-- A worker that is not in trouble is not leaving.
stays :
    (jobs : ℕ) (shut e : Bool) (xs : List Job) (pc : WorkerPc)
    → PcFacts jobs shut xs pc e
    → e ≡ false
    → pc ≢ leaving
stays jobs shut e xs pc facts calm at =
    let bad : e ≡ true = subst (λ t. PcFacts jobs shut xs t e) at facts in cc (bad, calm)

more_started :
    {n m : ℕ} {q : JobQueue} {asleep : ℕ → Bool} {main_asleep : Bool}
    → n ≤ m
    → IsGuarded n q asleep main_asleep
    → IsGuarded m q asleep main_asleep
more_started le guarded = record {
  shut = guarded.shut;
  full = guarded.full;
  alert = elim guarded.alert [
    | inl none_left ↦ inl none_left
    | inr (j, lt, awake) ↦ inr (j, omega arith, awake)
  ];
}

module _ (config : Configuration) (workers_fit : config.workers ≤ size_max) {s : Waiting}
    (is : IsPool config s.pool) (watched : IsWatched s) where
  pub worker_moved-IsWatched :
      (answers : Answers) (i : ℕ)
      → IsFine answers
      → i < s.pool.main.workers_started
      → s.asleep i ≡ false
      → IsWatched (worker_moved config answers i s)
  unfolding worker_step
  worker_moved-IsWatched answers i fine started awake =
      let w = s.pool.workers i in
      let facts = (is.ledger.each i (omega (arith, is.place.started_in))).facts in
      let (guarded, same_closed, same_error) =
        worker_run-Guards is.ledger.ring s.pool.main.workers_started i started watched.guarded awake
          w.result s.pool.seen config answers w.pc fine
          (stays config.jobs s.pool.queue.closed w.result.queue_error is.queued w.pc facts
            (watched.calm i)) in
      record {
        calm = λ j. elim (ℕ_discrete i j) [
          | yes e ↦ let t : (i == j) ≡ true = ground arith in rw t (same_error ∙ watched.calm i)
          | no ne ↦ let f : (i == j) ≡ false = ground arith in rw f (watched.calm j)
        ];
        gate = subst (Gate s.pool.main.pc) (sym same_closed) watched.gate;
        guarded = guarded;
      }

  -- A step of `main` that changes neither the queue nor a result.
  local_step :
      (p : Pool)
      → p.queue ≡ s.pool.queue
      → ((i : ℕ) → (p.workers i).result ≡ (s.pool.workers i).result)
      → s.pool.main.workers_started ≤ p.main.workers_started
      → Gate p.main.pc s.pool.queue.closed
      → IsWatched (record s { pool = p })
  local_step p same_queue same_results le gate = record {
    calm = λ i. ap (λ r. r.queue_error) (same_results i) ∙ watched.calm i;
    gate = subst (λ q. Gate p.main.pc q.closed) (sym same_queue) gate;
    guarded =
        subst (λ q. IsGuarded p.main.workers_started q s.asleep s.main_asleep) (sym same_queue)
          (more_started le watched.guarded);
  }

  -- ... in particular one that changes only the variables of `main`.
  pub own_step :
      (m : Main)
      → s.pool.main.workers_started ≡ m.workers_started
      → Gate m.pc s.pool.queue.closed
      → IsWatched (record s { pool = record s.pool { main = m } })
  own_step m same gate =
      local_step (record s.pool { main = m }) refl (λ i. refl) (omega (arith, same)) gate

  pub Gate-at : (pc : MainPc) → s.pool.main.pc ≡ pc → Gate pc s.pool.queue.closed
  Gate-at pc at = subst (λ t. Gate t s.pool.queue.closed) at watched.gate

  pub start_worker-IsWatched :
      (answers : Answers) (index : ℕ)
      → s.pool.main.pc ≡ starting index
      → IsWatched (record s { pool = start_worker config answers index s.pool })
  unfolding start_worker
  start_worker-IsWatched answers index at =
      let (here, good, nothing, all) = facts_at config s.pool is (starting index) at in
      let still_open = Gate-at (starting index) at in
      elim (Bool-cases (index == config.workers)) [
        | inl last ↦ rw last (own_step _ refl still_open)
        | inr more ↦ elim (Bool-cases (config.fail_thread_at == index + 1)) [
          | inl chosen ↦ rw (more, chosen) (own_step _ refl still_open)
          | inr free ↦ elim (Bool-cases (answers.create_error == 0)) [
            | inr bad ↦ rw (more, free, bad) (own_step _ refl still_open)
            | inl ok ↦
                let below : index < config.workers = ground (arith, here, is.place.started_in) in
                rw (more, free, ok)
                  (local_step _ refl
                    (λ j. elim (ℕ_discrete index j) [
                      | yes e ↦
                          let t : (index == j) ≡ true = ground arith in
                          rw t (ap (λ k. (s.pool.workers k).result) e)
                      | no ne ↦ let f : (index == j) ≡ false = ground arith in rw f refl
                    ])
                    (omega (arith, here)) still_open)
          ]
        ]
      ]

  pub produce-IsWatched :
      (answers : Answers) (index : ℕ)
      → s.pool.main.pc ≡ producing index
      → IsWatched
          (record s { pool = record s.pool { main = produce config answers index s.pool.main } })
  unfolding produce
  produce-IsWatched answers index at =
      let still_open = Gate-at (producing index) at in
      elim (Bool-cases (index == config.jobs)) [
        | inl last ↦ rw last (own_step _ refl still_open)
        | inr more ↦
            elim (Bool-cases
              (config.fail_allocation_at == wrap (s.pool.main.allocation_attempts + 1))) [
                | inl chosen ↦ rw (more, chosen) (own_step _ refl still_open)
                | inr free ↦
                    elim (Bool-cases (ltb (size_max - 24) (payload_size_for config.seed index))) [
                      | inl large ↦ rw (more, free, large) (own_step _ refl still_open)
                      | inr fits ↦ elim (Bool-cases answers.allocated) [
                        | inr none_left ↦
                            rw (more, free, fits, none_left) (own_step _ refl still_open)
                        | inl got ↦ rw (more, free, fits, got) (own_step _ refl still_open)
                      ]
                    ]
              ]
      ]

  pub join_worker-IsWatched :
      (answers : Answers) (index : ℕ)
      → s.pool.main.pc ≡ joining index
      → IsWatched (record s {
        pool = record s.pool { main = join_worker answers index s.pool.workers s.pool.main };
      })
  unfolding join_worker
  join_worker-IsWatched answers index at =
      let shut = Gate-at (joining index) at in
      elim (Bool-cases (index == s.pool.main.workers_started)) [
        | inl last ↦ rw last (own_step _ refl shut)
        | inr more ↦ elim (Bool-cases (answers.join_error == 0)) [
          | inr bad ↦ rw (more, bad) (own_step _ refl shut)
          | inl ok ↦ elim (Bool-cases (has_ended (s.pool.workers index).pc)) [
            | inr running ↦ rw (more, ok, running) watched
            | inl over ↦ rw (more, ok, over) (own_step _ refl shut)
          ]
        ]
      ]
