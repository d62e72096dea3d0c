-- ===== src/WorkerPool/Run/Progress.antt =====
-- examples/worker_pool.c: the run of the threads ends.
use hplf_malloc.Prelude.{
  ℕ, zero, suc, ◌+◌, ◌*◌, ◌≤◌, ◌<◌, ◌≡◌, ◌≢◌, refl, ap, subst, ◌∙◌, Bool, true, false, ◌⊎◌, inl,
  inr, none, List, [], arith, update, update_self, sum_below,
}
use hplf_malloc.CheckedMath.{size_max}
use hplf_malloc.WorkerPool.Job.{Job}
use hplf_malloc.WorkerPool.JobQueue.{JobQueue}
use hplf_malloc.WorkerPool.JobQueue.Ring.{IsRing}
use hplf_malloc.WorkerPool.State.{
  Configuration, Answers, WorkerPc, not_started, popping, working, leaving, ended, crashed, Worker,
  Pool,
}
use hplf_malloc.WorkerPool.Run.{
  start, Step, worker_steps, main_steps, worker_run, worker_step, Reached, at_start, after_step,
}
use hplf_malloc.WorkerPool.Run.Ledger.{PcFacts, sum_below-at}
use hplf_malloc.WorkerPool.Run.Whole.{IsPool}
use hplf_malloc.WorkerPool.Run.Reach.{Reached-IsPool}
use hplf_malloc.WorkerPool.Run.Work.{worker_work, work, Blocked, worker_run-Advances}
use hplf_malloc.WorkerPool.Run.Advance.{main_run-MainAdvances}

module _ (config : Configuration) {p : Pool} (is : IsPool config p) where
  pub worker_step-Advances :
      (answers : Answers) (i : ℕ)
      → i < p.main.workers_started
      → (work config (worker_step config answers i p) < work config p)
        ⊎ (Blocked p.queue (p.workers i).pc × (worker_step config answers i p ≡ p))
  unfolding worker_step
  worker_step-Advances answers i started =
      let w = p.workers i in
      let below : i < config.workers = omega (arith, is.place.started_in) in
      let facts = (is.ledger.each i below).facts in
      let (after, r, marks) = worker_run config answers w.pc w.result p.queue p.seen in
      let not_null : w.pc ≢ working none = λ e.
        subst (λ t. PcFacts config.jobs p.queue.closed is.queued t w.result.queue_error) e facts in
      elim (worker_run-Advances is.ledger.ring p.seen w.result config answers w.pc not_null) [
        | inl less ↦ inl (
            omega (
              arith,
              less,
              sum_below-at config.workers (λ v. worker_work v.pc) p.workers i after below,
            ))
        | inr (blocked, same) ↦ inr (
          blocked,
          ap
                (λ (t : Worker × JobQueue × (ℕ → ℕ)). record p {
                  workers = update p.workers i t.0;
                  queue = t.1;
                  seen = t.2;
                })
                same
              ∙ ap (λ ws. record p { workers = ws }) (update_self p.workers i),
        )
      ]

  -- A step of any thread leaves the pool as it is or lowers the work that is left.
  pub Step-Advances : {r : Pool} → Step config p r → (work config r < work config p) ⊎ (r ≡ p)
  Step-Advances (main_steps answers) =
      elim (main_run-MainAdvances config answers p is p.main.pc refl) [
        | inl less ↦ inl less
        | inr (blocked, same) ↦ inr same
      ]
  Step-Advances (worker_steps answers index started) =
      elim (worker_step-Advances answers index started) [
        | inl less ↦ inl less
        | inr (blocked, same) ↦ inr same
      ]

-- The pools that steps lead to, of which `n` have changed something.
pub data Changed (config : Configuration) (q : JobQueue) : ℕ → Pool → Type 0 where
  unchanged : Changed config q 0 (start q)
  changes :
      {n : ℕ} {p r : Pool}
      → Changed config q n p
      → Step config p r
      → r ≢ p
      → Changed config q (suc n) r
  repeats :
      {n : ℕ} {p r : Pool} → Changed config q n p → Step config p r → r ≡ p → Changed config q n r

Changed-Reached :
    {config : Configuration} {q : JobQueue} {n : ℕ} {p : Pool}
    → Changed config q n p
    → Reached config q p
Changed-Reached unchanged = at_start
Changed-Reached (changes before step other) = after_step (Changed-Reached before) step
Changed-Reached (repeats before step same) = after_step (Changed-Reached before) step

-- A worker between its start and its end has something to do, unless the queue is empty and open.
pub not-Blocked :
    (jobs : ℕ) (q : JobQueue) (xs : List Job) (e : Bool) (pc : WorkerPc)
    → pc ≢ not_started
    → pc ≢ ended
    → PcFacts jobs q.closed xs pc e
    → ¬ ((q.count ≡ 0) × (q.closed ≡ false))
    → ¬ Blocked q pc
not-Blocked jobs q xs e not_started ne more facts busy blocked = ne refl
not-Blocked jobs q xs e popping ne more facts busy blocked = busy blocked
not-Blocked jobs q xs e (working job) ne more facts busy blocked = blocked
not-Blocked jobs q xs e leaving ne more facts busy blocked = blocked
not-Blocked jobs q xs e ended ne more facts busy blocked = more refl
not-Blocked jobs q xs e crashed ne more facts busy blocked = facts

pub ended_why :
    (jobs : ℕ) {shut : Bool} (xs : List Job) {pc : WorkerPc} {e : Bool}
    → pc ≡ ended
    → PcFacts jobs shut xs pc e
    → (e ≡ true) ⊎ (shut ≡ true)
ended_why jobs {shut} xs {pc} {e} same facts =
    elim (subst (λ t. PcFacts jobs shut xs t e) same facts) [
      | inl bad ↦ inl bad
      | inr both ↦ inr both.0
    ]

all_idle : (n : ℕ) → sum_below n (λ i. 3) ≡ 3 * n
unfolding sum_below
all_idle zero = refl
all_idle (suc n) = omega (arith, all_idle n)

module _ (config : Configuration) (some_worker : 0 < config.workers)
    (workers_fit : config.workers ≤ size_max) (jobs_fit : config.jobs ≤ size_max) {q : JobQueue}
    (ring : IsRing q []) where
  less_work : {n : ℕ} {p : Pool} → Changed config q n p → n + work config p ≤ work config (start q)
  less_work unchanged = omega arith
  less_work (changes before step other) =
      let is =
        Reached-IsPool config some_worker workers_fit jobs_fit ring (Changed-Reached before) in
      elim (Step-Advances config is step) [
        | inl less ↦ omega (arith, less, less_work before)
        | inr same ↦ absurd (other same)
      ]
  less_work (repeats before step same) = omega (arith, less_work before, ap (work config) same)

  -- Whatever the calls answer and in whatever order the threads run, the steps that change anything
  -- are at most four for each job, five for each worker and four more.
  pub steps_bounded :
      {n : ℕ} {p : Pool} → Changed config q n p → n ≤ 4 * config.jobs + 5 * config.workers + 4
  steps_bounded changed = omega (arith, less_work changed, all_idle config.workers, ring.count)
