-- ===== src/WorkerPool/Run/Producer.antt =====
-- examples/worker_pool.c: the main thread makes the jobs and pushes them.
use hplf_malloc.Prelude.{
  ℕ, ◌+◌, ◌-◌, ◌≤◌, ◌≡◌, refl, sym, subst, ◌∙◌, false, inl, inr, [], ◌∷◌, ◌++◌, arith, ◌==◌, ltb,
  Bool-cases,
}
use hplf_malloc.CheckedMath.{size_max, wrap}
use hplf_malloc.WorkerPool.Job.{Job, job_checksum, payload_size_for, build_job}
use hplf_malloc.WorkerPool.Job.Filled.{build_job-valid}
use hplf_malloc.WorkerPool.JobQueue.{Section, Pushed, queue_push}
use hplf_malloc.WorkerPool.JobQueue.Ring.{PushedAs, takes, refuses, full, push_test-PushedAs}
use hplf_malloc.WorkerPool.State.{
  Status, is_ok, internal_error, allocation_failure, Configuration, Answers, producing, pushing,
  closing, Pool,
}
use hplf_malloc.WorkerPool.Run.{produce, pushed, push_job}
use hplf_malloc.WorkerPool.Run.Ledger.{Ledger}
use hplf_malloc.WorkerPool.Run.Changes.{Ledger-push}
use hplf_malloc.WorkerPool.Run.Whole.{IsPool, facts_at, moved}

module _ (config : Configuration) (jobs_fit : config.jobs ≤ size_max) (answers : Answers) (p : Pool)
    (is : IsPool config p) where
  pub produce-IsPool :
      (index : ℕ)
      → p.main.pc ≡ producing index
      → IsPool config (record p { main = produce config answers index p.main })
  unfolding produce
  produce-IsPool index at =
      let (good, here, started, all) = facts_at config p is (producing index) at in
      let attempts = wrap (p.main.allocation_attempts + 1) in
      let job = build_job config.seed index answers.garbage in
      let (id, valid) = build_job-valid config.seed index answers.garbage in
      let gives_up = λ (s : Status) (bad : is_ok s ≡ false).
        moved config p is
          (record p.main { allocation_attempts = attempts; pc = closing; status = s }) refl refl
          refl (inl bad, all) in
      elim (Bool-cases (index == config.jobs)) [
        | inl last ↦ rw last (
            moved config p is (record p.main { pc = closing }) refl refl refl
              (inr (ground (arith, here)), all))
        | inr more ↦ elim (Bool-cases (config.fail_allocation_at == attempts)) [
          | inl chosen ↦ rw (more, chosen) (gives_up allocation_failure refl)
          | inr free ↦
              elim (Bool-cases (ltb (size_max - 24) (payload_size_for config.seed index))) [
                | inl large ↦ rw (more, free, large) (gives_up internal_error refl)
                | inr fits ↦ elim (Bool-cases answers.allocated) [
                  | inr none_left ↦
                      rw (more, free, fits, none_left) (gives_up allocation_failure refl)
                  | inl got ↦
                      rw (more, free, fits, got)
                        (moved config p is
                          (record p.main {
                            allocation_attempts = attempts;
                            pc = pushing index job (job_checksum job);
                          })
                          refl refl refl
                          (
                            good,
                            here,
                            started,
                            all,
                            (ground (arith, id, here, is.place.few), valid),
                            id,
                            refl,
                          ))
                ]
              ]
        ]
      ]

  push_fails :
      (index : ℕ) (job : Job) (checksum : ℕ)
      → p.main.pc ≡ pushing index job checksum
      → IsPool config (record p { main = record p.main { pc = closing; status = internal_error } })
  push_fails index job checksum at =
      let facts = facts_at config p is (pushing index job checksum) at in
      moved config p is (record p.main { pc = closing; status = internal_error }) refl refl refl
        (inl refl, facts.3)

  pushed-IsPool :
      {s : Section Pushed} (index : ℕ) (job : Job) (checksum : ℕ)
      → PushedAs p.queue is.queued job s
      → p.main.pc ≡ pushing index job checksum
      → IsPool config (pushed index checksum p s)
  pushed-IsPool index job checksum (refuses shut) at = push_fails index job checksum at
  pushed-IsPool index job checksum (full still_open e) at = is
  pushed-IsPool index job checksum (takes r still_open space ring keeps_open cap) at =
      let (good, here, started, all, made, id, sum) =
        facts_at config p is (pushing index job checksum) at in
      let m = p.main in
      let count : m.jobs_produced + 1 ≡ wrap (m.jobs_produced + 1) =
        omega (arith, made.0, id, here) in
      let after = Ledger-push is.ledger job r made (id ∙ sym here) still_open ring in
      record {
        queued = is.queued ++ (job ∷ []);
        ledger =
            subst
              (λ n.
                Ledger config.workers config.jobs r p.seen p.workers n
                  (wrap (m.expected_checksum + checksum)) (is.queued ++ (job ∷ [])))
              count
              (subst
                (λ c.
                  Ledger config.workers config.jobs r p.seen p.workers (m.jobs_produced + 1)
                    (wrap (m.expected_checksum + c)) (is.queued ++ (job ∷ [])))
                (sym sum) after);
        place = record {
          started_in = is.place.started_in;
          idle = is.place.idle;
          running = is.place.running;
          covered = inr started;
          few = omega (arith, count, made.0, id, here);
          facts = (good, omega (arith, count, here), started, all);
        };
      }

  pub push_job-IsPool :
      (index : ℕ) (job : Job) (checksum : ℕ)
      → p.main.pc ≡ pushing index job checksum
      → IsPool config (push_job answers index job checksum p)
  unfolding push_job queue_push
  push_job-IsPool index job checksum at = elim (Bool-cases (answers.error == 0)) [
    | inl ok ↦ rw ok (pushed-IsPool index job checksum (push_test-PushedAs job is.ledger.ring) at)
    | inr bad ↦ rw bad (push_fails index job checksum at)
  ]
