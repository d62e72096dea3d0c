-- ===== src/WorkerPool/Run/Closing.antt =====
-- examples/worker_pool.c: the main thread closes the queue and joins the workers.
use hplf_malloc.Prelude.{
  ℕ, ◌+◌, ◌≡◌, refl, ap, subst, ◌∙◌, Bool, true, false, not, ◌&&◌, inl, inr, arith, ◌==◌,
  if◌then◌else◌, ℕ_discrete, Bool-cases,
}
use hplf_malloc.WorkerPool.JobQueue.{JobQueue, queue_close}
use hplf_malloc.WorkerPool.State.{
  is_ok, internal_error, WorkerPc, not_started, popping, working, leaving, ended, crashed,
  Configuration, Answers, closing, joining, joined, Pool,
}
use hplf_malloc.WorkerPool.Run.{close_queue, join_worker, has_ended}
use hplf_malloc.WorkerPool.Run.Ledger.{Ledger}
use hplf_malloc.WorkerPool.Run.Changes.{Ledger-close}
use hplf_malloc.WorkerPool.Run.Place.{Joined}
use hplf_malloc.WorkerPool.Run.Whole.{IsPool, facts_at, moved}

ended_iff : (pc : WorkerPc) → has_ended pc ≡ true → pc ≡ ended
ended_iff ended over = refl
ended_iff not_started over = cc
ended_iff popping over = cc
ended_iff (working job) over = cc
ended_iff leaving over = cc
ended_iff crashed over = cc

module _ (config : Configuration) (answers : Answers) (p : Pool) (is : IsPool config p) where
  after_close :
      (closed : Bool) (q : JobQueue)
      → p.main.pc ≡ closing
      → Ledger config.workers config.jobs q p.seen p.workers p.main.jobs_produced
          p.main.expected_checksum is.queued
      → IsPool config (record p {
        queue = q;
        main = record p.main {
          pc = joining 0;
          status = if not closed && is_ok p.main.status then internal_error else p.main.status;
        };
      })
  after_close closed q at ledger =
      let complete = (facts_at config p is closing at).0 in
      record {
        queued = is.queued;
        ledger = ledger;
        place = record {
          started_in = is.place.started_in;
          idle = is.place.idle;
          running = is.place.running;
          covered = is.place.covered;
          few = is.place.few;
          facts = (
            elim (Bool-cases (not closed && is_ok p.main.status)) [
              | inl bad ↦ rw bad (inl refl)
              | inr same ↦ rw same complete
            ],
            (inr λ j lt. absurd (omega arith)),
            omega arith,
          );
        };
      }

  pub close_queue-IsPool : p.main.pc ≡ closing → IsPool config (close_queue answers p)
  unfolding close_queue queue_close
  close_queue-IsPool at = elim (Bool-cases (answers.error == 0)) [
    | inl ok ↦ rw ok (after_close _ (record p.queue { closed = true }) at (Ledger-close is.ledger))
    | inr bad ↦ rw bad (after_close false p.queue at is.ledger)
  ]

  one_more :
      (index : ℕ)
      → has_ended (p.workers index).pc ≡ true
      → Joined p.main.all_joined p.workers index
      → Joined p.main.all_joined p.workers (index + 1)
  one_more index over (inl no_join) = inl no_join
  one_more index over (inr done) = inr λ j lt. elim (ℕ_discrete j index) [
    | yes e ↦ ap (λ k. (p.workers k).pc) e ∙ ended_iff (p.workers index).pc over
    | no ne ↦ done j (omega arith)
  ]

  pub join_worker-IsPool :
      (index : ℕ)
      → p.main.pc ≡ joining index
      → IsPool config (record p { main = join_worker answers index p.workers p.main })
  unfolding join_worker
  join_worker-IsPool index at =
      let (complete, done, inside) = facts_at config p is (joining index) at in
      elim (Bool-cases (index == p.main.workers_started)) [
        | inl last ↦ rw last (
            moved config p is (record p.main { pc = joined }) refl refl refl
              (complete, subst (λ n. Joined p.main.all_joined p.workers n) (ground arith) done))
        | inr more ↦ elim (Bool-cases (answers.join_error == 0)) [
          | inr bad ↦
              rw (more, bad)
                (moved config p is
                  (record p.main {
                    pc = joining (index + 1);
                    all_joined = false;
                    status = internal_error;
                  })
                  refl refl refl (inl refl, inl refl, ground (arith, inside)))
          | inl ok ↦ elim (Bool-cases (has_ended (p.workers index).pc)) [
            | inr running ↦ rw (more, ok, running) is
            | inl over ↦
                rw (more, ok, over)
                  (moved config p is (record p.main { pc = joining (index + 1) }) refl refl refl
                    (complete, one_more index over done, ground (arith, inside)))
          ]
        ]
      ]
