-- ===== src/WorkerPool/Run/Whole.antt =====
-- examples/worker_pool.c: the whole pool, with a main thread that changes only its own variables.
use hplf_malloc.Prelude.{◌≡◌, sym, subst, ◌∙◌, inl, inr, List, arith}
use hplf_malloc.WorkerPool.Job.{Job}
use hplf_malloc.WorkerPool.State.{Configuration, MainPc, Main, Pool}
use hplf_malloc.WorkerPool.Run.Ledger.{Ledger}
use hplf_malloc.WorkerPool.Run.Place.{MainFacts, Place}

-- The queue holds some jobs, the ledger is right for them, and so are the local variables of `main`.
pub record IsPool (config : Configuration) (p : Pool) : Type 0 where
  pub queued : List Job
  pub ledger :
      Ledger config.workers config.jobs p.queue p.seen p.workers p.main.jobs_produced
        p.main.expected_checksum queued
  pub place : Place config p.workers p.main

module _ (config : Configuration) (p : Pool) (is : IsPool config p) where
  pub facts_at : (pc : MainPc) → p.main.pc ≡ pc → MainFacts config.jobs p.workers p.main pc
  facts_at pc at = subst (λ t. MainFacts config.jobs p.workers p.main t) at is.place.facts

  -- A step that changes only where `main` stands, its status, its attempts and `all_joined`.
  pub moved :
      (m : Main)
      → m.workers_started ≡ p.main.workers_started
      → m.jobs_produced ≡ p.main.jobs_produced
      → m.expected_checksum ≡ p.main.expected_checksum
      → MainFacts config.jobs p.workers m m.pc
      → IsPool config (record p { main = m })
  moved m started produced expected facts = record {
    queued = is.queued;
    ledger =
        subst
          (λ n.
            Ledger config.workers config.jobs p.queue p.seen p.workers n m.expected_checksum
              is.queued)
          (sym produced)
          (subst
            (λ e.
              Ledger config.workers config.jobs p.queue p.seen p.workers p.main.jobs_produced e
                is.queued)
            (sym expected) is.ledger);
    place = record {
      started_in = omega (arith, started, is.place.started_in);
      idle = λ j ge lt. is.place.idle j (omega (arith, started)) lt;
      running = λ j lt. is.place.running j (omega (arith, started));
      covered = elim is.place.covered [
        | inl none_yet ↦ inl (produced ∙ none_yet)
        | inr some_started ↦ inr (omega (arith, started))
      ];
      few = omega (arith, produced, is.place.few);
      facts = facts;
    };
  }
