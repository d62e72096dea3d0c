-- ===== src/WorkerPool/Run/Place.antt =====
-- examples/worker_pool.c: what is known of the local variables of `main` by where it stands.
use hplf_malloc.Prelude.{
  ℕ, ◌≤◌, ◌<◌, ◌≡◌, ◌≢◌, ap, ◌∙◌, Bool, true, false, ◌⊎◌, inl, inr, arith, ◌==◌, update, ℕ_discrete,
}
use hplf_malloc.WorkerPool.Job.{job_checksum}
use hplf_malloc.WorkerPool.State.{
  Status, run_ok, is_ok, blank_result, not_started, ended, Configuration, Worker, MainPc, starting,
  producing, pushing, closing, joining, joined, Main,
}
use hplf_malloc.WorkerPool.Run.Ledger.{IsMade}

-- A run that is still well has produced every job.
abbrev pub Complete : Status → (produced jobs : ℕ) → Type 0
Complete status produced jobs = (is_ok status ≡ false) ⊎ (produced ≡ jobs)

abbrev pub Joined : (all_joined : Bool) → (ℕ → Worker) → ℕ → Type 0
Joined all_joined ws n = (all_joined ≡ false) ⊎ ((j : ℕ) → j < n → (ws j).pc ≡ ended)

abbrev pub MainFacts : (jobs : ℕ) → (ℕ → Worker) → Main → MainPc → Type 0
MainFacts jobs ws m (starting index) =
    (index ≡ m.workers_started)
    × (m.status ≡ run_ok)
    × (m.jobs_produced ≡ 0)
    × (m.all_joined ≡ true)
MainFacts jobs ws m (producing index) =
    (m.status ≡ run_ok)
    × (m.jobs_produced ≡ index)
    × (0 < m.workers_started)
    × (m.all_joined ≡ true)
MainFacts jobs ws m (pushing index job checksum) =
    (m.status ≡ run_ok)
    × (m.jobs_produced ≡ index)
    × (0 < m.workers_started)
    × (m.all_joined ≡ true)
    × IsMade jobs job
    × (job.id ≡ index)
    × (checksum ≡ job_checksum job)
MainFacts jobs ws m closing = Complete m.status m.jobs_produced jobs × (m.all_joined ≡ true)
MainFacts jobs ws m (joining index) =
    Complete m.status m.jobs_produced jobs
    × Joined m.all_joined ws index
    × (index ≤ m.workers_started)
MainFacts jobs ws m joined =
    Complete m.status m.jobs_produced jobs × Joined m.all_joined ws m.workers_started

pub record Place (config : Configuration) (ws : ℕ → Worker) (m : Main) : Type 0 where
  pub started_in : m.workers_started ≤ config.workers
  pub idle :
      (j : ℕ)
      → m.workers_started ≤ j
      → j < config.workers
      → ws j ≡ record { pc = not_started; result = blank_result }
  pub running : (j : ℕ) → j < m.workers_started → (ws j).pc ≢ not_started
  pub covered : (m.jobs_produced ≡ 0) ⊎ (0 < m.workers_started)
  pub few : m.jobs_produced ≤ config.jobs
  pub facts : MainFacts config.jobs ws m m.pc

-- A worker that has ended stays so.
module _ (ws : ℕ → Worker) (i : ℕ) (w : Worker) (same : (ws i).pc ≡ ended → w.pc ≡ ended) where
  stays_ended : (j : ℕ) → (ws j).pc ≡ ended → (update ws i w j).pc ≡ ended
  stays_ended j was = elim (ℕ_discrete i j) [
    | yes e ↦ let t : (i == j) ≡ true = ground arith in rw t (same (ap (λ k. (ws k).pc) e ∙ was))
    | no ne ↦ let f : (i == j) ≡ false = ground arith in rw f was
  ]

  Joined-worker :
      (all_joined : Bool) (n : ℕ) → Joined all_joined ws n → Joined all_joined (update ws i w) n
  Joined-worker all_joined n (inl no_join) = inl no_join
  Joined-worker all_joined n (inr done) = inr λ j lt. stays_ended j (done j lt)

  MainFacts-worker :
      (jobs : ℕ) (m : Main) (pc : MainPc)
      → MainFacts jobs ws m pc
      → MainFacts jobs (update ws i w) m pc
  MainFacts-worker jobs m (starting index) facts = facts
  MainFacts-worker jobs m (producing index) facts = facts
  MainFacts-worker jobs m (pushing index job checksum) facts = facts
  MainFacts-worker jobs m closing facts = facts
  MainFacts-worker jobs m (joining index) (complete, done, inside) =
      (complete, Joined-worker m.all_joined index done, inside)
  MainFacts-worker jobs m joined (complete, done) =
      (complete, Joined-worker m.all_joined m.workers_started done)

  -- A step of a started worker leaves what is known of `main`.
  pub Place-worker :
      {config : Configuration} {m : Main}
      → i < m.workers_started
      → ((ws i).pc ≢ not_started → w.pc ≢ not_started)
      → Place config ws m
      → Place config (update ws i w) m
  Place-worker {config} {m} below runs place = record {
    started_in = place.started_in;
    idle = λ j ge lt. let f : (i == j) ≡ false = ground arith in rw f (place.idle j ge lt);
    running = λ j lt. elim (ℕ_discrete i j) [
      | yes e ↦ let t : (i == j) ≡ true = ground arith in rw t (runs (place.running i below))
      | no ne ↦ let f : (i == j) ≡ false = ground arith in rw f (place.running j lt)
    ];
    covered = place.covered;
    few = place.few;
    facts = MainFacts-worker config.jobs m m.pc place.facts;
  }
