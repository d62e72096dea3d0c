-- ===== src/WorkerPool/Run/Changes.antt =====
-- examples/worker_pool.c: what a change of one worker, with the queue and the marks, leaves of the
-- ledger.
use hplf_malloc.Prelude.{
  ℕ, ◌+◌, ◌<◌, ◌≡◌, refl, subst, ◌∙◌, Bool, true, false, inl, inr, none, some, List, [], ◌∷◌, ◌++◌,
  arith, ◌==◌, update, sum_below, ℕ_discrete,
}
use hplf_malloc.CheckedMath.{wrap}
use hplf_malloc.WorkerPool.Job.{Job, job_checksum}
use hplf_malloc.WorkerPool.JobQueue.{JobQueue}
use hplf_malloc.WorkerPool.JobQueue.Ring.{IsRing}
use hplf_malloc.WorkerPool.State.{
  WorkerPc, not_started, popping, working, leaving, ended, crashed, WorkerResult, Worker,
}
use hplf_malloc.WorkerPool.Run.Ledger.{
  total, at_hand, is_id, one, AllMade, AllMade-snoc, IsMade, total-snoc, PcFacts, IsWorker, Ledger,
  sum_below-at,
}

-- A closed and empty queue stays so.
abbrev pub Keeps : JobQueue → List Job → JobQueue → List Job → Type 0
Keeps q xs r ys = (q.closed ≡ true) × (xs ≡ []) → (r.closed ≡ true) × (ys ≡ [])

pub PcFacts-keep :
    (jobs : ℕ) (q r : JobQueue) (xs ys : List Job) (pc : WorkerPc) (e : Bool)
    → Keeps q xs r ys
    → PcFacts jobs q.closed xs pc e
    → PcFacts jobs r.closed ys pc e
PcFacts-keep jobs q r xs ys not_started e keep facts = facts
PcFacts-keep jobs q r xs ys popping e keep facts = facts
PcFacts-keep jobs q r xs ys (working none) e keep facts = facts
PcFacts-keep jobs q r xs ys (working (some job)) e keep facts = facts
PcFacts-keep jobs q r xs ys leaving e keep facts = facts
PcFacts-keep jobs q r xs ys ended e keep (inl failed) = inl failed
PcFacts-keep jobs q r xs ys ended e keep (inr both) = inr (keep both)
PcFacts-keep jobs q r xs ys crashed e keep facts = facts

pub IsWorker-keep :
    (q r : JobQueue) {jobs : ℕ} {xs ys : List Job} {w : Worker}
    → Keeps q xs r ys
    → IsWorker jobs q.closed xs w
    → IsWorker jobs r.closed ys w
IsWorker-keep q r {jobs} {xs} {ys} {w} keep is = record {
  duplicates = is.duplicates;
  invalids = is.invalids;
  facts = PcFacts-keep jobs q r xs ys w.pc w.result.queue_error keep is.facts;
}

-- The measure of the jobs of the queue and of one worker.
abbrev pub local : (Job → ℕ) → List Job → Worker → ℕ
local g xs w = total g xs + at_hand g w.pc

pub worker_change :
    {workers jobs : ℕ} {q : JobQueue} {seen : ℕ → ℕ} {ws : ℕ → Worker} {produced expected : ℕ}
    {xs : List Job}
    → Ledger workers jobs q seen ws produced expected xs
    → (i : ℕ) (v w : Worker) {r : JobQueue} (marks : ℕ → ℕ) (ys : List Job) → i < workers
    → ws i ≡ v
    → IsRing r ys
    → AllMade jobs ys
    → IsWorker jobs r.closed ys w
    → Keeps q xs r ys
    → ((id : ℕ) → local (is_id id) ys w + marks id ≡ local (is_id id) xs v + seen id)
    → local one ys w + w.result.consumed ≡ local one xs v + v.result.consumed
    → wrap (local job_checksum ys w + w.result.checksum)
      ≡ wrap (local job_checksum xs v + v.result.checksum)
    → Ledger workers jobs r marks (update ws i w) produced expected ys
worker_change {workers} {jobs} {q} {seen} {ws} {produced} {expected} {xs} ledger i v w {r} marks ys
      below at ring made is keep once tally sums =
    let hands = λ (g : Job → ℕ).
      subst
        (λ u.
          sum_below workers (λ j. at_hand g (update ws i w j).pc) + at_hand g u.pc
          ≡ sum_below workers (λ j. at_hand g (ws j).pc) + at_hand g w.pc)
        at (sum_below-at workers (λ u. at_hand g u.pc) ws i w below) in
    let results = λ (g : WorkerResult → ℕ).
      subst
        (λ u.
          sum_below workers (λ j. g (update ws i w j).result) + g u.result
          ≡ sum_below workers (λ j. g (ws j).result) + g w.result)
        at (sum_below-at workers (λ u. g u.result) ws i w below) in
    record {
      ring = ring;
      made = made;
      each = λ j lt. elim (ℕ_discrete i j) [
        | yes e ↦ let t : (i == j) ≡ true = ground arith in rw t is
        | no ne ↦
            let f : (i == j) ≡ false = ground arith in
            rw f (IsWorker-keep q r keep (ledger.each j lt))
      ];
      once = λ id. omega (arith, hands (is_id id), once id) ∙ ledger.once id;
      tally = omega (arith, hands one, tally, results (λ t. t.consumed)) ∙ ledger.tally;
      sums = omega (arith, hands job_checksum, sums, results (λ t. t.checksum)) ∙ ledger.sums;
    }

-- The ledger after an accepted push.
pub Ledger-push :
    {workers jobs : ℕ} {q : JobQueue} {seen : ℕ → ℕ} {ws : ℕ → Worker} {produced expected : ℕ}
    {xs : List Job}
    → Ledger workers jobs q seen ws produced expected xs
    → (job : Job) (r : JobQueue) → IsMade jobs job
    → job.id ≡ produced
    → q.closed ≡ false
    → IsRing r (xs ++ (job ∷ []))
    → Ledger workers jobs r seen ws
        (produced + 1)
        (wrap (expected + job_checksum job))
        (xs ++ (job ∷ []))
Ledger-push {workers} {jobs} {q} {seen} {ws} {produced} {expected} {xs} ledger job r made id
      still_open ring =
    record {
      ring = ring;
      made = AllMade-snoc xs job ledger.made made;
      each =
          λ j lt. IsWorker-keep q r (λ both. absurd (cc (both.0, still_open))) (ledger.each j lt);
      once = λ i. ground (arith, id, ledger.once i, total-snoc (is_id i) xs job);
      tally = omega (arith, ledger.tally, total-snoc one xs job);
      sums = omega (arith, ledger.sums, total-snoc job_checksum xs job);
    }

-- The ledger does not see whether the queue was closed just now.
pub Ledger-close :
    {workers jobs : ℕ} {q : JobQueue} {seen : ℕ → ℕ} {ws : ℕ → Worker} {produced expected : ℕ}
    {xs : List Job}
    → Ledger workers jobs q seen ws produced expected xs
    → Ledger workers jobs (record q { closed = true }) seen ws produced expected xs
Ledger-close {q = q} ledger = record {
  ring = record {
    jobs = ledger.ring.jobs;
    count = ledger.ring.count;
    head_in = ledger.ring.head_in;
    count_in = ledger.ring.count_in;
    size = ledger.ring.size;
  };
  made = ledger.made;
  each = λ j lt.
      IsWorker-keep q (record q { closed = true }) (λ both. (refl, both.1)) (ledger.each j lt);
  once = ledger.once;
  tally = ledger.tally;
  sums = ledger.sums;
}
