-- ===== src/WorkerPool/Run/Ledger.antt =====
-- examples/worker_pool.c: where the jobs are, and what the workers' results say of them.
use hplf_malloc.Prelude.{
  ℕ, ◌+◌, ◌<◌, ◌≡◌, Bool, true, false, ◌⊎◌, none, some, List, [], ◌∷◌, ◌++◌, arith, ◌==◌,
  if◌then◌else◌, ltb, update, sum_below, sum_below-eq, sum_below-update, ℕ_discrete,
}
use hplf_malloc.CheckedMath.{wrap}
use hplf_malloc.WorkerPool.Job.{Job, job_checksum, job_is_valid}
use hplf_malloc.WorkerPool.JobQueue.{JobQueue}
use hplf_malloc.WorkerPool.JobQueue.Ring.{IsRing}
use hplf_malloc.WorkerPool.State.{
  WorkerPc, not_started, popping, working, leaving, ended, crashed, Worker,
}

-- The sum of a measure over some jobs.
abbrev pub total : (Job → ℕ) → List Job → ℕ
total g [] = 0
total g (x ∷ xs) = g x + total g xs

pub total-snoc :
    (g : Job → ℕ) (xs : List Job) (x : Job) → total g (xs ++ (x ∷ [])) ≡ total g xs + g x
total-snoc g [] x = omega arith
total-snoc g (y ∷ ys) x = omega (arith, total-snoc g ys x)

-- The measure of the job that a worker has at hand.
abbrev pub at_hand : (Job → ℕ) → WorkerPc → ℕ
at_hand g (working (some job)) = g job
at_hand g _ = 0

-- A measure of all the jobs that are produced and not yet processed.
abbrev pub pending : (Job → ℕ) → (workers : ℕ) → (ℕ → Worker) → List Job → ℕ
pending g workers ws xs = total g xs + sum_below workers (λ i. at_hand g (ws i).pc)

abbrev pub is_id : ℕ → Job → ℕ
is_id id job = if id == job.id then 1 else 0

abbrev pub one : Job → ℕ
one job = 1

-- A number below `jobs`, and the payload that belongs to the key.
abbrev pub IsMade : (jobs : ℕ) → Job → Type 0
IsMade jobs job = (job.id < jobs) × (job_is_valid job ≡ true)

abbrev pub AllMade : (jobs : ℕ) → List Job → Type 0
AllMade jobs [] = Unit {0}
AllMade jobs (x ∷ xs) = IsMade jobs x × AllMade jobs xs

pub AllMade-snoc :
    {jobs : ℕ} (xs : List Job) (x : Job)
    → AllMade jobs xs
    → IsMade jobs x
    → AllMade jobs (xs ++ (x ∷ []))
AllMade-snoc [] x all made = (made, tt)
AllMade-snoc (y ∷ ys) x (first, rest) made = (first, AllMade-snoc ys x rest made)

-- What is known of a worker by where it stands: it has at hand a job that was made, and it ends either
-- after an error of the queue, or when the queue is closed and empty.
abbrev pub PcFacts :
    (jobs : ℕ) → (shut : Bool) → List Job → WorkerPc → (queue_error : Bool) → Type 0
PcFacts jobs shut xs not_started e = e ≡ false
PcFacts jobs shut xs popping e = e ≡ false
PcFacts jobs shut xs (working none) e = ⊥
PcFacts jobs shut xs (working (some job)) e = IsMade jobs job × (e ≡ false)
PcFacts jobs shut xs leaving e = e ≡ true
PcFacts jobs shut xs ended e = (e ≡ true) ⊎ ((shut ≡ true) × (xs ≡ []))
PcFacts jobs shut xs crashed e = ⊥

pub record IsWorker (jobs : ℕ) (shut : Bool) (xs : List Job) (w : Worker) : Type 0 where
  pub duplicates : w.result.duplicate_jobs ≡ 0
  pub invalids : w.result.invalid_jobs ≡ 0
  pub facts : PcFacts jobs shut xs w.pc w.result.queue_error

-- The queue holds `xs`; each of the first `produced` jobs is exactly once among the queue, the
-- workers' hands and the processed ones; and the results add up.
pub record Ledger (workers jobs : ℕ) (q : JobQueue) (seen : ℕ → ℕ) (ws : ℕ → Worker)
    (produced expected : ℕ) (xs : List Job) : Type 0 where
  pub ring : IsRing q xs
  pub made : AllMade jobs xs
  pub each : (i : ℕ) → i < workers → IsWorker jobs q.closed xs (ws i)
  pub once :
      (id : ℕ) → pending (is_id id) workers ws xs + seen id ≡ (if ltb id produced then 1 else 0)
  pub tally : pending one workers ws xs + sum_below workers (λ i. (ws i).result.consumed) ≡ produced
  pub sums :
      wrap (pending job_checksum workers ws xs + sum_below workers (λ i. (ws i).result.checksum))
      ≡ expected

-- One entry of a family of structures changes, and with it the sum of a measure.
pub sum_below-at :
    {A : Type 0} (n : ℕ) (g : A → ℕ) (f : ℕ → A) (i : ℕ) (a : A)
    → i < n
    → sum_below n (λ j. g (update f i a j)) + g (f i) ≡ sum_below n (λ j. g (f j)) + g a
sum_below-at n g f i a lt =
    let same =
      sum_below-eq n (λ j. g (update f i a j)) (update (λ j. g (f j)) i (g a))
        (λ j below. elim (ℕ_discrete i j) [ yes e ↦ ground arith | no ne ↦ ground arith ]) in
    omega (arith, same, sum_below-update n (λ j. g (f j)) i (g a) lt)
