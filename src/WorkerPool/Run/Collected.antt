-- ===== src/WorkerPool/Run/Collected.antt =====
-- examples/worker_pool.c: the loops over the results and the marks.
use hplf_malloc.Prelude.{
  ℕ, zero, suc, ◌+◌, ◌≤◌, ◌<◌, ◌≡◌, ◌≢◌, refl, ap, subst, ◌∙◌, false, List, [], ◌∷◌, arith, ◌==◌,
  if◌then◌else◌, length, sum_below, dec_lt,
}
use hplf_malloc.CheckedMath.{wrap}
use hplf_malloc.WorkerPool.Job.{Job}
use hplf_malloc.WorkerPool.State.{Worker, Report, internal_error}
use hplf_malloc.WorkerPool.Run.Finish.{collect_loop, missing_loop}
use hplf_malloc.WorkerPool.Run.Ledger.{total, one}

-- The report has the sums of the first `n` results, of which none counts a duplicate or an invalid job.
pub record IsCollected (ws : ℕ → Worker) (n : ℕ) (t : Report) : Type 0 where
  pub consumed : t.jobs_consumed ≡ wrap (sum_below n (λ i. (ws i).result.consumed))
  pub observed : t.observed_checksum ≡ wrap (sum_below n (λ i. (ws i).result.checksum))
  pub duplicates : t.duplicate_jobs ≡ 0
  pub invalids : t.invalid_jobs ≡ 0

sum_below-next : (n : ℕ) (f : ℕ → ℕ) → sum_below (n + 1) f ≡ sum_below n f + f n
unfolding sum_below
sum_below-next n f = let same : n + 1 ≡ suc n = omega arith in ap (λ k. sum_below k f) same

pub collect_loop-IsCollected :
    (ws : ℕ → Worker) (left n : ℕ) (t : Report)
    → ((i : ℕ)
        → i < n + left
        → ((ws i).result.duplicate_jobs ≡ 0) × ((ws i).result.invalid_jobs ≡ 0))
    → IsCollected ws n t
    → IsCollected ws (n + left) (collect_loop ws left n t)
unfolding collect_loop
collect_loop-IsCollected ws zero n t clean is =
    let same : n ≡ n + 0 = omega arith in subst (λ k. IsCollected ws k t) same is
collect_loop-IsCollected ws (suc left) n t clean is =
    let same : n + 1 + left ≡ n + suc left = omega arith in
    let (no_duplicate, no_invalid) = clean n (omega arith) in
    subst (λ k. IsCollected ws k (collect_loop ws (suc left) n t)) same
      (collect_loop-IsCollected ws left (n + 1) _ (λ i lt. clean i (omega arith))
        (record {
          consumed = omega (arith, is.consumed, sum_below-next n (λ i. (ws i).result.consumed));
          observed = omega (arith, is.observed, sum_below-next n (λ i. (ws i).result.checksum));
          duplicates = omega (arith, is.duplicates, no_duplicate);
          invalids = omega (arith, is.invalids, no_invalid);
        }))

pub collect_loop-status :
    (ws : ℕ → Worker) (left n : ℕ) (t : Report)
    → ((i : ℕ) → i < n + left → (ws i).result.queue_error ≡ false)
    → (collect_loop ws left n t).status ≡ t.status
unfolding collect_loop
collect_loop-status ws zero n t well = refl
collect_loop-status ws (suc left) n t well =
    let same : (if (ws n).result.queue_error then internal_error else t.status) ≡ t.status =
      rw (well n (omega arith)) refl in
    collect_loop-status ws left (n + 1) _ (λ i lt. well i (omega arith)) ∙ same

pub missing_loop-none :
    (seen : ℕ → ℕ) (left n m : ℕ)
    → ((i : ℕ) → i < n + left → seen i ≢ 0)
    → missing_loop seen left n m ≡ m
unfolding missing_loop
missing_loop-none seen zero n m all = refl
missing_loop-none seen (suc left) n m all =
    let marked = all n (omega arith) in
    let there : (seen n == 0) ≡ false = ground arith in
    rw there (missing_loop-none seen left (n + 1) m (λ i lt. all i (omega arith)))

pub sum_below-stop :
    (n m : ℕ) (f : ℕ → ℕ)
    → n ≤ m
    → ((j : ℕ) → n ≤ j → j < m → f j ≡ 0)
    → sum_below m f ≡ sum_below n f
unfolding sum_below
sum_below-stop n zero f le off =
    let none_left : 0 ≡ n = omega arith in ap (λ k. sum_below k f) none_left
sum_below-stop n (suc m) f le off = elim (dec_lt m n) [
  | yes lt ↦ let all : suc m ≡ n = omega arith in ap (λ k. sum_below k f) all
  | no ge ↦ omega (
    arith,
    off m (omega arith) (omega arith),
    sum_below-stop n m f (omega arith) (λ j a b. off j a (omega arith)),
  )
]

pub total_one : (xs : List Job) → total one xs ≡ length xs
total_one [] = refl
total_one (x ∷ xs) = omega (arith, total_one xs)
