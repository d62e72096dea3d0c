-- ===== src/WorkerPool/Run/Outcome.antt =====
-- examples/worker_pool.c: what `main` reports of a run, against what became of the jobs.
use hplf_malloc.Prelude.{
  ℕ, ◌+◌, ◌≤◌, ◌<◌, ◌≡◌, refl, sym, ap, subst, ◌∙◌, true, false, inl, inr, some, [], arith, ◌==◌,
  length, sum_below, sum_below-eq-zero, dec_lt, List-cases,
}
use hplf_malloc.CheckedMath.{size_max, wrap}
use hplf_malloc.WorkerPool.Job.{Job, job_checksum}
use hplf_malloc.WorkerPool.JobQueue.{JobQueue, queue_release_remaining}
use hplf_malloc.WorkerPool.JobQueue.Ring.{IsRing}
use hplf_malloc.WorkerPool.JobQueue.Ends.{queue_release_remaining_lem}
use hplf_malloc.WorkerPool.State.{
  is_ok, ended, Configuration, Worker, joined, Main, Pool, Report, WorkerResult, blank_result,
}
use hplf_malloc.WorkerPool.Run.{Reached}
use hplf_malloc.WorkerPool.Run.Finish.{collect_loop, finish, no_results, results, missing, judge}
use hplf_malloc.WorkerPool.Run.Ledger.{total, at_hand, pending, is_id, one, PcFacts}
use hplf_malloc.WorkerPool.Run.Whole.{IsPool, facts_at}
use hplf_malloc.WorkerPool.Run.Reach.{Reached-IsPool}
use hplf_malloc.WorkerPool.Run.Place.{Complete}
use hplf_malloc.WorkerPool.Run.Collected.{
  IsCollected, collect_loop-IsCollected, collect_loop-status, missing_loop-none, sum_below-stop,
  total_one,
}

-- The report accounts for every job that was produced, and the queue is left empty.
abbrev pub Accounts : Pool → Type 0
Accounts p =
    (report : Report) × (r : JobQueue) × (finish p ≡ some (report, r))
    × IsRing r []
    × (report.jobs_consumed + report.abandoned_jobs ≡ p.main.jobs_produced)
    × (report.duplicate_jobs ≡ 0)
    × (report.invalid_jobs ≡ 0)

-- The report finds nothing wrong, and a good status means that all jobs were consumed.
abbrev pub Completes : Configuration → Pool → Type 0
Completes config p =
    (report : Report) × (r : JobQueue) × (finish p ≡ some (report, r))
    × (report.status ≡ p.main.status)
    × (report.jobs_consumed ≡ p.main.jobs_produced)
    × (report.missing_jobs ≡ 0)
    × (report.abandoned_jobs ≡ 0)
    × (report.observed_checksum ≡ p.main.expected_checksum)
    × Complete report.status report.jobs_consumed config.jobs

judge-fine :
    (m : Main) (t : Report)
    → t.jobs_consumed ≡ m.jobs_produced
    → t.duplicate_jobs ≡ 0
    → t.invalid_jobs ≡ 0
    → t.missing_jobs ≡ 0
    → t.abandoned_jobs ≡ 0
    → t.observed_checksum ≡ m.expected_checksum
    → (judge m t).status ≡ t.status
unfolding judge
judge-fine m t consumed duplicates invalids none_missing abandoned observed =
    let a : (t.jobs_consumed == m.jobs_produced) ≡ true = ground arith in
    let b : (t.duplicate_jobs == 0) ≡ true = ground arith in
    let c : (t.invalid_jobs == 0) ≡ true = ground arith in
    let d : (t.missing_jobs == 0) ≡ true = ground arith in
    let e : (t.abandoned_jobs == 0) ≡ true = ground arith in
    let f : (t.observed_checksum == m.expected_checksum) ≡ true = ground arith in
    rw (a, b, c, d, e, f) refl

module _ (config : Configuration) (some_worker : 0 < config.workers)
    (workers_fit : config.workers ≤ size_max) (jobs_fit : config.jobs ≤ size_max) {q : JobQueue}
    (ring : IsRing q []) {p : Pool} (reached : Reached config q p) (at : p.main.pc ≡ joined)
    (all : p.main.all_joined ≡ true) where
  is : IsPool config p
  is = Reached-IsPool config some_worker workers_fit jobs_fit ring reached

  all_ended : (j : ℕ) → j < p.main.workers_started → (p.workers j).pc ≡ ended
  all_ended = elim (facts_at config p is joined at).1 [ inl not_all ↦ cc | inr done ↦ done ]

  no_hands : (g : Job → ℕ) → pending g config.workers p.workers is.queued ≡ total g is.queued
  no_hands g =
      let nothing =
        sum_below-eq-zero config.workers (λ i. at_hand g (p.workers i).pc)
          λ j lt. elim (dec_lt j p.main.workers_started) [
            | yes started ↦ ap (λ pc. at_hand g pc) (all_ended j started)
            | no later ↦ ap (λ (w : Worker). at_hand g w.pc) (is.place.idle j (omega arith) lt)
          ] in
      omega (arith, nothing)

  -- Only the workers that were started have results.
  started_only :
      (g : WorkerResult → ℕ)
      → g blank_result ≡ 0
      → sum_below config.workers (λ i. g (p.workers i).result)
        ≡ sum_below p.main.workers_started (λ i. g (p.workers i).result)
  started_only g nothing =
      sum_below-stop p.main.workers_started config.workers (λ i. g (p.workers i).result)
        is.place.started_in
        λ j ge lt. ap (λ (w : Worker). g w.result) (is.place.idle j ge lt) ∙ nothing

  collected : IsCollected p.workers p.main.workers_started (results p)
  collected =
      let t = no_results p in
      let first = λ (g : WorkerResult → ℕ).
        ap wrap (
          sym (sum_below-eq-zero 0 (λ i. g (p.workers i).result) (λ i lt. absurd (omega arith)))) in
      let from_zero : 0 + p.main.workers_started ≡ p.main.workers_started = omega arith in
      subst (λ n. IsCollected p.workers n (collect_loop p.workers p.main.workers_started 0 t))
        from_zero
        (collect_loop-IsCollected p.workers p.main.workers_started 0 t
          (λ i lt.
            let w = is.ledger.each i (omega (arith, is.place.started_in)) in
            (w.duplicates, w.invalids))
          (record {
            consumed = first (λ r. r.consumed);
            observed = first (λ r. r.checksum);
            duplicates = refl;
            invalids = refl;
          }))

  consumed_lem :
      sum_below p.main.workers_started (λ i. (p.workers i).result.consumed) + length is.queued
      ≡ p.main.jobs_produced
  consumed_lem = omega (
    arith,
    is.ledger.tally,
    no_hands one,
    total_one is.queued,
    started_only (λ r. r.consumed) refl,
  )

  finish_run :
      (n : ℕ) (r : JobQueue)
      → queue_release_remaining p.queue ≡ some (n, r)
      → finish p
        ≡ some
            (judge p.main (record (results p) { missing_jobs = missing p; abandoned_jobs = n }), r)
  unfolding finish
  finish_run n r released = rw (all, released) refl

  -- No job is lost: `main` reports, and by its report each job that was produced was either consumed
  -- or is released as abandoned, none was seen twice and none was invalid.
  pub finish-Accounts : Accounts p
  unfolding judge
  finish-Accounts =
      let (r, released, empty) = queue_release_remaining_lem is.queued is.ledger.ring in
      let c = collected in
      (
        judge p.main
            (record (results p) { missing_jobs = missing p; abandoned_jobs = length is.queued }),
        r,
        finish_run (length is.queued) r released,
        empty,
        omega (arith, c.consumed, consumed_lem, is.place.few),
        c.duplicates,
        c.invalids,
      )

  module _
      (well : (i : ℕ) → i < p.main.workers_started → (p.workers i).result.queue_error ≡ false) where
    all_taken : is.queued ≡ []
    all_taken = elim is.place.covered [
      | inl none_made ↦ elim (List-cases is.queued) [
        | inl e ↦ e
        | inr (y, ys, e) ↦ absurd (omega (arith, consumed_lem, none_made, ap length e))
      ]
      | inr started ↦
          elim (subst
            (λ pc. PcFacts config.jobs p.queue.closed is.queued pc (p.workers 0).result.queue_error)
            (all_ended 0 started) (is.ledger.each 0 some_worker).facts) [
              | inl bad ↦ cc (bad, well 0 started)
              | inr both ↦ both.1
            ]
    ]

    observed_lem :
        wrap (sum_below p.main.workers_started (λ i. (p.workers i).result.checksum))
        ≡ p.main.expected_checksum
    observed_lem =
        let here : total job_checksum is.queued ≡ 0 = ap (total job_checksum) all_taken in
        omega
          (arith, is.ledger.sums, no_hands job_checksum, here, started_only (λ r. r.checksum) refl)

    none_missing : missing p ≡ 0
    none_missing = missing_loop-none p.seen p.main.jobs_produced 0 0 λ i lt.
        let here : total (is_id i) is.queued ≡ 0 = ap (total (is_id i)) all_taken in
        ground (arith, is.ledger.once i, no_hands (is_id i), here)

    -- Where no worker met an error of the queue, every job that was produced was consumed, once and
    -- undamaged, and the report has the producer's status; if that is the good one, these are all jobs.
    pub finish-Completes : Completes config p
    unfolding judge
    finish-Completes =
        let (r, released, empty) = queue_release_remaining_lem is.queued is.ledger.ring in
        let n = length is.queued in
        let t : Report = record (results p) { missing_jobs = missing p; abandoned_jobs = n } in
        let nothing_left : n ≡ 0 = ap length all_taken in
        let consumed : t.jobs_consumed ≡ p.main.jobs_produced =
          omega (arith, collected.consumed, consumed_lem, is.place.few, nothing_left) in
        let observed : t.observed_checksum ≡ p.main.expected_checksum =
          collected.observed ∙ observed_lem in
        let status : (judge p.main t).status ≡ p.main.status =
          judge-fine p.main t consumed collected.duplicates collected.invalids none_missing
            nothing_left observed
          ∙ collect_loop-status p.workers p.main.workers_started 0 (no_results p)
              (λ i lt. well i (omega arith)) in
        (
          judge p.main t,
          r,
          finish_run n r released,
          status,
          consumed,
          none_missing,
          nothing_left,
          observed,
          elim (facts_at config p is joined at).0 [
            | inl bad ↦ inl (ap is_ok status ∙ bad)
            | inr made ↦ inr (consumed ∙ made)
          ],
        )
