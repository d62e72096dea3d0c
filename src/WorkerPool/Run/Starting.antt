-- ===== src/WorkerPool/Run/Starting.antt =====
-- examples/worker_pool.c: the main thread starts the workers.
use hplf_malloc.Prelude.{
  ℕ, ◌+◌, ◌≤◌, ◌<◌, ◌≡◌, ◌≢◌, ℕ_discrete, true, refl, sym, ap, subst, false, inl, inr, arith, ◌==◌,
  update, Bool-cases,
}
use hplf_malloc.CheckedMath.{size_max, wrap}
use hplf_malloc.WorkerPool.State.{
  thread_failure, WorkerPc, not_started, popping, Configuration, Answers, Worker, starting,
  producing, closing, Pool,
}
use hplf_malloc.WorkerPool.Run.{start_worker}
use hplf_malloc.WorkerPool.Run.Ledger.{IsWorker}
use hplf_malloc.WorkerPool.Run.Changes.{worker_change}
use hplf_malloc.WorkerPool.Run.Whole.{IsPool, facts_at, moved}

module _ (config : Configuration) (some_worker : 0 < config.workers)
    (workers_fit : config.workers ≤ size_max) (answers : Answers) (p : Pool)
    (is : IsPool config p) where
  starts :
      (index : ℕ)
      → p.main.pc ≡ starting index
      → index ≢ config.workers
      → IsPool config (record p {
        workers =
            update p.workers index (record { pc = popping; result = (p.workers index).result });
        main = record p.main {
          pc = starting (index + 1);
          workers_started = wrap (p.main.workers_started + 1);
        };
      })
  starts index at other =
      let (here, good, nothing, all) = facts_at config p is (starting index) at in
      let below : index < config.workers = omega (arith, here, is.place.started_in) in
      let idle : (p.workers index).pc ≡ not_started =
        ap (λ u. u.pc) (is.place.idle index (omega (arith, here)) below) in
      let result = (p.workers index).result in
      let v : Worker = record { pc = not_started; result = result } in
      let w : Worker = record { pc = popping; result = result } in
      let at_v : p.workers index ≡ v =
        ap (λ (t : WorkerPc). record { pc = t; result = result }) idle in
      let one_more : wrap (p.main.workers_started + 1) ≡ index + 1 = omega (arith, here) in
      let known =
        subst (λ u. IsWorker config.jobs p.queue.closed is.queued u) at_v
          (is.ledger.each index below) in
      record {
        queued = is.queued;
        ledger =
            worker_change is.ledger index v w p.seen is.queued below at_v is.ledger.ring
              is.ledger.made
              (record {
                duplicates = known.duplicates;
                invalids = known.invalids;
                facts = known.facts;
              })
              (λ both. both) (λ id. refl) refl refl;
        place = record {
          started_in = omega (arith, one_more);
          idle = λ j ge lt.
              let f : (index == j) ≡ false = ground (arith, one_more) in
              rw f (is.place.idle j (omega (arith, one_more, here)) lt);
          running = λ j lt. elim (ℕ_discrete index j) [
            | yes e ↦ let t : (index == j) ≡ true = ground arith in rw t (λ same. cc same)
            | no ne ↦
                let f : (index == j) ≡ false = ground arith in
                rw f (is.place.running j (omega (arith, one_more, here)))
          ];
          covered = inl nothing;
          few = is.place.few;
          facts = (sym one_more, good, nothing, all);
        };
      }

  pub start_worker-IsPool :
      (index : ℕ) → p.main.pc ≡ starting index → IsPool config (start_worker config answers index p)
  unfolding start_worker
  start_worker-IsPool index at =
      let (here, good, nothing, all) = facts_at config p is (starting index) at in
      let off =
        moved config p is (record p.main { pc = closing; status = thread_failure }) refl refl refl
          (inl refl, all) in
      elim (Bool-cases (index == config.workers)) [
        | inl last ↦ rw last (
            moved config p is (record p.main { pc = producing 0 }) refl refl refl
              (good, nothing, ground (arith, here), all))
        | inr more ↦ elim (Bool-cases (config.fail_thread_at == index + 1)) [
          | inl chosen ↦ rw (more, chosen) off
          | inr free ↦ elim (Bool-cases (answers.create_error == 0)) [
            | inr bad ↦ rw (more, free, bad) off
            | inl ok ↦ rw (more, free, ok) (starts index at (ground arith))
          ]
        ]
      ]
