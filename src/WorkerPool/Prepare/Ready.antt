-- ===== src/WorkerPool/Prepare/Ready.antt =====
-- examples/worker_pool.c: a run that begins has what it needs, and ends as the report says.
use hplf_malloc.Prelude.{
  ℕ, ◌*◌, ◌/◌, ◌≤◌, ◌<◌, ◌≡◌, ◌⊎◌, refl, sym, subst, Bool, true, false, not, ◌&&◌, ◌||◌, List, [],
  inl, inr, arith, ltb, ◌==◌, Bool-cases,
}
use hplf_malloc.CheckedMath.{size_max}
use hplf_malloc.WorkerPool.JobQueue.{JobQueue, Resources, queue_initialize}
use hplf_malloc.WorkerPool.JobQueue.Ring.{IsRing}
use hplf_malloc.WorkerPool.JobQueue.Ends.{queue_initialize_lem}
use hplf_malloc.WorkerPool.State.{Configuration, Pool, joined}
use hplf_malloc.WorkerPool.Arguments.{
  Text, Number, Parsed, helps, rejects, accepts, parse_arguments,
}
use hplf_malloc.WorkerPool.Arguments.Valid.{IsConfiguration, parse_arguments-IsConfiguration}
use hplf_malloc.WorkerPool.Prepare.{Grants, exits, ready, provide, prepare}
use hplf_malloc.WorkerPool.Run.{Reached}
use hplf_malloc.WorkerPool.Run.Outcome.{Accounts, Completes, finish-Accounts, finish-Completes}

-- The configuration is valid and its numbers fit; the memory for the threads, for the workers' contexts
-- and, where there are jobs, for their marks is there; the queue is empty and open, with the capacity that
-- was asked for and all its resources.
pub record IsReady (grants : Grants) (config : Configuration) (q : JobQueue) (held : Resources)
    : Type 0 where
  pub valid : IsConfiguration config
  pub workers_fit : config.workers ≤ size_max
  pub jobs_fit : config.jobs ≤ size_max
  pub ring : IsRing q []
  pub still_open : q.closed ≡ false
  pub size : q.capacity ≡ config.queue_capacity
  pub threads : grants.threads ≡ true
  pub contexts : grants.workers ≡ true
  pub marks : (config.jobs ≡ 0) ⊎ (grants.seen ≡ true)
  pub all : held ≡ record { slots = true; mutex = true; not_empty = true; not_full = true }

-- What the test for storage lets through.
storage_of :
    (a b seen done : Bool) (jobs : ℕ)
    → (not a || not b || (not (jobs == 0) && not seen) || not done) ≡ false
    → (a ≡ true) × (b ≡ true) × ((jobs ≡ 0) ⊎ (seen ≡ true)) × (done ≡ true)
storage_of a b seen done jobs e =
    (ground (arith, e), ground (arith, e), marks (Bool-cases seen), ground (arith, e))
  where
    marks : (seen ≡ true) ⊎ (seen ≡ false) → (jobs ≡ 0) ⊎ (seen ≡ true)
    marks (inl got) = inr got
    marks (inr refused) = inl (ground (arith, e, refused))

provide-IsReady :
    (grants : Grants) (config c : Configuration) (q : JobQueue) (held : Resources)
    → (grants.slots ≡ true → c.queue_capacity * 8 ≤ size_max)
    → IsConfiguration config
    → provide grants config ≡ ready c q held
    → (config ≡ c) × IsReady grants c q held
unfolding provide
provide-IsReady grants config c q held granted valid e =
    let initial =
      queue_initialize config.queue_capacity grants.slots grants.mutex_error grants.not_empty_error
        grants.not_full_error in
    elim (Bool-cases (
      ltb (size_max / 8) config.workers
      || ltb (size_max / 64) config.workers
      || ltb (size_max / 1) config.jobs)) [
        | inl large ↦
            let refused : provide grants config ≡ exits 2 = rw large refl in
            absurd (cc (e, refused))
        | inr fits ↦
            elim (Bool-cases (
              not grants.threads
              || not grants.workers
              || (not (config.jobs == 0) && not grants.seen)
              || not initial.0)) [
                | inl short ↦
                    let refused : provide grants config ≡ exits 6 = rw (fits, short) refl in
                    absurd (cc (e, refused))
                | inr enough ↦
                    let taken : provide grants config ≡ ready config initial.1 initial.2 =
                      rw (fits, enough) refl in
                    let same : config ≡ c = cc (e, taken) in
                    let same_queue : initial.1 ≡ q = cc (e, taken) in
                    let same_held : initial.2 ≡ held = cc (e, taken) in
                    let storage =
                      storage_of grants.threads grants.workers grants.seen initial.0 config.jobs
                        enough in
                    let done = storage.3 in
                    elim (queue_initialize_lem config.queue_capacity grants.slots grants.mutex_error
                      grants.not_empty_error grants.not_full_error valid.some_slot
                      (subst (λ k. grants.slots ≡ true → k.queue_capacity * 8 ≤ size_max) (sym same)
                        granted)) [
                          | inr (not_done, nothing) ↦ absurd (cc (done, not_done))
                          | inl (well, ring, still_open, size, all) ↦ (
                            same,
                            subst (λ k. IsReady grants k q held) same
                                (subst (λ r. IsReady grants config r held) same_queue
                                  (subst (λ h. IsReady grants config initial.1 h) same_held
                                    (record {
                                      valid = valid;
                                      workers_fit = ground (arith, fits);
                                      jobs_fit = ground (arith, fits);
                                      ring = ring;
                                      still_open = still_open;
                                      size = size;
                                      threads = storage.0;
                                      contexts = storage.1;
                                      marks = storage.2;
                                      all = all;
                                    }))),
                          )
                        ]
              ]
      ]

pub prepare-IsReady :
    (strtoull : Text → Number) (args : List Text) (grants : Grants) {c : Configuration}
    {q : JobQueue} {held : Resources}
    → (grants.slots ≡ true → c.queue_capacity * 8 ≤ size_max)
    → prepare strtoull args grants ≡ ready c q held
    → IsReady grants c q held
unfolding prepare
prepare-IsReady strtoull args grants {c} {q} {held} granted e =
    go (parse_arguments strtoull args) refl e
  where
    go :
        (parsed : Parsed)
        → parse_arguments strtoull args ≡ parsed
        → (elim parsed [
          | helps ↦ exits 0
          | rejects ↦ exits 2
          | accepts config ↦ provide grants config
        ])
          ≡ ready c q held
        → IsReady grants c q held
    go helps p e = cc
    go rejects p e = cc
    go (accepts config) p e =
        (provide-IsReady grants config c q held granted
          (parse_arguments-IsConfiguration strtoull args config p) e).1

module _ (strtoull : Text → Number) (args : List Text) (grants : Grants) {config : Configuration}
    {q : JobQueue} {held : Resources}
    (granted : grants.slots ≡ true → config.queue_capacity * 8 ≤ size_max)
    (begins : prepare strtoull args grants ≡ ready config q held) {p : Pool}
    (reached : Reached config q p) (at : p.main.pc ≡ joined) (all : p.main.all_joined ≡ true) where
  -- From the command line to the report, whatever the calls answer and in whatever order the threads
  -- run: no job is lost. By the report of a run whose workers are joined, each job that was produced was
  -- either consumed or is released as abandoned, none was seen twice and none was invalid.
  pub prepare-finish-Accounts : Accounts p
  prepare-finish-Accounts =
      let is = prepare-IsReady strtoull args grants granted begins in
      finish-Accounts config is.valid.some_worker is.workers_fit is.jobs_fit is.ring reached at all

  -- Where in addition no worker met an error of the queue, every job that was produced was consumed,
  -- none is missing or abandoned, the checksums agree, and the report has the status of the producer;
  -- if that is the good one, these were all jobs that the command line asks for.
  pub prepare-finish-Completes :
      ((i : ℕ) → i < p.main.workers_started → (p.workers i).result.queue_error ≡ false)
      → Completes config p
  prepare-finish-Completes well =
      let is = prepare-IsReady strtoull args grants granted begins in
      finish-Completes config is.valid.some_worker is.workers_fit is.jobs_fit is.ring reached at all
        well
