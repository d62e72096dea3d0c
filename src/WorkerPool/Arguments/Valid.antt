-- ===== src/WorkerPool/Arguments/Valid.antt =====
-- examples/worker_pool.c: what an accepted command line says.
use hplf_malloc.Prelude.{
  ◌≤◌, ◌<◌, ◌≡◌, refl, subst, ◌||◌, List, inl, inr, arith, ltb, ◌==◌, Bool-cases,
}
use hplf_malloc.WorkerPool.State.{Configuration}
use hplf_malloc.WorkerPool.Arguments.{
  Text, Number, Parsed, helps, rejects, accepts, defaults, parse_loop, check_configuration,
  parse_arguments,
}

pub record IsConfiguration (c : Configuration) : Type 0 where
  pub some_worker : 0 < c.workers
  pub some_slot : 0 < c.queue_capacity
  pub thread_in : c.fail_thread_at ≤ c.workers
  pub allocation_in : c.fail_allocation_at ≤ c.jobs

check_configuration-IsConfiguration :
    (config c : Configuration) → check_configuration config ≡ accepts c → IsConfiguration c
unfolding check_configuration
check_configuration-IsConfiguration config c e =
    elim (Bool-cases ((config.workers == 0) || (config.queue_capacity == 0))) [
      | inl none_at_all ↦
          let refused : check_configuration config ≡ rejects = rw none_at_all refl in
          absurd (cc (e, refused))
      | inr sizes ↦ elim (Bool-cases (ltb config.workers config.fail_thread_at)) [
        | inl beyond ↦
            let refused : check_configuration config ≡ rejects = rw (sizes, beyond) refl in
            absurd (cc (e, refused))
        | inr thread ↦ elim (Bool-cases (ltb config.jobs config.fail_allocation_at)) [
          | inl beyond ↦
              let refused : check_configuration config ≡ rejects =
                rw (sizes, thread, beyond) refl in
              absurd (cc (e, refused))
          | inr allocation ↦
              let taken : check_configuration config ≡ accepts config =
                rw (sizes, thread, allocation) refl in
              let same : config ≡ c = cc (e, taken) in
              subst IsConfiguration same (record {
                some_worker = ground (arith, sizes);
                some_slot = ground (arith, sizes);
                thread_in = ground (arith, thread);
                allocation_in = ground (arith, allocation);
              })
        ]
      ]
    ]

-- An accepted command line asks for some workers and a queue with room, and the failures that it asks
-- for are at a worker and at a job of the run.
pub parse_arguments-IsConfiguration :
    (strtoull : Text → Number) (args : List Text) (c : Configuration)
    → parse_arguments strtoull args ≡ accepts c
    → IsConfiguration c
unfolding parse_arguments
parse_arguments-IsConfiguration strtoull args c e = go (parse_loop strtoull args defaults) e
  where
    go :
        (parsed : Parsed)
        → (elim parsed [
          | helps ↦ helps
          | rejects ↦ rejects
          | accepts config ↦ check_configuration config
        ])
          ≡ accepts c
        → IsConfiguration c
    go helps e = cc
    go rejects e = cc
    go (accepts config) e = check_configuration-IsConfiguration config c e
