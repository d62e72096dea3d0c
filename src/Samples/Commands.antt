-- ===== src/Samples/Commands.antt =====
-- A command line of the worker pool, and the theorems about the run that it asks for.
use hplf_malloc.Prelude.{
  ℕ, ◌≡◌, refl, true, [], ◌∷◌, arith, if◌then◌else◌, ◌*◌, ◌+◌, ◌-◌, leb, ◌&&◌, List,
}
use hplf_malloc.WorkerPool.JobQueue.{Resources, queue_initialize}
use hplf_malloc.WorkerPool.Run.Outcome.{Accounts, Completes}
use hplf_malloc.WorkerPool.Arguments.{
  Text, Number, codes, parse_size, parse_seed, set_option, parse_loop, check_configuration,
  parse_arguments,
}
use hplf_malloc.WorkerPool.Prepare.{Grants, ready, provide, prepare}
use hplf_malloc.WorkerPool.Prepare.Ready.{prepare-finish-Accounts, prepare-finish-Completes}
use hplf_malloc.Samples.Runs.{config, empty_queue, joined_pool, at_end, no_error, joined-Reached}

-- A decimal `strtoull`, and the command line that asks for this run.
abbrev digits : Text → (value consumed : ℕ) → Number
digits [] value consumed = record { value = value; consumed = consumed; error = 0 }
digits (c ∷ cs) value consumed =
    let rest = digits cs (value * 10 + (c - 48)) (consumed + 1) in
    if leb 48 c && leb c 57 then rest else record { value = value; consumed = consumed; error = 0 }

abbrev decimal : Text → Number
decimal text = digits text 0 0

abbrev args : List Text
args =
    codes "--workers"
    ∷ codes "1"
    ∷ codes "--jobs"
    ∷ codes "1"
    ∷ codes "--queue-capacity"
    ∷ codes "1"
    ∷ codes "--seed"
    ∷ codes "7"
    ∷ []

abbrev grants : Grants
grants = record {
  threads = true;
  workers = true;
  seen = true;
  slots = true;
  mutex_error = 0;
  not_empty_error = 0;
  not_full_error = 0;
}

abbrev all_held : Resources
all_held = record { slots = true; mutex = true; not_empty = true; not_full = true }

begins : prepare decimal args grants ≡ ready config empty_queue all_held
unfolding prepare parse_arguments parse_loop set_option parse_size parse_seed check_configuration
    provide queue_initialize
begins = refl

prepare-finish-Accounts_example : Accounts joined_pool
prepare-finish-Accounts_example =
    prepare-finish-Accounts decimal args grants (λ granted. omega arith) begins joined-Reached
      at_end.0 at_end.1

prepare-finish-Completes_example : Completes config joined_pool
prepare-finish-Completes_example =
    prepare-finish-Completes decimal args grants (λ granted. omega arith) begins joined-Reached
      at_end.0 at_end.1 no_error
