-- ===== src/WorkerPool/Arguments.antt =====
-- examples/worker_pool.c: the command line. A text is the list of its bytes without the final zero.
pub mod Valid
use Prim.Native.Char.{code}
use Prim.Native.String.{String}
use hplf_malloc.Prelude.{
  ℕ, Bool, true, false, not, ◌&&◌, ◌||◌, Option, none, some, List, [], ◌∷◌, ltb, ◌==◌, option,
  if◌then◌else◌, drop, is_none,
}
use hplf_malloc.CheckedMath.{size_max}
use hplf_malloc.WorkerPool.State.{Configuration}

abbrev pub Text : Type 0
Text = List ℕ

abbrev pub codes : String → Text
codes String.[] = []
codes (String.◌∷◌ c s) = code c ∷ codes s

-- `strcmp(left, right) == 0`
abbrev pub same_text : Text → Text → Bool
same_text [] [] = true
same_text [] (y ∷ ys) = false
same_text (x ∷ xs) [] = false
same_text (x ∷ xs) (y ∷ ys) = (x == y) && same_text xs ys

-- What `strtoull` gives: the number, how many bytes it has read, and `errno`.
pub record Number : Type 0 where
  pub value : ℕ
  pub consumed : ℕ
  pub error : ℕ

abbrev empty_or_negative : Text → Bool
empty_or_negative [] = true
empty_or_negative (c ∷ rest) = c == b'-'

abbrev is_empty : Text → Bool
is_empty [] = true
is_empty (c ∷ rest) = false

-- `parse_size`; no text is the null pointer.
unfoldable pub parse_size : (strtoull : Text → Number) → Option Text → Option ℕ
parse_size strtoull none = none
parse_size strtoull (some text) =
    let number = strtoull text in
    if empty_or_negative text
    then none
    else if not (number.error == 0)
        || (number.consumed == 0)
        || not (is_empty (drop number.consumed text))
        || ltb size_max number.value
    then none
    else some number.value

-- `parse_seed`
unfoldable pub parse_seed : (strtoull : Text → Number) → Option Text → Option ℕ
parse_seed strtoull none = none
parse_seed strtoull (some text) =
    let number = strtoull text in
    if empty_or_negative text
    then none
    else if not (number.error == 0)
        || (number.consumed == 0)
        || not (is_empty (drop number.consumed text))
    then none
    else some number.value

-- The results 1, 0 and 2 of `parse_arguments`.
pub data Parsed : Type 0 where
  helps rejects : Parsed
  accepts : (config : Configuration) → Parsed

abbrev pub defaults : Configuration
defaults = record {
  workers = 4;
  jobs = 10000;
  queue_capacity = 64;
  seed = 20260912;
  fail_allocation_at = 0;
  fail_thread_at = 0;
}

-- The option `name` with its value, in the loop of `parse_arguments`.
unfoldable pub set_option :
    (strtoull : Text → Number) → (name value : Text) → Configuration → Option Configuration
set_option strtoull name value config =
    let size = parse_size strtoull (some value) in
    if same_text name (codes "--workers")
    then option size none (λ n. some (record config { workers = n }))
    else if same_text name (codes "--jobs")
    then option size none (λ n. some (record config { jobs = n }))
    else if same_text name (codes "--seed")
    then option (parse_seed strtoull (some value)) none (λ n. some (record config { seed = n }))
    else if same_text name (codes "--queue-capacity")
    then option size none (λ n. some (record config { queue_capacity = n }))
    else if same_text name (codes "--fail-allocation-at")
    then option size none (λ n. some (record config { fail_allocation_at = n }))
    else if same_text name (codes "--fail-thread-at")
    then option size none (λ n. some (record config { fail_thread_at = n }))
    else none

-- The loop of `parse_arguments` over the arguments that are left.
unfoldable pub parse_loop : (strtoull : Text → Number) → List Text → Configuration → Parsed
parse_loop strtoull [] config = accepts config
parse_loop strtoull (name ∷ []) config = if same_text name (codes "--help") then helps else rejects
parse_loop strtoull (name ∷ value ∷ rest) config =
    if same_text name (codes "--help")
    then helps
    else option (set_option strtoull name value config) rejects (parse_loop strtoull rest)

-- The tests at the end of `parse_arguments`.
unfoldable pub check_configuration : Configuration → Parsed
check_configuration config =
    if (config.workers == 0) || (config.queue_capacity == 0)
    then rejects
    else if ltb config.workers config.fail_thread_at
    then rejects
    else if ltb config.jobs config.fail_allocation_at
    then rejects
    else accepts config

-- `parse_arguments` on the arguments behind the program's name.
unfoldable pub parse_arguments : (strtoull : Text → Number) → List Text → Parsed
parse_arguments strtoull args = elim (parse_loop strtoull args defaults) [
  | helps ↦ helps
  | rejects ↦ rejects
  | accepts config ↦ check_configuration config
]
