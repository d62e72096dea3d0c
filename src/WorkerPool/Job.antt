-- ===== src/WorkerPool/Job.antt =====
-- examples/worker_pool.c: the jobs, how their producer fills them and how a worker checks them.
pub mod Keys
pub mod Filled
use Prim.Native.Nat.{bit_xor}
use hplf_malloc.Prelude.{
  ℕ, zero, suc, ◌+◌, ◌*◌, ◌/◌, ◌%◌, ◌^◌, bit_and, Bool, true, false, not, List, [], ◌∷◌, ◌==◌,
  if◌then◌else◌, get_or, length, update,
}
use hplf_malloc.Prelude.Xor.{xor_shift}
use hplf_malloc.CheckedMath.{wrap}

-- `struct job`; the payload is what its flexible array holds at each offset.
pub record Job : Type 0 where
  pub id : ℕ
  pub key : ℕ
  pub payload_size : ℕ
  pub payload : ℕ → ℕ

unfoldable pub mix64 : ℕ → ℕ
mix64 value =
    let first = wrap (xor_shift 30 value * 0xbf58476d1ce4e5b9) in
    let second = wrap (xor_shift 27 first * 0x94d049bb133111eb) in xor_shift 31 second

abbrev pub sizes : List ℕ
sizes = 1 ∷ 16 ∷ 17 ∷ 64 ∷ 65 ∷ 256 ∷ 1024 ∷ 4096 ∷ 4097 ∷ 16384 ∷ []

unfoldable pub payload_size_for : ℕ → ℕ → ℕ
payload_size_for seed id =
    let choice = mix64 (bit_xor seed (mix64 (wrap (id + 0x9e3779b97f4a7c15)))) in
    get_or sizes (choice % length sizes) 0

unfoldable pub payload_byte : ℕ → ℕ → ℕ
payload_byte key offset =
    let shift = bit_and offset 7 * 8 in bit_xor (key / 2 ^ shift) (wrap (offset * 0x9d)) % 2 ^ 8

unfoldable pub job_checksum : Job → ℕ
job_checksum job = mix64 (bit_xor (bit_xor job.key (mix64 job.id)) job.payload_size)

-- The loop of `job_is_valid` from `index` on, with the bytes that are left.
unfoldable pub valid_loop : Job → (left index : ℕ) → Bool
valid_loop job zero index = true
valid_loop job (suc left) index =
    if not (job.payload index == payload_byte job.key index)
    then false
    else valid_loop job left (index + 1)

unfoldable pub job_is_valid : Job → Bool
job_is_valid job = valid_loop job job.payload_size 0

-- The producer's loop over the payload.
unfoldable pub fill_loop : Job → (left index : ℕ) → Job
fill_loop job zero index = job
fill_loop job (suc left) index =
    fill_loop (record job { payload = update job.payload index (payload_byte job.key index) }) left
      (index + 1)

-- A new job for `index`, in memory that holds `garbage`.
unfoldable pub build_job : (seed index : ℕ) → (garbage : ℕ → ℕ) → Job
build_job seed index garbage =
    let payload_size = payload_size_for seed index in
    fill_loop
      (record {
        id = index;
        key = mix64 (bit_xor seed (mix64 index));
        payload_size = payload_size;
        payload = garbage;
      })
      payload_size 0
