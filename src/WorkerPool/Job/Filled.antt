-- ===== src/WorkerPool/Job/Filled.antt =====
-- examples/worker_pool.c: what the producer fills is what the workers accept.
use Prim.Native.Nat.{bit_xor}
use hplf_malloc.Prelude.{
  ℕ, zero, suc, ◌+◌, ◌≤◌, ◌<◌, ◌≡◌, ◌↔◌, refl, sym, subst, ap, ◌∙◌, true, false, Bool-cases, inl,
  inr, arith, ◌==◌, update, dec_lt,
}
use hplf_malloc.WorkerPool.Job.{
  Job, mix64, payload_byte, payload_size_for, valid_loop, job_is_valid, fill_loop, build_job,
}
use hplf_malloc.WorkerPool.Job.Keys.{key-fill_loop}

valid_loop_iff :
    (job : Job) (left index : ℕ)
    → (valid_loop job left index ≡ true)
      ↔ ((k : ℕ) → index ≤ k → k < index + left → job.payload k ≡ payload_byte job.key k)
unfolding valid_loop
valid_loop_iff job zero index = (λ e k ge lt. absurd (omega arith), λ f. refl)
valid_loop_iff job (suc left) index =
    let (to, from) = valid_loop_iff job left (index + 1) in
    elim (Bool-cases (job.payload index == payload_byte job.key index)) [
      | inl same ↦ (
        λ e k ge lt. elim (dec_lt index k) [
          | yes later ↦ to (rw same at e) k (omega arith) (omega arith)
          | no here ↦
              let at : index ≡ k = omega arith in
              subst (λ t. job.payload t ≡ payload_byte job.key t) at (ground arith)
        ],
        λ f. rw same (from (λ k ge lt. f k (omega arith) (omega arith))),
      )
      | inr other ↦ (
        λ e. absurd (clash (rw other at e)),
        λ f. absurd (clash (sym other ∙ ground (arith, f index))),
      )
    ]
  where
    clash : false ≡ true → ⊥
    clash e = cc

-- A worker's check accepts a job exactly if every byte of its payload is the one that its key gives.
pub job_is_valid_iff :
    (job : Job)
    → (job_is_valid job ≡ true)
      ↔ ((k : ℕ) → k < job.payload_size → job.payload k ≡ payload_byte job.key k)
unfolding job_is_valid
job_is_valid_iff job =
    let (to, from) = valid_loop_iff job job.payload_size 0 in
    (λ e k lt. to e k (omega arith) (omega arith), λ f. from (λ k ge lt. f k (omega arith)))

-- What the loop leaves and what it writes.
record IsFilled (job : Job) (hi : ℕ) (from : ℕ) (done : Job) : Type 0 where
  id : done.id ≡ job.id
  size : done.payload_size ≡ job.payload_size
  written : (k : ℕ) → from ≤ k → k < hi → done.payload k ≡ payload_byte job.key k
  before : (k : ℕ) → k < from → done.payload k ≡ job.payload k

fill_loop-IsFilled :
    (left index : ℕ) (job : Job) → IsFilled job (index + left) index (fill_loop job left index)
unfolding fill_loop
fill_loop-IsFilled zero index job = record {
  id = refl;
  size = refl;
  written = λ k ge lt. absurd (omega arith);
  before = λ k lt. refl;
}
fill_loop-IsFilled (suc left) index job =
    let job' : Job = record job {
      payload = update job.payload index (payload_byte job.key index);
    } in
    let rest = fill_loop-IsFilled left (index + 1) job' in
    record {
      id = rest.id;
      size = rest.size;
      written = λ k ge lt. elim (dec_lt index k) [
        | yes later ↦ rest.written k (omega arith) (omega arith)
        | no here ↦
            let at : index ≡ k = omega arith in
            rest.before k (omega arith)
            ∙ subst
                (λ t.
                  update job.payload index (payload_byte job.key index) t ≡ payload_byte job.key t)
                at (ground arith)
      ];
      before = λ k lt. rest.before k (omega arith) ∙ ground arith;
    }

-- Whatever the memory held before, a new job carries its number and passes the workers' check.
pub build_job-valid :
    (seed index : ℕ) (garbage : ℕ → ℕ)
    → ((build_job seed index garbage).id ≡ index)
      × (job_is_valid (build_job seed index garbage) ≡ true)
unfolding build_job
build_job-valid seed index garbage =
    let size = payload_size_for seed index in
    let raw : Job = record {
      id = index;
      key = mix64 (bit_xor seed (mix64 index));
      payload_size = size;
      payload = garbage;
    } in
    let filled = fill_loop-IsFilled size 0 raw in
    (
      filled.id,
      (job_is_valid_iff (fill_loop raw size 0)).1 λ k lt.
          filled.written k (omega arith) (omega (arith, filled.size))
          ∙ ap (λ t. payload_byte t k) (sym (key-fill_loop size 0 raw)),
    )
