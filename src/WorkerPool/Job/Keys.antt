-- ===== src/WorkerPool/Job/Keys.antt =====
-- examples/worker_pool.c: the mixing function, and that no two jobs of a run share a key.
use Prim.Native.Nat.{bit_xor}
use hplf_malloc.Prelude.{ℕ, zero, suc, ◌+◌, ◌*◌, ◌/◌, ◌^◌, ◌<◌, ◌≡◌, refl, sym, ap, ◌∙◌, arith}
use hplf_malloc.Prelude.Xor.{xor_shift, xor_shift_injective, bit_xor_cancel, bit_xor-lt}
use hplf_malloc.CheckedMath.{wrap}
use hplf_malloc.WorkerPool.Job.{Job, mix64, fill_loop, build_job}

-- The odd constants have inverses modulo 2 ^ 64.
first_undone : (x : ℕ) → x < 2 ^ 64 → wrap (wrap (x * 0xbf58476d1ce4e5b9) * 0x96de1b173f119089) ≡ x
first_undone x h = omega arith

second_undone : (x : ℕ) → x < 2 ^ 64 → wrap (wrap (x * 0x94d049bb133111eb) * 0x319642b2d24d8ec3) ≡ x
second_undone x h = omega arith

shifted-lt : (k x : ℕ) → x < 2 ^ 64 → xor_shift k x < 2 ^ 64
shifted-lt k x h = bit_xor-lt 64 x (x / 2 ^ k) h (omega arith)

-- The mixing function maps 64-bit words to 64-bit words, and never two to the same.
pub mix64_injective : (x y : ℕ) → x < 2 ^ 64 → y < 2 ^ 64 → mix64 x ≡ mix64 y → x ≡ y
unfolding mix64
mix64_injective x y hx hy e =
    let once = λ (v : ℕ). wrap (xor_shift 30 v * 0xbf58476d1ce4e5b9) in
    let twice = λ (v : ℕ). xor_shift 27 (once v) in
    let last = xor_shift_injective 30 _ _ e in
    let middle =
      sym (second_undone (twice x) (shifted-lt 27 (once x) (omega arith)))
      ∙ ap (λ t. wrap (t * 0x319642b2d24d8ec3)) last
      ∙ second_undone (twice y) (shifted-lt 27 (once y) (omega arith)) in
    let inner = xor_shift_injective 26 _ _ middle in
    let folded =
      sym (first_undone (xor_shift 30 x) (shifted-lt 30 x hx))
      ∙ ap (λ t. wrap (t * 0x96de1b173f119089)) inner
      ∙ first_undone (xor_shift 30 y) (shifted-lt 30 y hy) in
    xor_shift_injective 29 x y folded

pub mix64-lt : (x : ℕ) → mix64 x < 2 ^ 64
unfolding mix64
mix64-lt x =
    shifted-lt 31
      (wrap (xor_shift 27 (wrap (xor_shift 30 x * 0xbf58476d1ce4e5b9)) * 0x94d049bb133111eb))
      (omega arith)

pub key-fill_loop : (left index : ℕ) (job : Job) → (fill_loop job left index).key ≡ job.key
unfolding fill_loop
key-fill_loop zero index job = refl
key-fill_loop (suc left) index job = key-fill_loop left (index + 1) _

-- Within a run, jobs with different numbers of 64 bits have different keys, whatever the memory held.
pub keys_differ :
    (seed i j : ℕ) (memory memory' : ℕ → ℕ)
    → seed < 2 ^ 64
    → i < 2 ^ 64
    → j < 2 ^ 64
    → (build_job seed i memory).key ≡ (build_job seed j memory').key
    → i ≡ j
unfolding build_job
keys_differ seed i j memory memory' hs hi hj e =
    let keys = sym (key-fill_loop _ 0 _) ∙ e ∙ key-fill_loop _ 0 _ in
    let mixed =
      mix64_injective (bit_xor seed (mix64 i)) (bit_xor seed (mix64 j))
        (bit_xor-lt 64 seed (mix64 i) hs (mix64-lt i))
        (bit_xor-lt 64 seed (mix64 j) hs (mix64-lt j)) keys in
    mix64_injective i j hi hj (bit_xor_cancel seed (mix64 i) (mix64 j) mixed)
