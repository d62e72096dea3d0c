-- ===== src/Layout/Payload.antt =====
-- src/block.h: the addresses of payloads, in numbers.
use hplf_malloc.Prelude.{◌+◌, ◌≤◌, ◌<◌, ◌≡◌, ℕ, false, arith, ◌==◌}
use hplf_malloc.CheckedMath.{size_max}
use hplf_malloc.Heap.{null}
use hplf_malloc.Layout.{block_payload, block_from_payload}

pub block_payload-ok : (base : ℕ) → 0 < base → base + 48 ≤ size_max → block_payload base ≡ base + 48
unfolding block_payload
block_payload-ok base pos fits =
    let live : (base == null) ≡ false = ground arith in rw live (omega arith)

pub block_from_payload-ok :
    (base : ℕ) → 0 < base → base + 48 ≤ size_max → block_from_payload (base + 48) ≡ base
unfolding block_from_payload
block_from_payload-ok base pos fits =
    let live : (base + 48 == null) ≡ false = ground arith in rw live (omega arith)
