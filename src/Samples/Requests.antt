-- ===== src/Samples/Requests.antt =====
-- The theorems on requests, on a large request for 5000 bytes in a fresh process.
use hplf_malloc.Prelude.{◌*◌, refl, arith}
use hplf_malloc.Heap.{◌>>=◌}
use hplf_malloc.Heap.Returns.{Returns}
use hplf_malloc.Allocator.{malloc, free, calloc}
use hplf_malloc.Allocator.Calloc.{Answered, calloc-Answered}
use hplf_malloc.Allocator.Baseline.{baseline}
use hplf_malloc.Allocator.Large.{Grants, Restored, malloc-free_round_trip}
use hplf_malloc.Samples.Layouts.{platform, world}

granted : Grants platform world 4096 8192 8192
granted = record {
  first_page = refl;
  second_page = refl;
  answer = refl;
  live = omega arith;
  inside = omega arith;
}

malloc-free_round_trip_example :
    Returns
      (λ _ g. Restored 8192 8192 world g)
      ((malloc platform (baseline platform) 5000 >>= free platform (baseline platform)) world)
malloc-free_round_trip_example =
    malloc-free_round_trip platform (baseline platform) world 5000 4096 8192 (omega arith)
      (omega arith) (omega arith) (omega arith) granted refl

calloc-Answered_example :
    Answered platform
      (baseline platform)
      (3 * 2000)
      world
      (calloc platform (baseline platform) 3 2000 world)
calloc-Answered_example =
    calloc-Answered platform (baseline platform) 3 2000 world (omega arith) (omega arith)
