-- ===== src/Allocator/Cached/Eviction.antt =====
-- src/allocator.c: the eviction loop of the cached hplf_free, on the thread's cache and the shared
-- heads.
use hplf_malloc.Prelude.{
  ◌⊎◌, ℕ, zero, suc, ◌≤◌, ◌<◌, ◌≡◌, refl, sym, subst, ◌∙◌, inl, inr, List, arith, take, dec_lt,
}
use hplf_malloc.CheckedMath.{size_max}
use hplf_malloc.SizeClass.{class_count}
use hplf_malloc.Heap.{Ptr, Heap}
use hplf_malloc.Heap.Chain.{OnlyLinks}
use hplf_malloc.Heap.Returns.{Returns, returns, outcome, weaken}
use hplf_malloc.TransferList.{TransferList}
use hplf_malloc.TransferList.Prefix.{Owns}
use hplf_malloc.ThreadCache.{ThreadCache, class_block_limit, total_bytes_limit}
use hplf_malloc.ThreadCache.Shape.{IsCache}
use hplf_malloc.ThreadCache.Evict.{extract_eviction-none, extract_eviction-Evicted}
use hplf_malloc.World.{World, on_heap}
use hplf_malloc.Lifecycle.{transfer_publish}
use hplf_malloc.Lifecycle.Publish.{Holds, Kept, left_in, shared_with, moved-Kept, publish-Moved}
use hplf_malloc.Allocator.Cached.{evict_loop}

-- What the loop leaves behind.
pub record Settled (i : ℕ) (lists shared : ℕ → List Ptr) (c' : ThreadCache) (v : World)
    : Type 0 where
  pub cached_blocks : ℕ → List Ptr
  pub shared_blocks : ℕ → List Ptr
  pub holds : Holds v c' cached_blocks shared_blocks
  pub few : c'.counts i ≤ class_block_limit
  pub bytes : c'.total_slot_bytes ≤ total_bytes_limit
  pub kept : Kept lists shared cached_blocks shared_blocks

-- One round of the loop: the evicted blocks are published.
pub record Round (w : World) (c : ThreadCache) (lists shared : ℕ → List Ptr) (d : ThreadCache)
    (v : World) : Type 0 where
  pub cached_blocks : ℕ → List Ptr
  pub shared_blocks : ℕ → List Ptr
  pub holds : Holds v d cached_blocks shared_blocks
  pub kept : Kept lists shared cached_blocks shared_blocks
  pub less : d.total_slot_bytes < c.total_slot_bytes

publish-Round :
    {w : World} {c d : ThreadCache} {lists shared : ℕ → List Ptr} {g : Heap} {list : TransferList}
    (k n : ℕ)
    → Holds w c lists shared
    → Owns g list (take n (lists k))
    → IsCache g d (left_in lists k n)
    → OnlyLinks (take n (lists k)) w.heap g
    → d.total_slot_bytes < c.total_slot_bytes
    → Returns (λ _ v. Round w c lists shared d v) (transfer_publish k list (record w { heap = g }))
publish-Round {lists} {shared} k n now owns cache links less =
    weaken (publish-Moved k n now owns cache links) λ _ v moved. record {
      cached_blocks = left_in lists k n;
      shared_blocks = shared_with lists shared k n;
      holds = moved.holds;
      kept = moved-Kept lists shared k n;
      less = less;
    }

loop-Settled :
    (fuel i : ℕ) {w : World} {c : ThreadCache} {lists shared : ℕ → List Ptr}
    → Holds w c lists shared
    → c.counts i ≤ class_block_limit
    → c.total_slot_bytes ≤ total_bytes_limit
    → Returns (Settled i lists shared) (evict_loop (suc fuel) i c w)
unfolding evict_loop
loop-Settled fuel i {w} {c} {lists} {shared} now few small =
    rw (on_heap, extract_eviction-none now.cache (omega arith) i few small)
      (returns (record {
        cached_blocks = lists;
        shared_blocks = shared;
        holds = now;
        few = few;
        bytes = small;
        kept = λ a j. refl;
      }))

loop-Round :
    (fuel i : ℕ) {w : World} {c : ThreadCache} {lists shared : ℕ → List Ptr}
    → i < class_count
    → Holds w c lists shared
    → c.total_slot_bytes ≤ size_max
    → (class_block_limit < c.counts i) ⊎ (total_bytes_limit < c.total_slot_bytes)
    → (d : ThreadCache) × (v : World) × Round w c lists shared d v
      × (evict_loop (suc fuel) i c w ≡ evict_loop fuel i d v)
unfolding evict_loop
loop-Round fuel i {w} {c} {lists} {shared} in_table now room over =
    let (r, g, run, ev) = outcome (extract_eviction-Evicted now.cache room i in_table over) in
    let (list, e, owns) = ev.output in
    let (u, v, published, round) =
      outcome (publish-Round ev.class_index ev.amount now owns ev.cache ev.links ev.less) in
    (r.1, v, round, rw (on_heap, run) (rw e (rw published refl)))

over_or_within :
    (count bytes : ℕ)
    → ((class_block_limit < count) ⊎ (total_bytes_limit < bytes))
      ⊎ ((count ≤ class_block_limit) × (bytes ≤ total_bytes_limit))
over_or_within count bytes = elim (dec_lt class_block_limit count) [
  | yes many ↦ inl (inl many)
  | no few ↦ elim (dec_lt total_bytes_limit bytes) [
    | yes large ↦ inl (inr large)
    | no small ↦ inr (omega arith, omega arith)
  ]
]

-- For a cache that holds the blocks of `lists`, shared heads that hold those of `shared`, none in
-- both, and a total that fits a size_t and is below the fuel: the eviction loop for a class of the
-- table ends. The class then has at most 32 blocks and the total is at most 64 KiB, the invariants of
-- cache and heads hold again, and every block is still in the cache or in the heads, in the class it
-- was in.
pub evict_loop-Settled :
    (fuel i : ℕ) {w : World} {c : ThreadCache} {lists shared : ℕ → List Ptr}
    → i < class_count
    → Holds w c lists shared
    → c.total_slot_bytes < fuel
    → c.total_slot_bytes ≤ size_max
    → Returns (Settled i lists shared) (evict_loop fuel i c w)
evict_loop-Settled zero i in_table now enough room = absurd (omega arith)
evict_loop-Settled (suc fuel) i {w} {c} {lists} {shared} in_table now enough room =
    elim (over_or_within (c.counts i) c.total_slot_bytes) [
      | inl over ↦
          let (d, v, round, same) = loop-Round fuel i in_table now room over in
          let less = round.less in
          let rest = evict_loop-Settled fuel i in_table round.holds (omega arith) (omega arith) in
          subst (λ t. Returns (Settled i lists shared) t) (sym same)
            (weaken rest λ c' v' s. record {
              cached_blocks = s.cached_blocks;
              shared_blocks = s.shared_blocks;
              holds = s.holds;
              few = s.few;
              bytes = s.bytes;
              kept = λ x j. s.kept x j ∙ round.kept x j;
            })
      | inr (few, small) ↦ loop-Settled fuel i now few small
    ]
