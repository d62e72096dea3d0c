-- ===== src/World/Access.antt =====
-- Reads and writes of live objects, as commands on the world.
use hplf_malloc.Prelude.{◌≡◌, ◌≢◌, false, some, arith, ◌==◌}
use hplf_malloc.Heap.{
  Ptr, null, Block, Slab, ok, put_block, put_slab, load_block, store_block, load_slab, store_slab,
}
use hplf_malloc.World.{World, on_heap}

pub load_block-there :
    (w : World) (a : Ptr) (b : Block)
    → a ≢ null
    → w.heap.block a ≡ some b
    → on_heap (load_block a) w ≡ ok b w
unfolding load_block
load_block-there w a b ne at =
    let live : (a == null) ≡ false = ground arith in rw (live, at, on_heap)

pub store_block-there :
    (w : World) (a : Ptr) (b c : Block)
    → a ≢ null
    → w.heap.block a ≡ some b
    → on_heap (store_block a c) w ≡ ok tt (record w { heap = put_block w.heap a c })
unfolding store_block load_block
store_block-there w a b c ne at =
    let live : (a == null) ≡ false = ground arith in rw (live, at, on_heap)

pub load_slab-there :
    (w : World) (a : Ptr) (s : Slab)
    → a ≢ null
    → w.heap.slab a ≡ some s
    → on_heap (load_slab a) w ≡ ok s w
unfolding load_slab
load_slab-there w a s ne at =
    let live : (a == null) ≡ false = ground arith in rw (live, at, on_heap)

pub store_slab-there :
    (w : World) (a : Ptr) (s t : Slab)
    → a ≢ null
    → w.heap.slab a ≡ some s
    → on_heap (store_slab a t) w ≡ ok tt (record w { heap = put_slab w.heap a t })
unfolding store_slab load_slab
store_slab-there w a s t ne at =
    let live : (a == null) ≡ false = ground arith in rw (live, at, on_heap)
