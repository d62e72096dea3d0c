-- ===== src/Lib.antt =====
-- A model of hplf-malloc, a memory allocator in C: small requests are served from slabs of equal
-- slots in 16 size classes, larger ones from mappings of their own; a build is either the baseline
-- (free lists under one mutex) or cached (a cache of free blocks for each thread before shared
-- transfer heads).
--
-- Parts and files, from the lowest up:
--   CheckedMath    src/checked_math.h. Exact: sums and products; Rounding: both roundings.
--   Heap           The memory: block prefixes, slab headers, bytes and live mappings at addresses,
--                  and commands on them. Returns: what a command returns; Chain: null-terminated
--                  chains of free blocks as lists; Family: disjoint chains, one for each class;
--                  Stack: taking and putting one block of such a family.
--   TransferList   src/transfer_list.h. Prefix: counting a chain and cutting it.
--   SizeClass      src/size_class.c. Fit: first fit.
--   TransferMutex  src/transfer_mutex.c. Refines: publish and detach on lists of blocks;
--                  Snapshot: the counts by class.
--   TransferAtomic src/transfer_atomic.c as a step relation of any number of threads. Ownership: what
--                  each thread holds and what it may touch; Invariant, Safety: no two own one
--                  block; Conservation: the heads as lists; Alone: a thread that runs alone.
--   ThreadCache    src/thread_cache.c. Shape: the invariant; Single, Batch, Refill, Evict: the
--                  operations; Snapshot: the consistency check.
--   Layout         src/block.h and the layout part of src/slab.h. Slots: slabs; Large: mappings;
--                  Payload: payload addresses.
--   World          The process as one thread sees it, and the platform's calls. Access: memory
--                  accesses that succeed.
--   OsMemory       src/os_memory.c. Outcome: the results of mapping and unmapping.
--   SlabCreate     src/slab.c. Fresh: filling a slab; Mapped: whole creation;
--                  Payloads: what it has to hand out.
--   Lifecycle      src/thread_cache_lifecycle.c. Publish: what publication keeps of a cache;
--                  Flush: all classes; States: destruction; Acquire: a thread's first use.
--   Allocator      src/allocator.c: hplf_malloc, hplf_free, hplf_calloc, hplf_realloc; Baseline and
--                  Cached are the paths for small blocks of the two builds. Baseline/Pool: the
--                  free lists and their blocks; Small, Free, Grow, Requests: handing out, taking
--                  back, a new slab for an empty class, and whole calls. Cached/Eviction: the
--                  eviction loop; Large: large requests; Calloc: hplf_calloc; Trim:
--                  hplf_trim_quiescent, with Owners and Parts (chains by owning slab), Links (the
--                  registry), Release and Visit (one round of its walk).
--   WorkerPool     examples/worker_pool.c. Job: making and checking a job (Keys, Filled); JobQueue: the
--                  bounded queue (Ring: as a list of jobs; Ends: beginning and end); State, Run: the
--                  main thread and the workers as steps; Run/Ledger, Place, Whole: what holds of
--                  every pool; Changes, Workers, Starting, Producer, Closing, Reach: that steps keep
--                  it; Finish, Collected, Outcome: the report; Work, Advance, Progress: how much is
--                  left to do. Waits: the same steps with threads that sleep at the queue's
--                  conditions (Guard, Watch, Kept: no lost wake-up; Progress). Arguments: the command line (Valid); Prepare: main up to the first
--                  thread (Ready: from there to the report).
--   Prelude        Shared tests, lists and bit lemmas. Samples: the theorems at concrete inputs.
--
-- The correspondence: an operation `hplf_x` is the definition `x` without the prefix of its file.
-- A size_t is a natural number below 2 ^ 64 and its wrap-around is written out. Pointers are
-- numbers, null is 0. An output pointer of checked arithmetic and of the class lookups is an
-- optional target, which a refusal leaves as it was; elsewhere an output is part of the result and
-- `none` is false. Commands on memory end with a result and the new memory, with `fault` where C
-- has no defined behaviour, or with `out_of_fuel`.
--
-- Structure sizes and the alignment of 16 are those of a 64-bit platform. sysconf, mmap, munmap and
-- the pthread calls are fields of World.Platform, which answer by the number of the call.
--
-- The worker pool interleaves critical sections of its queue. In Run a wait may end at any time, and a
-- lock, a wait or a join may fail at any step. In Waits a thread that waits is asleep and makes no step
-- until a signal, a broadcast or the platform wakes it, and the locks, waits and broadcasts succeed; every
-- such run is a run of Run.
--
-- Fuel: loops over a chain that the code bounds by the null link alone (from_chain, detach, which
-- calls it, the snapshots of a cache and of the shared heads, and the chains of trimming) take a
-- number of rounds, and the theorems on them ask for more rounds than the chain has blocks. The
-- eviction loop of the cached hplf_free and the walk of hplf_trim_quiescent take rounds as well; for
-- the eviction loop more rounds than the cache has bytes are enough. Releasing the remaining jobs of
-- the worker pool takes one round more than there are. All other loops are structural.
--
-- The atomic transfers interleave one access to the shared heads, or one to private memory, at a
-- time, with every access seen by all threads at once: the memory orders that the code names are not
-- told apart. Everywhere else an operation under a mutex is one step.
--
-- strtoull is a parameter of the command line, and what the C library and the threads' calls answer
-- is an input of a step. A worker's own work on a job is one step with the exchange of its mark.
--
-- Not modelled: the other snapshots and the fault hooks that only test builds have, tests,
-- benchmarks, and of the worker pool the printing and the adapters.
pub mod Prelude
pub mod CheckedMath
pub mod Heap
pub mod TransferList
pub mod SizeClass
pub mod TransferMutex
pub mod TransferAtomic
pub mod ThreadCache
pub mod Layout
pub mod World
pub mod OsMemory
pub mod SlabCreate
pub mod Lifecycle
pub mod Allocator
pub mod WorkerPool
pub mod Samples
