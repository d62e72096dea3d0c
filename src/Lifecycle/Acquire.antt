-- ===== src/Lifecycle/Acquire.antt =====
-- src/thread_cache_lifecycle.c: `hplf_cache_acquire` on every branch.
use hplf_malloc.Prelude.{
  ℕ, zero, suc, ◌+◌, ◌≡◌, ◌≢◌, refl, sym, ◌∙◌, not, ◌&&◌, ◌||◌, ◌⊎◌, Bool-cases, Option-cases, inl,
  inr, Option, none, some, arith, ◌==◌, if◌then◌else◌,
}
use hplf_malloc.CheckedMath.{size_max, size_round_up_multiple, local_result}
use hplf_malloc.SizeClass.{class_count, size_class_capacity}
use hplf_malloc.Heap.{Ptr, Heap, ok, pure, ◌>>◌}
use hplf_malloc.Heap.Returns.{Returns, returns, weaken, bind}
use hplf_malloc.ThreadCache.{ThreadCache, initialize, extract_class}
use hplf_malloc.World.{
  Platform, mapped, map_failed, MapResult, Lifecycle, uninitialized, active, uncached, Descriptor,
  World, on_heap,
}
use hplf_malloc.Lifecycle.{
  sizeof_descriptor, flush_loop, flush_descriptor, release_descriptor, cache_acquire, cache_current,
  set_up, give_up, activate, map_descriptor, run_once, create_cache_key,
}

-- Nothing can be taken from a new cache.
extract_class-initialize :
    (i n : ℕ) (h : Heap) → extract_class initialize i n h ≡ ok (none, initialize) h
unfolding extract_class
extract_class-initialize i n h = elim (Option-cases (local_result (size_class_capacity i))) [
  | inl out ↦ rw (out, extract_class)
  | inr (c, e) ↦ elim (Bool-cases (n == 0)) [
    | inl z ↦ rw (e, extract_class, z)
    | inr nz ↦ rw (e, extract_class, nz)
  ]
]

flush_loop-initialize :
    (left i published : ℕ) (w : World)
    → flush_loop initialize left i published w ≡ ok (initialize, published) w
unfolding flush_loop
flush_loop-initialize zero i published w = refl
flush_loop-initialize (suc left) i published w =
    rw (on_heap, extract_class-initialize i size_max w.heap)
      (flush_loop-initialize left (i + 1) published w)

-- The release of a descriptor that was never used leaves the thread's state alone.
release-initialize :
    (p : Platform) (d : Descriptor) (w : World)
    → d.cache ≡ initialize
    → Returns (λ _ v. v.current_state ≡ w.current_state) (release_descriptor p d w)
unfolding release_descriptor flush_descriptor
release-initialize p d w e =
    elim (Option-cases (p.munmap w.calls d.mapping_base d.mapping_length)) [
      | inl done ↦ rw (e, flush_loop-initialize class_count 0 0 w, done) (returns refl)
      | inr (n, failed) ↦ rw (e, flush_loop-initialize class_count 0 0 w, failed) (returns refl)
    ]

run_once-Returns : (p : Platform) (w : World) → Returns (λ e v. Unit {0}) (run_once p w)
unfolding run_once create_cache_key
run_once-Returns p w = elim (Bool-cases (p.once w.calls == 0 && not w.key_made)) [
  | inl first ↦ rw first (returns tt)
  | inr later ↦ rw later (returns tt)
]

map_descriptor-Returns :
    (p : Platform) (w : World)
    → Returns (λ r v. (d : Descriptor) → r ≡ some d → d.cache ≡ initialize) (map_descriptor p w)
unfolding map_descriptor
map_descriptor-Returns p w = elim (Bool-cases (p.page_size w.calls == 0)) [
  | inl no_page ↦ rw no_page (returns (λ d e. cc))
  | inr page ↦
      elim (Option-cases
        (local_result (size_round_up_multiple sizeof_descriptor (p.page_size w.calls)))) [
          | inl large ↦ rw (page, large) (returns (λ d e. cc))
          | inr (length, rounded) ↦ elim (answer-cases (p.mmap (w.calls + 1) length)) [
            | inl (n, failed) ↦ rw (page, rounded, failed) (returns (λ d e. cc))
            | inr (base, made) ↦ rw (page, rounded, made) (returns (λ d e. ground arith))
          ]
        ]
]
  where
    answer-cases : (r : MapResult) → ((n : ℕ) × (r ≡ map_failed n)) ⊎ ((b : Ptr) × (r ≡ mapped b))
    answer-cases (map_failed n) = inl (n, refl)
    answer-cases (mapped b) = inr (b, refl)

-- What a call of `hplf_cache_acquire` leaves behind: the thread's state is decided, and the result is
-- what `hplf_cache_current` reports from then on.
pub record Acquired (r : Option ThreadCache) (v : World) : Type 0 where
  pub decided : v.current_state ≢ uninitialized
  pub current : r ≡ cache_current v

active-ne : active ≢ uninitialized
active-ne e = cc

uncached-Acquired : {v : World} → v.current_state ≡ uncached → Acquired none v
unfolding cache_current
uncached-Acquired {v} e = record { decided = λ f. cc; current = rw (e, cache_current) }

give_up-Acquired : (w : World) → Returns Acquired (give_up w)
unfolding give_up
give_up-Acquired w = returns (uncached-Acquired refl)

activate-Acquired : (d : Descriptor) (w : World) → Returns Acquired (activate d w)
unfolding activate cache_current
activate-Acquired d w =
    let v : World = record w { current_descriptor = some d; current_state = active } in
    returns {s = v} (record { decided = active-ne; current = refl })

-- The registration with the key, and what follows its failure.
register-Acquired :
    (p : Platform) (d : Descriptor) (w : World)
    → d.cache ≡ initialize
    → Returns Acquired (
        (if p.setspecific w.calls == 0
            then activate d
            else (do give_up; release_descriptor p d; pure none))
          (record w { calls = w.calls + 1 }))
unfolding give_up
register-Acquired p d w fresh = elim (Bool-cases (p.setspecific w.calls == 0)) [
  | inl registered ↦ rw registered (activate-Acquired d (record w { calls = w.calls + 1 }))
  | inr refused ↦ rw refused (
      bind
        (release-initialize p d (record w { calls = w.calls + 1; current_state = uncached }) fresh)
        λ _ v e. returns (uncached-Acquired e))
]

set_up-Acquired : (p : Platform) (w : World) → Returns Acquired (set_up p w)
unfolding set_up
set_up-Acquired p w = bind (run_once-Returns p w) λ error v _.
    elim (Bool-cases (not (error == 0) || not (v.cache_key_error == 0))) [
      | inl broken ↦ rw broken (give_up-Acquired v)
      | inr fine ↦ rw fine (
          bind (map_descriptor-Returns p v) λ made u fresh. elim (Option-cases made) [
            | inl none_made ↦ rw none_made (give_up-Acquired u)
            | inr (d, e) ↦ rw e (register-Acquired p d u (fresh d e))
          ])
    ]

state-cases : (s : Lifecycle) → (s ≡ uninitialized) ⊎ (s ≡ active) ⊎ (s ≡ uncached)
state-cases uninitialized = inl refl
state-cases active = inr (inl refl)
state-cases uncached = inr (inr refl)

module _ (p : Platform) (w : World) where
  acquire-first : w.current_state ≡ uninitialized → cache_acquire p w ≡ set_up p w
  unfolding cache_acquire
  acquire-first e = simp e

  acquire-active : w.current_state ≡ active → cache_acquire p w ≡ ok (cache_current w) w
  unfolding cache_acquire cache_current
  acquire-active e = elim (Option-cases w.current_descriptor) [
    | inl lost ↦ simp (e, lost, cache_current)
    | inr (d, there) ↦ simp (e, there, cache_current)
  ]

  acquire-uncached : w.current_state ≡ uncached → cache_acquire p w ≡ ok none w
  unfolding cache_acquire
  acquire-uncached e = simp e

-- For every answer of the platform, `hplf_cache_acquire` returns. It leaves the thread active or
-- uncached, and its result is what `hplf_cache_current` reports from then on: the cache of an active
-- thread, and null for one that is uncached. A thread that is already active or uncached changes
-- nothing.
pub cache_acquire-Acquired :
    (p : Platform) (w : World)
    → Returns (λ r v. Acquired r v × (w.current_state ≢ uninitialized → v ≡ w)) (cache_acquire p w)
cache_acquire-Acquired p w = elim (state-cases w.current_state) [
  | inl first ↦
      rw (acquire-first p w first)
        (weaken (set_up-Acquired p w) λ r v got. (got, λ ne. absurd (ne first)))
  | inr (inl running) ↦
      let decided : w.current_state ≢ uninitialized = λ e. active-ne (sym running ∙ e) in
      rw (acquire-active p w running)
        (returns (record { decided = decided; current = refl }, λ ne. refl))
  | inr (inr ended) ↦
      rw (acquire-uncached p w ended) (returns (uncached-Acquired ended, λ ne. refl))
]
