-- ===== src/WorkerPool/JobQueue/Ring.antt =====
-- examples/worker_pool.c: the queue's array against the list of its jobs, oldest first.
use native.Mathlib.Nat.{mod-add-mod, mod-eq_of_lt, mod-eq-sub-mod}
use hplf_malloc.Prelude.{
  ℕ, suc, ◌+◌, ◌-◌, ◌*◌, ◌%◌, ◌≤◌, ◌<◌, ◌≡◌, ◌≢◌, refl, sym, subst, ap, ◌∙◌, true, false,
  Bool-cases, inl, inr, Option, none, some, List, [], ◌∷◌, ◌++◌, arith, ◌==◌, length, length-append,
  update, dec_lt,
}
use hplf_malloc.CheckedMath.{size_max, wrap}
use hplf_malloc.WorkerPool.Job.{Job}
use hplf_malloc.WorkerPool.JobQueue.{
  JobQueue, Section, returned, waits, Pushed, accepted, refused, Popped, owned, drained, push_test,
  pop_test,
}

-- The slots from `h` on, going round at `capacity`, own the jobs.
abbrev pub Holds : (ℕ → Option Job) → (capacity h : ℕ) → List Job → Type 0
Holds slots capacity h [] = Unit {0}
Holds slots capacity h (x ∷ xs) = (slots h ≡ some x) × Holds slots capacity ((h + 1) % capacity) xs

-- The queue holds `xs`. `calloc` grants no more than 2 ^ 61 slots of 8 bytes.
pub record IsRing (q : JobQueue) (xs : List Job) : Type 0 where
  pub jobs : Holds q.slots q.capacity q.head xs
  pub count : q.count ≡ length xs
  pub head_in : q.head < q.capacity
  pub count_in : q.count ≤ q.capacity
  pub size : q.capacity * 8 ≤ size_max

-- Fewer than `capacity` steps round the array do not lead back.
around_ne : (capacity h k : ℕ) → h < capacity → suc k < capacity → (h + suc k) % capacity ≢ h
around_ne capacity h k inside few = elim (dec_lt (h + suc k) capacity) [
  | yes before ↦ omega (arith, mod-eq_of_lt before)
  | no past ↦ omega (
    arith,
    mod-eq-sub-mod {n = h + suc k} {m = capacity} (omega arith),
    mod-eq_of_lt {n = h + suc k - capacity} {m = capacity} (omega arith),
  )
]

at_start : (capacity h : ℕ) → h < capacity → (h + 0) % capacity ≡ h
at_start capacity h inside =
    let same : h + 0 ≡ h = omega arith in ap (λ k. k % capacity) same ∙ mod-eq_of_lt inside

next_sum : (capacity h n : ℕ) → (h + suc n) % capacity ≡ ((h + 1) % capacity + n) % capacity
next_sum capacity h n = rw mod-add-mod (ap (λ k. k % capacity) (omega arith))

-- A write to a slot that is not one of the list's.
Holds-update :
    (slots : ℕ → Option Job) (capacity h i : ℕ) (v : Option Job) (xs : List Job)
    → 0 < capacity
    → ((k : ℕ) → k < length xs → (h + k) % capacity ≢ i)
    → h < capacity
    → Holds slots capacity h xs
    → Holds (update slots i v) capacity h xs
Holds-update slots capacity h i v [] pos off inside holds = tt
Holds-update slots capacity h i v (x ∷ xs) pos off inside (here, rest) =
    let at_h = at_start capacity h inside in
    let other : i ≢ h = λ e. off 0 (omega arith) (at_h ∙ sym e) in
    let apart : (i == h) ≡ false = ground arith in
    (
      rw apart here,
      Holds-update slots capacity ((h + 1) % capacity) i v xs pos
          (λ k lt e. off (suc k) (omega arith) (next_sum capacity h k ∙ e)) (omega arith) rest,
    )

Holds-snoc :
    (slots : ℕ → Option Job) (capacity h i : ℕ) (x : Job) (xs : List Job)
    → h < capacity
    → length xs < capacity
    → i ≡ (h + length xs) % capacity
    → Holds slots capacity h xs
    → Holds (update slots i (some x)) capacity h (xs ++ (x ∷ []))
Holds-snoc slots capacity h i x [] inside few e holds =
    let same : i ≡ h = e ∙ at_start capacity h inside in (ground arith, tt)
Holds-snoc slots capacity h i x (y ∷ ys) inside few e (here, rest) =
    let other = around_ne capacity h (length ys) inside few in
    let apart : (i == h) ≡ false = ground arith in
    (
      rw apart here,
      Holds-snoc slots capacity ((h + 1) % capacity) i x ys (omega arith) (omega arith)
          (e ∙ next_sum capacity h (length ys)) rest,
    )

module _ {q : JobQueue} {xs : List Job} (ring : IsRing q xs) where
  -- The queue after an accepted push and after an owned pop.
  abbrev after_push : Job → JobQueue
  after_push job = record q {
    slots = update q.slots (wrap (q.head + q.count) % q.capacity) (some job);
    count = wrap (q.count + 1);
  }

  push-IsRing : (job : Job) → q.count ≢ q.capacity → IsRing (after_push job) (xs ++ (job ∷ []))
  push-IsRing job space =
      let no_wrap : wrap (q.head + q.count) ≡ q.head + length xs =
        omega (arith, ring.head_in, ring.count_in, ring.size, ring.count) in
      record {
        jobs =
            Holds-snoc q.slots q.capacity q.head (wrap (q.head + q.count) % q.capacity) job xs
              ring.head_in (omega (arith, ring.count_in, ring.count))
              (ap (λ t. t % q.capacity) no_wrap) ring.jobs;
        count =
            omega (arith, ring.count, ring.count_in, ring.size, length-append {0} xs (job ∷ []));
        head_in = ring.head_in;
        count_in = omega (arith, ring.count_in, ring.size);
        size = ring.size;
      }

  push_accepts :
      (job : Job)
      → (q.count == q.capacity) ≡ false
      → q.closed ≡ false
      → push_test q job ≡ returned accepted (after_push job)
  unfolding push_test
  push_accepts job space still_open = ground arith

-- Where the queue holds `xs`: what a push does, as an operation on the list. A closed queue takes no
-- job, a full open one makes the caller wait, and otherwise the job comes last.
pub data PushedAs (q : JobQueue) (xs : List Job) (job : Job) : Section Pushed → Type 0 where
  takes :
      (r : JobQueue)
      → q.closed ≡ false
      → length xs < q.capacity
      → IsRing r (xs ++ (job ∷ []))
      → r.closed ≡ false
      → r.capacity ≡ q.capacity
      → PushedAs q xs job (returned accepted r)
  refuses : q.closed ≡ true → PushedAs q xs job (returned refused q)
  full : q.closed ≡ false → length xs ≡ q.capacity → PushedAs q xs job (waits q)

-- A push on a queue that holds `xs` is the push on that list: it is refused by a closed queue, waits at a
-- full open one, and otherwise leaves an open queue of the same capacity with the job behind `xs`.
pub push_test-PushedAs :
    {q : JobQueue} {xs : List Job} (job : Job) → IsRing q xs → PushedAs q xs job (push_test q job)
unfolding push_test
push_test-PushedAs {q} {xs} job ring = elim (Bool-cases (q.count == q.capacity)) [
  | inl all ↦ elim (Bool-cases q.closed) [
    | inl shut ↦ rw all (simp shut (refuses shut))
    | inr still_open ↦ rw all (simp still_open (full still_open (ground (arith, ring.count))))
  ]
  | inr space ↦ elim (Bool-cases q.closed) [
    | inl shut ↦ rw space (simp shut (refuses shut))
    | inr still_open ↦
        subst (λ s. PushedAs q xs job s) (sym (push_accepts ring job space still_open))
          (takes (after_push ring job) still_open (ground (arith, ring.count, ring.count_in))
            (push-IsRing ring job (ground arith)) still_open refl)
  ]
]

-- The same for a pop: the oldest job, a wait at an empty open queue, and nothing from a closed one.
pub data PoppedAs (q : JobQueue) (xs : List Job) : Section Popped → Type 0 where
  gives :
      (job : Job) (rest : List Job) (r : JobQueue)
      → xs ≡ job ∷ rest
      → IsRing r rest
      → r.closed ≡ q.closed
      → r.capacity ≡ q.capacity
      → PoppedAs q xs (returned (owned (some job)) r)
  drains : q.closed ≡ true → xs ≡ [] → PoppedAs q xs (returned drained q)
  empty : q.closed ≡ false → xs ≡ [] → PoppedAs q xs (waits q)

abbrev pub after_pop : JobQueue → JobQueue
after_pop q = record q {
  slots = update q.slots q.head none;
  head = wrap (q.head + 1) % q.capacity;
  count = q.count - 1;
}

pub after_pop-IsRing :
    {q : JobQueue} {x : Job} {xs : List Job} → IsRing q (x ∷ xs) → IsRing (after_pop q) xs
after_pop-IsRing {q} {x} {xs} ring =
    let no_wrap : wrap (q.head + 1) ≡ q.head + 1 = omega (arith, ring.head_in, ring.size) in
    let next = ap (λ t. t % q.capacity) no_wrap in
    record {
      jobs =
          subst (λ h. Holds (update q.slots q.head none) q.capacity h xs) (sym next)
            (Holds-update q.slots q.capacity ((q.head + 1) % q.capacity) q.head none xs
              (omega (arith, ring.head_in)) off (omega (arith, ring.head_in)) ring.jobs.1);
      count = omega (arith, ring.count);
      head_in = omega (arith, ring.head_in);
      count_in = omega (arith, ring.count_in);
      size = ring.size;
    }
  where
    off : (k : ℕ) → k < length xs → ((q.head + 1) % q.capacity + k) % q.capacity ≢ q.head
    off k lt e =
        around_ne q.capacity q.head k ring.head_in (omega (arith, ring.count, ring.count_in))
          (next_sum q.capacity q.head k ∙ e)

-- A pop from a queue that holds `xs` is the pop from that list: it gives the oldest job and leaves the
-- others, waits at an empty open queue, and finds an empty closed one drained.
pub pop_test-PoppedAs : {q : JobQueue} (xs : List Job) → IsRing q xs → PoppedAs q xs (pop_test q)
unfolding pop_test
pop_test-PoppedAs {q} [] ring =
    let none_left : (q.count == 0) ≡ true = ground (arith, ring.count) in
    elim (Bool-cases q.closed) [
      | inl shut ↦ rw none_left (simp shut (drains shut refl))
      | inr still_open ↦ rw none_left (simp still_open (empty still_open refl))
    ]
pop_test-PoppedAs {q} (x ∷ xs) ring =
    let some_left : (q.count == 0) ≡ false = ground (arith, ring.count) in
    rw (some_left, ring.jobs.0) (gives x xs (after_pop q) refl (after_pop-IsRing ring) refl refl)
