-- ===== src/ThreadCache/Snapshot.antt =====
-- src/thread_cache.c: hplf_thread_cache_snapshot, which walks every class and checks the cache's counts
-- and total against what it finds.
use native.Mathlib.Numerals.{add-one}
use hplf_malloc.Prelude.{
  ℕ, zero, suc, ◌+◌, ◌*◌, ◌≤◌, ◌<◌, ◌≡◌, ◌↔◌, refl, sym, subst, ap, ap₂, ◌∙◌, Bool, true, false,
  ◌&&◌, Bool-cases, inl, inr, option, List, arith, ◌==◌, length, if◌then◌else◌, update, sum_below,
  dec_lt,
}
use hplf_malloc.CheckedMath.{size_max, wrap, local_result}
use hplf_malloc.SizeClass.{class_count, size_class_capacity}
use hplf_malloc.SizeClass.Fit.{capacity_at, capacity_bounds, size_class_capacity-capacity_at}
use hplf_malloc.Heap.{Ptr, null, Heap, Cmd, ok, out_of_fuel, pure, ◌>>=◌, load_block}
use hplf_malloc.Heap.Chain.{Chain, nil, cons, not_null, load_block-ok}
use hplf_malloc.Heap.Family.{IsFamily}
use hplf_malloc.Heap.Returns.{Returns, returns, weaken}
use hplf_malloc.ThreadCache.{ThreadCache}
use hplf_malloc.ThreadCache.Shape.{class_bytes, slot_bytes}

-- `struct hplf_thread_cache_snapshot`
pub record CacheSnapshot : Type 0 where
  pub counts : ℕ → ℕ
  pub list_lengths : ℕ → ℕ
  pub total_slot_bytes : ℕ
  pub computed_slot_bytes : ℕ

-- The inner loop: `++list_lengths[index]` along a chain.
unfoldable pub chain_length : (fuel : ℕ) → (block : Ptr) → (count : ℕ) → Cmd Heap ℕ
chain_length zero block count = λ _. out_of_fuel
chain_length (suc fuel) block count =
    if block == null
    then pure count
    else do b ← load_block block; chain_length fuel b.next_free (wrap (count + 1))

-- The loop over the classes, with the classes that are left, and what comes after it.
unfoldable pub snapshot_loop :
    ThreadCache
    → (fuel left index computed_total : ℕ) → (counts_match : Bool) → CacheSnapshot
    → Cmd Heap (Bool × CacheSnapshot)
snapshot_loop cache fuel zero index computed_total counts_match snapshot = pure (
  counts_match && (computed_total == cache.total_slot_bytes),
  record snapshot {
    total_slot_bytes = cache.total_slot_bytes;
    computed_slot_bytes = computed_total;
  },
)
snapshot_loop cache fuel (suc left) index computed_total counts_match snapshot =
    option (local_result (size_class_capacity index)) (pure (false, snapshot)) λ class_capacity. do
      n ← chain_length fuel (cache.heads index) 0
      snapshot_loop cache fuel left (index + 1) (wrap (computed_total + n * class_capacity))
          (counts_match && (cache.counts index == n))
          (record snapshot {
            counts = update snapshot.counts index (cache.counts index);
            list_lengths = update snapshot.list_lengths index n;
          })

-- `hplf_thread_cache_snapshot`
unfoldable pub cache_snapshot : (fuel : ℕ) → ThreadCache → Cmd Heap (Bool × CacheSnapshot)
cache_snapshot fuel cache = snapshot_loop cache fuel class_count 0 0 true (record {
  counts = λ i. 0;
  list_lengths = λ i. 0;
  total_slot_bytes = 0;
  computed_slot_bytes = 0;
})

pub chain_length-ok :
    (fuel : ℕ) {h : Heap} {p : Ptr} (count : ℕ) {xs : List Ptr}
    → Chain h null p xs
    → length xs < fuel
    → count + length xs ≤ size_max
    → chain_length fuel p count h ≡ ok (count + length xs) h
unfolding chain_length
chain_length-ok zero count c enough fits = absurd (omega arith)
chain_length-ok (suc fuel) {h} count (nil e) enough fits = rw e (ap (λ n. ok n h) (omega arith))
chain_length-ok (suc fuel) {h} count (cons e fresh at rest) enough fits =
    rw (e, not_null at, load_block-ok at)
      (chain_length-ok fuel (wrap (count + 1)) rest (omega arith) (omega arith)
        ∙ ap (λ n. ok n h) (omega arith))

sum_below_mono : (n k : ℕ) (f : ℕ → ℕ) → k ≤ n → sum_below k f ≤ sum_below n f
unfolding sum_below
sum_below_mono zero k f le =
    let same : k ≡ 0 = omega arith in omega (arith, ap (λ t. sum_below t f) same)
sum_below_mono (suc n) k f le = elim (dec_lt n k) [
  | yes all ↦ let same : k ≡ suc n = omega arith in omega (arith, ap (λ t. sum_below t f) same)
  | no fewer ↦ omega (arith, sum_below_mono n k f (omega arith))
]

-- Do the counts of the first `n` classes agree with the lists?
agrees : ThreadCache → (ℕ → List Ptr) → ℕ → Bool
agrees cache lists zero = true
agrees cache lists (suc n) = agrees cache lists n && (cache.counts n == length (lists n))

agrees_iff :
    (cache : ThreadCache) (lists : ℕ → List Ptr) (n : ℕ)
    → (agrees cache lists n ≡ true) ↔ ((i : ℕ) → i < n → cache.counts i ≡ length (lists i))
unfolding agrees
agrees_iff cache lists zero = (λ e i lt. absurd (omega arith), λ f. refl)
agrees_iff cache lists (suc n) =
    let (to, from) = agrees_iff cache lists n in
    (
      λ e i lt. elim (dec_lt i n) [
        | yes below ↦ to (ground arith) i below
        | no last ↦
            let same : n ≡ i = omega arith in
            subst (λ k. cache.counts k ≡ length (lists k)) same (ground arith)
      ],
      λ f. ground (arith, from (λ i lt. f i (omega arith)), f n (omega arith)),
    )

le_mul : (n c : ℕ) → 0 < c → n ≤ n * c
le_mul n zero pos = absurd (omega arith)
le_mul n (suc k) pos = omega arith

-- A class entry that was written, or an older one.
entry_written :
    (f g : ℕ → ℕ) (k : ℕ)
    → ((i : ℕ) → i < k → f i ≡ g i)
    → (i : ℕ) → i < suc k
    → update f k (g k) i ≡ g i
entry_written f g k old i lt = elim (Bool-cases (k == i)) [
  | inl here ↦ let same : k ≡ i = ground arith in rw here (ap g same)
  | inr away ↦ rw away (old i (ground arith))
]

decides :
    (cache : ThreadCache) (lists : ℕ → List Ptr) (says : Bool)
    → says ≡ (agrees cache lists class_count && (slot_bytes lists == cache.total_slot_bytes))
    → (says ≡ true) ↔ (
        ((i : ℕ) → i < class_count → cache.counts i ≡ length (lists i))
        × (cache.total_slot_bytes ≡ slot_bytes lists))
decides cache lists says e =
    let (to, from) = agrees_iff cache lists class_count in
    (λ yes_said. (to (ground arith), ground arith), λ (all, total). ground (arith, from all))

-- What the snapshot tells.
pub record Told (cache : ThreadCache) (lists : ℕ → List Ptr) (r : Bool × CacheSnapshot)
    : Type 0 where
  pub counts : (i : ℕ) → i < class_count → r.1.counts i ≡ cache.counts i
  pub list_lengths : (i : ℕ) → i < class_count → r.1.list_lengths i ≡ length (lists i)
  pub total : r.1.total_slot_bytes ≡ cache.total_slot_bytes
  pub computed : r.1.computed_slot_bytes ≡ slot_bytes lists

module _ {h : Heap} {cache : ThreadCache} {lists : ℕ → List Ptr} (fuel : ℕ)
    (family : IsFamily h cache.heads lists) (enough : (i : ℕ) → length (lists i) < fuel)
    (fits : slot_bytes lists ≤ size_max) where
  loop-Told :
      (left index : ℕ) (computed : ℕ) (match : Bool) (snapshot : CacheSnapshot)
      → index + left ≡ class_count
      → computed ≡ sum_below index (class_bytes lists)
      → match ≡ agrees cache lists index
      → ((i : ℕ) → i < index → snapshot.counts i ≡ cache.counts i)
      → ((i : ℕ) → i < index → snapshot.list_lengths i ≡ length (lists i))
      → Returns
          (λ r g.
            (r.0 ≡ (agrees cache lists class_count && (slot_bytes lists == cache.total_slot_bytes)))
            × Told cache lists r
            × (g ≡ h))
          (snapshot_loop cache fuel left index computed match snapshot h)
  unfolding snapshot_loop agrees slot_bytes sum_below
  loop-Told zero index computed match snapshot all sum agree counts lengths =
      let same : index ≡ class_count = omega arith in
      let total = sum ∙ ap (λ k. sum_below k (class_bytes lists)) same in
      returns (
        ap₂ (λ m s. m && (s == cache.total_slot_bytes))
            (agree ∙ ap (λ k. agrees cache lists k) same) total,
        record {
          counts = λ i lt. counts i (omega arith);
          list_lengths = λ i lt. lengths i (omega arith);
          total = refl;
          computed = total;
        },
        refl,
      )
  loop-Told (suc left) index computed match snapshot all sum agree counts lengths =
      let lt : index < class_count = omega arith in
      let up_to = sum_below_mono class_count (suc index) (class_bytes lists) (omega arith) in
      let pos : 0 < capacity_at index = omega (arith, (capacity_bounds index lt).0) in
      let short : length (lists index) ≤ size_max =
        omega (arith, le_mul (length (lists index)) (capacity_at index) pos, up_to) in
      let walked : chain_length fuel (cache.heads index) 0 h ≡ ok (length (lists index)) h =
        chain_length-ok fuel 0 (family.chains index) (enough index) (omega arith)
        ∙ ap (λ n. ok n h) (omega arith) in
      let summed : wrap (computed + length (lists index) * capacity_at index)
          ≡ sum_below (suc index) (class_bytes lists) =
        omega (arith, sum, up_to) in
      let next = sym (add-one index) in
      rw (size_class_capacity-capacity_at index lt, walked)
        (loop-Told left (index + 1) _ _ _ (omega arith)
          (summed ∙ ap (λ k. sum_below k (class_bytes lists)) next)
          (ap (λ m. m && (cache.counts index == length (lists index))) agree
            ∙ ap (λ k. agrees cache lists k) next)
          (subst
            (λ k.
              (i : ℕ)
              → i < k
              → update snapshot.counts index (cache.counts index) i ≡ cache.counts i)
            next (entry_written snapshot.counts cache.counts index counts))
          (subst
            (λ k.
              (i : ℕ)
              → i < k
              → update snapshot.list_lengths index (length (lists index)) i ≡ length (lists i))
            next (entry_written snapshot.list_lengths (λ i. length (lists i)) index lengths)))

  -- For a cache whose heads hold disjoint null-terminated chains, with capacities that sum up to a
  -- size_t and more fuel than any chain has blocks, the snapshot returns, changes nothing, and reports
  -- the cache's counts and total beside the lengths and the bytes it found; it says true exactly if
  -- every class's count is the length of its chain and the total is the sum of the capacities.
  pub cache_snapshot-Told :
      Returns
        (λ r g.
          ((r.0 ≡ true) ↔ (
            ((i : ℕ) → i < class_count → cache.counts i ≡ length (lists i))
            × (cache.total_slot_bytes ≡ slot_bytes lists)))
          × Told cache lists r
          × (g ≡ h))
        (cache_snapshot fuel cache h)
  unfolding cache_snapshot sum_below agrees
  cache_snapshot-Told =
      weaken
        (loop-Told class_count 0 0 true _ refl refl refl (λ i lt. absurd (omega arith))
          (λ i lt. absurd (omega arith)))
        λ r g (says, told, same). (decides cache lists r.0 says, told, same)
