-- ===== src/TransferAtomic/Alone.antt =====
-- A thread that runs alone: it finishes its call, with the result of the mutex version.
use hplf_malloc.Prelude.{
  ℕ, zero, suc, ◌+◌, ◌≤◌, ◌≡◌, refl, ◌∙◌, true, false, Bool-cases, inl, inr, List, [], ◌∷◌, arith,
  ◌==◌, length, length-drop, drop, update,
}
use hplf_malloc.CheckedMath.{wrap}
use hplf_malloc.Heap.{Ptr, null, Heap, Run, ok, fault, out_of_fuel, Cmd, pure, ◌>>=◌, set_next_free}
use hplf_malloc.Heap.Returns.{Run-cases}
use hplf_malloc.Heap.Chain.{Chain, nil, cons, not_null, load_block-ok}
use hplf_malloc.TransferAtomic.Ownership.{Leaving, Owned, at_rest, stale, ready, taken}
use hplf_malloc.TransferAtomic.Safety.{link-Leaving}
use hplf_malloc.TransferList.{TransferList, cleared}
use hplf_malloc.TransferMutex.{Heads, publish}
use hplf_malloc.TransferAtomic.{
  Shared, Pc, holding, observing, linked, counting, Choice, begin_publish, compare_exchange,
  count_next, step, on_memory,
}

-- `n` steps of one thread, with the same choice at each.
unfoldable pub alone : ℕ → Choice → Pc → Cmd Shared Pc
alone zero c p = pure p
alone (suc n) c p = do q ← step c p; alone n c q

-- A run of the mutex version, read as one of the atomic version.
abbrev pub as_atomic : Run Heap (TransferList × Heads) → Run Shared Pc
as_atomic (ok (list, heads) h) = ok (holding list) (record { heap = h; heads = heads })
as_atomic fault = fault
as_atomic out_of_fuel = out_of_fuel

abbrev pub publishing : ℕ → Choice
publishing i = record { publishes = true; class_index = i; spurious = false }

abbrev pub detaching : ℕ → Choice
detaching i = record { publishes = false; class_index = i; spurious = false }

module _ (i : ℕ) (list : TransferList) (m : Shared) where
  publish-stays :
      (list.first == null) ≡ true → step (publishing i) (holding list) m ≡ ok (holding list) m
  unfolding step begin_publish
  publish-stays empty = rw empty

  publish-starts :
      (list.first == null) ≡ false
      → step (publishing i) (holding list) m ≡ ok (observing i list (m.heads i)) m
  unfolding step begin_publish
  publish-starts live = rw live

  step-wins :
      step (publishing i) (linked i list (m.heads i)) m
      ≡ ok (holding cleared) (record m { heads = update m.heads i list.first })
  unfolding step compare_exchange
  step-wins = ground arith

-- A thread that publishes alone needs three steps, whatever the state, and does what the mutex
-- version does on the same memory and heads, faults included.
pub alone-publish :
    (i : ℕ) (list : TransferList) (m : Shared)
    → alone 3 (publishing i) (holding list) m ≡ as_atomic (publish i list m.heads m.heap)
unfolding alone publish step
alone-publish i list m = elim (Bool-cases (list.first == null)) [
  | inl empty ↦ let stays = publish-stays i list m empty in rw (stays, stays, stays) (rw empty)
  | inr live ↦
      let starts = publish-starts i list m live in
      elim (Run-cases (set_next_free list.last (m.heads i) m.heap)) [
        | inl (done, h, run) ↦
            rw (starts, live, step, on_memory, run, step-wins i list (record m { heap = h }))
        | inr (inl bad) ↦ rw (starts, live, step, on_memory, bad)
        | inr (inr late) ↦ rw (starts, live, step, on_memory, late)
      ]
]

alone-suc :
    (n : ℕ) (c : Choice) (p : Pc) (m : Shared) {q : Pc} {k : Shared}
    → step c p m ≡ ok q k
    → alone (suc n) c p m ≡ alone n c q k
unfolding alone
alone-suc n c p m e = rw e

alone-zero : (c : Choice) (p : Pc) (m : Shared) → alone 0 c p m ≡ ok p m
unfolding alone
alone-zero c p m = refl

-- A thread that stands at `p` needs at most `bound` steps alone to the end of its call.
pub record Finishes (c : Choice) (p : Pc) (m : Shared) (bound : ℕ) : Type 0 where
  pub steps : ℕ
  pub within : steps ≤ bound
  pub list : TransferList
  pub after : Shared
  pub run : alone steps c p m ≡ ok (holding list) after

one_more :
    {c : Choice} {q : Pc} {k : Shared} {n : ℕ} (p : Pc) (m : Shared)
    → step c p m ≡ ok q k
    → Finishes c q k n
    → Finishes c p m (suc n)
one_more {c} p m e f = record {
  steps = suc f.steps;
  within = omega (arith, f.within);
  list = f.list;
  after = f.after;
  run = alone-suc f.steps c p m e ∙ f.run;
}

no_more : (c : Choice) (list : TransferList) (m : Shared) (n : ℕ) → Finishes c (holding list) m n
no_more c list m n = record {
  steps = 0;
  within = omega arith;
  list = list;
  after = m;
  run = alone-zero c (holding list) m;
}

count-Finishes :
    {c : Choice} {m : Shared} (first block last count : ℕ) (ys : List Ptr)
    → Chain m.heap null block ys
    → Finishes c (counting first block last count) m (suc (length ys))
unfolding step count_next
count-Finishes {c} {m} first block last count [] (nil e) =
    one_more (counting first block last count) m (rw e)
      (no_more c (record { first = first; last = last; count = count }) m 0)
count-Finishes {c} {m} first block last count (y ∷ ys) (cons {b} e fresh at rest) =
    one_more (counting first block last count) m (rw (e, not_null at, on_memory, load_block-ok at))
      (count-Finishes {m = m} first b.next_free block (wrap (count + 1)) ys rest)

link-ok :
    (c : Choice) (m : Shared) (i : ℕ) (list : TransferList) (observed : Ptr) {g : Heap}
    → set_next_free list.last observed m.heap ≡ ok tt g
    → step c (observing i list observed) m ≡ ok (linked i list observed) (record m { heap = g })
unfolding step
link-ok c m i list observed run = rw (on_memory, run)

cas-wins :
    (c : Choice) (m : Shared) (i : ℕ) (list : TransferList) (observed : Ptr)
    → c.spurious ≡ false
    → m.heads i ≡ observed
    → step c (linked i list observed) m
      ≡ ok (holding cleared) (record m { heads = update m.heads i list.first })
unfolding step compare_exchange
cas-wins c m i list observed steady e = ground arith

cas-loses :
    (c : Choice) (m : Shared) (i : ℕ) (list : TransferList) (observed : Ptr)
    → (m.heads i == observed) ≡ false
    → step c (linked i list observed) m ≡ ok (observing i list (m.heads i)) m
unfolding step compare_exchange
cas-loses c m i list observed e = rw e

-- The compare-exchange with the head just loaded succeeds.
fresh-Finishes :
    {c : Choice} {m : Shared} {list : TransferList} {stop : Ptr} (i : ℕ) (xs : List Ptr)
    → c.spurious ≡ false
    → Leaving m.heap stop list xs
    → Finishes c (observing i list (m.heads i)) m 2
fresh-Finishes {c} {m} {list} i xs steady leaving =
    let (g, run, tied, links) = link-Leaving xs (m.heads i) leaving in
    one_more (observing i list (m.heads i)) m (link-ok c m i list (m.heads i) run) (
      one_more (linked i list (m.heads i)) (record m { heap = g })
        (cas-wins c (record m { heap = g }) i list (m.heads i) steady refl)
        (no_more c cleared (record m { heap = g; heads = update m.heads i list.first }) 0))

linked-Finishes :
    {c : Choice} {m : Shared} {list : TransferList} {observed : Ptr} (i : ℕ) (xs : List Ptr)
    → c.spurious ≡ false
    → Leaving m.heap observed list xs
    → Finishes c (linked i list observed) m 3
linked-Finishes {c} {m} {list} {observed} i xs steady leaving =
    elim (Bool-cases (m.heads i == observed)) [
      | inl same ↦
          one_more (linked i list observed) m (cas-wins c m i list observed steady (ground arith))
            (no_more c cleared (record m { heads = update m.heads i list.first }) 2)
      | inr moved ↦
          one_more (linked i list observed) m (cas-loses c m i list observed moved)
            (fresh-Finishes i xs steady leaving)
    ]

stale-Finishes :
    {c : Choice} {m : Shared} {list : TransferList} {stop : Ptr} (i : ℕ) (observed : Ptr)
    (xs : List Ptr)
    → c.spurious ≡ false
    → Leaving m.heap stop list xs
    → Finishes c (observing i list observed) m 4
stale-Finishes {c} {m} {list} i observed xs steady leaving =
    let (g, run, tied, links) = link-Leaving xs observed leaving in
    one_more (observing i list observed) m (link-ok c m i list observed run)
      (linked-Finishes {m = record m { heap = g }} i xs steady tied)

longer :
    {c : Choice} {p : Pc} {m : Shared} {n : ℕ} (k : ℕ) → n ≤ k → Finishes c p m n → Finishes c p m k
longer k le f = record {
  steps = f.steps;
  within = omega (arith, f.within);
  list = f.list;
  after = f.after;
  run = f.run;
}

-- Where memory holds the blocks that a thread owns where it stands, and its compare-exchange does not
-- fail spuriously, the thread alone ends its call within five steps more than it has blocks: no
-- thread that stops can hold it up.
pub alone-Finishes :
    {p : Pc} {m : Shared} {xs : List Ptr} (c : Choice)
    → c.spurious ≡ false
    → Owned m.heap p xs
    → Finishes c p m (length xs + 5)
alone-Finishes {m} {xs} c steady (at_rest {list} held) = no_more c list m (length xs + 5)
alone-Finishes {xs} c steady (stale {i} {observed} leaving) =
    longer (length xs + 5) (omega arith) (stale-Finishes i observed xs steady leaving)
alone-Finishes {xs} c steady (ready {i} leaving) =
    longer (length xs + 5) (omega arith) (linked-Finishes i xs steady leaving)
alone-Finishes {xs} c steady (taken {first} {block} {last} {count} {done} counted) =
    longer (length xs + 5) (omega (arith, length-drop done xs))
      (count-Finishes first block last count (drop done xs) counted.rest)
