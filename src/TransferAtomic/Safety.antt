-- ===== src/TransferAtomic/Safety.antt =====
-- Every step of every thread from a state with the invariant: it returns, and does to the blocks what
-- the specification allows.
use hplf_malloc.Prelude.{
  ℕ, zero, suc, ◌≤◌, ◌≡◌, ◌≢◌, refl, sym, subst, ap, ◌∙◌, not, ◌&&◌, Bool-cases, inl, inr, List, [],
  ◌∷◌, arith, ◌==◌, length, take, drop,
}
use hplf_malloc.CheckedMath.{wrap}
use hplf_malloc.Heap.{Ptr, null, Block, Heap, ok, set_next_free, put_block}
use hplf_malloc.Heap.Chain.{
  Points, Chain, OnlyLinks, OnlyLinks-put, last_or, has-last_or, relink, nil-eq, uncons,
  length-pos_of_ne, set_next_free-ok, load_block-ok,
}
use hplf_malloc.Heap.Returns.{Returns, returns}
use hplf_malloc.TransferList.{TransferList}
use hplf_malloc.TransferAtomic.{
  Pc, observing, linked, Choice, begin_publish, compare_exchange, begin_detach, count_next, step,
  on_memory, System,
}
use hplf_malloc.TransferAtomic.Ownership.{
  Held, Leaving, Counted, Owned, at_rest, stale, ready, taken,
}
use hplf_malloc.TransferAtomic.Invariant.{Blocks, Inv, Next, still, quiet, pushed, popped}

null-nil : {h : Heap} {p : Ptr} (xs : List Ptr) → Chain h null p xs → p ≡ null → xs ≡ []
null-nil [] c e = refl
null-nil (x ∷ xs) c e =
    let (b, first, fresh, at, rest) = uncons c in absurd (at.ne_null (sym first ∙ e))

pub live-cons :
    {h : Heap} {p : Ptr} (xs : List Ptr)
    → Chain h null p xs
    → p ≢ null
    → (b : Block) × (ys : List Ptr) × (xs ≡ p ∷ ys) × Points h p b × Chain h null b.next_free ys
live-cons [] c ne = absurd (ne (nil-eq c))
live-cons {h} (x ∷ xs) c ne =
    let (b, first, fresh, at, rest) = uncons c in
    (b, xs, cc, subst (λ q. Points h q b) (sym first) at, rest)

drop-nil :
    (n : ℕ) (xs : List Ptr) → drop n xs ≡ [] → n ≤ length xs → (n ≡ length xs) × (take n xs ≡ xs)
drop-nil zero [] e le = (refl, refl)
drop-nil zero (x ∷ xs) e le = cc
drop-nil (suc n) [] e le = absurd (omega arith)
drop-nil (suc n) (x ∷ xs) e le =
    let (same, all) = drop-nil n xs e (omega arith) in (omega arith, ap (λ t. x ∷ t) all)

-- The block behind `n` others.
drop-cons :
    (n : ℕ) (d x : Ptr) (xs ys : List Ptr)
    → drop n xs ≡ x ∷ ys
    → (drop (suc n) xs ≡ ys) × (last_or d (take (suc n) xs) ≡ x) × (suc n ≤ length xs)
drop-cons zero d x [] ys e = cc
drop-cons zero d x (y ∷ xs) ys e = (cc, cc, omega arith)
drop-cons (suc n) d x [] ys e = cc
drop-cons (suc n) d x (y ∷ xs) ys e =
    let (rest, last, within) = drop-cons n y x xs ys e in (rest, last, omega arith)

-- The tail link of a private list is redirected, whatever it was.
pub link-Leaving :
    {h : Heap} {stop : Ptr} {list : TransferList} (xs : List Ptr) (observed : Ptr)
    → Leaving h stop list xs
    → (g : Heap) × (set_next_free list.last observed h ≡ ok tt g)
      × Leaving g observed list xs
      × OnlyLinks xs h g
link-Leaving [] observed leaving = absurd (omega (arith, leaving.some_block))
link-Leaving {h} {list} (x ∷ xs) observed leaving =
    let (c, stopped, at, turned) = relink x xs observed leaving.chain in
    (
      put_block h (last_or x xs) (record c { next_free = observed }),
      ap (λ q. set_next_free q observed h) leaving.last ∙ set_next_free-ok at observed,
      record { chain = turned; last = leaving.last; some_block = leaving.some_block },
      OnlyLinks-put (x ∷ xs) observed at (has-last_or x xs),
    )

module _ {s : System} {b : Blocks} (inv : Inv s b) (t : ℕ) where
  publish-Next :
      {list : TransferList} (i : ℕ)
      → Held s.memory.heap list (b.private t)
      → Returns (Next s b t) (begin_publish i list s.memory)
  unfolding begin_publish
  publish-Next {list} i held = elim (Bool-cases (list.first == null)) [
    | inl empty ↦ rw empty (returns (still inv t (at_rest held)))
    | inr live ↦
        let ne : list.first ≢ null = ground arith in
        rw live (
          returns (
            still inv t (
              stale (record {
                chain = held.chain;
                last = held.last;
                some_block = length-pos_of_ne held.chain ne;
              }))))
  ]

  detach-Next :
      {list : TransferList} (i : ℕ)
      → Held s.memory.heap list (b.private t)
      → Returns (Next s b t) (begin_detach i list s.memory)
  unfolding begin_detach
  detach-Next {list} i held = elim (Bool-cases (list.first == null)) [
    | inl empty ↦
        rw empty (returns (popped inv t i (null-nil (b.private t) held.chain (ground arith))))
    | inr live ↦ rw live (returns (still inv t (at_rest held)))
  ]

  link-Next :
      {list : TransferList} {stop : Ptr} (i : ℕ) (observed : Ptr) (c : Choice)
      → Leaving s.memory.heap stop list (b.private t)
      → Returns (Next s b t) (step c (observing i list observed) s.memory)
  unfolding step
  link-Next {list} i observed c leaving =
      let (g, run, tied, links) = link-Leaving (b.private t) observed leaving in
      rw (on_memory, run) (returns (quiet inv t (ready tied) links))

  cas-Next :
      {list : TransferList} {observed : Ptr} (i : ℕ) (c : Choice)
      → Leaving s.memory.heap observed list (b.private t)
      → Returns (Next s b t) (step c (linked i list observed) s.memory)
  unfolding step compare_exchange
  cas-Next {list} {observed} i c leaving =
      elim (Bool-cases ((s.memory.heads i == observed) && not c.spurious)) [
        | inl won ↦ rw won (returns (pushed inv t i leaving (ground arith)))
        | inr lost ↦ rw lost (returns (still inv t (stale leaving)))
      ]

  count-Next :
      {first block last : Ptr} {count done : ℕ}
      → Counted s.memory.heap first block last count done (b.private t)
      → Returns (Next s b t) (count_next first block last count s.memory)
  unfolding count_next
  count-Next {first} {block} {last} {count} {done} counted = elim (Bool-cases (block == null)) [
    | inl end ↦
        let nothing = null-nil (drop done (b.private t)) counted.rest (ground arith) in
        let (all, same) = drop-nil done (b.private t) nothing counted.within in
        rw end (
          returns (
            still inv t (
              at_rest (record {
                chain = counted.chain;
                last = counted.seen ∙ ap (λ l. last_or null l) same;
                count = counted.counted ∙ ap (λ n. wrap n) all;
              }))))
    | inr live ↦
        let (c, ys, front, at, back) =
          live-cons (drop done (b.private t)) counted.rest (ground arith) in
        let (rest, end, within) = drop-cons done null block (b.private t) ys front in
        rw (live, on_memory, load_block-ok at)
          (returns (
            still inv t (
              taken {done = suc done} (record {
                chain = counted.chain;
                rest = subst (λ l. Chain s.memory.heap null c.next_free l) (sym rest) back;
                seen = sym end;
                within = within;
                counted = omega (arith, counted.counted);
              }))))
  ]

-- One step of thread `t` that stands at `p` with the blocks that it owns.
step-at :
    {s : System} {b : Blocks} {p : Pc} (inv : Inv s b) (t : ℕ) (c : Choice)
    → Owned s.memory.heap p (b.private t)
    → Returns (Next s b t) (step c p s.memory)
unfolding step
step-at {s} {b} inv t c (at_rest {list} held) = elim (Bool-cases c.publishes) [
  | inl publishes ↦ rw publishes (publish-Next inv t c.class_index held)
  | inr detaches ↦ rw detaches (detach-Next inv t c.class_index held)
]
step-at inv t c (stale {i} {observed} leaving) = link-Next inv t i observed c leaving
step-at inv t c (ready {i} leaving) = cas-Next inv t i c leaving
step-at inv t c (taken counted) = count-Next inv t counted

-- From a state in which memory holds the shared lists and each thread's own list, no block in two
-- places, any step of any thread returns: it reads and writes only live blocks. It leaves the lists
-- as they are, or pushes all blocks of the thread on one class, or takes all blocks of a class, and
-- the invariant holds for the new lists.
pub step-Next :
    {s : System} {b : Blocks}
    → Inv s b
    → (t : ℕ) (c : Choice) → Returns (Next s b t) (step c (s.pc t) s.memory)
step-Next inv t c = step-at inv t c (inv.owned t)
