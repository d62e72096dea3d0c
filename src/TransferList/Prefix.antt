-- ===== src/TransferList/Prefix.antt =====
-- src/transfer_list.h over chains: counting a chain, and cutting a prefix off.
use mathlib.Core.Bool.{or-true}
use hplf_malloc.Prelude.{
  ℕ, zero, suc, ◌+◌, ◌≤◌, ◌<◌, ◌≡◌, refl, sym, ap, ◌∙◌, true, false, ◌||◌, List, [], ◌∷◌, arith,
  ltb, ◌==◌, if◌then◌else◌, length, take, drop, has, length-take, length-drop,
}
use hplf_malloc.CheckedMath.{size_max, wrap}
use hplf_malloc.Heap.{Ptr, null, Block, Heap, ok}
use hplf_malloc.Heap.Chain.{
  Points, Chain, nil, cons, OnlyLinks, OnlyLinks-refl, OnlyLinks-put, last_or, has-last_or,
  not_null, load_block-ok, set_next_free-ok, split, relink, split-Disjoint, frame-put,
}
use hplf_malloc.Heap.Returns.{Returns, returns}
use hplf_malloc.TransferList.{
  TransferList, cleared, wrap_sub, chain_loop, from_chain, walk, take_prefix,
}

-- The descriptor owns exactly the blocks `xs`, in that order.
pub record Owns (h : Heap) (list : TransferList) (xs : List Ptr) : Type 0 where
  pub chain : Chain h null list.first xs
  pub last : list.last ≡ last_or null xs
  pub count : list.count ≡ length xs

chain_loop-ok :
    (fuel : ℕ) {h : Heap} (first : Ptr) {p : Ptr} (last count : ℕ) {xs : List Ptr}
    → Chain h null p xs
    → length xs < fuel
    → count + length xs ≤ size_max
    → chain_loop fuel first p last count h
      ≡ ok (record { first = first; last = last_or last xs; count = count + length xs }) h
unfolding chain_loop
chain_loop-ok zero first last count c enough small = absurd (omega arith)
chain_loop-ok (suc fuel) {h} first last count (nil e) enough small =
    rw e (ap (λ n. ok (record { first = first; last = last; count = n }) h) (omega arith))
chain_loop-ok (suc fuel) {h} first last count (cons {x} {xs} {b} e fresh at rest) enough small =
    rw (e, not_null at, load_block-ok at)
      (chain_loop-ok fuel first x (wrap (count + 1)) rest (omega arith) (omega arith)
        ∙ ap (λ n. ok (record { first = first; last = last_or x xs; count = n }) h) (omega arith))

-- Counting a null-terminated chain that fits a size_t yields the descriptor that owns exactly its
-- blocks, and changes nothing in memory, where the fuel exceeds the length.
pub from_chain-Owns :
    {h : Heap} {p : Ptr} {xs : List Ptr} (fuel : ℕ)
    → Chain h null p xs
    → length xs < fuel
    → length xs ≤ size_max
    → (list : TransferList) × (from_chain fuel p h ≡ ok list h) × Owns h list xs × (list.first ≡ p)
unfolding from_chain
from_chain-Owns {p} {xs} fuel c enough small = (
  record { first = p; last = last_or null xs; count = 0 + length xs },
  chain_loop-ok fuel p null 0 c enough (omega arith),
  record { chain = c; last = refl; count = omega arith },
  refl,
)

walk-ok :
    {h : Heap} {stop p x : Ptr} {xs : List Ptr} (k : ℕ)
    → Chain h stop p (x ∷ xs)
    → k ≤ length xs
    → walk k p h ≡ ok (last_or x (take k xs)) h
unfolding walk
walk-ok zero (cons e fresh at rest) enough = rw e
walk-ok (suc k) (cons e fresh at (nil stopped)) enough = absurd (omega arith)
walk-ok (suc k) (cons e fresh at (cons f fresh' at' rest)) enough =
    rw (e, load_block-ok at) (walk-ok k (cons f fresh' at' rest) (omega arith))

-- What is left behind the cut keeps its last block.
last_or-drop : (n d e : ℕ) (xs : List ℕ) → n < length xs → last_or d (drop n xs) ≡ last_or e xs
last_or-drop n d e [] h = absurd (omega arith)
last_or-drop zero d e (x ∷ xs) h = refl
last_or-drop (suc n) d e (x ∷ xs) h = last_or-drop n d x xs (omega arith)

-- `take_prefix` hands out the first `n` blocks, and the source keeps the others.
pub record Cut (h : Heap) (n : ℕ) (xs : List Ptr) (old : Ptr) (r : TransferList × TransferList)
    (g : Heap) : Type 0 where
  pub taken : Owns g r.1 (take n xs)
  pub left : Chain g null r.0.first (drop n xs)
  pub count : r.0.count ≡ length (drop n xs)
  pub last : old ≡ last_or null xs → r.0.last ≡ last_or null (drop n xs)
  pub links : OnlyLinks (take n xs) h g

take-length_take : (n : ℕ) (xs : List ℕ) → take (length (take n xs)) xs ≡ take n xs
take-length_take zero xs = refl
take-length_take (suc n) [] = refl
take-length_take (suc n) (x ∷ xs) = ap (λ t. x ∷ t) (take-length_take n xs)

ends_last :
    {h : Heap} {q old : Ptr} {ys : List Ptr}
    → Chain h null q ys
    → (0 < length ys → last_or null ys ≡ old)
    → (if q == null then null else old) ≡ last_or null ys
ends_last (nil e) f = rw e
ends_last (cons e fresh at rest) f = rw (e, not_null at) (sym (f (omega arith)))

taken_count :
    (m n : ℕ) (xs : List ℕ)
    → m ≡ suc (length xs)
    → (if ltb m (suc n) then m else suc n) ≡ suc (length (take n xs))
taken_count m n xs count = ground (arith, length-take n xs)

minus_one : (k : ℕ) → k < size_max → wrap_sub (suc k) 1 ≡ k
minus_one k lt = omega arith

module _ {h : Heap} {source : TransferList} where
  -- The source is empty, or nothing is asked for.
  none-Cut :
      {xs : List Ptr} (n : ℕ)
      → Chain h null source.first xs
      → source.count ≡ length xs
      → take n xs ≡ []
      → drop n xs ≡ xs
      → Cut h n xs source.last (source, cleared) h
  none-Cut n c count no_take all_left = record {
    taken = rw no_take (record { chain = nil refl; last = refl; count = refl });
    left = rw all_left c;
    count = rw all_left count;
    last = λ e. rw all_left e;
    links = OnlyLinks-refl _ h;
  }

  cons-Cut :
      {x : Ptr} {xs : List Ptr} {b : Block} (n : ℕ)
      → source.first ≡ x
      → has x xs ≡ false
      → Points h x b
      → Chain h null b.next_free xs
      → source.count ≡ suc (length xs)
      → suc (length xs) ≤ size_max
      → Returns (Cut h (suc n) (x ∷ xs) source.last) (take_prefix source (suc n) h)
  unfolding take_prefix
  cons-Cut {x} {xs} {b} n e fresh at rest count small =
      let all : Chain h null source.first (x ∷ xs) = cons e fresh at rest in
      let (q, front, back) = split (suc n) all in
      let (c, ends, last, turned) = relink x (take n xs) null front in
      let shorter : length (take n xs) ≤ length xs = omega (arith, length-take n xs) in
      rw
        (
          live,
          taken_count source.count n xs count,
          minus_one (length (take n xs)) (omega arith),
          walk-ok (length (take n xs)) all shorter,
          take-length_take n xs,
          load_block-ok last,
          set_next_free-ok last null,
        )
        (returns (record {
          taken = record { chain = turned; last = refl; count = refl };
          left =
              rw ends
                (frame-put _ _ back (split-Disjoint (suc n) all _ (has-last_or x (take n xs))));
          count = omega (arith, length-take n xs, length-drop n xs);
          last = λ was. rw ends (
              ends_last back
                λ pos. last_or-drop n null x xs (omega (arith, length-drop n xs)) ∙ sym was);
          links = OnlyLinks-put _ null last (has-last_or x (take n xs));
        }))
    where
      live : (source.first == null || suc n == 0) ≡ false
      live = ground (arith, not_null at)

  -- For a counted null-terminated chain that fits a size_t, taking at most `n` blocks returns
  -- descriptors of the first `n` (or all) and of the others, each chain null-terminated and
  -- counted, the output's last pointer right, the source's too if it was; only links of taken
  -- blocks change.
  pub take_prefix-Cut :
      {xs : List Ptr} (n : ℕ)
      → Chain h null source.first xs
      → source.count ≡ length xs
      → length xs ≤ size_max
      → n ≤ size_max
      → Returns (Cut h n xs source.last) (take_prefix source n h)
  unfolding take_prefix
  take_prefix-Cut zero c count small fits =
      rw (or-true (source.first == null)) (returns (none-Cut zero c count refl refl))
  take_prefix-Cut (suc n) (nil e) count small fits =
      rw null_first (returns (none-Cut (suc n) (nil e) count refl refl))
    where
      null_first : (source.first == null) ≡ true
      null_first = ground arith
  take_prefix-Cut (suc n) (cons e fresh at rest) count small fits =
      cons-Cut n e fresh at rest count small
