-- ===== src/Allocator/Trim/Owners.antt =====
-- The loops of hplf_trim_quiescent over one class's chain: counting the blocks of a slab, parting them
-- from the others, and joining two chains.
use hplf_malloc.Prelude.{
  ℕ, zero, suc, ◌+◌, ◌≤◌, ◌<◌, ◌≡◌, refl, subst, ap, ◌∙◌, true, false, Bool-cases, inl, inr, List,
  [], ◌∷◌, ◌++◌, some, arith, ◌==◌, length, has, if◌then◌else◌,
}
use hplf_malloc.CheckedMath.{size_max, wrap}
use hplf_malloc.Heap.{Ptr, null, small, Block, Heap, ok, put_block, small_slab}
use hplf_malloc.Heap.Chain.{
  Points, Chain, nil, cons, not_null, load_block-ok, set_next_free-ok, Points-put, frame-put,
  frame-links, append, relink, last_or, has-last_or, Disjoint, OnlyLinks, OnlyLinks-refl,
  OnlyLinks-put, OnlyLinks-trans, OnlyLinks-mono, first_live,
}
use hplf_malloc.Heap.Family.{Disjoint-symm}
use hplf_malloc.Heap.Returns.{Returns, returns, outcome}
use hplf_malloc.Allocator.Trim.{slab_free_count, detach_slab_blocks, find_tail, join_free_lists}

-- The blocks of `xs` are small, and `owner` says of which slab.
abbrev pub Owners : Heap → (Ptr → Ptr) → List Ptr → Type 0
Owners h owner xs =
    (a : Ptr) (b : Block) → has a xs ≡ true → h.block a ≡ some b → b.owner ≡ small (owner a)

-- The blocks of a slab, and those of all others.
abbrev pub belonging : (Ptr → Ptr) → Ptr → List Ptr → List Ptr
belonging owner slab [] = []
belonging owner slab (x ∷ xs) =
    if owner x == slab then x ∷ belonging owner slab xs else belonging owner slab xs

abbrev pub foreign : (Ptr → Ptr) → Ptr → List Ptr → List Ptr
foreign owner slab [] = []
foreign owner slab (x ∷ xs) =
    if owner x == slab then foreign owner slab xs else x ∷ foreign owner slab xs

abbrev pub reverse_onto : List Ptr → List Ptr → List Ptr
reverse_onto [] ys = ys
reverse_onto (x ∷ xs) ys = reverse_onto xs (x ∷ ys)

owner-ok : (h : Heap) (b : Block) (s : Ptr) → b.owner ≡ small s → small_slab b h ≡ ok s h
unfolding small_slab
owner-ok h b s e = rw e

behind :
    (h : Heap) (owner : Ptr → Ptr) (x : Ptr) (xs : List Ptr)
    → Owners h owner (x ∷ xs)
    → Owners h owner xs
behind h owner x xs all a b i e = all a b (ground arith) e

count_from :
    (fuel slab : ℕ) {h : Heap} {owner : Ptr → Ptr} {p : Ptr} (count : ℕ) {xs : List Ptr}
    → Chain h null p xs
    → Owners h owner xs
    → length xs < fuel
    → count + length (belonging owner slab xs) ≤ size_max
    → slab_free_count fuel slab p count h ≡ ok (count + length (belonging owner slab xs)) h
unfolding slab_free_count
count_from zero slab count c all enough fits = absurd (omega arith)
count_from (suc fuel) slab {h} count (nil e) all enough fits = rw e (ap (λ n. ok n h) (omega arith))
count_from (suc fuel) slab {h} {owner} count (cons {x} {xs} {b} e fresh at rest) all enough fits =
    let mine = owner-ok h b (owner x) (all x b (ground arith) at.holds) in
    elim (Bool-cases (owner x == slab)) [
      | inl own ↦
          rw (e, not_null at, load_block-ok at, mine, own)
            (count_from fuel slab (wrap (count + 1)) rest (behind h owner x xs all) (omega arith)
                (ground (arith, rw own at fits))
              ∙ ap (λ n. ok n h) (ground (arith, rw own at fits)))
      | inr other ↦
          rw (e, not_null at, load_block-ok at, mine, other)
            (count_from fuel slab count rest (behind h owner x xs all) (omega arith)
              (rw other at fits))
    ]

-- Counting the blocks of a slab in a null-terminated chain of small blocks gives their exact number,
-- and changes nothing, where the number fits a size_t and the fuel exceeds the length.
pub slab_free_count_lem :
    (fuel slab : ℕ) {h : Heap} {owner : Ptr → Ptr} {p : Ptr} {xs : List Ptr}
    → Chain h null p xs
    → Owners h owner xs
    → length xs < fuel
    → length (belonging owner slab xs) ≤ size_max
    → slab_free_count fuel slab p 0 h ≡ ok (length (belonging owner slab xs)) h
slab_free_count_lem fuel slab {h} {owner} {xs} c all enough fits =
    count_from fuel slab 0 c all enough (omega arith) ∙ ap (λ n. ok n h) (omega arith)

-- The chains and the memory after the blocks `xs` were parted onto `rs` and `qs`.
pub record Parted (h : Heap) (owner : Ptr → Ptr) (slab : Ptr) (xs rs qs : List Ptr) (r : Ptr × Ptr)
    (g : Heap) : Type 0 where
  pub removed : Chain g null r.0 (reverse_onto (belonging owner slab xs) rs)
  pub remaining : Chain g null r.1 (reverse_onto (foreign owner slab xs) qs)
  pub links : OnlyLinks xs h g

-- The first block moves to one of the two lists, whose head becomes it.
moved_first :
    {h : Heap} {x : Ptr} {b : Block} {q : Ptr} {ys : List Ptr}
    → Points h x b
    → Chain h null q ys
    → has x ys ≡ false
    → Chain (put_block h x (record b { next_free = q })) null x (x ∷ ys)
moved_first {h} {x} {b} {q} at c out =
    cons {b = record b { next_free = q }} refl out (Points-put at (record b { next_free = q }))
      (frame-put x _ c out)

still-Owners :
    (h : Heap) (owner : Ptr → Ptr) (x : Ptr) (xs : List Ptr) (c : Block)
    → Owners h owner (x ∷ xs)
    → has x xs ≡ false
    → Owners (put_block h x c) owner xs
still-Owners h owner x xs c all fresh a b i e = elim (Bool-cases (x == a)) [
  | inl here ↦
      let same : x ≡ a = ground arith in absurd (clash (subst (λ t. has t xs ≡ false) same fresh))
  | inr away ↦ all a b (ground arith) (rw away at e)
]
  where
    clash : has a xs ≡ false → ⊥
    clash no_hit = cc

-- The block `x` has gone to the front of `rs`.
apart_next :
    (x : Ptr) (xs rs : List Ptr) → Disjoint (x ∷ xs) rs → has x xs ≡ false → Disjoint xs (x ∷ rs)
apart_next x xs rs apart fresh a i = elim (Bool-cases (a == x)) [
  | inl here ↦
      let same : x ≡ a = ground arith in absurd (clash (subst (λ t. has t xs ≡ false) same fresh))
  | inr away ↦ rw away (apart a (ground arith))
]
  where
    clash : has a xs ≡ false → ⊥
    clash no_hit = cc

links_next :
    {h g : Heap} {x : Ptr} {b : Block} (xs : List Ptr) (q : Ptr)
    → Points h x b
    → OnlyLinks xs (put_block h x (record b { next_free = q })) g
    → OnlyLinks (x ∷ xs) h g
links_next {x} xs q at links =
    OnlyLinks-trans (OnlyLinks-put (x ∷ xs) q at (ground arith))
      (OnlyLinks-mono (x ∷ xs) (λ a o. ground arith) links)

part_onto :
    (fuel slab : ℕ) {h : Heap} {owner : Ptr → Ptr} {block removed remaining : Ptr}
    {xs rs qs : List Ptr}
    → Chain h null block xs
    → Chain h null removed rs
    → Chain h null remaining qs
    → Disjoint xs rs
    → Disjoint xs qs
    → Owners h owner xs
    → length xs < fuel
    → Returns
        (Parted h owner slab xs rs qs)
        (detach_slab_blocks fuel slab block removed remaining h)
unfolding detach_slab_blocks
part_onto zero slab c left right no_left no_right all enough = absurd (omega arith)
part_onto (suc fuel) slab {h} (nil e) left right no_left no_right all enough =
    rw e (returns (record { removed = left; remaining = right; links = OnlyLinks-refl [] h }))
part_onto (suc fuel) slab {h} {owner} {removed} {remaining} {rs} {qs}
      (cons {x} {xs} {b} e fresh at rest) left right no_left no_right all enough =
    let mine = owner-ok h b (owner x) (all x b (ground arith) at.holds) in
    let x_left = no_left x (ground arith) in
    let x_right = no_right x (ground arith) in
    elim (Bool-cases (owner x == slab)) [
      | inl own ↦
          let c : Block = record b { next_free = removed } in
          let (r, g, run, parted) = outcome (
            part_onto fuel slab {h = put_block h x c} {owner = owner} (frame-put x c rest fresh)
              (moved_first at left x_left) (frame-put x c right x_right)
              (apart_next x xs rs no_left fresh) (λ a i. no_right a (ground arith))
              (still-Owners h owner x xs c all fresh) (omega arith)) in
          rw (e, not_null at, load_block-ok at, mine, own, set_next_free-ok at removed, run)
            (returns (record {
              removed = rw own parted.removed;
              remaining = rw own parted.remaining;
              links = links_next xs removed at parted.links;
            }))
      | inr other ↦
          let c : Block = record b { next_free = remaining } in
          let (r, g, run, parted) = outcome (
            part_onto fuel slab {h = put_block h x c} {owner = owner} (frame-put x c rest fresh)
              (frame-put x c left x_left) (moved_first at right x_right)
              (λ a i. no_left a (ground arith)) (apart_next x xs qs no_right fresh)
              (still-Owners h owner x xs c all fresh) (omega arith)) in
          rw (e, not_null at, load_block-ok at, mine, other, set_next_free-ok at remaining, run)
            (returns (record {
              removed = rw other parted.removed;
              remaining = rw other parted.remaining;
              links = links_next xs remaining at parted.links;
            }))
    ]

-- Parting a null-terminated chain of small blocks by owner gives two null-terminated chains: the
-- slab's own blocks and all others, each with its last block first; only links of the chain's blocks
-- change. The fuel exceeds the length.
pub detach_slab_blocks-Parted :
    (fuel slab : ℕ) {h : Heap} {owner : Ptr → Ptr} {block : Ptr} {xs : List Ptr}
    → Chain h null block xs
    → Owners h owner xs
    → length xs < fuel
    → Returns (Parted h owner slab xs [] []) (detach_slab_blocks fuel slab block null null h)
detach_slab_blocks-Parted fuel slab c all enough =
    part_onto fuel slab c (nil refl) (nil refl) (λ a i. refl) (λ a i. refl) all enough

find_tail-ok :
    (fuel : ℕ) {h : Heap} {p x : Ptr} {xs : List Ptr}
    → Chain h null p (x ∷ xs)
    → length xs < fuel
    → find_tail fuel p h ≡ ok (last_or x xs) h
unfolding find_tail
find_tail-ok zero c enough = absurd (omega arith)
find_tail-ok (suc fuel) (cons e fresh at (nil stopped)) enough = rw (e, load_block-ok at, stopped)
find_tail-ok (suc fuel) (cons e fresh at (cons f fresh' at' rest)) enough =
    rw (e, load_block-ok at, f, not_null at')
      (find_tail-ok fuel (cons refl fresh' at' rest) (omega arith))

-- Two chains without a common block become one, by a write to the last link of the first.
pub join_free_lists-joins :
    (fuel : ℕ) {h : Heap} {p q : Ptr} {xs ys : List Ptr}
    → Chain h null p xs
    → Chain h null q ys
    → Disjoint xs ys
    → length xs ≤ fuel
    → Returns (λ r g. Chain g null r (xs ++ ys) × OnlyLinks xs h g) (join_free_lists fuel p q h)
unfolding join_free_lists
join_free_lists-joins fuel {h} {q} (nil e) d apart enough = rw e (returns (d, OnlyLinks-refl [] h))
join_free_lists-joins fuel {h} {p} {q} {xs = x ∷ xs} c d apart enough =
    let (b, stopped, at, turned) = relink x xs q c in
    let links = OnlyLinks-put (x ∷ xs) q at (has-last_or x xs) in
    rw (first_live c, find_tail-ok fuel c (omega arith), set_next_free-ok at q)
      (returns (append turned (frame-links d links (Disjoint-symm (x ∷ xs) _ apart)) apart, links))
