-- ===== src/Allocator/Trim/Parts.antt =====
-- The two parts of a class's chain as lists of blocks, and the chains joined again.
use hplf_malloc.Prelude.{
  ℕ, ◌+◌, ◌≤◌, ◌<◌, ◌≡◌, refl, subst, ◌∙◌, true, false, ◌||◌, Bool-cases, inl, inr, Option, List,
  [], ◌∷◌, ◌++◌, arith, ◌==◌, length, has, has-append,
}
use hplf_malloc.Heap.{Ptr, null, Slab, Heap}
use hplf_malloc.Heap.Chain.{Chain, Disjoint, OnlyLinks, frame}
use hplf_malloc.Heap.Returns.{Returns, returns, outcome}
use hplf_malloc.Allocator.Trim.{join_free_lists}
use hplf_malloc.Allocator.Trim.Owners.{
  belonging, foreign, reverse_onto, Parted, join_free_lists-joins,
}

pub has-reverse_onto :
    (a : Ptr) (xs ys : List Ptr) → has a (reverse_onto xs ys) ≡ (has a xs || has a ys)
has-reverse_onto a [] ys = refl
has-reverse_onto a (x ∷ xs) ys = ground (arith, has-reverse_onto a xs (x ∷ ys))

module _ (owner : Ptr → Ptr) (slab a : Ptr) where
  has-belonging :
      (xs : List Ptr) → has a (belonging owner slab xs) ≡ true → (owner a == slab) ≡ true
  has-belonging [] i = cc
  has-belonging (x ∷ xs) i = elim (Bool-cases (owner x == slab)) [
    | inl own ↦ elim (Bool-cases (a == x)) [
      | inl here ↦ let same : x ≡ a = ground arith in subst (λ t. (owner t == slab) ≡ true) same own
      | inr away ↦ has-belonging xs (rw away at (rw own at i))
    ]
    | inr other ↦ has-belonging xs (rw other at i)
  ]

  has-foreign : (xs : List Ptr) → has a (foreign owner slab xs) ≡ true → (owner a == slab) ≡ false
  has-foreign [] i = cc
  has-foreign (x ∷ xs) i = elim (Bool-cases (owner x == slab)) [
    | inl own ↦ has-foreign xs (rw own at i)
    | inr other ↦ elim (Bool-cases (a == x)) [
      | inl here ↦
          let same : x ≡ a = ground arith in subst (λ t. (owner t == slab) ≡ false) same other
      | inr away ↦ has-foreign xs (rw away at (rw other at i))
    ]
  ]

  pub has-parts :
      (xs : List Ptr)
      → (has a (belonging owner slab xs) || has a (foreign owner slab xs)) ≡ has a xs
  has-parts [] = refl
  has-parts (x ∷ xs) = elim (Bool-cases (owner x == slab)) [
    | inl own ↦ rw own (ground (arith, has-parts xs))
    | inr other ↦ rw other (ground (arith, has-parts xs))
  ]

-- The chain of a class after a failed unmap: the slab's own blocks, then the others.
abbrev pub own_first : (Ptr → Ptr) → Ptr → List Ptr → List Ptr
own_first owner slab xs =
    reverse_onto (belonging owner slab xs) [] ++ reverse_onto (foreign owner slab xs) []

pub has-own_first :
    (owner : Ptr → Ptr) (slab a : Ptr) (xs : List Ptr) → has a (own_first owner slab xs) ≡ has a xs
has-own_first owner slab a xs = ground (
  arith,
  has-parts owner slab a xs,
  has-append a (reverse_onto (belonging owner slab xs) [])
      (reverse_onto (foreign owner slab xs) []),
  has-reverse_onto a (belonging owner slab xs) [],
  has-reverse_onto a (foreign owner slab xs) [],
)

pub foreign_within :
    (owner : Ptr → Ptr) (slab a : Ptr) (xs : List Ptr)
    → has a (reverse_onto (foreign owner slab xs) []) ≡ true
    → has a xs ≡ true
foreign_within owner slab a xs i =
    ground (arith, has-parts owner slab a xs, has-reverse_onto a (foreign owner slab xs) [])

pub parts-Disjoint :
    (owner : Ptr → Ptr) (slab : Ptr) (xs : List Ptr)
    → Disjoint (reverse_onto (belonging owner slab xs) []) (reverse_onto (foreign owner slab xs) [])
parts-Disjoint owner slab xs a i = elim (Bool-cases (has a (foreign owner slab xs))) [
  | inl there ↦
      let own =
        has-belonging owner slab a xs
          (ground (arith, has-reverse_onto a (belonging owner slab xs) [])) in
      let other = has-foreign owner slab a xs there in absurd (clash own other)
  | inr out ↦ ground (arith, has-reverse_onto a (foreign owner slab xs) [])
]
  where
    clash : (owner a == slab) ≡ true → (owner a == slab) ≡ false → ⊥
    clash yes_hit no_hit = cc

length-reverse_onto : (xs ys : List Ptr) → length (reverse_onto xs ys) ≡ length xs + length ys
length-reverse_onto [] ys = omega arith
length-reverse_onto (x ∷ xs) ys = omega (arith, length-reverse_onto xs (x ∷ ys))

length-belonging :
    (owner : Ptr → Ptr) (slab : Ptr) (xs : List Ptr) → length (belonging owner slab xs) ≤ length xs
length-belonging owner slab [] = omega arith
length-belonging owner slab (x ∷ xs) = ground (arith, length-belonging owner slab xs)

-- Only blocks have changed.
pub blocks_only : {xs : List Ptr} {h g : Heap} → OnlyLinks xs h g → g ≡ record h { block = g.block }
blocks_only {h} {g} l =
    λ i. record { block = g.block; slab = l.slabs i; byte = l.bytes i; mappings = l.maps i }

-- The parted chains are joined again, whatever the headers are by then.
pub rejoin :
    {h g : Heap} {owner : Ptr → Ptr} {slab : Ptr} {xs : List Ptr} {r q : Ptr} (fuel : ℕ)
    (headers : Ptr → Option Slab)
    → Parted h owner slab xs [] [] (r, q) g
    → length xs < fuel
    → Returns
        (λ j k.
          Chain k null j (own_first owner slab xs)
          × OnlyLinks xs h (record h { block = k.block })
          × (k ≡ record h { block = k.block; slab = headers }))
        (join_free_lists fuel r q (record h { block = g.block; slab = headers }))
rejoin {h} {g} {owner} {slab} {xs} fuel headers parted enough =
    let h' : Heap = record h { block = g.block; slab = headers } in
    let (j, k, run, (chain, links)) = outcome (
      join_free_lists-joins fuel {h = h'} (frame parted.removed (λ a i. refl))
        (frame parted.remaining (λ a i. refl)) (parts-Disjoint owner slab xs)
        (omega (
          arith,
          length-reverse_onto (belonging owner slab xs) [],
          length-belonging owner slab xs,
        ))) in
    rw run (
      returns (
        chain,
        record {
          outside = λ a o. links.outside a (own_out a o) ∙ parted.links.outside a o;
          inside = λ a b e.
              let (s, f) = parted.links.inside a b e in
              let (t, last) = links.inside a (record b { next_free = s }) f in (t, last);
          slabs = refl;
          bytes = refl;
          maps = refl;
        },
        blocks_only links,
      ))
  where
    own_out :
        (a : Ptr) → has a xs ≡ false → has a (reverse_onto (belonging owner slab xs) []) ≡ false
    own_out a o =
        ground (arith, has-reverse_onto a (belonging owner slab xs) [], has-parts owner slab a xs)
