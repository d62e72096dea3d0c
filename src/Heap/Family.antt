-- ===== src/Heap/Family.antt =====
-- A family of chains by class, pairwise without a common block: the shape of the transfer heads, of
-- a thread cache's heads and of the baseline's free lists.
use hplf_malloc.Prelude.{
  ℕ, ◌≡◌, ◌≢◌, refl, sym, subst, inl, inr, true, false, List, [], ◌∷◌, ◌++◌, arith, ◌==◌, take,
  drop, has, has-append, update, Bool-cases,
}
use hplf_malloc.Heap.{Ptr, null, Block, Heap, put_block}
use hplf_malloc.Heap.Chain.{
  Points, has-take, has-drop, uncons, frame-put, Chain, nil, append, relink, Disjoint, OnlyLinks,
  OnlyLinks-refl, OnlyLinks-put, frame-links, last_or, has-last_or,
}

pub record IsFamily (h : Heap) (heads : ℕ → Ptr) (lists : ℕ → List Ptr) : Type 0 where
  pub chains : (i : ℕ) → Chain h null (heads i) (lists i)
  pub apart : (i j : ℕ) → i ≢ j → Disjoint (lists i) (lists j)

pub Disjoint-symm : (xs ys : List Ptr) → Disjoint xs ys → Disjoint ys xs
Disjoint-symm xs ys apart a i = elim (Bool-cases (has a xs)) [
  | inl x ↦ ground (arith, apart a x)
  | inr o ↦ o
]

pub Disjoint-append :
    (xs ys zs : List Ptr) → Disjoint xs zs → Disjoint ys zs → Disjoint (xs ++ ys) zs
Disjoint-append xs ys zs p q a i = elim (Bool-cases (has a xs)) [
  | inl x ↦ p a x
  | inr o ↦ q a (ground (arith, has-append a xs ys))
]

pub Disjoint-take : (n : ℕ) (xs ys : List Ptr) → Disjoint xs ys → Disjoint (take n xs) ys
Disjoint-take n xs ys apart a i = elim (Bool-cases (has a xs)) [
  | inl x ↦ apart a x
  | inr o ↦ ground (arith, has-take n a xs)
]

pub Disjoint-drop : (n : ℕ) (xs ys : List Ptr) → Disjoint xs ys → Disjoint (drop n xs) ys
Disjoint-drop n xs ys apart a i = elim (Bool-cases (has a xs)) [
  | inl x ↦ apart a x
  | inr o ↦ ground (arith, has-drop n a xs)
]

module _ {h g : Heap} {heads : ℕ → Ptr} {lists : ℕ → List Ptr} where
  -- One chain is replaced, and the heap changes in links of blocks that no other chain holds.
  pub IsFamily-update :
      {p : Ptr} {xs zs : List Ptr} (i : ℕ)
      → IsFamily h heads lists
      → OnlyLinks xs h g
      → ((j : ℕ) → i ≢ j → Disjoint (lists j) xs)
      → Chain g null p zs
      → ((j : ℕ) → i ≢ j → Disjoint zs (lists j))
      → IsFamily g (update heads i p) (update lists i zs)
  IsFamily-update {p} {xs} {zs} i fam links clear new apart = record {
    chains = λ j. elim (Bool-cases (i == j)) [
      | inl here ↦ rw here new
      | inr away ↦ rw away (frame-links (fam.chains j) links (clear j (ground arith)))
    ];
    apart = λ j k ne a. elim (Bool-cases (i == j)) [
      | inl here ↦ ground (arith, apart k, apart k (ground arith) a)
      | inr away ↦ elim (Bool-cases (i == k)) [
        | inl there ↦ rw (away, there) (Disjoint-symm zs (lists j) (apart j (ground arith)) a)
        | inr off ↦ rw (away, off) (fam.apart j k ne a)
      ]
    ];
  }

-- A private chain is put in front of the chain of class `i` by one write to its last link.
pub prepend :
    {h : Heap} {heads : ℕ → Ptr} {lists : ℕ → List Ptr} {stop p x : Ptr} {xs : List Ptr} (i : ℕ)
    → IsFamily h heads lists
    → Chain h stop p (x ∷ xs)
    → ((j : ℕ) → Disjoint (x ∷ xs) (lists j))
    → (b : Block) × Points h (last_or x xs) b
      × IsFamily
          (put_block h (last_or x xs) (record b { next_free = heads i }))
          (update heads i p)
          (update lists i ((x ∷ xs) ++ lists i))
      × OnlyLinks (x ∷ xs) h (put_block h (last_or x xs) (record b { next_free = heads i }))
prepend {lists} {x} {xs} i fam c apart =
    let (b, ends, at, turned) = relink x xs _ c in
    let links = OnlyLinks-put (x ∷ xs) _ at (has-last_or x xs) in
    let back = frame-links (fam.chains i) links (Disjoint-symm (x ∷ xs) (lists i) (apart i)) in
    (
      b,
      at,
      IsFamily-update i fam links (λ j ne. Disjoint-symm (x ∷ xs) (lists j) (apart j))
          (append turned back (apart i))
          (λ j ne. Disjoint-append (x ∷ xs) (lists i) (lists j) (apart j) (fam.apart i j ne)),
      links,
    )

-- The chain of class `i` is taken away.
pub remove_chain :
    {h : Heap} {heads : ℕ → Ptr} {lists : ℕ → List Ptr} (i : ℕ)
    → IsFamily h heads lists
    → IsFamily h (update heads i null) (update lists i [])
remove_chain {h} i fam =
    IsFamily-update i fam (OnlyLinks-refl [] h) (λ j ne a o. refl) (nil refl) (λ j ne a o. cc)

-- The first block of class `i` is taken off and its link is cleared.
pub behead :
    {h : Heap} {heads : ℕ → Ptr} {lists : ℕ → List Ptr} {x : Ptr} {xs : List Ptr} (i : ℕ)
    → IsFamily h heads lists
    → lists i ≡ x ∷ xs
    → (b : Block) × (heads i ≡ x)
      × Points h x b
      × IsFamily
          (put_block h x (record b { next_free = null }))
          (update heads i b.next_free)
          (update lists i xs)
      × OnlyLinks (x ∷ []) h (put_block h x (record b { next_free = null }))
behead {h} {heads} {lists} {x} {xs} i fam e =
    let (b, first, fresh, at, rest) =
      uncons (subst (λ t. Chain h null (heads i) t) e (fam.chains i)) in
    let links = OnlyLinks-put (x ∷ []) null at (ground arith) in
    (
      b,
      first,
      at,
      IsFamily-update i fam links
          (λ j ne. Disjoint-symm (x ∷ []) (lists j) (λ a hit. all j ne a (front a hit)))
          (frame-put x _ rest fresh) (λ j ne a hit. all j ne a (back a hit)),
      links,
    )
  where
    all : (j : ℕ) → i ≢ j → (a : Ptr) → has a (x ∷ xs) ≡ true → has a (lists j) ≡ false
    all j ne a hit = fam.apart i j ne a (subst (λ t. has a t ≡ true) (sym e) hit)

    front : (a : Ptr) → has a (x ∷ []) ≡ true → has a (x ∷ xs) ≡ true
    front a hit = ground arith

    back : (a : Ptr) → has a xs ≡ true → has a (x ∷ xs) ≡ true
    back a hit = ground arith

-- Links of blocks that the family does not hold may change.
pub IsFamily-links :
    {h g : Heap} {heads : ℕ → Ptr} {lists : ℕ → List Ptr} {xs : List Ptr}
    → IsFamily h heads lists
    → OnlyLinks xs h g
    → ((j : ℕ) → Disjoint (lists j) xs)
    → IsFamily g heads lists
IsFamily-links fam links clear = record {
  chains = λ i. frame-links (fam.chains i) links (clear i);
  apart = fam.apart;
}
