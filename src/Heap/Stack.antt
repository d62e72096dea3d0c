-- ===== src/Heap/Stack.antt =====
-- One block leaves or joins a family, rewritten as a whole.
use hplf_malloc.Prelude.{
  ℕ, ◌≡◌, ◌≢◌, refl, sym, subst, true, false, Bool-cases, inl, inr, List, ◌∷◌, arith, ◌==◌, has,
  update,
}
use hplf_malloc.Heap.{Ptr, null, Block, Heap, put_block}
use hplf_malloc.Heap.Chain.{Points, Chain, cons, Disjoint, frame-put, uncons}
use hplf_malloc.Heap.Family.{IsFamily, Disjoint-symm}

-- The lists of a family, one of them replaced.
IsFamily-replace :
    {h g : Heap} {heads : ℕ → Ptr} {lists : ℕ → List Ptr} {p : Ptr} {zs : List Ptr} (i : ℕ)
    → IsFamily h heads lists
    → ((j : ℕ) → i ≢ j → Chain g null (heads j) (lists j))
    → Chain g null p zs
    → ((j : ℕ) → i ≢ j → Disjoint zs (lists j))
    → IsFamily g (update heads i p) (update lists i zs)
IsFamily-replace {lists} {zs} i fam kept new apart = record {
  chains = λ j. elim (Bool-cases (i == j)) [
    | inl here ↦ rw here new
    | inr away ↦ rw away (kept j (ground arith))
  ];
  apart = λ j k ne a. elim (Bool-cases (i == j)) [
    | inl here ↦ elim (Bool-cases (i == k)) [
      | inl there ↦ absurd (ne (ground arith))
      | inr off ↦ rw (here, off) (apart k (ground arith) a)
    ]
    | inr away ↦ elim (Bool-cases (i == k)) [
      | inl there ↦ rw (away, there) (Disjoint-symm zs (lists j) (apart j (ground arith)) a)
      | inr off ↦ rw (away, off) (fam.apart j k ne a)
    ]
  ];
}

-- The first block of class `i` leaves, whatever is written to it.
pub IsFamily-pop :
    {h : Heap} {heads : ℕ → Ptr} {lists : ℕ → List Ptr} {x : Ptr} {xs : List Ptr} (i : ℕ)
    → IsFamily h heads lists
    → lists i ≡ x ∷ xs
    → (b : Block) × (heads i ≡ x)
      × Points h x b
      × (has x xs ≡ false)
      × ((c : Block) → IsFamily (put_block h x c) (update heads i b.next_free) (update lists i xs))
IsFamily-pop {h} {heads} {lists} {x} {xs} i fam e =
    let (b, first, fresh, at, rest) =
      uncons (subst (λ t. Chain h null (heads i) t) e (fam.chains i)) in
    (
      b,
      first,
      at,
      fresh,
      λ c.
          IsFamily-replace i fam
            (λ j ne.
              frame-put x c (fam.chains j)
                (fam.apart i j ne x (subst (λ t. has x t ≡ true) (sym e) (ground arith))))
            (frame-put x c rest fresh)
            (λ j ne a hit. fam.apart i j ne a (subst (λ t. has a t ≡ true) (sym e) (ground arith))),
    )

-- A block that no list holds joins class `i` in front, with the link to the head before.
pub IsFamily-push :
    {h : Heap} {heads : ℕ → Ptr} {lists : ℕ → List Ptr} (i : ℕ) (x : Ptr) (c : Block)
    → IsFamily h heads lists
    → x ≢ null
    → ((j : ℕ) → has x (lists j) ≡ false)
    → c.next_free ≡ heads i
    → IsFamily (put_block h x c) (update heads i x) (update lists i (x ∷ lists i))
IsFamily-push {h} {heads} {lists} i x c fam live out link =
    IsFamily-replace i fam (λ j ne. frame-put x c (fam.chains j) (out j))
      (cons {b = c} refl (out i) (record { ne_null = live; holds = ground arith })
        (subst (λ q. Chain (put_block h x c) null q (lists i)) (sym link)
          (frame-put x c (fam.chains i) (out i))))
      (λ j ne a hit. elim (Bool-cases (x == a)) [
        | inl same ↦
            let at : x ≡ a = ground arith in subst (λ t. has t (lists j) ≡ false) at (out j)
        | inr other ↦ fam.apart i j ne a (ground arith)
      ])
