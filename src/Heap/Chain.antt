-- ===== src/Heap/Chain.antt =====
-- Intrusive lists: what a chain of `next_free` links stands for, and how it changes with the heap.
use hplf_malloc.Prelude.{
  ℕ, zero, suc, ◌<◌, ◌≡◌, ◌≢◌, refl, subst, ◌∙◌, inl, inr, Bool-cases, true, false, some, List, [],
  ◌∷◌, ◌++◌, arith, ◌==◌, length, take, drop, has, has-append,
}
use hplf_malloc.Heap.{Ptr, null, Block, Heap, ok, put_block, load_block, store_block, set_next_free}

-- A live block at `p`.
pub record Points (h : Heap) (p : Ptr) (b : Block) : Type 0 where
  pub ne_null : p ≢ null
  pub holds : h.block p ≡ some b

-- From `p` the links lead through the distinct blocks `xs` to `stop`.
pub data Chain (h : Heap) (stop : Ptr) : Ptr → List Ptr → Type 0 where
  nil : {p : Ptr} → p ≡ stop → Chain h stop p []
  cons :
      {p x : Ptr} {xs : List Ptr} {b : Block}
      → p ≡ x
      → has x xs ≡ false
      → Points h x b
      → Chain h stop b.next_free xs
      → Chain h stop p (x ∷ xs)

abbrev pub Disjoint : List Ptr → List Ptr → Type 0
Disjoint xs ys = (a : Ptr) → has a xs ≡ true → has a ys ≡ false

-- `g` differs from `h` at most in the `next_free` fields of the blocks of `xs`.
pub record OnlyLinks (xs : List Ptr) (h g : Heap) : Type 0 where
  pub outside : (a : Ptr) → has a xs ≡ false → g.block a ≡ h.block a
  pub inside :
      (a : Ptr) (b : Block)
      → h.block a ≡ some b
      → (q : Ptr) × (g.block a ≡ some (record b { next_free = q }))
  pub slabs : g.slab ≡ h.slab
  pub bytes : g.byte ≡ h.byte
  pub maps : g.mappings ≡ h.mappings

has-differ : (a q : Ptr) (xs : List Ptr) → has q xs ≡ true → has a xs ≡ false → (a == q) ≡ false
has-differ a q [] i o = cc
has-differ a q (x ∷ xs) i o = ground (arith, has-differ a q xs)

pub has-take : (n : ℕ) (a : Ptr) (zs : List Ptr) → has a zs ≡ false → has a (take n zs) ≡ false
has-take zero a zs o = refl
has-take (suc n) a [] o = refl
has-take (suc n) a (z ∷ zs) o = ground (arith, has-take n a zs)

pub has-drop : (n : ℕ) (a : Ptr) (zs : List Ptr) → has a zs ≡ false → has a (drop n zs) ≡ false
has-drop zero a zs o = o
has-drop (suc n) a [] o = refl
has-drop (suc n) a (z ∷ zs) o = has-drop n a zs (ground arith)

-- The last address of a nonempty list, given by its head and tail.
abbrev pub last_or : Ptr → List Ptr → Ptr
last_or x [] = x
last_or x (y ∷ ys) = last_or y ys

pub has-last_or : (x : Ptr) (xs : List Ptr) → has (last_or x xs) (x ∷ xs) ≡ true
has-last_or x [] = ground arith
has-last_or x (y ∷ ys) = ground (arith, has-last_or y ys)

module _ {h : Heap} {p : Ptr} {b : Block} (e : Points h p b) where
  open e use {ne_null, holds}

  pub not_null : (p == null) ≡ false
  not_null = ground arith

  pub load_block-ok : load_block p h ≡ ok b h
  unfolding load_block
  load_block-ok = rw (not_null, holds)

  pub store_block-ok : (c : Block) → store_block p c h ≡ ok tt (put_block h p c)
  unfolding store_block
  store_block-ok c = rw load_block-ok

  pub set_next_free-ok :
      (q : Ptr) → set_next_free p q h ≡ ok tt (put_block h p (record b { next_free = q }))
  unfolding set_next_free
  set_next_free-ok q = rw load_block-ok (store_block-ok (record b { next_free = q }))

  pub Points-put : (c : Block) → Points (put_block h p c) p c
  Points-put c = record { ne_null = ne_null; holds = ground arith }

module _ {h : Heap} {stop : Ptr} where
  -- A chain survives any change that spares its own blocks.
  pub frame :
      {g : Heap} {p : Ptr} {xs : List Ptr}
      → Chain h stop p xs
      → ((a : Ptr) → has a xs ≡ true → g.block a ≡ h.block a)
      → Chain g stop p xs
  frame (nil e) same = nil e
  frame (cons {x} e fresh at rest) same =
      cons e fresh (record { ne_null = at.ne_null; holds = same x (ground arith) ∙ at.holds })
        (frame rest λ a i. same a (ground arith))

  pub frame-put :
      {p : Ptr} {xs : List Ptr} (a : Ptr) (c : Block)
      → Chain h stop p xs
      → has a xs ≡ false
      → Chain (put_block h a c) stop p xs
  frame-put {xs} a c ch out = frame ch (λ q i. ground (arith, has-differ a q xs))

  pub append :
      {end p : Ptr} {xs ys : List Ptr}
      → Chain h stop p xs
      → Chain h end stop ys
      → Disjoint xs ys
      → Chain h end p (xs ++ ys)
  append (nil e) d apart = rw e d
  append {ys} (cons {x} {xs} e fresh at rest) d apart =
      cons e (rw (has-append x xs ys, fresh) (apart x (ground arith))) at
        (append rest d λ a i. apart a (ground arith))

  -- The chain cut before a number of blocks.
  pub split :
      {p : Ptr} {xs : List Ptr} (n : ℕ)
      → Chain h stop p xs
      → (q : Ptr) × Chain h q p (take n xs) × Chain h stop q (drop n xs)
  split {p} zero c = (p, nil refl, c)
  split {p} (suc n) (nil e) = (p, nil refl, nil e)
  split (suc n) (cons {x} {xs} e fresh at rest) =
      let (q, front, back) = split n rest in (q, cons e (has-take n x xs fresh) at front, back)

  -- Redirecting the last link: the chain then ends at `q`.
  pub relink :
      {p : Ptr} (x : Ptr) (xs : List Ptr) (q : Ptr)
      → Chain h stop p (x ∷ xs)
      → (b : Block) × (b.next_free ≡ stop)
        × Points h (last_or x xs) b
        × Chain (put_block h (last_or x xs) (record b { next_free = q })) q p (x ∷ xs)
  relink x [] q (cons {b} e fresh at (nil stopped)) =
      (b, stopped, at, cons {b = record b { next_free = q }} e fresh (Points-put at _) (nil refl))
  relink x (y ∷ ys) q (cons {b} e fresh at rest) =
      let (c, stopped, last, turned) = relink y ys q rest in
      let apart = has-differ x (last_or y ys) (y ∷ ys) (has-last_or y ys) fresh in
      (
        c,
        stopped,
        last,
        cons {b = b} e fresh (record { ne_null = at.ne_null; holds = ground (arith, at.holds) })
            turned,
      )

-- The first block of a chain is its head, and only an empty chain starts at its end.
pub head-eq : {h : Heap} {stop p x : Ptr} {xs : List Ptr} → Chain h stop p (x ∷ xs) → p ≡ x
head-eq (cons e fresh at rest) = e

pub uncons :
    {h : Heap} {stop p x : Ptr} {xs : List Ptr}
    → Chain h stop p (x ∷ xs)
    → (b : Block) × (p ≡ x) × (has x xs ≡ false) × Points h x b × Chain h stop b.next_free xs
uncons (cons {b} e fresh at rest) = (b, e, fresh, at, rest)

pub single-Disjoint : (x : Ptr) (ys : List Ptr) → has x ys ≡ false → Disjoint (x ∷ []) ys
single-Disjoint x ys out a i =
    let same : x ≡ a = ground arith in subst (λ t. has t ys ≡ false) same out

pub nil-eq : {h : Heap} {stop p : Ptr} → Chain h stop p [] → p ≡ stop
nil-eq (nil e) = e

pub first_live :
    {h : Heap} {stop p x : Ptr} {xs : List Ptr} → Chain h stop p (x ∷ xs) → (p == null) ≡ false
first_live (cons e fresh at rest) = rw e (not_null at)

pub length-pos_of_ne :
    {h : Heap} {p : Ptr} {xs : List Ptr} → Chain h null p xs → p ≢ null → 0 < length xs
length-pos_of_ne (nil e) ne = absurd (ne e)
length-pos_of_ne (cons e fresh at rest) ne = omega arith

-- The blocks before the cut are not among those behind it.
pub split-Disjoint :
    {h : Heap} {stop p : Ptr} {xs : List Ptr} (n : ℕ)
    → Chain h stop p xs
    → Disjoint (take n xs) (drop n xs)
split-Disjoint zero c a i = cc
split-Disjoint (suc n) (nil e) a i = cc
split-Disjoint (suc n) (cons {x} {xs} e fresh at rest) a i =
    ground (arith, split-Disjoint n rest a, has-drop n x xs)

pub OnlyLinks-refl : (xs : List Ptr) (h : Heap) → OnlyLinks xs h h
OnlyLinks-refl xs h = record {
  outside = λ a o. refl;
  inside = λ a b e. (b.next_free, e);
  slabs = refl;
  bytes = refl;
  maps = refl;
}

-- A write to the link of one block of `xs`.
pub OnlyLinks-put :
    {h : Heap} {p : Ptr} {b : Block} (xs : List Ptr) (q : Ptr)
    → Points h p b
    → has p xs ≡ true
    → OnlyLinks xs h (put_block h p (record b { next_free = q }))
OnlyLinks-put {h} {p} {b} xs q at i = record {
  outside = λ a o. ground (arith, has-differ a p xs);
  inside = λ a c e. elim (Bool-cases (p == a)) [
    | inl hit ↦ (q, ground (arith, at.holds))
    | inr miss ↦ (c.next_free, ground arith)
  ];
  slabs = refl;
  bytes = refl;
  maps = refl;
}

pub OnlyLinks-trans :
    {xs : List Ptr} {h g k : Heap} → OnlyLinks xs h g → OnlyLinks xs g k → OnlyLinks xs h k
OnlyLinks-trans {k} l m = record {
  outside = λ a o. m.outside a o ∙ l.outside a o;
  inside = λ a b e.
      let (q, f) = l.inside a b e in
      let (r, last) = m.inside a (record b { next_free = q }) f in (r, last);
  slabs = m.slabs ∙ l.slabs;
  bytes = m.bytes ∙ l.bytes;
  maps = m.maps ∙ l.maps;
}

-- The same with more blocks allowed to change.
pub OnlyLinks-mono :
    {xs : List Ptr} {h g : Heap} (ys : List Ptr)
    → ((a : Ptr) → has a ys ≡ false → has a xs ≡ false)
    → OnlyLinks xs h g
    → OnlyLinks ys h g
OnlyLinks-mono ys sub l = record {
  outside = λ a o. l.outside a (sub a o);
  inside = l.inside;
  slabs = l.slabs;
  bytes = l.bytes;
  maps = l.maps;
}

-- A chain of other blocks is kept.
pub frame-links :
    {h g : Heap} {stop p : Ptr} {xs ys : List Ptr}
    → Chain h stop p ys
    → OnlyLinks xs h g
    → Disjoint ys xs
    → Chain g stop p ys
frame-links c l apart = frame c λ a i. l.outside a (apart a i)
