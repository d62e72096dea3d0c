-- ===== src/TransferAtomic/Invariant.antt =====
-- The blocks of a system of threads: what each step does to them, and that it never fails.
use hplf_malloc.Prelude.{
  ℕ, ◌≡◌, ◌≢◌, refl, sym, subst, Bool-cases, inl, inr, List, [], ◌++◌, arith, ◌==◌, update,
  update_self,
}
use hplf_malloc.Heap.{Ptr, null, Heap}
use hplf_malloc.Heap.Chain.{Chain, nil, Disjoint, OnlyLinks, OnlyLinks-refl, append}
use hplf_malloc.Heap.Family.{
  IsFamily, IsFamily-update, IsFamily-links, Disjoint-symm, Disjoint-append, remove_chain,
}
use hplf_malloc.TransferList.{TransferList, cleared}
use hplf_malloc.TransferAtomic.{Shared, Pc, holding, counting, System}
use hplf_malloc.TransferAtomic.Ownership.{Leaving, Owned, at_rest, taken, Owned-links}

-- The specification: a list of blocks for each class, and one for each thread.
pub record Blocks : Type 0 where
  pub shared : ℕ → List Ptr
  pub private : ℕ → List Ptr

-- What a step of thread `t` does to them: nothing, a push of all its blocks on one class, or the
-- removal of all the blocks of a class.
pub data Act (b : Blocks) (t : ℕ) : Blocks → Type 0 where
  stay : Act b t b
  push :
      (i : ℕ)
      → Act b t (record {
        shared = update b.shared i (b.private t ++ b.shared i);
        private = update b.private t [];
      })
  pop :
      (i : ℕ)
      → b.private t ≡ []
      → Act b t
          (record { shared = update b.shared i []; private = update b.private t (b.shared i) })

-- Every block is in one place, and memory holds the lists.
pub record Inv (s : System) (b : Blocks) : Type 0 where
  pub family : IsFamily s.memory.heap s.memory.heads b.shared
  pub owned : (t : ℕ) → Owned s.memory.heap (s.pc t) (b.private t)
  pub apart : (t i : ℕ) → Disjoint (b.private t) (b.shared i)
  pub threads : (t u : ℕ) → t ≢ u → Disjoint (b.private t) (b.private u)

pub record Next (s : System) (b : Blocks) (t : ℕ) (p : Pc) (m : Shared) : Type 0 where
  pub blocks : Blocks
  pub act : Act b t blocks
  pub inv : Inv (record { memory = m; pc = update s.pc t p }) blocks

module _ {s : System} {b : Blocks} (inv : Inv s b) (t : ℕ) where
  -- The invariant after a step that gives the thread the blocks `ys` and changes links of `zs` alone.
  rebuild :
      {p : Pc} {m : Shared} {zs : List Ptr} (ys : List Ptr) (shared' : ℕ → List Ptr)
      → IsFamily m.heap m.heads shared'
      → Owned m.heap p ys
      → OnlyLinks zs s.memory.heap m.heap
      → ((u : ℕ) → t ≢ u → Disjoint (b.private u) zs)
      → ((u i : ℕ) → t ≢ u → Disjoint (b.private u) (shared' i))
      → ((i : ℕ) → Disjoint ys (shared' i))
      → ((u : ℕ) → t ≢ u → Disjoint ys (b.private u))
      → Inv
          (record { memory = m; pc = update s.pc t p })
          (record { shared = shared'; private = update b.private t ys })
  rebuild ys shared' fam own links clear others mine between = record {
    family = fam;
    owned = λ u. elim (Bool-cases (t == u)) [
      | inl here ↦ rw here own
      | inr away ↦ rw away (Owned-links (inv.owned u) links (clear u (ground arith)))
    ];
    apart = λ u i. elim (Bool-cases (t == u)) [
      | inl here ↦ rw here (mine i)
      | inr away ↦ rw away (others u i (ground arith))
    ];
    threads = λ u v ne. elim (Bool-cases (t == u)) [
      | inl here ↦ elim (Bool-cases (t == v)) [
        | inl there ↦ absurd (ne (ground arith))
        | inr off ↦ rw (here, off) (between v (ground arith))
      ]
      | inr away ↦ elim (Bool-cases (t == v)) [
        | inl there ↦ rw (away, there) (Disjoint-symm ys (b.private u) (between u (ground arith)))
        | inr off ↦ rw (away, off) (inv.threads u v ne)
      ]
    ];
  }

  -- The thread moves and its blocks stay.
  pub quiet :
      {p : Pc} {h : Heap}
      → Owned h p (b.private t)
      → OnlyLinks (b.private t) s.memory.heap h
      → Next s b t p (record s.memory { heap = h })
  quiet {p} {h} own links = record {
    blocks = b;
    act = stay;
    inv =
        subst
          (λ f.
            Inv (record { memory = record s.memory { heap = h }; pc = update s.pc t p })
              (record { shared = b.shared; private = f }))
          (update_self b.private t)
          (rebuild (b.private t) b.shared
            (IsFamily-links inv.family links
              (λ i. Disjoint-symm (b.private t) (b.shared i) (inv.apart t i)))
            own links (λ u ne. inv.threads u t (λ e. ne (sym e))) (λ u i ne. inv.apart u i)
            (inv.apart t) (inv.threads t));
  }

  pub still : {p : Pc} → Owned s.memory.heap p (b.private t) → Next s b t p s.memory
  still own = quiet own (OnlyLinks-refl (b.private t) s.memory.heap)

  -- A compare-exchange succeeds: the published chain ends at the head that it replaces.
  pub pushed :
      {observed : Ptr} {list : TransferList} (i : ℕ)
      → Leaving s.memory.heap observed list (b.private t)
      → s.memory.heads i ≡ observed
      → Next s b t
          (holding cleared)
          (record s.memory { heads = update s.memory.heads i list.first })
  pushed {observed} {list} i leaving e =
      let xs = b.private t in
      let front = subst (λ q. Chain s.memory.heap q list.first xs) (sym e) leaving.chain in
      let new = append front (inv.family.chains i) (inv.apart t i) in
      record {
        blocks = record {
          shared = update b.shared i (xs ++ b.shared i);
          private = update b.private t [];
        };
        act = push i;
        inv =
            rebuild [] (update b.shared i (xs ++ b.shared i))
              (IsFamily-update i inv.family (OnlyLinks-refl [] s.memory.heap) (λ j ne a o. refl) new
                (λ j ne.
                  Disjoint-append xs (b.shared i) (b.shared j) (inv.apart t j)
                    (inv.family.apart i j ne)))
              (at_rest (record { chain = nil refl; last = refl; count = refl }))
              (OnlyLinks-refl [] s.memory.heap) (λ u ne a o. refl)
              (λ u j ne. elim (Bool-cases (i == j)) [
                | inl here ↦ rw here (
                    Disjoint-symm (xs ++ b.shared i) (b.private u) (
                      Disjoint-append xs (b.shared i) (b.private u) (inv.threads t u ne)
                        (Disjoint-symm (b.private u) (b.shared i) (inv.apart u i))))
                | inr away ↦ rw away (inv.apart u j)
              ])
              (λ j a o. cc) (λ u ne a o. cc);
      }

  -- An exchange: the whole chain of the class changes hands.
  pub popped :
      (i : ℕ)
      → b.private t ≡ []
      → Next s b t
          (counting (s.memory.heads i) (s.memory.heads i) null 0)
          (record s.memory { heads = update s.memory.heads i null })
  popped i none_held = record {
    blocks = record { shared = update b.shared i []; private = update b.private t (b.shared i) };
    act = pop i none_held;
    inv =
        rebuild (b.shared i) (update b.shared i []) (remove_chain i inv.family)
          (taken {done = 0} (record {
            chain = inv.family.chains i;
            rest = inv.family.chains i;
            seen = refl;
            within = omega arith;
            counted = refl;
          }))
          (OnlyLinks-refl [] s.memory.heap) (λ u ne a o. refl)
          (λ u j ne. elim (Bool-cases (i == j)) [
            | inl here ↦ rw here (λ a o. refl)
            | inr away ↦ rw away (inv.apart u j)
          ])
          (λ j. elim (Bool-cases (i == j)) [
            | inl here ↦ rw here (λ a o. refl)
            | inr away ↦ rw away (inv.family.apart i j (ground arith))
          ])
          (λ u ne. Disjoint-symm (b.private u) (b.shared i) (inv.apart u i));
  }
