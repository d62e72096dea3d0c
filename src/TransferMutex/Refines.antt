-- ===== src/TransferMutex/Refines.antt =====
-- The shared heads against their specification: a stack of blocks for each class.
use hplf_malloc.Prelude.{
  ℕ, ◌≤◌, ◌<◌, ◌≡◌, refl, true, List, [], ◌∷◌, ◌++◌, arith, ◌==◌, length, update, update_self,
}
use hplf_malloc.CheckedMath.{size_max}
use hplf_malloc.Heap.{Ptr, null, Heap}
use hplf_malloc.Heap.Chain.{
  first_live, nil-eq, set_next_free-ok, Disjoint, OnlyLinks, OnlyLinks-refl,
}
use hplf_malloc.Heap.Family.{IsFamily, prepend, remove_chain}
use hplf_malloc.Heap.Returns.{Returns, returns}
use hplf_malloc.TransferList.{TransferList, cleared}
use hplf_malloc.TransferList.Prefix.{Owns, from_chain-Owns}
use hplf_malloc.TransferMutex.{Heads, publish, detach}

-- The state after a push of the blocks `xs` on class `i`.
pub record Published (h : Heap) (heads : Heads) (lists : ℕ → List Ptr) (i : ℕ) (xs : List Ptr)
    (r : TransferList × Heads) (g : Heap) : Type 0 where
  pub empty : r.0 ≡ cleared
  pub family : IsFamily g r.1 (update lists i (xs ++ lists i))
  pub links : OnlyLinks xs h g

module _ {h : Heap} {heads : Heads} {lists : ℕ → List Ptr} where
  publish-nil :
      {list : TransferList} (i : ℕ)
      → IsFamily h heads lists
      → Owns h list []
      → Returns (Published h heads lists i []) (publish i list heads h)
  unfolding publish
  publish-nil {list} i fam owns =
      let no_first : list.first ≡ null = nil-eq owns.chain in
      let test : (list.first == null) ≡ true = ground arith in
      rw test (
        returns (record {
          empty = ground (arith, owns.last, owns.count);
          family = rw (update_self lists i) fam;
          links = OnlyLinks-refl [] h;
        }))

  publish-cons :
      {list : TransferList} {x : Ptr} {xs : List Ptr} (i : ℕ)
      → IsFamily h heads lists
      → Owns h list (x ∷ xs)
      → ((j : ℕ) → Disjoint (x ∷ xs) (lists j))
      → Returns (Published h heads lists i (x ∷ xs)) (publish i list heads h)
  unfolding publish
  publish-cons i fam owns apart =
      let (b, at, family, links) = prepend i fam owns.chain apart in
      rw (first_live owns.chain, owns.last, set_next_free-ok at (heads i))
        (returns (record { empty = refl; family = family; links = links }))

  -- Where the heads hold disjoint chains, publishing a list of blocks that are in none of them on
  -- class `i` pushes its blocks, in order, in front of that class's blocks: the other classes keep
  -- theirs, the caller's descriptor is cleared, and only links of published blocks change.
  pub publish-Published :
      {list : TransferList} {xs : List Ptr} (i : ℕ)
      → IsFamily h heads lists
      → Owns h list xs
      → ((j : ℕ) → Disjoint xs (lists j))
      → Returns (Published h heads lists i xs) (publish i list heads h)
  publish-Published {xs = []} i fam owns apart = publish-nil i fam owns
  publish-Published {xs = x ∷ xs} i fam owns apart = publish-cons i fam owns apart

  -- Where the heads hold disjoint chains, detaching class `i` hands over all its blocks, in order,
  -- and leaves that class empty and the others as they were; memory does not change. The chain's
  -- length fits a size_t and is below the fuel.
  pub detach-Owns :
      (fuel i : ℕ)
      → IsFamily h heads lists
      → length (lists i) < fuel
      → length (lists i) ≤ size_max
      → Returns
          (λ r g. Owns g r.0 (lists i) × IsFamily g r.1 (update lists i []) × (g ≡ h))
          (detach fuel i heads h)
  unfolding detach
  detach-Owns fuel i fam enough small =
      let (list, run, owns, first) = from_chain-Owns fuel (fam.chains i) enough small in
      rw run (returns (owns, remove_chain i fam, refl))
