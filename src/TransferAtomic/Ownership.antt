-- ===== src/TransferAtomic/Ownership.antt =====
-- Which blocks a thread owns alone, by where it stands, and which are shared.
use hplf_malloc.Prelude.{ℕ, ◌≤◌, ◌<◌, ◌≡◌, List, length, take, drop}
use hplf_malloc.CheckedMath.{wrap}
use hplf_malloc.Heap.{Ptr, null, Heap}
use hplf_malloc.Heap.Chain.{Chain, Disjoint, OnlyLinks, last_or, frame-links}
use hplf_malloc.Heap.Family.{Disjoint-drop}
use hplf_malloc.TransferList.{TransferList}
use hplf_malloc.TransferAtomic.{Pc, holding, observing, linked, counting}

-- The blocks `xs` of a descriptor between two calls; the count is a size_t.
pub record Held (h : Heap) (list : TransferList) (xs : List Ptr) : Type 0 where
  pub chain : Chain h null list.first xs
  pub last : list.last ≡ last_or null xs
  pub count : list.count ≡ wrap (length xs)

-- The blocks of a list that is being published: the chain ends at `stop`.
pub record Leaving (h : Heap) (stop : Ptr) (list : TransferList) (xs : List Ptr) : Type 0 where
  pub chain : Chain h stop list.first xs
  pub last : list.last ≡ last_or null xs
  pub some_block : 0 < length xs

-- The blocks of a detached chain, `done` of which are counted.
pub record Counted (h : Heap) (first block last : Ptr) (count done : ℕ) (xs : List Ptr)
    : Type 0 where
  pub chain : Chain h null first xs
  pub rest : Chain h null block (drop done xs)
  pub seen : last ≡ last_or null (take done xs)
  pub within : done ≤ length xs
  pub counted : count ≡ wrap done

-- The blocks that a thread owns where it stands.
pub data Owned (h : Heap) : Pc → List Ptr → Type 0 where
  at_rest : {list : TransferList} {xs : List Ptr} → Held h list xs → Owned h (holding list) xs
  stale :
      {i : ℕ} {list : TransferList} {observed stop : Ptr} {xs : List Ptr}
      → Leaving h stop list xs
      → Owned h (observing i list observed) xs
  ready :
      {i : ℕ} {list : TransferList} {observed : Ptr} {xs : List Ptr}
      → Leaving h observed list xs
      → Owned h (linked i list observed) xs
  taken :
      {first block last : Ptr} {count done : ℕ} {xs : List Ptr}
      → Counted h first block last count done xs
      → Owned h (counting first block last count) xs

-- Blocks of others may change.
pub Owned-links :
    {h g : Heap} {p : Pc} {xs ys : List Ptr}
    → Owned h p xs
    → OnlyLinks ys h g
    → Disjoint xs ys
    → Owned g p xs
Owned-links (at_rest o) links apart =
    at_rest (record { chain = frame-links o.chain links apart; last = o.last; count = o.count })
Owned-links (stale o) links apart =
    stale
      (record { chain = frame-links o.chain links apart; last = o.last; some_block = o.some_block })
Owned-links (ready o) links apart =
    ready
      (record { chain = frame-links o.chain links apart; last = o.last; some_block = o.some_block })
Owned-links {xs} {ys} (taken {done} o) links apart = taken (record {
  chain = frame-links o.chain links apart;
  rest = frame-links o.rest links (Disjoint-drop done xs ys apart);
  seen = o.seen;
  within = o.within;
  counted = o.counted;
})
