-- ===== src/Samples/Pools.antt =====
-- The theorems on small requests of the baseline build, with 17 free blocks in class 15.
use hplf_malloc.Prelude.{
  ℕ, zero, suc, Bool, ◌&&◌, ltb, get_or, ◌<◌, ◌-◌, ◌≡◌, ◌≢◌, ◌≤◌, refl, subst, true, false,
  Bool-cases, inl, inr, List, [], ◌∷◌, arith, ◌==◌, has, update, leb, if◌then◌else◌,
}
use hplf_malloc.SizeClass.{capacities}
use hplf_malloc.SizeClass.Fit.{IsFirstFit, capacity_at}
use hplf_malloc.Heap.{Ptr, null, ◌>>=◌}
use hplf_malloc.Heap.Returns.{Returns}
use hplf_malloc.World.{World}
use hplf_malloc.Allocator.{malloc, free}
use hplf_malloc.Allocator.Baseline.{baseline, find_block}
use hplf_malloc.Allocator.Baseline.Pool.{IsSmall, IsPool}
use hplf_malloc.Allocator.Baseline.Small.{OnlyBlock}
use hplf_malloc.Allocator.Baseline.Grow.{Grown, find_block-Grown}
use hplf_malloc.Heap.Chain.{nil}
use hplf_malloc.Allocator.Baseline.Free.{Freed, free-Freed}
use hplf_malloc.Allocator.Baseline.Requests.{Served, malloc-Served, malloc-free_restores}
use hplf_malloc.Samples.Layouts.{platform, world, layout, grants_slab}
use hplf_malloc.Samples.Threads.{down_le}
use hplf_malloc.Samples.{memory, start, down, sample_block, sample_slab, sample-IsFamily}

abbrev with_pool : World
with_pool = record world { heap = memory; free_lists = update (λ j. null) 15 (start 0 17) }

abbrev pool_lists : ℕ → List Ptr
pool_lists = update (λ j. []) 15 (down 0 17)

block_of_15 : (a : ℕ) → a ≢ null → a ≤ 1000 → IsSmall memory 15 a
unfolding capacity_at
block_of_15 a live room = record {
  block = sample_block (if leb a 24 then null else a - 16);
  at = refl;
  kind = refl;
  capacity = refl;
  slab = 7;
  owner = refl;
  live = omega arith;
  header = sample_slab;
  there = refl;
  class_index = refl;
  some_address = live;
  room = omega arith;
}

down_live : (n a : ℕ) → has a (down 0 n) ≡ true → a ≢ null
down_live zero a hit = cc
down_live (suc n) a hit = ground (arith, down_live n a)

members : (i a : ℕ) → has a (pool_lists i) ≡ true → IsSmall memory i a
members i a hit = elim (Bool-cases (15 == i)) [
  | inl here ↦
      let same : 15 ≡ i = ground arith in
      let mine : has a (down 0 17) ≡ true = rw here at hit in
      subst (λ k. IsSmall memory k a) same
        (block_of_15 a (down_live 17 a mine) (omega (arith, down_le 17 a mine)))
  | inr away ↦ absurd (nothing (rw away at hit))
]
  where
    nothing : has a [] ≡ true → ⊥
    nothing e = cc

pool : IsPool memory with_pool.free_lists pool_lists
pool = record { family = sample-IsFamily 17; members = members }

all_below : ℕ → ℕ → List ℕ → Bool
all_below size zero cs = true
all_below size (suc n) [] = false
all_below size (suc n) (c ∷ cs) = ltb c size && all_below size n cs

entry_below :
    (size n : ℕ) (cs : List ℕ) → all_below size n cs ≡ true → (j : ℕ) → j < n → get_or cs j 0 < size
unfolding all_below
entry_below size zero cs e j lt = omega arith
entry_below size (suc n) [] e j lt = cc
entry_below size (suc n) (c ∷ cs) e zero lt = ground arith
entry_below size (suc n) (c ∷ cs) e (suc j) lt =
    entry_below size n cs (ground arith) j (omega arith)

first_fit : IsFirstFit 4000 capacities 15 4096
unfolding all_below
first_fit = record {
  in_table = omega arith;
  entry = refl;
  fits = omega arith;
  first = entry_below 4000 15 capacities refl;
}

malloc-Served_example :
    Returns
      (Served with_pool pool_lists 15 4000 272 (down 0 16))
      (malloc platform (baseline platform) 4000 with_pool)
malloc-Served_example =
    malloc-Served platform with_pool 4000 15 4096 (omega arith) (omega arith) first_fit pool refl
      refl refl

malloc-free_restores_example :
    Returns
      (λ _ v. IsPool v.heap v.free_lists pool_lists × OnlyBlock 272 memory v.heap × (v.errno ≡ 0))
      ((malloc platform (baseline platform) 4000 >>= free platform (baseline platform)) with_pool)
malloc-free_restores_example =
    malloc-free_restores platform with_pool 4000 15 4096 (omega arith) (omega arith) first_fit pool
      refl refl refl refl

free-Freed_example :
    Returns
      (λ _ v. Freed with_pool pool_lists 15 512 v)
      (free platform (baseline platform) 560 with_pool)
free-Freed_example =
    free-Freed with_pool pool (block_of_15 512 (omega arith) (omega arith)) out platform refl
  where
    out : (j : ℕ) → has 512 (pool_lists j) ≡ false
    out j = elim (Bool-cases (15 == j)) [ inl here ↦ rw here refl | inr away ↦ rw away refl ]

empty-IsPool : IsPool world.heap world.free_lists (λ j. [])
empty-IsPool = record {
  family = record { chains = λ i. nil refl; apart = λ i j ne a h. refl };
  members = λ i a hit. absurd (nothing a hit);
}
  where
    nothing : (a : Ptr) → has a [] ≡ true → ⊥
    nothing a e = cc

find_block-Grown_example :
    Returns
      (λ r v. (v.free_lists 15 ≡ r) × Grown world (λ j. []) 15 (capacity_at 15) 8192 layout v)
      (find_block platform 15 (capacity_at 15) world)
unfolding capacity_at
find_block-Grown_example =
    find_block-Grown platform world 15 8192 empty-IsPool refl grants_slab (λ i a hit. cc) refl
      (omega arith)
