-- ===== src/Allocator/Trim/Release.antt =====
-- src/allocator.c: what hplf_trim_quiescent does with a slab whose blocks are all free.
use mathlib.Core.Path.{fun_ext}
use hplf_malloc.Prelude.{
  ℕ, arith, ◌+◌, min, ◌<◌, ◌≡◌, ◌≢◌, refl, sym, ap, ◌∙◌, true, Option, none, some, List, [], length,
  has, update,
}
use hplf_malloc.CheckedMath.{size_max, size_add, local_result}
use hplf_malloc.Heap.{Ptr, null, Block, Slab, Heap, ok, put_slab}
use hplf_malloc.Heap.Chain.{Chain, OnlyLinks, frame}
use hplf_malloc.Heap.Family.{IsFamily, IsFamily-update}
use hplf_malloc.Heap.Returns.{Returns, returns, outcome}
use hplf_malloc.World.{Platform, World, on_heap, unmap_memory}
use hplf_malloc.World.Access.{load_slab-there, store_slab-there}
use hplf_malloc.OsMemory.{Mapping, os_unmap}
use hplf_malloc.OsMemory.Outcome.{os_unmap-outcome}
use hplf_malloc.Allocator.Trim.{next_of, Walk, release_slab, add_released}
use hplf_malloc.Allocator.Trim.Owners.{Owners, foreign, reverse_onto, detach_slab_blocks-Parted}
use hplf_malloc.Allocator.Trim.Parts.{own_first, has-own_first, foreign_within, blocks_only, rejoin}
use hplf_malloc.Lifecycle.States.{Outside, IsFamily-unmap}
use hplf_malloc.Allocator.Trim.Links.{
  LinkTo, headers_after, after_write, write_link_lem, headers_after-slab, LinkTo-after,
  written_back,
}

-- The round of the walk is at `slab`, the free blocks are `lists`, and `owner` names the slab of each of
-- the slab's class.
pub record Visits (w : World) (walk : Walk) (lists : ℕ → List Ptr) (owner : Ptr → Ptr) (slab : Ptr)
    (header : Slab) : Type 0 where
  pub family : IsFamily w.heap walk.free_lists lists
  pub owners : Owners w.heap owner (lists header.class_index)
  pub live : slab ≢ null
  pub there : w.heap.slab slab ≡ some header
  pub link : LinkTo w.slabs w.heap.slab slab slab walk.link
  pub base : header.mapping_base ≢ null
  pub size : 0 < header.mapping_length

-- After a failed unmap: the class has its blocks, the slab's own in front; the registry and all headers
-- are as they were, and the walk goes on behind the slab with the same total.
pub record Restored (w : World) (walk : Walk) (lists : ℕ → List Ptr) (owner : Ptr → Ptr)
    (slab : Ptr) (class_index error : ℕ) (done : Walk) (v : World) : Type 0 where
  pub family :
      IsFamily v.heap done.free_lists
        (update lists class_index (own_first owner slab (lists class_index)))
  pub same_blocks :
      (a : Ptr) → has a (own_first owner slab (lists class_index)) ≡ has a (lists class_index)
  pub links : OnlyLinks (lists class_index) w.heap v.heap
  pub link : done.link ≡ next_of slab
  pub total : done.released_total ≡ walk.released_total
  pub same : v ≡ record w { heap = v.heap; errno = error; calls = w.calls + 1 }

-- The free lists without the slab's own blocks.
abbrev pub remaining_lists : (ℕ → List Ptr) → (Ptr → Ptr) → Ptr → ℕ → ℕ → List Ptr
remaining_lists lists owner slab class_index =
    update lists class_index (reverse_onto (foreign owner slab (lists class_index)) [])

-- After the slab's mapping has ended: the other blocks are free as before, the link leads past the
-- slab, the total has grown by the mapping's length, and the walk stays at the link.
pub record Released (w : World) (walk : Walk) (lists : ℕ → List Ptr) (owner : Ptr → Ptr)
    (slab : Ptr) (header : Slab) (done : Walk) (v : World) : Type 0 where
  pub family : IsFamily v.heap done.free_lists (remaining_lists lists owner slab header.class_index)
  pub link : done.link ≡ walk.link
  pub total : done.released_total ≡ min (walk.released_total + header.mapping_length) size_max
  pub block : Ptr → Option Block
  pub links : OnlyLinks (lists header.class_index) w.heap (record w.heap { block = block })
  pub same : v ≡ record (after_write walk.link header.next w) {
    heap =
        unmap_memory header.mapping_base header.mapping_length
          (record w.heap { block = block; slab = headers_after walk.link header.next w.heap.slab });
    calls = w.calls + 1;
  }

add_released-min :
    (total released : ℕ)
    → 0 < released
    → add_released total released ≡ min (total + released) size_max
unfolding size_add local_result
add_released-min total released pos = ground arith

-- The headers do not matter to the chains.
IsFamily-headers :
    {h : Heap} {heads : ℕ → Ptr} {lists : ℕ → List Ptr} (headers : Ptr → Option Slab)
    → IsFamily h heads lists
    → IsFamily (record h { slab = headers }) heads lists
IsFamily-headers headers fam = record {
  chains = λ i. frame (fam.chains i) (λ a hit. refl);
  apart = fam.apart;
}

module _ {w : World} {walk : Walk} {lists : ℕ → List Ptr} {owner : Ptr → Ptr} {slab : Ptr}
    {header : Slab} (now : Visits w walk lists owner slab header) where
  -- A new chain for the class, of blocks that the class had.
  class-IsFamily :
      {g : Heap} {q : Ptr} (ys : List Ptr)
      → OnlyLinks (lists header.class_index) w.heap g
      → Chain g null q ys
      → ((a : Ptr) → has a ys ≡ true → has a (lists header.class_index) ≡ true)
      → IsFamily g
          (update walk.free_lists header.class_index q)
          (update lists header.class_index ys)
  class-IsFamily ys links chain sub =
      IsFamily-update header.class_index now.family links
        (λ j ne. now.family.apart j header.class_index λ e. ne (sym e)) chain
        (λ j ne a i. now.family.apart header.class_index j ne a (sub a i))

  pub release_slab-Restored :
      (p : Platform) (fuel error : ℕ)
      → length (lists header.class_index) < fuel
      → p.munmap w.calls header.mapping_base header.mapping_length ≡ some error
      → Returns
          (Restored w walk lists owner slab header.class_index error)
          (release_slab p fuel slab header walk w)
  unfolding release_slab
  release_slab-Restored p fuel error enough failed =
      let xs = lists header.class_index in
      let ((r, q), g, run, parted) = outcome (
        detach_slab_blocks-Parted fuel slab (now.family.chains header.class_index) now.owners
          enough) in
      let parted_run = run ∙ ap (λ (t : Heap). ok (r, q) t) (blocks_only parted.links) in
      let w1 : World = record w { heap = record w.heap { block = g.block } } in
      let unlinked = write_link_lem w1 header.next now.link in
      let w2 = after_write walk.link header.next w1 in
      let mapping : Mapping = record {
        base = header.mapping_base;
        length = header.mapping_length;
      } in
      let unmapped : os_unmap p mapping w2
          ≡ ok (none, mapping) (record w2 { errno = error; calls = w.calls + 1 }) =
        os_unmap-outcome p w2 mapping now.base now.size ∙ rw failed refl in
      let (j, k, joined, (chain, links, same)) = outcome (
        rejoin {owner = owner} {slab = slab} fuel (headers_after walk.link header.next w.heap.slab)
          parted enough) in
      let joined_run = joined ∙ ap (λ (t : Heap). ok j t) same in
      let w4 : World = record w2 {
        heap = record w2.heap { block = k.block };
        errno = error;
        calls = w.calls + 1;
      } in
      let here = headers_after-slab header.next now.link ∙ now.there in
      let loaded = load_slab-there w4 slab header now.live here in
      let stored = store_slab-there w4 slab header header now.live here in
      let w5 : World = record w4 { heap = put_slab w4.heap slab header } in
      let relinked = write_link_lem w5 slab (LinkTo-after header.next (some header) now.link) in
      let (old_slabs, old_headers) = written_back header.next header now.there now.link in
      let v = after_write walk.link slab w5 in
      let all : OnlyLinks xs w.heap v.heap = record {
        outside = links.outside;
        inside = links.inside;
        slabs = fun_ext old_headers;
        bytes = refl;
        maps = refl;
      } in
      rw (on_heap, parted_run, unlinked, unmapped, joined_run, loaded, stored, relinked)
        (returns (record {
          family =
              class-IsFamily _ all (frame chain (λ a i. refl))
                (λ a i. sym (has-own_first owner slab a xs) ∙ i);
          same_blocks = λ a. has-own_first owner slab a xs;
          links = all;
          link = refl;
          total = refl;
          same =
              ap (λ s. record w { heap = v.heap; errno = error; calls = w.calls + 1; slabs = s })
                old_slabs;
        }))

  pub release_slab-Released :
      (p : Platform) (fuel : ℕ)
      → length (lists header.class_index) < fuel
      → p.munmap w.calls header.mapping_base header.mapping_length ≡ none
      → Outside header.mapping_base header.mapping_length
          (remaining_lists lists owner slab header.class_index)
      → Returns (Released w walk lists owner slab header) (release_slab p fuel slab header walk w)
  unfolding release_slab
  release_slab-Released p fuel enough ended outside =
      let xs = lists header.class_index in
      let ((r, q), g, run, parted) = outcome (
        detach_slab_blocks-Parted fuel slab (now.family.chains header.class_index) now.owners
          enough) in
      let parted_run = run ∙ ap (λ (t : Heap). ok (r, q) t) (blocks_only parted.links) in
      let w1 : World = record w { heap = record w.heap { block = g.block } } in
      let unlinked = write_link_lem w1 header.next now.link in
      let w2 = after_write walk.link header.next w1 in
      let mapping : Mapping = record {
        base = header.mapping_base;
        length = header.mapping_length;
      } in
      let unmapped : os_unmap p mapping w2
          ≡ ok (some header.mapping_length, record { base = null; length = 0 })
              (record w2 {
                heap = unmap_memory header.mapping_base header.mapping_length w2.heap;
                calls = w.calls + 1;
              }) =
        os_unmap-outcome p w2 mapping now.base now.size ∙ rw ended refl in
      let links : OnlyLinks xs w.heap w1.heap = record {
        outside = parted.links.outside;
        inside = parted.links.inside;
        slabs = refl;
        bytes = refl;
        maps = refl;
      } in
      let family =
        class-IsFamily _ links (frame parted.remaining (λ a i. refl))
          (λ a i. foreign_within owner slab a xs i) in
      rw (on_heap, parted_run, unlinked, unmapped)
        (returns (record {
          family =
              IsFamily-unmap header.mapping_base header.mapping_length (IsFamily-headers _ family)
                outside;
          link = refl;
          total = add_released-min walk.released_total header.mapping_length now.size;
          block = g.block;
          links = links;
          same = refl;
        }))
