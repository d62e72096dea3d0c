-- ===== src/Allocator/Trim/Links.antt =====
-- `registry_link` of hplf_trim_quiescent: the pointer to a slab, in the static head or in a header.
use hplf_malloc.Prelude.{
  ◌≡◌, ◌≢◌, refl, sym, ap, ◌∙◌, true, false, Bool-cases, inl, inr, Option, none, some, option,
  arith, ◌==◌, update,
}
use hplf_malloc.Heap.{Ptr, null, Slab, ok}
use hplf_malloc.World.{World}
use hplf_malloc.World.Access.{load_slab-there, store_slab-there}
use hplf_malloc.Allocator.Trim.{Link, registry, next_of, read_link, write_link}

-- The link is not in the header of `slab`, and holds `target`.
pub data LinkTo (slabs : Ptr) (headers : Ptr → Option Slab) (slab target : Ptr)
    : Link → Type 0 where
  at_registry : slabs ≡ target → LinkTo slabs headers slab target registry
  at_next :
      {prev : Ptr} {before : Slab}
      → prev ≢ null
      → prev ≢ slab
      → headers prev ≡ some before
      → before.next ≡ target
      → LinkTo slabs headers slab target (next_of prev)

-- The static head and the headers after a write of `target` to a link.
abbrev pub slabs_after : Link → Ptr → Ptr → Ptr
slabs_after registry target slabs = target
slabs_after (next_of prev) target slabs = slabs

abbrev pub headers_after : Link → Ptr → (Ptr → Option Slab) → Ptr → Option Slab
headers_after registry target headers = headers
headers_after (next_of prev) target headers =
    update headers prev (option (headers prev) none λ s. some (record s { next = target }))

abbrev pub after_write : Link → Ptr → World → World
after_write link target w = record w {
  slabs = slabs_after link target w.slabs;
  heap = record w.heap { slab = headers_after link target w.heap.slab };
}

pub read_link-LinkTo :
    (w : World) {slab target : Ptr} {link : Link}
    → LinkTo w.slabs w.heap.slab slab target link
    → read_link link w ≡ ok target w
unfolding read_link
read_link-LinkTo w (at_registry e) = rw e
read_link-LinkTo w (at_next {prev} {before} live away there e) =
    rw (load_slab-there w prev before live there, e)

pub write_link_lem :
    (w : World) {slab target : Ptr} {link : Link} (new : Ptr)
    → LinkTo w.slabs w.heap.slab slab target link
    → write_link link new w ≡ ok tt (after_write link new w)
unfolding write_link
write_link_lem w new (at_registry e) = refl
write_link_lem w new (at_next {prev} {before} live away there e) = rw (
  load_slab-there w prev before live there,
  store_slab-there w prev before (record before { next = new }) live there,
  there,
)

-- The header of the slab itself is not written.
pub headers_after-slab :
    {slabs slab target : Ptr} {headers : Ptr → Option Slab} {link : Link} (new : Ptr)
    → LinkTo slabs headers slab target link
    → headers_after link new headers slab ≡ headers slab
headers_after-slab new (at_registry e) = refl
headers_after-slab new (at_next live away there e) = ground arith

-- The link can be written again.
pub LinkTo-after :
    {slabs slab target : Ptr} {headers : Ptr → Option Slab} {link : Link} (new : Ptr)
    (mine : Option Slab)
    → LinkTo slabs headers slab target link
    → LinkTo
        (slabs_after link new slabs)
        (update (headers_after link new headers) slab mine)
        slab
        new
        link
LinkTo-after new mine (at_registry e) = at_registry refl
LinkTo-after new mine (at_next {prev} {before} live away there e) =
    at_next {before = record before { next = new }} live away (ground (arith, there)) refl

back_at_next :
    (headers : Ptr → Option Slab) (slab prev new : Ptr) (mine before : Slab)
    → prev ≢ slab
    → headers slab ≡ some mine
    → headers prev ≡ some before
    → (a : Ptr)
    → headers_after
        (next_of prev)
        before.next
        (update (headers_after (next_of prev) new headers) slab (some mine))
        a
      ≡ headers a
back_at_next headers slab prev new mine before away at there a = elim (Bool-cases (prev == a)) [
  | inl here ↦
      let same : prev ≡ a = ground arith in
      let apart : (slab == prev) ≡ false = ground arith in
      let self : (prev == prev) ≡ true = ground arith in
      rw (here, apart, self, there) (sym there ∙ ap headers same)
  | inr off ↦ elim (Bool-cases (slab == a)) [
    | inl own ↦ let same : slab ≡ a = ground arith in rw (off, own) (sym at ∙ ap headers same)
    | inr other ↦ rw (off, other) refl
  ]
]

-- Writing the old target back restores the static head and every header.
pub written_back :
    {slabs slab target : Ptr} {headers : Ptr → Option Slab} {link : Link} (new : Ptr) (mine : Slab)
    → headers slab ≡ some mine
    → LinkTo slabs headers slab target link
    → (slabs_after link target (slabs_after link new slabs) ≡ slabs)
      × ((a : Ptr)
          → headers_after link target (update (headers_after link new headers) slab (some mine)) a
            ≡ headers a)
written_back {slab} {headers} new mine at (at_registry e) = (
  sym e,
  λ a. elim (Bool-cases (slab == a)) [
    | inl own ↦ let same : slab ≡ a = ground arith in rw own (sym at ∙ ap headers same)
    | inr other ↦ rw other refl
  ],
)
written_back {slab} {headers} new mine at (at_next {prev} {before} live away there e) = (
  refl,
  λ a.
      ap
        (λ t.
          headers_after (next_of prev) t
            (update (headers_after (next_of prev) new headers) slab (some mine)) a)
        (sym e)
      ∙ back_at_next headers slab prev new mine before away at there a,
)
