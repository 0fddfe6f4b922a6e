-- ===== src/Mm/Map/Heap.antt =====
-- SetBreak: growing and shrinking the heap.
use junction.Prelude.{
  ℕ, ◌+◌, ◌-◌, ◌≤◌, ◌<◌, ◌^◌, ◌≡◌, ◌≢◌, refl, Bool, false, ◌&&◌, if◌then◌else◌, ltb, leb, Option,
  none, some, Errno, ok, arith, lt→ltb, le→ltb_false, ◌∙◌,
}
use junction.Bits.{page_align, page_align_mono, page_align_idem}
use junction.IntervalSet.{find, upper_bound, from}
use junction.IntervalSet.Valid.{Valid, view}
use junction.IntervalSet.Spec.{cleared-Valid, view-cleared}
use junction.IntervalSet.Insert.{insert-Valid, view-insert}
use junction.Mm.{VmArea, vm_area, mapped}
use junction.Mm.Laws.{vm_area_laws}
use junction.Mm.Map.{MemoryMap, brk_overlaps, grow_heap, shrink_heap, set_break, bounds_end}

-- The mappings are disjoint, not empty and in order, and no page sum of the region wraps.
pub record IsWell (mm : MemoryMap) : Type 0 where
  pub areas : Valid vm_area 0 mm.vmareas
  pub break_in : mm.brk_addr ≤ mm.mm_end
  pub small : mm.mm_end + 8192 < 2 ^ 64

-- The break moves to another page.
record Moves (mm : MemoryMap) (newbrk : ℕ) : Type 0 where
  well : IsWell mm
  new_in : newbrk < mm.mm_end
  apart : page_align mm.brk_addr ≢ page_align newbrk

grown-IsWell :
    (mm : MemoryMap) (newbrk : ℕ)
    → Moves mm newbrk
    → mm.brk_addr < newbrk
    → IsWell (grow_heap mm newbrk)
unfolding grow_heap
grown-IsWell mm newbrk v up = record {
  areas =
      insert-Valid vm_area vm_area_laws 0 _ mm.vmareas v.well.areas (omega arith)
        (omega (arith, v.well.small, v.new_in, page_align_mono mm.brk_addr newbrk, v.apart));
  break_in = omega (arith, v.new_in);
  small = v.well.small;
}

-- The range that a shrinking heap gives up.
shrunk_range :
    (mm : MemoryMap) (newbrk : ℕ)
    → Moves mm newbrk
    → newbrk ≤ mm.brk_addr
    → (page_align newbrk < page_align mm.brk_addr)
      × (bounds_end (page_align newbrk) (page_align mm.brk_addr - page_align newbrk)
          ≡ page_align mm.brk_addr)
shrunk_range mm newbrk v down =
    let lt : page_align newbrk < page_align mm.brk_addr =
      omega (arith, v.well.small, v.well.break_in, page_align_mono newbrk mm.brk_addr, v.apart) in
    let back : page_align newbrk + (page_align mm.brk_addr - page_align newbrk)
        ≡ page_align mm.brk_addr =
      omega arith in
    (lt, rw back (page_align_idem mm.brk_addr (omega (arith, v.well.small, v.well.break_in))))

shrunk-IsWell :
    (mm : MemoryMap) (newbrk : ℕ)
    → Moves mm newbrk
    → newbrk ≤ mm.brk_addr
    → IsWell (shrink_heap mm newbrk)
unfolding shrink_heap
shrunk-IsWell mm newbrk v down = record {
  areas =
      cleared-Valid vm_area vm_area_laws (page_align newbrk) _ 0 mm.vmareas
        (omega (arith, shrunk_range mm newbrk v down)) v.well.areas;
  break_in = omega (arith, v.new_in);
  small = v.well.small;
}

-- SetBreak keeps the mappings disjoint, not empty and in order and the break in the region, on
-- every path.
pub set_break-IsWell :
    (interrupted : Bool) (kernel : Option Errno) (mm : MemoryMap) (newbrk : ℕ)
    → IsWell mm
    → IsWell (set_break interrupted kernel mm newbrk).1
unfolding set_break
set_break-IsWell interrupted kernel mm newbrk v =
    ground (arith, grown-IsWell mm newbrk, shrunk-IsWell mm newbrk)

-- The path on which the heap changes.
set_break_moves :
    (mm : MemoryMap) (newbrk : ℕ)
    → mm.mm_start ≤ newbrk
    → newbrk < mm.mm_end
    → page_align mm.brk_addr ≢ page_align newbrk
    → brk_overlaps mm newbrk ≡ false
    → set_break false none mm newbrk ≡ (
        if ltb mm.brk_addr newbrk
        then (ok newbrk, grow_heap mm newbrk)
        else (ok newbrk, shrink_heap mm newbrk))
unfolding set_break
set_break_moves mm newbrk lo hi apart clear = ground arith

view-grow_heap :
    (mm : MemoryMap) (newbrk a : ℕ)
    → Moves mm newbrk
    → mm.brk_addr < newbrk
    → view vm_area mapped (grow_heap mm newbrk).vmareas a ≡ (
        if leb (page_align mm.brk_addr) a && ltb a (page_align newbrk)
        then some (record { prot = 3; traced = false; type = 1; shows = none })
        else view vm_area mapped mm.vmareas a)
unfolding grow_heap
view-grow_heap mm newbrk a v up =
    let lt : page_align mm.brk_addr < page_align newbrk =
      omega (arith, v.well.small, v.new_in, page_align_mono mm.brk_addr newbrk, v.apart) in
    view-insert vm_area vm_area_laws 0 a _ mm.vmareas v.well.areas (omega arith) (omega arith)
    ∙ ground arith

view-shrink_heap :
    (mm : MemoryMap) (newbrk a : ℕ)
    → Moves mm newbrk
    → newbrk ≤ mm.brk_addr
    → view vm_area mapped (shrink_heap mm newbrk).vmareas a ≡ (
        if leb (page_align newbrk) a && ltb a (page_align mm.brk_addr)
        then none
        else view vm_area mapped mm.vmareas a)
unfolding shrink_heap
view-shrink_heap mm newbrk a v down =
    let range = shrunk_range mm newbrk v down in
    view-cleared vm_area vm_area_laws (page_align newbrk) _ 0 a mm.vmareas (omega arith)
      v.well.areas
    ∙ ground (arith, range)

-- A SetBreak that grows the heap: in the region, on another page, with no mapping in the way and
-- with a host that maps the pages. It returns the new break, the new pages are heap that can be
-- read and written, and no other address changes.
pub set_break_grows :
    (mm : MemoryMap) (newbrk a : ℕ)
    → IsWell mm
    → mm.mm_start ≤ newbrk
    → newbrk < mm.mm_end
    → mm.brk_addr < newbrk
    → page_align mm.brk_addr ≢ page_align newbrk
    → brk_overlaps mm newbrk ≡ false
    → let (r, mm') = set_break false none mm newbrk in
      (r ≡ ok newbrk)
      × (mm'.brk_addr ≡ newbrk)
      × (view vm_area mapped mm'.vmareas a ≡ (
          if leb (page_align mm.brk_addr) a && ltb a (page_align newbrk)
          then some (record { prot = 3; traced = false; type = 1; shows = none })
          else view vm_area mapped mm.vmareas a))
unfolding grow_heap
set_break_grows mm newbrk a v lo hi up apart clear =
    rw (set_break_moves mm newbrk lo hi apart clear, lt→ltb mm.brk_addr newbrk up)
      (refl, refl, view-grow_heap mm newbrk a (record { well = v; new_in = hi; apart = apart }) up)

-- A SetBreak that shrinks the heap unmaps its pages from the new break on and nothing else.
pub set_break_shrinks :
    (mm : MemoryMap) (newbrk a : ℕ)
    → IsWell mm
    → mm.mm_start ≤ newbrk
    → newbrk < mm.brk_addr
    → mm.brk_addr < mm.mm_end
    → page_align mm.brk_addr ≢ page_align newbrk
    → brk_overlaps mm newbrk ≡ false
    → let (r, mm') = set_break false none mm newbrk in
      (r ≡ ok newbrk)
      × (mm'.brk_addr ≡ newbrk)
      × (view vm_area mapped mm'.vmareas a ≡ (
          if leb (page_align newbrk) a && ltb a (page_align mm.brk_addr)
          then none
          else view vm_area mapped mm.vmareas a))
unfolding shrink_heap
set_break_shrinks mm newbrk a v lo down hi apart clear =
    rw
      (
        set_break_moves mm newbrk lo (omega arith) apart clear,
        le→ltb_false mm.brk_addr newbrk (omega arith),
      )
      (
        refl,
        refl,
        view-shrink_heap mm newbrk a (record { well = v; new_in = omega arith; apart = apart })
            (omega arith),
      )

-- The break cannot leave its page while a mapping holds the break itself, as the heap does whenever
-- the break is not at the start of a page: SetBreak then returns the old break and changes nothing.
pub set_break_stuck :
    (interrupted : Bool) (kernel : Option Errno) (mm : MemoryMap) (newbrk : ℕ) (v : VmArea)
    → find vm_area mm.brk_addr mm.vmareas ≡ some v
    → v.start < page_align newbrk
    → page_align mm.brk_addr ≢ page_align newbrk
    → interrupted ≡ false
    → set_break interrupted kernel mm newbrk ≡ (ok mm.brk_addr, mm)
unfolding set_break brk_overlaps find upper_bound from
set_break_stuck interrupted kernel mm newbrk v held below apart go = ground arith
