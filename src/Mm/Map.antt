-- ===== src/Mm/Map.antt =====
-- MemoryMap of kernel/mm.cc: SetBreak, MProtect, MUnmap and the lookups. The lock is taken or the
-- wait for it is interrupted, and a call of the host kernel succeeds (`none`) or fails with an
-- error: both are arguments of the operations.
pub mod Heap
pub mod Protect
pub mod Whole
pub mod Calls
mod Tests
use junction.Prelude.{
  ℕ, ◌+◌, ◌-◌, ◌≤◌, ◌<◌, ◌≡◌, Bool, true, false, ◌==◌, ◌&&◌, ◌||◌, not, if◌then◌else◌, ltb, leb,
  Option, none, some, List, [], ◌∷◌, max, min, Errno, other, Status, ok, err, einval, eintr, enoent,
}
use junction.Bits.{page_align, is_page_aligned}
use junction.IntervalSet.{cleared, insert, modify, find, upper_bound}
use junction.IntervalSet.Simple.{SimpleInterval, simple_interval}
use junction.Mm.{VmArea, VmType, vm_area}

-- `mem_areas` is the static set of the regions of all maps, `tracing` whether a tracer is set.
pub record MemoryMap : Type 0 where
  pub mm_start : ℕ
  pub mm_end : ℕ
  pub brk_addr : ℕ
  pub vmareas : List VmArea
  pub mem_areas : List SimpleInterval
  pub tracing : Bool

pub address_valid : ℕ → ℕ → Bool
address_valid addr len = ltb 0 len && is_page_aligned addr

-- AddressToBounds
abbrev pub bounds_end : ℕ → ℕ → ℕ
bounds_end addr len = page_align (addr + len)

-- PROT_READ | PROT_WRITE
abbrev pub read_write : ℕ
read_write = 3

-- VMArea(addr, len, prot, type). The constructor leaves the offset unset: nothing reads it.
abbrev pub anonymous : ℕ → ℕ → ℕ → VmType → VmArea
anonymous addr len prot type = record {
  start = addr;
  end = addr + len;
  prot = prot;
  traced = false;
  type = type;
  backing = none;
  offset = 0;
}

-- Whether the first mapping that ends behind the break starts below the new one.
pub brk_overlaps : MemoryMap → ℕ → Bool
brk_overlaps mm newbrk = elim (upper_bound vm_area mm.brk_addr mm.vmareas) [
  | none ↦ false
  | some v ↦ ltb v.start (page_align newbrk)
]

grow_heap : MemoryMap → ℕ → MemoryMap
grow_heap mm newbrk =
    let addr = page_align mm.brk_addr in
    let len = page_align newbrk - page_align mm.brk_addr in
    record mm {
      brk_addr = newbrk;
      vmareas = insert vm_area (anonymous addr len read_write VmType.heap) mm.vmareas;
    }

shrink_heap : MemoryMap → ℕ → MemoryMap
shrink_heap mm newbrk =
    let addr = page_align newbrk in
    let len = page_align mm.brk_addr - page_align newbrk in
    record mm { brk_addr = newbrk; vmareas = cleared vm_area addr (bounds_end addr len) mm.vmareas }

-- A failure of the host kernel leaves the break where it was.
pub set_break : Bool → Option Errno → MemoryMap → ℕ → Status ℕ × MemoryMap
set_break interrupted kernel mm newbrk =
    if ltb newbrk mm.mm_start || leb mm.mm_end newbrk
    then (ok mm.brk_addr, mm)
    else if interrupted
    then (err eintr, mm)
    else if page_align mm.brk_addr == page_align newbrk
    then (ok newbrk, record mm { brk_addr = newbrk })
    else if brk_overlaps mm newbrk
    then (ok mm.brk_addr, mm)
    else elim kernel [
      | some e ↦ (ok mm.brk_addr, mm)
      | none ↦
          if ltb mm.brk_addr newbrk
          then (ok newbrk, grow_heap mm newbrk)
          else (ok newbrk, shrink_heap mm newbrk)
    ]

-- MemoryMap::Modify: with a tracer the change also sets the protection, beside calls of the host.
pub protect : VmArea → ℕ → VmArea
protect v prot = record v { prot = prot }

pub modify_prot : ℕ → ℕ → ℕ → List VmArea → List VmArea
modify_prot start end prot m =
    modify vm_area start end (λ v. not (v.prot == prot)) (λ v. protect v prot) m

pub m_protect : Bool → Option Errno → MemoryMap → ℕ → ℕ → ℕ → Status (Unit {0}) × MemoryMap
m_protect interrupted kernel mm addr len prot =
    let changed : Status (Unit {0}) × MemoryMap =
      (ok tt, record mm { vmareas = modify_prot addr (bounds_end addr len) prot mm.vmareas }) in
    if not (address_valid addr len)
    then (err einval, mm)
    else if interrupted
    then (err eintr, mm)
    else if mm.tracing
    then changed
    else elim kernel [ some e ↦ (err e, mm) | none ↦ changed ]

-- MunmapCheck: what lies outside of the map's own region leaves the global set.
pub munmap_check : MemoryMap → ℕ → ℕ → MemoryMap
munmap_check mm addr len =
    let end = bounds_end addr len in
    if leb mm.mm_start addr && leb end mm.mm_end
    then mm
    else (let below =
          if ltb addr mm.mm_start
          then cleared simple_interval addr (min end mm.mm_start) mm.mem_areas
          else mm.mem_areas in
        record mm {
          mem_areas =
              if ltb mm.mm_end end
              then cleared simple_interval (max mm.mm_end addr) end below
              else below;
        })

pub m_unmap : Bool → Option Errno → MemoryMap → ℕ → ℕ → Status (Unit {0}) × MemoryMap
unfolding munmap_check
m_unmap interrupted kernel mm addr len =
    if not (address_valid addr len)
    then (err einval, mm)
    else if interrupted
    then (err eintr, mm)
    else elim kernel [
      | some e ↦ (err e, mm)
      | none ↦ (
        ok tt,
        munmap_check (record mm { vmareas = cleared vm_area addr (bounds_end addr len) mm.vmareas })
            addr len,
      )
    ]
