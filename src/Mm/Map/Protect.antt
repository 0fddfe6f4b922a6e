-- ===== src/Mm/Map/Protect.antt =====
-- MProtect and MUnmap: which addresses they change.
use junction.Prelude.{
  ℕ, ◌+◌, ◌<◌, ◌^◌, ◌≡◌, refl, true, false, ◌==◌, ◌&&◌, not, if◌then◌else◌, ltb, leb, none, ok,
  arith,
}
use mathlib.Core.Option
use junction.Bits.{page_align, page_align_least}
use junction.IntervalSet.{cleared}
use junction.IntervalSet.Valid.{view}
use junction.IntervalSet.Spec.{cleared-Valid, view-cleared}
use junction.IntervalSet.Modify.{ChangeLaws}
use junction.IntervalSet.Modify.Loop.{modify-Valid, view-modify}
use junction.Mm.{vm_area, mapped, Mapped}
use junction.Mm.Laws.{vm_area_laws}
use junction.Mm.Map.{
  MemoryMap, modify_prot, protect, m_protect, m_unmap, munmap_check, bounds_end, address_valid,
}
use junction.Mm.Map.Heap.{IsWell}

-- The attribute of an address under another protection.
abbrev pub with_prot : ℕ → Mapped → Mapped
with_prot p m = record m { prot = p }

protect-ChangeLaws :
    (p : ℕ) → ChangeLaws vm_area mapped (λ v. not (v.prot == p)) (λ v. protect v p) (with_prot p)
unfolding protect
protect-ChangeLaws p = record {
  start-change = λ t. refl;
  end-change = λ t. refl;
  value-change = λ t a. refl;
  skipped = λ t a h. ground arith;
}

bounds_nonempty : (addr len : ℕ) → 0 < len → addr + len + 4095 < 2 ^ 64 → addr < bounds_end addr len
bounds_nonempty addr len pos small = omega (arith, page_align_least (addr + len))

len_pos : (addr len : ℕ) → address_valid addr len ≡ true → 0 < len
unfolding address_valid
len_pos addr len h = ground arith

m_protect_ok :
    (mm : MemoryMap) (addr len prot : ℕ)
    → address_valid addr len ≡ true
    → m_protect false none mm addr len prot
      ≡ (ok tt, record mm { vmareas = modify_prot addr (bounds_end addr len) prot mm.vmareas })
unfolding m_protect
m_protect_ok mm addr len prot valid = ground arith

m_unmap_ok :
    (mm : MemoryMap) (addr len : ℕ)
    → address_valid addr len ≡ true
    → m_unmap false none mm addr len ≡ (
      ok tt,
      munmap_check
          (record mm { vmareas = cleared vm_area addr (bounds_end addr len) mm.vmareas })
          addr
          len,
    )
unfolding m_unmap
m_unmap_ok mm addr len valid = rw (valid, m_unmap)

-- The check touches the global set only.
munmap_check_local :
    (mm : MemoryMap) (addr len : ℕ)
    → ((munmap_check mm addr len).vmareas ≡ mm.vmareas)
      × ((munmap_check mm addr len).brk_addr ≡ mm.brk_addr)
      × ((munmap_check mm addr len).mm_end ≡ mm.mm_end)
unfolding munmap_check
munmap_check_local mm addr len = ground arith

-- A successful MProtect gives each mapped address of its pages the new protection, maps none and
-- unmaps none, leaves every other address as it was, and keeps the mappings disjoint. The range is
-- not empty, starts at a page and does not wrap.
pub m_protect_lem :
    (mm : MemoryMap) (addr len prot a : ℕ)
    → IsWell mm
    → address_valid addr len ≡ true
    → addr + len + 4095 < 2 ^ 64
    → let (r, mm') = m_protect false none mm addr len prot in
      (r ≡ ok tt)
      × IsWell mm'
      × (view vm_area mapped mm'.vmareas a ≡ (
          if leb addr a && ltb a (page_align (addr + len))
          then Option.map (with_prot prot) (view vm_area mapped mm.vmareas a)
          else view vm_area mapped mm.vmareas a))
unfolding modify_prot
m_protect_lem mm addr len prot a v valid small =
    let ne = bounds_nonempty addr len (len_pos addr len valid) small in
    rw (m_protect_ok mm addr len prot valid) (
      refl,
      record {
        areas =
            modify-Valid vm_area vm_area_laws addr _ (protect-ChangeLaws prot) ne 0 mm.vmareas
              v.areas;
        break_in = v.break_in;
        small = v.small;
      },
      view-modify vm_area vm_area_laws addr _ (protect-ChangeLaws prot) ne 0 a mm.vmareas v.areas,
    )

-- A successful MUnmap unmaps the addresses of its pages, leaves every other address as it was and
-- keeps the mappings disjoint. The range is not empty, starts at a page and does not wrap.
pub m_unmap_lem :
    (mm : MemoryMap) (addr len a : ℕ)
    → IsWell mm
    → address_valid addr len ≡ true
    → addr + len + 4095 < 2 ^ 64
    → let (r, mm') = m_unmap false none mm addr len in
      (r ≡ ok tt)
      × IsWell mm'
      × (view vm_area mapped mm'.vmareas a ≡ (
          if leb addr a && ltb a (page_align (addr + len))
          then none
          else view vm_area mapped mm.vmareas a))
m_unmap_lem mm addr len a v valid small =
    let ne = bounds_nonempty addr len (len_pos addr len valid) small in
    let mm' = record mm { vmareas = cleared vm_area addr (bounds_end addr len) mm.vmareas } in
    let (areas, brk, end) = munmap_check_local mm' addr len in
    rw (m_unmap_ok mm addr len valid) (
      refl,
      record {
        areas =
            rw areas (cleared-Valid vm_area vm_area_laws addr _ 0 mm.vmareas (omega arith) v.areas);
        break_in = omega (arith, brk, end, v.break_in);
        small = omega (arith, end, v.small);
      },
      rw areas (view-cleared vm_area vm_area_laws addr _ 0 a mm.vmareas (omega arith) v.areas),
    )
