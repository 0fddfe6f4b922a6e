-- ===== src/Mm/Map/Tests.antt =====
-- Runs of MemoryMap on a heap of one page and a file of two pages.
use junction.Prelude.{ℕ, ◌≡◌, ◌≤◌, refl, false, [], ◌∷◌, none, some, arith, ok}
use junction.Bits.{page_align, is_page_aligned}
use junction.IntervalSet.{upper_bound, from}
use junction.IntervalSet.Valid.{view}
use junction.Mm.{VmArea, VmType, vm_area, mapped}
use junction.Mm.Map.{MemoryMap, set_break, brk_overlaps, address_valid, m_protect}
use junction.Mm.Map.Heap.{IsWell, set_break_grows}
use junction.Mm.Map.Protect.{with_prot, m_protect_lem}

abbrev heap_area : VmArea
heap_area = record {
  start = 4096;
  end = 8192;
  prot = 3;
  traced = false;
  type = VmType.heap;
  backing = none;
  offset = 0;
}

abbrev file_area : VmArea
file_area = record {
  start = 16384;
  end = 24576;
  prot = 1;
  traced = false;
  type = VmType.file;
  backing = some 1;
  offset = 0;
}

abbrev with_break : ℕ → MemoryMap
with_break brk = record {
  mm_start = 4096;
  mm_end = 65536;
  brk_addr = brk;
  vmareas = heap_area ∷ file_area ∷ [];
  mem_areas = [];
  tracing = false;
}

with_break-IsWell : (brk : ℕ) → brk ≤ 65536 → IsWell (with_break brk)
with_break-IsWell brk h = record {
  areas = (omega arith, omega arith, (omega arith, omega arith, tt));
  break_in = h;
  small = omega arith;
}

set_break_grows_example :
    let (r, mm') = set_break false none (with_break 8192) 10000 in
    (r ≡ ok 10000)
    × (mm'.brk_addr ≡ 10000)
    × (view vm_area mapped mm'.vmareas 12287
        ≡ some (record { prot = 3; traced = false; type = 1; shows = none }))
unfolding page_align brk_overlaps upper_bound from
set_break_grows_example =
    set_break_grows (with_break 8192) 10000 12287 (with_break-IsWell 8192 (omega arith))
      (omega arith) (omega arith) (omega arith) (omega arith) refl

m_protect_lem_example :
    let (r, mm') = m_protect false none (with_break 8192) 16384 100 0 in
    (r ≡ ok tt)
    × IsWell mm'
    × (view vm_area mapped mm'.vmareas 20000 ≡ some (with_prot 0 (mapped file_area 20000)))
unfolding page_align address_valid is_page_aligned
m_protect_lem_example =
    m_protect_lem (with_break 8192) 16384 100 0 20000 (with_break-IsWell 8192 (omega arith)) refl
      (omega arith)
