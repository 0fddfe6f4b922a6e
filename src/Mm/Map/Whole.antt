-- ===== src/Mm/Map/Whole.antt =====
-- MemoryMap of kernel/mm.cc as a whole: its construction, what it holds in all, and its end.
use junction.Prelude.{ℕ, ◌+◌, ◌-◌, ◌≤◌, Bool, false, ◌&&◌, leb, List, [], ◌∷◌, Option, arith}
use junction.IntervalSet.{find}
use junction.IntervalSet.Simple.{SimpleInterval}
use junction.IntervalSet.Valid.{Valid, last_end}
use junction.Mm.{VmArea, vm_area, length}
use junction.Mm.Map.{MemoryMap, bounds_end, munmap_check}

-- The constructor, for a region that AllocateMMRegion has entered in `mem_areas`.
pub new_map : ℕ → ℕ → List SimpleInterval → MemoryMap
new_map base len mem_areas = record {
  mm_start = base;
  mm_end = base + len;
  brk_addr = base;
  vmareas = [];
  mem_areas = mem_areas;
  tracing = false;
}

pub contained_in_map_bounds : MemoryMap → ℕ → ℕ → Bool
contained_in_map_bounds mm addr len = leb mm.mm_start addr && leb (bounds_end addr len) mm.mm_end

pub find_area : MemoryMap → ℕ → Option VmArea
find_area mm addr = find vm_area addr mm.vmareas

pub heap_usage : MemoryMap → ℕ
heap_usage mm = mm.brk_addr - mm.mm_start

pub usage : List VmArea → ℕ
usage [] = 0
usage (vma ∷ m) = length vma + usage m

pub virtual_usage : MemoryMap → ℕ
virtual_usage mm = usage mm.vmareas

-- The loop of UnmapAll. A failure of the host kernel is only logged.
pub unmap_each : List VmArea → MemoryMap → MemoryMap
unmap_each [] mm = mm
unmap_each (vma ∷ m) mm = unmap_each m (munmap_check mm vma.start (length vma))

pub unmap_all : MemoryMap → MemoryMap
unmap_all mm = record (unmap_each mm.vmareas mm) { vmareas = [] }

-- The mappings of a well-formed map are together no larger than the range from `lo` to the end of the
-- last one.
pub usage_bounded :
    (lo : ℕ) (m : List VmArea) → Valid vm_area lo m → lo + usage m ≤ last_end vm_area lo m
unfolding usage length
usage_bounded lo [] v = omega arith
usage_bounded lo (x ∷ m) v = omega (arith, usage_bounded x.end m v.2, v.0, v.1)
