-- ===== src/Mm/Map/Calls.antt =====
-- kernel/mm.cc: the system calls brk, mprotect and munmap. A result is the value, or the error of the
-- operation with EINTR as a restart of the call.
use junction.Prelude.{ℕ, Bool, Option, Errno, eintr, ok, err}
use junction.Mm.Map.{MemoryMap, set_break, m_protect, m_unmap}

pub data Returned : Type 0 where
  value : ℕ → Returned
  restart : Returned
  failed : Errno → Returned

-- MakeCErrorRestartSys
pub to_c_error : Errno → Returned
to_c_error eintr = restart
to_c_error e = failed e

pub brk : Bool → Option Errno → MemoryMap → ℕ → Returned × MemoryMap
brk interrupted kernel mm addr =
    let (r, after) = set_break interrupted kernel mm addr in
    (elim r [ ok a ↦ value a | err e ↦ to_c_error e ], after)

pub mprotect : Bool → Option Errno → MemoryMap → ℕ → ℕ → ℕ → Returned × MemoryMap
mprotect interrupted kernel mm addr len prot =
    let (r, after) = m_protect interrupted kernel mm addr len prot in
    (elim r [ ok u ↦ value 0 | err e ↦ to_c_error e ], after)

pub munmap : Bool → Option Errno → MemoryMap → ℕ → ℕ → Returned × MemoryMap
munmap interrupted kernel mm addr len =
    let (r, after) = m_unmap interrupted kernel mm addr len in
    (elim r [ ok u ↦ value 0 | err e ↦ to_c_error e ], after)
