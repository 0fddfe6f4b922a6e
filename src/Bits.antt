-- ===== src/Bits.antt =====
-- base/bits.h on 64-bit words, and the page helpers of base/arch.h.
mod Tests
use junction.Prelude.{ℕ, ◌+◌, ◌-◌, ◌*◌, ◌/◌, ◌%◌, ◌≤◌, ◌<◌, ◌^◌, ◌≡◌, Bool, ◌==◌, arith}

-- For a power of two `x & ~(align - 1)` clears the low bits: the multiple of `align` at or below.
unfoldable pub align_down : ℕ → ℕ → ℕ
align_down val align = val / align * align

unfoldable pub align_up : ℕ → ℕ → ℕ
align_up val align = (val + (align - 1)) % 2 ^ 64 / align * align

-- The sum does not wrap for the sizes that the code divides.
unfoldable pub divide_up : ℕ → ℕ → ℕ
divide_up dividend divisor = (dividend + divisor - 1) / divisor

abbrev pub page_size : ℕ
page_size = 4096

unfoldable pub page_align : ℕ → ℕ
unfolding align_up
page_align addr = align_up addr page_size

unfoldable pub page_align_down : ℕ → ℕ
unfolding align_down
page_align_down addr = align_down addr page_size

unfoldable pub is_page_aligned : ℕ → Bool
unfolding page_align
is_page_aligned addr = page_align addr == addr

-- PageAlign is the least multiple of the page size at or above an address that is not in the last
-- page.
pub page_align_least :
    (addr : ℕ)
    → addr + 4095 < 2 ^ 64
    → (addr ≤ page_align addr) × (page_align addr < addr + 4096) × (page_align addr % 4096 ≡ 0)
unfolding page_align
page_align_least addr h = omega arith

pub page_align_mono : (a b : ℕ) → a ≤ b → b + 4095 < 2 ^ 64 → page_align a ≤ page_align b
unfolding page_align
page_align_mono a b h k = omega arith

pub page_align_idem : (a : ℕ) → a + 8192 < 2 ^ 64 → page_align (page_align a) ≡ page_align a
unfolding page_align
page_align_idem a h = omega arith
