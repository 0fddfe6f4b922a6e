-- ===== src/Bitmap/Tests.antt =====
-- Runs of bitmap.h on a bitmap of 100 bits.
use junction.Prelude.{not}
use junction.Lowest.{Lowest}
use junction.Bitmap.{Bitmap, empty, test, set, find_next_set, find_next_clear}
use junction.Bitmap.Find.{find_next_lem}

abbrev two_bits : Bitmap
two_bits = set 70 (set 3 (empty 100))

find_next_lem_example :
    Lowest 4 two_bits.size (λ p. test p two_bits) (find_next_set 4 two_bits)
    × Lowest 4 two_bits.size (λ p. not (test p two_bits)) (find_next_clear 4 two_bits)
find_next_lem_example = find_next_lem 4 two_bits
