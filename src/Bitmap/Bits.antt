-- ===== src/Bitmap/Bits.antt =====
-- Testing a bit after each change of the bitmap.
use junction.Prelude.{ℕ, ◌≡◌, ◌&&◌, ◌||◌, not, ◌==◌, arith}
use junction.Bitmap.{Bitmap, test, set, clear, update_word}

-- Setting a bit sets this bit and no other, and clearing a bit clears this bit and no other, also in
-- the same word.
pub test-set-clear :
    (pos k : ℕ) (b : Bitmap)
    → (test k (set pos b) ≡ (k == pos || test k b))
      × (test k (clear pos b) ≡ (not (k == pos) && test k b))
unfolding test set clear update_word
test-set-clear pos k b = (ground arith, ground arith)
