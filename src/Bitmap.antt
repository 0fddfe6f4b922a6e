-- ===== src/Bitmap.antt =====
-- base/bitmap.h, dynamic_bitmap; `bitmap` is the same with its size fixed. A word is the function
-- from the numbers 0 to 63 to its bits, on which `&`, `|` and `~` act bit by bit; the array is the
-- function from indices to words.
pub mod Bits
pub mod Find
pub mod Fixed
mod Tests
use junction.Prelude.{
  ℕ, zero, suc, ◌+◌, ◌-◌, ◌*◌, ◌/◌, ◌%◌, Bool, true, false, ◌&&◌, ◌||◌, not, ◌==◌, if◌then◌else◌,
  leb, Option, none, some,
}
use junction.Lowest.{lowest}

abbrev pub Word : Type 0
Word = ℕ → Bool

abbrev pub bits_per_long : ℕ
bits_per_long = 64

pub record Bitmap : Type 0 where
  pub size : ℕ
  pub bits : ℕ → Word

abbrev pub get_idx : ℕ → ℕ
get_idx pos = pos / bits_per_long

abbrev pub get_shift : ℕ → ℕ
get_shift pos = pos % bits_per_long

-- The constructor for `n` bits: all words are 0.
pub empty : ℕ → Bitmap
empty n = record { size = n; bits = λ i j. false }

-- The new words are 0; a word that falls away has no bit below the new size.
pub resize : ℕ → Bitmap → Bitmap
resize n b = record b { size = n }

pub test : ℕ → Bitmap → Bool
test pos b = b.bits (get_idx pos) (get_shift pos)

-- `bits_[get_idx(pos)] = f(bits_[get_idx(pos)])`
pub update_word : ℕ → (Word → Word) → Bitmap → Bitmap
update_word idx f b = record b { bits = λ i. if i == idx then f (b.bits i) else b.bits i }

-- `1UL << shift`
abbrev pub one_bit : ℕ → Word
one_bit shift j = j == shift

pub set : ℕ → Bitmap → Bitmap
set pos b = update_word (get_idx pos) (λ w j. w j || one_bit (get_shift pos) j) b

pub clear : ℕ → Bitmap → Bitmap
clear pos b = update_word (get_idx pos) (λ w j. w j && not (one_bit (get_shift pos) j)) b

pub set_all : Bitmap → Bitmap
set_all b = record b { bits = λ i j. true }

pub clear_all : Bitmap → Bitmap
clear_all b = record b { bits = λ i j. false }

abbrev pub invert_if : Bool → Bool → Bool
invert_if invert x = if invert then not x else x

-- The loop of find_next, from the word of the bit `i` on, for at most `fuel` words.
pub find_loop : ℕ → Bool → Bitmap → ℕ → Word → Option ℕ
find_loop zero invert b i mask = none
find_loop (suc fuel) invert b i mask =
    let rest = find_loop fuel invert b (i + bits_per_long) (λ j. true) in
    if leb b.size i
    then none
    else elim (lowest bits_per_long 0 (λ j. invert_if invert (b.bits (get_idx i) j) && mask j)) [
      | none ↦ rest
      | some v ↦ if leb b.size (i + v) then none else some (i + v)
    ]

-- One word more than the bitmap has is fuel enough.
pub find_next : Bool → ℕ → Bitmap → Option ℕ
find_next invert pos b =
    find_loop (b.size / bits_per_long + 1) invert b (get_idx pos * bits_per_long)
      (λ j. leb (get_shift pos) j)

pub find_next_set : ℕ → Bitmap → Option ℕ
find_next_set pos b = find_next false pos b

pub find_next_clear : ℕ → Bitmap → Option ℕ
find_next_clear pos b = find_next true pos b
