-- ===== src/MemFile/Tests.antt =====
-- Runs on a file of three bytes.
use junction.Prelude.{ℕ, ◌≡◌, ◌+◌, ◌-◌, refl, [], ◌∷◌, take, drop, min, ok, arith}
use junction.Bits.{page_align}
use junction.MemFile.{Buffer, MemInode, read, write, set_size}
use junction.MemFile.Contents.{
  contents, read-contents, IsWritten, write-IsWritten, set_size_restores,
}

abbrev three : MemInode
three = record { buf = λ a. a + 65; size = 3 }

read-contents_example :
    read 8 1 three ≡ (ok (take (min 8 (3 - 1)) (drop 1 (contents three))), 1 + min 8 (3 - 1))
read-contents_example = read-contents 8 1 three (omega arith) (omega arith)

write-IsWritten_example : IsWritten (7 ∷ 8 ∷ []) 2 three (write (7 ∷ 8 ∷ []) 2 three)
write-IsWritten_example =
    write-IsWritten (7 ∷ 8 ∷ []) 2 three (omega arith) (omega arith) (omega arith)

abbrev no_advice : ℕ → ℕ → Buffer → Buffer
no_advice a len buf = buf

set_size_restores_example : (set_size no_advice 3 ((set_size no_advice 1 three).1)).1 ≡ three
unfolding page_align
set_size_restores_example = set_size_restores no_advice 1 three (omega arith) (omega arith) refl
