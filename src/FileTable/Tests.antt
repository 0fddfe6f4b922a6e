-- ===== src/FileTable/Tests.antt =====
-- Runs of FileTable on a table with descriptors 0 and 2, of which 2 closes on exec.
use junction.Prelude.{ℕ, ◌≡◌, ◌==◌, false, [], ◌∷◌, arith, none, some}
use junction.FileTable.{FileTable, get, slot, insert}
use junction.FileTable.Table.{IsValid, IsInserted, insert_lem}

-- The files are numbers.
abbrev table : FileTable ℕ
table = record {
  cap = 64;
  files = some 100 ∷ none ∷ some 102 ∷ [];
  close_on_exec = λ k. k == 2;
  bitmap_size = 64;
}

table-IsValid : IsValid table
unfolding IsValid get slot
table-IsValid k e = let same : k ≡ 2 = ground (arith, e) in ground (arith, same)

insert_lem_example : IsInserted 200 false 0 table (insert 200 false 0 table)
insert_lem_example = insert_lem 200 false 0 table
