-- ===== src/IntervalSet/Tests.antt =====
-- Runs of interval_set.h on two small maps.
use junction.Prelude.{ℕ, ◌+◌, ◌≡◌, ◌≤◌, refl, true, List, [], ◌∷◌, none, some, arith}
use junction.IntervalSet.{cleared, insert, modify}
use junction.IntervalSet.Valid.{Valid, view}
use junction.IntervalSet.Simple.{SimpleInterval, simple_interval, held, simple_interval_laws}
use junction.IntervalSet.Spec.{view-cleared}
use junction.IntervalSet.Insert.{view-insert}
use junction.IntervalSet.Modify.{ChangeLaws, changed}
use junction.IntervalSet.Modify.Loop.{view-modify}
use junction.IntervalSet.FreeRange.{Free}

abbrev item : ℕ → ℕ → SimpleInterval
item s e = record { start_ = s; end_ = e }

-- [1, 3), [5, 9)
abbrev two_items : List SimpleInterval
two_items = item 1 3 ∷ item 5 9 ∷ []

two_items-Valid : Valid simple_interval 0 two_items
two_items-Valid = (omega arith, omega arith, (omega arith, omega arith, tt))

view-cleared_example : view simple_interval held (cleared simple_interval 2 6 two_items) 4 ≡ none
view-cleared_example =
    view-cleared simple_interval simple_interval_laws 2 6 0 4 two_items (omega arith)
      two_items-Valid

view-insert_example :
    view simple_interval held (insert simple_interval (item 3 5) two_items) 4 ≡ some tt
view-insert_example =
    view-insert simple_interval simple_interval_laws 0 4 (item 3 5) two_items two_items-Valid
      (omega arith) (omega arith)

kept : ChangeLaws simple_interval held (λ t. true) (λ t. t) (λ v. v)
kept = record {
  start-change = λ t. refl;
  end-change = λ t. refl;
  value-change = λ t a. refl;
  skipped = λ t a h. refl;
}

view-modify_example :
    view simple_interval held (modify simple_interval 2 6 (λ t. true) (λ t. t) two_items) 5
    ≡ changed 2 6 (λ v. v) 5 (view simple_interval held two_items 5)
view-modify_example =
    view-modify simple_interval simple_interval_laws 2 6 kept (omega arith) 0 5 two_items
      two_items-Valid

abbrev full : List SimpleInterval
full = item 0 9 ∷ []

full-not_Free : (g : ℕ) → g + 2 ≤ 9 → ¬ Free simple_interval held full g 2
full-not_Free g h free = ground (arith, free g (omega arith) (omega arith))
