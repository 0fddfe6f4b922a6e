-- ===== src/IntervalSet/Simple.antt =====
-- SimpleInterval, an item that carries nothing but its ends.
use junction.Prelude.{ℕ, ◌==◌, refl, if◌then◌else◌, Option, none, some, arith}
use junction.IntervalSet.{IntervalData}
use junction.IntervalSet.Valid.{IntervalLaws}

pub record SimpleInterval : Type 0 where
  pub start_ : ℕ
  pub end_ : ℕ

-- The asserts of TrimTail and TrimHead are facts about the calls in ExclusiveIntervalSet.
unfoldable pub trim_tail : SimpleInterval → ℕ → SimpleInterval
trim_tail t new_end = record t { end_ = new_end }

unfoldable pub trim_head : SimpleInterval → ℕ → SimpleInterval
trim_head t new_start = record t { start_ = new_start }

unfoldable pub try_merge_right : SimpleInterval → SimpleInterval → Option SimpleInterval
try_merge_right rhs lhs =
    if rhs.start_ == lhs.end_ then some (record rhs { start_ = lhs.start_ }) else none

abbrev pub simple_interval : IntervalData SimpleInterval
simple_interval = record {
  get_start = λ t. t.start_;
  get_end = λ t. t.end_;
  trim_tail = trim_tail;
  trim_head = trim_head;
  try_merge_right = try_merge_right;
}

-- An address is held, or it is not.
abbrev pub held : SimpleInterval → ℕ → Unit {0}
held t a = tt

-- SimpleInterval is an item type as ExclusiveIntervalSet needs it.
pub simple_interval_laws : IntervalLaws simple_interval held
unfolding trim_tail trim_head try_merge_right
simple_interval_laws = record {
  start-trim_tail = λ t e. refl;
  end-trim_tail = λ t e. refl;
  start-trim_head = λ t s. refl;
  end-trim_head = λ t s. refl;
  value-trim_tail = λ t e a. refl;
  value-trim_head = λ t s a p q. refl;
  end-merge = λ r l m e. ground arith;
  start-merge = λ r l m e. ground arith;
  merge_adjacent = λ r l m e. ground arith;
  value-merge_left = λ r l m a e p q. refl;
  value-merge_right = λ r l m a e n p q. refl;
}
