-- ===== src/Mm.antt =====
-- kernel/mm.h: one mapping of a process (VMArea) as an item of ExclusiveIntervalSet.
pub mod Laws
pub mod Map
use junction.Prelude.{
  ℕ, ◌+◌, ◌-◌, ◌≤◌, ◌<◌, ◌≡◌, refl, Bool, true, false, ◌==◌, ◌&&◌, ◌||◌, if◌then◌else◌, Option,
  none, some, arith, not,
}
use junction.Bits.{is_page_aligned}
use junction.IntervalSet.{IntervalData}
use junction.IntervalSet.Valid.{IntervalLaws}

pub data VmType : Type 0 where
  normal heap stack file : VmType

-- The value of the enum, by which mappings are compared.
abbrev pub to_int : VmType → ℕ
to_int VmType.normal = 0
to_int VmType.heap = 1
to_int VmType.stack = 2
to_int VmType.file = 3

-- A file is a number that stands for the pointer, `none` is the null pointer. Offsets are not
-- negative.
pub record VmArea : Type 0 where
  pub start : ℕ
  pub end : ℕ
  pub prot : ℕ
  pub traced : Bool
  pub type : VmType
  pub backing : Option ℕ
  pub offset : ℕ

pub length : VmArea → ℕ
length v = v.end - v.start

abbrev pub is_file : VmArea → Bool
is_file v = to_int v.type == 3

abbrev pub bool_eq : Bool → Bool → Bool
bool_eq true b = b
bool_eq false b = not b

abbrev pub file_eq : Option ℕ → Option ℕ → Bool
file_eq none none = true
file_eq (some a) (some b) = a == b
file_eq _ _ = false

pub mappings_mergeable : VmArea → VmArea → Bool
unfolding length
mappings_mergeable lhs rhs =
    if not (lhs.end == rhs.start)
      || not (to_int lhs.type == to_int rhs.type)
      || not (lhs.prot == rhs.prot)
    then false
    else if not (bool_eq lhs.traced rhs.traced)
    then false
    else if is_file lhs
    then (if not (lhs.offset + length lhs == rhs.offset)
        then false
        else file_eq lhs.backing rhs.backing)
    else true

pub trim_tail : VmArea → ℕ → VmArea
trim_tail v new_end = record v { end = new_end }

pub trim_head : VmArea → ℕ → VmArea
trim_head v new_start = record v {
  start = new_start;
  offset = if is_file v then v.offset + (new_start - v.start) else v.offset;
}

pub try_merge_right : VmArea → VmArea → Option VmArea
unfolding mappings_mergeable
try_merge_right rhs lhs =
    if mappings_mergeable lhs rhs
    then some (record rhs { start = lhs.start; offset = lhs.offset })
    else none

abbrev pub vm_area : IntervalData VmArea
vm_area = record {
  get_start = λ v. v.start;
  get_end = λ v. v.end;
  trim_tail = trim_tail;
  trim_head = trim_head;
  try_merge_right = try_merge_right;
}

-- What a mapping says of one address: its protection and, for a file, the offset that it shows.
pub record Mapped : Type 0 where
  pub prot : ℕ
  pub traced : Bool
  pub type : ℕ
  pub shows : Option (Option ℕ × ℕ)

abbrev pub mapped : VmArea → ℕ → Mapped
mapped v a = record {
  prot = v.prot;
  traced = v.traced;
  type = to_int v.type;
  shows = if is_file v then some (v.backing, v.offset + (a - v.start)) else none;
}
