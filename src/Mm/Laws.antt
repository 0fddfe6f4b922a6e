-- ===== src/Mm/Laws.antt =====
-- VMArea is an item type as ExclusiveIntervalSet needs it.
use junction.Prelude.{ℕ, ◌+◌, ◌-◌, ◌≤◌, ◌<◌, ◌≡◌, refl, Bool, true, Option, some, arith, ap, ◌∙◌}
use junction.IntervalSet.Valid.{IntervalLaws}
use junction.Mm.{
  VmArea, is_file, mappings_mergeable, trim_tail, trim_head, try_merge_right, vm_area, bool_eq,
  file_eq, mapped, length, to_int,
}

bool_eq→≡ : (a b : Bool) → bool_eq a b ≡ true → a ≡ b
bool_eq→≡ a b h = ground arith

file_eq→≡ : (a b : Option ℕ) → file_eq a b ≡ true → a ≡ b
file_eq→≡ a b h = ground arith

mergeable_facts :
    (l r : VmArea)
    → mappings_mergeable l r ≡ true
    → (l.end ≡ r.start)
      × (to_int l.type ≡ to_int r.type)
      × (l.prot ≡ r.prot)
      × (l.traced ≡ r.traced)
      × (is_file l ≡ true → (l.offset + (l.end - l.start) ≡ r.offset) × (l.backing ≡ r.backing))
unfolding mappings_mergeable length
mergeable_facts l r h = ground (arith, bool_eq→≡ l.traced r.traced, file_eq→≡ l.backing r.backing)

merged : VmArea → VmArea → VmArea
merged r l = record r { start = l.start; offset = l.offset }

merge_inv :
    (r l m : VmArea)
    → try_merge_right r l ≡ some m
    → (mappings_mergeable l r ≡ true) × (m ≡ merged r l)
unfolding try_merge_right merged
merge_inv r l m e = ground arith

mapped_left :
    (r l : VmArea) (a : ℕ) → mappings_mergeable l r ≡ true → mapped (merged r l) a ≡ mapped l a
unfolding merged
mapped_left r l a h = ground (arith, mergeable_facts l r h)

mapped_right :
    (r l : VmArea) (a : ℕ)
    → mappings_mergeable l r ≡ true
    → l.start < l.end
    → r.start ≤ a
    → mapped (merged r l) a ≡ mapped r a
unfolding merged
mapped_right r l a h n p = ground (arith, mergeable_facts l r h)

-- Splitting, trimming and merging mappings change no address's protection, type, file or offset.
pub vm_area_laws : IntervalLaws vm_area mapped
unfolding trim_tail trim_head try_merge_right merged
vm_area_laws = record {
  start-trim_tail = λ t e. refl;
  end-trim_tail = λ t e. refl;
  start-trim_head = λ t s. refl;
  end-trim_head = λ t s. refl;
  value-trim_tail = λ t e a. refl;
  value-trim_head = λ t s a p q. ground arith;
  end-merge = λ r l m e. ground arith;
  start-merge = λ r l m e. ground arith;
  merge_adjacent = λ r l m e. (mergeable_facts l r (merge_inv r l m e).0).0;
  value-merge_left = λ r l m a e p q.
      ap (λ (v : VmArea). mapped v a) (merge_inv r l m e).1
      ∙ mapped_left r l a (merge_inv r l m e).0;
  value-merge_right = λ r l m a e n p q.
      ap (λ (v : VmArea). mapped v a) (merge_inv r l m e).1
      ∙ mapped_right r l a (merge_inv r l m e).0 n p;
}
