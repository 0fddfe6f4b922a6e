-- ===== src/MessageChannel/Consume.antt =====
-- The channel after its oldest message is read.

use junction.Prelude.{
  ℕ, zero, suc, ◌≡◌, ◌+◌, ◌-◌, ◌%◌, ◌<◌, refl, sym, ap, ap₂, subst, ◌∙◌, Bool, true, false,
  if◌then◌else◌, List, [], ◌∷◌, get_or, set, length-set, drop, add64, arith,
}
use junction.Prelude.Tabulate.{tabulate, tabulate_cong, drop-tabulate}
use junction.ByteChannel.Valid.{place_wrapped}
use junction.MessageChannel.{Message, blank_message, MessageChannel, slot, consumed}
use junction.MessageChannel.Ring.{IsValid, used, contents, other_slot, this_slot}

tabulate_first :
    {A : Type 0} (f : ℕ → A) (n : ℕ) → 0 < n → tabulate f n ≡ f 0 ∷ drop 1 (tabulate f n)
tabulate_first f zero h = absurd (omega arith)
tabulate_first f (suc n) h = refl

set-set : {A : Type 0} (xs : List A) (i : ℕ) (v w : A) → set (set xs i v) i w ≡ set xs i w
set-set [] i v w = refl
set-set (x ∷ xs) zero v w = refl
set-set (x ∷ xs) (suc i) v w = ap (λ (l : List _). x ∷ l) (set-set xs i v w)

module _ {A : Type 0} (blank : A) (moved_from : A → A) where
  -- The slot after its auxiliary data were handed out, when they were, and its data cleared, unless the
  -- call peeks.
  abbrev pub after_read : Bool → Bool → Message A → Message A
  after_read take_aux peek m =
      let aux = if take_aux then moved_from m.aux_data else m.aux_data in
      record m { aux_data = aux; bytes = if peek then m.bytes else [] }

  -- The same as a read in one change of the slot.
  abbrev at_once : MessageChannel A → Bool → Bool → MessageChannel A
  at_once c take_aux peek = record c {
    out_ = if peek then c.out_ else add64 c.out_ 1;
    msgs = set c.msgs (c.out_ % c.size) (after_read take_aux peek (slot blank moved_from c c.out_));
  }

  used-at_once :
      (c : MessageChannel A) (take_aux : Bool)
      → IsValid c
      → 0 < used c
      → used (at_once c take_aux false) ≡ used c - 1
  used-at_once c take_aux v h = omega (arith, v.in_small, v.out_small)

  at_once-IsValid :
      (c : MessageChannel A) (take_aux peek : Bool)
      → IsValid c
      → 0 < used c
      → IsValid (at_once c take_aux peek)
  at_once-IsValid c take_aux true v h = record {
    divides = v.divides;
    room = v.room;
    small = v.small;
    storage = length-set c.msgs (c.out_ % c.size) _ ∙ v.storage;
    in_small = v.in_small;
    out_small = v.out_small;
    within = v.within;
  }
  at_once-IsValid c take_aux false v h = record {
    divides = v.divides;
    room = v.room;
    small = v.small;
    storage = length-set c.msgs (c.out_ % c.size) _ ∙ v.storage;
    in_small = v.in_small;
    out_small = omega arith;
    within = omega (arith, used-at_once c take_aux v h, v.within);
  }

  -- A channel that is not empty has its oldest message where the reader stands.
  pub contents_first :
      (c : MessageChannel A)
      → 0 < used c
      → contents blank moved_from c
        ≡ slot blank moved_from c c.out_ ∷ drop 1 (contents blank moved_from c)
  contents_first c h =
      let plain : c.out_ + 0 ≡ c.out_ = omega arith in
      let f = λ (i : ℕ). slot blank moved_from c (c.out_ + i) in
      tabulate_first f (used c) h
      ∙ ap (λ (x : ℕ). slot blank moved_from c x ∷ drop 1 (contents blank moved_from c)) plain

  contents-at_once :
      (c : MessageChannel A) (take_aux : Bool)
      → IsValid c
      → 0 < used c
      → contents blank moved_from (at_once c take_aux false) ≡ drop 1 (contents blank moved_from c)
  contents-at_once c take_aux v h =
      let m = after_read take_aux false (slot blank moved_from c c.out_) in
      let f = λ (i : ℕ).
        get_or (set c.msgs (c.out_ % c.size) m) ((add64 c.out_ 1 + i) % c.size)
          (blank_message blank) in
      let plain : c.out_ ≡ c.out_ + 0 = omega arith in
      ap (tabulate f) (used-at_once c take_aux v h)
      ∙ (tabulate_cong f (λ i. slot blank moved_from c (c.out_ + (1 + i))) (used c - 1)
            (λ i p.
              let e : c.out_ + 1 + i ≡ c.out_ + (1 + i) = omega arith in
              ap₂ (λ (j k : ℕ). get_or (set c.msgs (j % c.size) m) k (blank_message blank)) plain
                (place_wrapped c.size (c.out_ + 1) i v.divides ∙ ap (λ (k : ℕ). k % c.size) e)
              ∙ other_slot blank moved_from c (1 + i) 0 m v (omega (arith, v.within)) v.room
                  (omega arith))
          ∙ sym (drop-tabulate (λ i. slot blank moved_from c (c.out_ + i)) 1 (used c)))

  contents-peeked_at_once :
      (c : MessageChannel A) (take_aux : Bool)
      → IsValid c
      → 0 < used c
      → contents blank moved_from (at_once c take_aux true)
        ≡ after_read take_aux true (slot blank moved_from c c.out_)
          ∷ drop 1 (contents blank moved_from c)
  contents-peeked_at_once c take_aux v h =
      let c' = at_once c take_aux true in
      let m = after_read take_aux true (slot blank moved_from c c.out_) in
      let f = λ (i : ℕ). slot blank moved_from c' (c.out_ + i) in
      let plain : c.out_ ≡ c.out_ + 0 = omega arith in
      contents_first c' h
      ∙ ap₂ ◌∷◌ (this_slot blank moved_from c c.out_ m v) (
          drop-tabulate f 1 (used c)
          ∙ (tabulate_cong (λ i. f (1 + i)) (λ i. slot blank moved_from c (c.out_ + (1 + i)))
                (used c - 1)
                (λ i p.
                  ap
                    (λ (j : ℕ).
                      get_or (set c.msgs (j % c.size) m) ((c.out_ + (1 + i)) % c.size)
                        (blank_message blank))
                    plain
                  ∙ other_slot blank moved_from c (1 + i) 0 m v (omega (arith, v.within)) v.room
                      (omega arith))
              ∙ sym (drop-tabulate (λ i. slot blank moved_from c (c.out_ + i)) 1 (used c))))

  consumed-at_once :
      (c : MessageChannel A) (take_aux peek : Bool)
      → IsValid c
      → at_once c take_aux peek ≡ consumed blank moved_from c take_aux peek
  consumed-at_once c take_aux true v = refl
  consumed-at_once c take_aux false v =
      let m = slot blank moved_from c c.out_ in
      let handed = record m { aux_data = if take_aux then moved_from m.aux_data else m.aux_data } in
      let again = this_slot blank moved_from c c.out_ handed v in
      let put = λ (l : List (Message A)). record c { out_ = add64 c.out_ 1; msgs = l } in
      ap put (
        sym (set-set c.msgs (c.out_ % c.size) handed (record handed { bytes = [] }))
        ∙ ap
            (λ (n : Message A).
              set (set c.msgs (c.out_ % c.size) handed) (c.out_ % c.size) (record n { bytes = [] }))
            (sym again))

  pub consumed-IsValid :
      (c : MessageChannel A) (take_aux peek : Bool)
      → IsValid c
      → 0 < used c
      → IsValid (consumed blank moved_from c take_aux peek)
  consumed-IsValid c take_aux peek v h =
      subst IsValid (consumed-at_once c take_aux peek v) (at_once-IsValid c take_aux peek v h)

  pub contents-consumed :
      (c : MessageChannel A) (take_aux : Bool)
      → IsValid c
      → 0 < used c
      → contents blank moved_from (consumed blank moved_from c take_aux false)
        ≡ drop 1 (contents blank moved_from c)
  contents-consumed c take_aux v h =
      ap (contents blank moved_from) (sym (consumed-at_once c take_aux false v))
      ∙ contents-at_once c take_aux v h

  pub contents-peeked :
      (c : MessageChannel A) (take_aux : Bool)
      → IsValid c
      → 0 < used c
      → contents blank moved_from (consumed blank moved_from c take_aux true)
        ≡ after_read take_aux true (slot blank moved_from c c.out_)
          ∷ drop 1 (contents blank moved_from c)
  contents-peeked c take_aux v h = contents-peeked_at_once c take_aux v h
