-- ===== src/MessageChannel/Ring.antt =====
-- The slots of a ring of messages, and what holds of a channel at all times.
use Prim.Native.Nat.{◌∣◌}
use native.Mathlib.Nat.{mod-lt}
use junction.Prelude.{
  ℕ, zero, suc, ◌≡◌, ◌≢◌, ◌+◌, ◌-◌, ◌%◌, ◌^◌, ◌≤◌, ◌<◌, refl, sym, ap, ap₂, ◌∙◌, if◌then◌else◌, ltb,
  List, [], ◌∷◌, ◌++◌, length, get_or, set, length-set, sub64, Option, arith, Bool-cases, inl, inr,
  ltb→lt, ltb_false→le,
}
use junction.Prelude.Tabulate.{tabulate, tabulate_cong, tabulate-add}
use junction.ByteChannel.Valid.{place_wrapped, place_before_end, place_behind_end}
use junction.MessageChannel.{Message, blank_message, MessageChannel, slot, produced, put_aux}

pub get_or-set_self :
    {A : Type 0} (xs : List A) (i : ℕ) (v d : A) → i < length xs → get_or (set xs i v) i d ≡ v
get_or-set_self [] i v d h = absurd (omega arith)
get_or-set_self (x ∷ xs) zero v d h = refl
get_or-set_self (x ∷ xs) (suc i) v d h = get_or-set_self xs i v d (omega arith)

pub get_or-set_ne :
    {A : Type 0} (xs : List A) (i j : ℕ) (v d : A) → i ≢ j → get_or (set xs i v) j d ≡ get_or xs j d
get_or-set_ne [] i j v d h = refl
get_or-set_ne (x ∷ xs) zero zero v d h = absurd (h refl)
get_or-set_ne (x ∷ xs) zero (suc j) v d h = refl
get_or-set_ne (x ∷ xs) (suc i) zero v d h = refl
get_or-set_ne (x ∷ xs) (suc i) (suc j) v d h = get_or-set_ne xs i j v d (λ e. h (ap suc e))

place_of :
    (s x k : ℕ)
    → 0 < s
    → k < s
    → (x + k) % s ≡ (if ltb k (s - x % s) then x % s + k else k - (s - x % s))
place_of s x k pos h = elim (Bool-cases (ltb k (s - x % s))) [
  | inl before ↦ rw before (place_before_end s x k (ltb→lt _ _ before))
  | inr behind ↦
      let past : s - x % s ≤ k = ltb_false→le k (s - x % s) behind in
      rw behind
        (place_behind_end s x k (k - (s - x % s)) (omega arith) (omega (arith, mod-lt x pos)))
]

-- Two places of the ring differ.
distinct : (s x i j : ℕ) → 0 < s → i < s → j < s → i ≢ j → (x + i) % s ≢ (x + j) % s
distinct s x i j pos hi hj ne e =
    ground (arith, place_of s x i pos hi, place_of s x j pos hj, e, mod-lt x pos)

pub record IsValid {A : Type 0} (c : MessageChannel A) : Type 0 where
  pub divides : c.size ∣ 2 ^ 64
  pub room : 0 < c.size
  pub small : c.size < 2 ^ 64
  pub storage : length c.msgs ≡ c.size
  pub in_small : c.in_ < 2 ^ 64
  pub out_small : c.out_ < 2 ^ 64
  pub within : sub64 c.in_ c.out_ ≤ c.size

-- The number of messages in the channel.
abbrev pub used : {A : Type 0} → MessageChannel A → ℕ
used c = sub64 c.in_ c.out_

module _ {A : Type 0} (blank : A) (moved_from : A → A) where
  -- The messages in the channel, oldest first.
  abbrev pub contents : MessageChannel A → List (Message A)
  contents c = tabulate (λ i. slot blank moved_from c (c.out_ + i)) (used c)

  -- A slot that is not `j` places behind the reader is as it was.
  pub other_slot :
      (c : MessageChannel A) (i j : ℕ) (m : Message A)
      → IsValid c
      → i < c.size
      → j < c.size
      → i ≢ j
      → get_or (set c.msgs ((c.out_ + j) % c.size) m) ((c.out_ + i) % c.size) (blank_message blank)
        ≡ slot blank moved_from c (c.out_ + i)
  other_slot c i j m v hi hj ne =
      get_or-set_ne c.msgs ((c.out_ + j) % c.size) ((c.out_ + i) % c.size) m (blank_message blank)
        (distinct c.size c.out_ j i v.room hj hi (λ e. ne (sym e)))

  pub this_slot :
      (c : MessageChannel A) (i : ℕ) (m : Message A)
      → IsValid c
      → get_or (set c.msgs (i % c.size) m) (i % c.size) (blank_message blank) ≡ m
  this_slot c i m v =
      get_or-set_self c.msgs (i % c.size) m (blank_message blank)
        (omega (arith, v.storage, mod-lt i v.room))

  -- The writer stands `used` places behind the reader.
  pub writer_place :
      (c : MessageChannel A) → IsValid c → c.in_ % c.size ≡ (c.out_ + used c) % c.size
  writer_place c v =
      let e : c.in_ + 0 ≡ (c.out_ + used c) % 2 ^ 64 + 0 = omega (arith, v.in_small, v.out_small) in
      let plain : c.in_ + 0 ≡ c.in_ = omega arith in
      let whole : c.out_ + used c + 0 ≡ c.out_ + used c = omega arith in
      ap (λ (x : ℕ). x % c.size) (sym plain ∙ e)
      ∙ (place_wrapped c.size (c.out_ + used c) 0 v.divides ∙ ap (λ (x : ℕ). x % c.size) whole)

  used-produced :
      (c : MessageChannel A) (bytes : List ℕ) (aux : Option A)
      → IsValid c
      → used c < c.size
      → used (produced blank moved_from c bytes aux) ≡ used c + 1
  used-produced c bytes aux v h = omega (arith, v.in_small, v.out_small, v.small)

  pub produced-IsValid :
      (c : MessageChannel A) (bytes : List ℕ) (aux : Option A)
      → IsValid c
      → used c < c.size
      → IsValid (produced blank moved_from c bytes aux)
  produced-IsValid c bytes aux v h = record {
    divides = v.divides;
    room = v.room;
    small = v.small;
    storage = length-set c.msgs (c.in_ % c.size) _ ∙ v.storage;
    in_small = omega arith;
    out_small = v.out_small;
    within = omega (arith, used-produced c bytes aux v h);
  }

  -- The message that is put in: its bytes, the auxiliary data that are given, and the rest of its slot.
  abbrev pub new_message : MessageChannel A → List ℕ → Option A → Message A
  new_message c bytes aux =
      let old = slot blank moved_from c c.in_ in
      record old { aux_data = put_aux blank moved_from aux old.aux_data; bytes = bytes }

  pub contents-produced :
      (c : MessageChannel A) (bytes : List ℕ) (aux : Option A)
      → IsValid c
      → used c < c.size
      → contents (produced blank moved_from c bytes aux)
        ≡ contents c ++ new_message c bytes aux ∷ []
  contents-produced c bytes aux v h =
      let m = new_message c bytes aux in
      let f = λ (i : ℕ).
        get_or (set c.msgs (c.in_ % c.size) m) ((c.out_ + i) % c.size) (blank_message blank) in
      let at_in = writer_place c v in
      ap (tabulate f) (used-produced c bytes aux v h)
      ∙ (tabulate-add f (used c) 1
          ∙ ap₂ ◌++◌
              (tabulate_cong f (λ i. slot blank moved_from c (c.out_ + i)) (used c)
                (λ i p.
                  ap
                    (λ (k : ℕ).
                      get_or (set c.msgs k m) ((c.out_ + i) % c.size) (blank_message blank))
                    at_in
                  ∙ other_slot c i (used c) m v (omega (arith, v.within)) h (omega arith)))
              (let here : (c.out_ + (used c + 0)) % c.size ≡ c.in_ % c.size =
                  let e : c.out_ + (used c + 0) ≡ c.out_ + used c = omega arith in
                  ap (λ (x : ℕ). x % c.size) e ∙ sym at_in in
                ap (λ (n : Message A). n ∷ [])
                  (ap (λ (k : ℕ). get_or (set c.msgs (c.in_ % c.size) m) k (blank_message blank))
                      here
                    ∙ this_slot c c.in_ m v)))
