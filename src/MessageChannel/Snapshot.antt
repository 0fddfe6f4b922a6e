-- ===== src/MessageChannel/Snapshot.antt =====
-- save and load.
use native.Mathlib.Nat.{mod-eq_of_lt}
use junction.Prelude.{
  ℕ, zero, suc, ◌≡◌, ◌+◌, ◌-◌, ◌%◌, ◌^◌, ◌≤◌, ◌<◌, refl, sym, ap, ap₂, ◌∙◌, true, false, ◌==◌,
  if◌then◌else◌, ltb, List, [], ◌∷◌, length, get_or, set, length-set, add64, sub64, arith,
  Bool-cases, inl, inr,
}
use junction.Prelude.Tabulate.{tabulate, tabulate_cong, length-tabulate, tabulate-get_or}
use junction.ByteChannel.Valid.{place_wrapped}
use junction.MessageChannel.{
  Message, blank_message, MessageChannel, slot, save_loop, save, load_loop, load,
}
use junction.MessageChannel.Ring.{IsValid, used, contents, get_or-set_self, get_or-set_ne}

get_or-load_loop :
    {A : Type 0} (d : Message A) (blank : A) (moved_from : A → A) (ms : List (Message A)) (i : ℕ)
    (msgs : List (Message A)) (j : ℕ)
    → i + length ms ≤ length msgs
    → get_or (load_loop blank moved_from ms i msgs) j d ≡ (
        if ltb j i
        then get_or msgs j d
        else if ltb j (i + length ms)
        then get_or ms (j - i) d
        else get_or msgs j d)
unfolding load_loop
get_or-load_loop d blank moved_from [] i msgs j h = ground arith
get_or-load_loop d blank moved_from (m ∷ ms) i msgs j h =
    let rest =
      get_or-load_loop d blank moved_from ms (i + 1) (set msgs i m) j
        (omega (arith, length-set msgs i m)) in
    elim (Bool-cases (j == i)) [
      | inl this ↦
          let same : j ≡ i = ground (arith, this) in
          let put : get_or (set msgs i m) j d ≡ m =
            ap (λ (k : ℕ). get_or (set msgs i m) k d) same
            ∙ get_or-set_self msgs i m d (omega arith) in
          let first : get_or (m ∷ ms) (j - i) d ≡ m =
            let e : j - i ≡ 0 = omega arith in ap (λ (k : ℕ). get_or (m ∷ ms) k d) e in
          ground (arith, rest, put, first, same)
      | inr that ↦
          let kept = get_or-set_ne msgs i j m d (λ e. absurd (ground (arith, that, e))) in
          let later : i < j → get_or (m ∷ ms) (j - i) d ≡ get_or ms (j - (i + 1)) d = λ lt.
            let e : j - i ≡ suc (j - (i + 1)) = omega (arith, lt) in
            ap (λ (k : ℕ). get_or (m ∷ ms) k d) e in
          ground (arith, rest, kept, later, that)
    ]

length-load_loop :
    {A : Type 0} (blank : A) (moved_from : A → A) (ms : List (Message A)) (i : ℕ)
    (msgs : List (Message A))
    → length (load_loop blank moved_from ms i msgs) ≡ length msgs
unfolding load_loop
length-load_loop blank moved_from [] i msgs = refl
length-load_loop blank moved_from (m ∷ ms) i msgs =
    length-load_loop blank moved_from ms (i + 1) (set msgs i m) ∙ length-set msgs i m

module _ {A : Type 0} (blank : A) (moved_from : A → A) where
  save_loop_lem :
      (c : MessageChannel A) (k x : ℕ)
      → IsValid c
      → k ≤ c.size
      → c.in_ ≡ (x + k) % 2 ^ 64
      → save_loop blank moved_from k c (x % 2 ^ 64)
        ≡ tabulate (λ i. slot blank moved_from c (x + i)) k
  unfolding save_loop
  save_loop_lem c zero x v h e = refl
  save_loop_lem c (suc k) x v h e =
      let more : (x % 2 ^ 64 == c.in_) ≡ false = ground (arith, e, v.small) in
      let step : add64 (x % 2 ^ 64) 1 ≡ (x + 1) % 2 ^ 64 = omega arith in
      let here : slot blank moved_from c (x % 2 ^ 64) ≡ slot blank moved_from c (x + 0) =
        let plain : x % 2 ^ 64 ≡ x % 2 ^ 64 + 0 = omega arith in
        ap (λ (y : ℕ). get_or c.msgs (y % c.size) (blank_message blank)) plain
        ∙ ap (λ (y : ℕ). get_or c.msgs y (blank_message blank))
            (place_wrapped c.size x 0 v.divides) in
      let end : x + suc k ≡ x + 1 + k = omega arith in
      rw (more, step)
        (ap₂ ◌∷◌ here (
          save_loop_lem c k (x + 1) v (omega arith) (e ∙ ap (λ (y : ℕ). y % 2 ^ 64) end)
          ∙ tabulate_cong (λ i. slot blank moved_from c (x + 1 + i))
              (λ i. slot blank moved_from c (x + suc i)) k
              (λ i p.
                let same : x + 1 + i ≡ x + suc i = omega arith in
                ap (slot blank moved_from c) same)))

  loaded_place :
      (ms : List (Message A)) (i : ℕ) (a b : Message A)
      → i < length ms
      → a ≡ (
          if ltb i 0
          then b
          else if ltb i (0 + length ms)
          then get_or ms (i - 0) (blank_message blank)
          else b)
      → a ≡ get_or ms i (blank_message blank)
  loaded_place ms i a b h e =
      let inside : ltb i (0 + length ms) ≡ true = ground (arith, h) in
      let outside : ltb i 0 ≡ false = ground arith in
      let plain : i - 0 ≡ i = omega arith in e ∙ rw (outside, inside, plain) refl

  -- A channel that is saved and loaded into a new one of its size has its messages, in their order.
  pub load-save :
      (c new : MessageChannel A)
      → IsValid c
      → IsValid new
      → new.size ≡ c.size
      → new.out_ ≡ 0
      → let c' = load blank moved_from new (save blank moved_from c) in
        IsValid c' × (contents blank moved_from c' ≡ contents blank moved_from c)
  unfolding load save
  load-save c new v w size start =
      let n = used c in
      let whole : c.out_ ≡ c.out_ % 2 ^ 64 = omega (arith, v.out_small) in
      let messages : save_loop blank moved_from n c c.out_ ≡ contents blank moved_from c =
        ap (save_loop blank moved_from n c) whole
        ∙ save_loop_lem c n c.out_ v v.within (omega (arith, v.in_small, v.out_small)) in
      let ms = contents blank moved_from c in
      let count : length ms ≡ n = length-tabulate _ n in
      let bounded : n ≤ new.size = omega (arith, size, v.within) in
      let loaded = load_loop blank moved_from ms 0 new.msgs in
      let same_count : sub64 n new.out_ ≡ n = ground (arith, start) in
      rw messages (
        record {
          divides = w.divides;
          room = w.room;
          small = w.small;
          storage = length-load_loop blank moved_from ms 0 new.msgs ∙ w.storage;
          in_small = omega arith;
          out_small = w.out_small;
          within = omega (arith, same_count, bounded);
        },
        ap (tabulate (λ i. get_or loaded ((new.out_ + i) % new.size) (blank_message blank)))
              (same_count ∙ sym count)
            ∙ (tabulate_cong (λ i. get_or loaded ((new.out_ + i) % new.size) (blank_message blank))
                  (λ i. get_or ms i (blank_message blank)) (length ms)
                  (λ i p.
                    let small_i : i < new.size = omega (arith, count, bounded) in
                    let plain : new.out_ + i ≡ i = omega (arith, start) in
                    ap (λ (k : ℕ). get_or loaded k (blank_message blank))
                      (ap (λ (k : ℕ). k % new.size) plain ∙ mod-eq_of_lt small_i)
                    ∙ loaded_place ms i _ _ p (
                        get_or-load_loop (blank_message blank) blank moved_from ms 0 new.msgs i
                          (omega (arith, count, bounded, w.storage))))
                ∙ tabulate-get_or (blank_message blank) ms),
      )
