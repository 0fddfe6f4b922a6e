-- ===== src/MessageChannel/Torn.antt =====
-- base/message_channel.h: a writer between the store of out_ and the clearing of the slot in Read and Readv.
use native.Mathlib.Nat.{mod-lt, mul-add-mod_self_left}
use junction.Prelude.{
  ℕ, ◌≡◌, ◌+◌, ◌*◌, ◌%◌, ◌<◌, refl, ap, ◌∙◌, false, leb, List, [], length, get_or, set, length-set,
  Option, ok, arith,
}
use junction.MessageChannel.{
  Message, blank_message, MessageChannel, slot, release, clear_data, produced, write,
}
use junction.MessageChannel.Ring.{IsValid, used, new_message, get_or-set_self, writer_place}

module _ {A : Type 0} (blank : A) (moved_from : A → A) where
  -- When the channel is full, a writer can come as soon as the reader has stored out_. Its message is
  -- accepted, and the reader then clears the bytes of this message, and not of the one that it has read.
  lost_message :
      (c : MessageChannel A) (bytes : List ℕ) (aux : Option A)
      → IsValid c
      → used c ≡ c.size
      → let (r, t) = write blank moved_from (release blank moved_from c) bytes aux in
        (r ≡ ok (length bytes))
        × ((slot blank moved_from (clear_data blank moved_from t c.out_) c.in_).bytes ≡ [])
  unfolding write
  lost_message c bytes aux v full =
      let freed = release blank moved_from c in
      let room : leb c.size (used freed) ≡ false =
        ground (arith, full, v.room, v.small, v.in_small, v.out_small) in
      let t = produced blank moved_from freed bytes aux in
      let m : Message A = record (slot blank moved_from t c.out_) { bytes = [] } in
      let round : c.out_ + used c ≡ c.size * 1 + c.out_ = omega (arith, full) in
      let same : c.in_ % c.size ≡ c.out_ % c.size =
        writer_place blank moved_from c v
        ∙ (ap (λ (k : ℕ). k % c.size) round ∙ mul-add-mod_self_left c.size 1 c.out_) in
      let inside : c.out_ % c.size < length t.msgs = omega (
        arith,
        mod-lt c.out_ v.room,
        v.storage,
        length-set c.msgs (c.in_ % c.size) (new_message blank moved_from c bytes aux),
      ) in
      rw room (
        refl,
        ap (λ (k : ℕ). (get_or (set t.msgs (c.out_ % c.size) m) k (blank_message blank)).bytes) same
            ∙ ap (λ (n : Message A). n.bytes)
                (get_or-set_self t.msgs (c.out_ % c.size) m (blank_message blank) inside),
      )
