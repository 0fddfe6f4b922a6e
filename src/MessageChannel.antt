-- ===== src/MessageChannel.antt =====
-- base/message_channel.h: a FIFO of messages for one reader and one writer, in a ring of slots like that of
-- ByteChannel. Each message has auxiliary data of a type `A`. Read hands them out by a move, after which
-- the slot has what `moved_from` gives.
pub mod Ring
pub mod Consume
pub mod Fifo
pub mod Torn
pub mod Snapshot
mod Tests
use junction.Prelude.{
  ℕ, zero, suc, ◌+◌, ◌-◌, ◌%◌, min, max, Bool, true, false, ◌==◌, if◌then◌else◌, leb, List, [], ◌∷◌,
  ◌++◌, length, take, get_or, set, replicate, add64, sub64, Option, none, some, Status, ok, err,
  eagain, einval,
}
use junction.ByteChannel.{bit_ceil}
use junction.Io.{generic_readv, generic_writev, sum_iov}

pub record Message (A : Type 0) : Type 0 where
  pub flags : ℕ
  pub aux_data : A
  pub bytes : List ℕ

pub record MessageChannel (A : Type 0) : Type 0 where
  pub in_ : ℕ
  pub out_ : ℕ
  pub size : ℕ
  pub msgs : List (Message A)

-- `blank` is a new value of `A`.
abbrev pub blank_message : {A : Type 0} → A → Message A
blank_message blank = record { flags = 0; aux_data = blank; bytes = [] }

unfoldable pub init : {A : Type 0} → A → ℕ → MessageChannel A
init blank n = record {
  in_ = 0;
  out_ = 0;
  size = bit_ceil 64 1 (max n 1);
  msgs = replicate (bit_ceil 64 1 (max n 1)) (blank_message blank);
}

unfoldable pub is_empty : {A : Type 0} → MessageChannel A → Bool
is_empty c = c.in_ == c.out_

unfoldable pub is_full : {A : Type 0} → MessageChannel A → Bool
is_full c = leb c.size (sub64 c.in_ c.out_)

module _ {A : Type 0} (blank : A) (moved_from : A → A) where
  abbrev pub slot : MessageChannel A → ℕ → Message A
  slot c i = get_or c.msgs (i % c.size) (blank_message blank)

  abbrev pub aux_of : Bool → Message A → Option A
  aux_of take_aux m = if take_aux then some m.aux_data else none

  abbrev pub put_slot : MessageChannel A → ℕ → Message A → MessageChannel A
  put_slot c i m = record c { msgs = set c.msgs (i % c.size) m }

  -- What Read does to the channel, one after the other: it hands out the auxiliary data of the oldest
  -- message, gives its slot to the writer, and clears the data of the slot. Torn is about a writer that
  -- comes between the last two.
  abbrev pub hand_out : MessageChannel A → Bool → MessageChannel A
  hand_out c take_aux =
      let m = slot c c.out_ in
      put_slot c c.out_
        (record m { aux_data = if take_aux then moved_from m.aux_data else m.aux_data })

  abbrev pub release : MessageChannel A → MessageChannel A
  release c = record c { out_ = add64 c.out_ 1 }

  abbrev pub clear_data : MessageChannel A → ℕ → MessageChannel A
  clear_data c i = put_slot c i (record (slot c i) { bytes = [] })

  -- The channel after its oldest message is read, where no writer comes between.
  abbrev pub consumed : MessageChannel A → Bool → Bool → MessageChannel A
  consumed c take_aux peek =
      if peek then hand_out c take_aux else clear_data (release (hand_out c take_aux)) c.out_

  -- `len` is the length of the caller's buffer; `take_aux` tells whether `aux_out` is not null.
  pub read : MessageChannel A → ℕ → Bool → Bool → Status (List ℕ × Option A) × MessageChannel A
  read c len take_aux peek =
      let src = slot c c.out_ in
      if c.in_ == c.out_ then (err eagain, c) else (
        ok (take (min len (length src.bytes)) src.bytes, aux_of take_aux src),
        consumed c take_aux peek,
      )

  -- The result are the caller's buffers, and the number of bytes.
  pub readv :
      MessageChannel A
      → List (List ℕ)
      → Bool
      → Bool
      → Status ((List (List ℕ) × ℕ) × Option A) × MessageChannel A
  readv c iov take_aux peek =
      let src = slot c c.out_ in
      if c.in_ == c.out_
      then (err eagain, c)
      else if length iov == 0
      then (err einval, c)
      else (ok (generic_readv src.bytes iov, aux_of take_aux src), consumed c take_aux peek)

  abbrev pub put_aux : Option A → A → A
  put_aux none old = old
  put_aux (some a) old = a

  -- The channel after a message is put in.
  abbrev pub produced : MessageChannel A → List ℕ → Option A → MessageChannel A
  produced c bytes aux =
      let old = slot c c.in_ in
      record c {
        in_ = add64 c.in_ 1;
        msgs =
            set c.msgs (c.in_ % c.size)
              (record old { aux_data = put_aux aux old.aux_data; bytes = bytes });
      }

  pub write : MessageChannel A → List ℕ → Option A → Status ℕ × MessageChannel A
  write c bytes aux =
      if leb c.size (sub64 c.in_ c.out_)
      then (err eagain, c)
      else (ok (length bytes), produced c bytes aux)

  pub writev : MessageChannel A → List (List ℕ) → Option A → Status ℕ × MessageChannel A
  writev c iov aux =
      let msg_len = sum_iov iov in
      if leb c.size (sub64 c.in_ c.out_)
      then (err eagain, c)
      else if msg_len == 0
      then (err einval, c)
      else (ok msg_len, produced c (generic_writev iov (replicate msg_len 0)).0 aux)

  -- The overload of Read without auxiliary data passes `false` for its own `peek`.
  pub read_plain : MessageChannel A → ℕ → Bool → Status (List ℕ × Option A) × MessageChannel A
  read_plain c len peek = read c len false false

  -- The loop of save, from `cur` on, and save; `fuel` bounds its rounds.
  pub save_loop : ℕ → MessageChannel A → ℕ → List (Message A)
  save_loop zero c cur = []
  save_loop (suc fuel) c cur =
      let rest = save_loop fuel c (add64 cur 1) in if cur == c.in_ then [] else slot c cur ∷ rest

  pub save : MessageChannel A → ℕ × List (Message A)
  save c = let nr_msg = sub64 c.in_ c.out_ in (nr_msg, save_loop nr_msg c c.out_)

  -- load, into a channel as it was constructed.
  pub load_loop : List (Message A) → ℕ → List (Message A) → List (Message A)
  load_loop [] i msgs = msgs
  load_loop (m ∷ ms) i msgs = load_loop ms (i + 1) (set msgs i m)

  pub load : MessageChannel A → ℕ × List (Message A) → MessageChannel A
  load c (nr_msg, ms) = record c { in_ = nr_msg; msgs = load_loop ms 0 c.msgs }
