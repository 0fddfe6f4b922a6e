-- ===== src/MessageChannel/Tests.antt =====
-- A channel of two slots; the auxiliary data are numbers, and a move leaves 0.
use Prim.Native.Nat.{◌∣◌}
use junction.Prelude.{ℕ, ◌^◌, refl, true, List, [], ◌∷◌, Option, some, Status, ok, arith}
use junction.ByteChannel as Bytes
use junction.ByteChannel.Valid as BytesValid
use junction.MessageChannel.{Message, MessageChannel, blank_message, read, write}
use junction.MessageChannel.Ring.{IsValid, contents}
use junction.MessageChannel.Fifo.{read_refines, write_refines}

abbrev gone : ℕ → ℕ
gone a = 0

two_divides : 2 ∣ 2 ^ 64
unfolding Bytes.init Bytes.bit_ceil
two_divides = (BytesValid.init-IsValid 2 (omega arith)).0.divides

abbrev message : Message ℕ
message = record { flags = 0; aux_data = 5; bytes = 1 ∷ 2 ∷ 3 ∷ [] }

abbrev blank : Message ℕ
blank = blank_message 0

-- One message, in the second slot: the indices have gone round.
abbrev one : MessageChannel ℕ
one = record { in_ = 4; out_ = 3; size = 2; msgs = blank ∷ message ∷ [] }

abbrev new : MessageChannel ℕ
new = record { in_ = 0; out_ = 0; size = 2; msgs = blank ∷ blank ∷ [] }

one-IsValid : IsValid one
one-IsValid = record {
  divides = two_divides;
  room = omega arith;
  small = omega arith;
  storage = refl;
  in_small = omega arith;
  out_small = omega arith;
  within = omega arith;
}

new-IsValid : IsValid new
new-IsValid = record {
  divides = two_divides;
  room = omega arith;
  small = omega arith;
  storage = refl;
  in_small = omega arith;
  out_small = omega arith;
  within = omega arith;
}

read_refines_example :
    let (r, c) = read 0 gone one 2 true true in
    IsValid c
    × Path
        (Status (List ℕ × Option ℕ) × List (Message ℕ))
        (r, contents 0 gone c)
        (ok (1 ∷ 2 ∷ [], some 5), record { flags = 0; aux_data = 0; bytes = 1 ∷ 2 ∷ 3 ∷ [] } ∷ [])
read_refines_example = read_refines 0 gone one 2 true true one-IsValid

write_refines_example :
    let (r, c) = write 0 gone one (7 ∷ 8 ∷ []) (some 6) in
    IsValid c
    × Path
        (Status ℕ × List (Message ℕ))
        (r, contents 0 gone c)
        (ok 2, message ∷ record { flags = 0; aux_data = 6; bytes = 7 ∷ 8 ∷ [] } ∷ [])
write_refines_example = write_refines 0 gone one (7 ∷ 8 ∷ []) (some 6) one-IsValid
