-- ===== src/Pipe/Invariant.antt =====
-- What holds of every reachable state of a pipe and its two threads.
use junction.Prelude.{◌≡◌, Bool, true, false, not, ◌==◌, ◌++◌, length}
use junction.ByteChannel.{is_empty, is_full}
use junction.ByteChannel.Valid.{IsValid, contents}
use junction.Pipe.{Pipe}
use junction.Pipe.Threads.{Pc, asleep, moved, locked, ReaderPc, WriterPc, PipeSystem}

abbrev pub is_asleep : {A M R : Type 0} → Pc A M R → Bool
is_asleep (asleep a) = true
is_asleep _ = false

abbrev pub is_moved : {A M R : Type 0} → Pc A M R → Bool
is_moved (moved m) = true
is_moved _ = false

-- The thread has moved bytes, and has still to wake the other one.
abbrev pub is_busy : {A M R : Type 0} → Pc A M R → Bool
is_busy (moved m) = true
is_busy (locked m) = true
is_busy _ = false

-- A read that has moved bytes has some.
abbrev pub has_bytes : ReaderPc → Bool
has_bytes (moved bs) = not (length bs == 0)
has_bytes (locked bs) = not (length bs == 0)
has_bytes _ = true

-- The bytes that were read, and those in the channel, are the bytes that were written.
pub record Streams (s : PipeSystem) : Type 0 where
  pub valid : IsValid s.pipe.chan
  pub nonempty : has_bytes s.reader ≡ true
  pub order : s.received ++ contents s.pipe.chan ≡ s.sent

-- A thread whose waker is armed is asleep, and the end of its wait is not reached, or the other thread has
-- still to wake it.
abbrev pub Wakers : Pipe → ReaderPc → WriterPc → Type 0
Wakers p r w =
    (p.read_waker ≡ true → is_asleep r ≡ true)
    × (p.read_waker ≡ true → p.reader_closed ≡ false)
    × (p.read_waker ≡ true → p.writer_closed ≡ false)
    × (p.read_waker ≡ true → is_empty p.chan ≡ false → is_busy w ≡ true)
    × (p.write_waker ≡ true → is_asleep w ≡ true)
    × (p.write_waker ≡ true → p.reader_closed ≡ false)
    × (p.write_waker ≡ true → p.writer_closed ≡ false)
    × (p.write_waker ≡ true → is_full p.chan ≡ false → is_busy r ≡ true)

-- The poll source of an end that is open is attached, and its events are those of the channel, or a thread
-- has still to set or clear them.
abbrev pub Polls : Pipe → ReaderPc → WriterPc → Type 0
Polls p r w =
    (p.reader_closed ≡ false → p.read_poll ≡ true)
    × (p.writer_closed ≡ false → p.write_poll ≡ true)
    × (p.reader_closed ≡ false → p.poll_in ≡ true → is_empty p.chan ≡ true → is_moved r ≡ true)
    × (p.reader_closed ≡ false → p.poll_in ≡ false → is_empty p.chan ≡ false → is_busy w ≡ true)
    × (p.writer_closed ≡ false → p.poll_out ≡ true → is_full p.chan ≡ true → is_moved w ≡ true)
    × (p.writer_closed ≡ false → p.poll_out ≡ false → is_full p.chan ≡ false → is_busy r ≡ true)

pub record Inv (s : PipeSystem) : Type 0 where
  pub streams : Streams s
  pub wakers : Wakers s.pipe s.reader s.writer
  pub polls : Polls s.pipe s.reader s.writer

abbrev pub Events : PipeSystem → Type 0
Events s = Wakers s.pipe s.reader s.writer × Polls s.pipe s.reader s.writer
