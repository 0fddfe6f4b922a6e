-- ===== src/Pipe/Threads.antt =====
-- One thread in DoRead, one in DoWrite, and calls that close an end, interleaved in any order. Each step
-- of a thread works on the channel without the lock, or is a part of a section under the lock in which
-- the channel is looked at once.
use junction.Prelude.{
  ℕ, ◌≡◌, Bool, true, false, ◌||◌, if◌then◌else◌, List, [], ◌∷◌, ◌++◌, take, Option, none, some,
  Status, ok, err, eagain,
}
use junction.ByteChannel.{ByteChannel, read, write}
use junction.Pipe.{
  Pipe, create_pipe, read_refused, read_stop, read_waited, clear_readable, wake_writer,
  write_refused, write_stop, write_waited, clear_writable, wake_reader, write_done, close_writer,
  close_reader,
}

-- Where a thread stands in a call with arguments `A` that moves `M` and returns an `R`: before it works on
-- the channel; before it takes the lock to wait; asleep; done with the channel, before the lock; between
-- the two parts of the section that follows, with the lock; returned.
pub data Pc (A M R : Type 0) : Type 0 where
  idle : Pc A M R
  trying : A → (nonblocking : Bool) → Pc A M R
  waiting asleep : A → Pc A M R
  moved locked : M → Pc A M R
  returned : Status R → Pc A M R

-- A read has the length of its buffer, and whether it peeks; a write has its bytes.
abbrev pub ReaderPc : Type 0
ReaderPc = Pc (ℕ × Bool) (List ℕ) (List ℕ)

abbrev pub WriterPc : Type 0
WriterPc = Pc (List ℕ) ℕ ℕ

abbrev pub holds_lock : {A M R : Type 0} → Pc A M R → Bool
holds_lock (locked m) = true
holds_lock _ = false

-- `received` holds the bytes that reads have taken out, `sent` those that writes have put in.
pub record PipeSystem : Type 0 where
  pub pipe : Pipe
  pub reader : ReaderPc
  pub writer : WriterPc
  pub received : List ℕ
  pub sent : List ℕ

abbrev pub is_locked : PipeSystem → Bool
is_locked s = holds_lock s.reader || holds_lock s.writer

-- Where a thread goes on after its wait.
abbrev pub resumed : {A M R : Type 0} → A → Option (Status R) → Pc A M R
resumed a none = trying a false
resumed a (some r) = returned r

-- Write returns at once when it has no bytes to write.
abbrev pub called_write : List ℕ → Bool → WriterPc
called_write [] nonblocking = returned (ok 0)
called_write (b ∷ bs) nonblocking = trying (b ∷ bs) nonblocking

abbrev pub open_pipe : ℕ → PipeSystem
open_pipe size = record {
  pipe = create_pipe size;
  reader = idle;
  writer = idle;
  received = [];
  sent = [];
}

pub data Step (s : PipeSystem) (t : PipeSystem) : Type 0 where
  call_read :
      (a : ℕ × Bool) (nonblocking : Bool)
      → s.reader ≡ idle
      → t ≡ record s { reader = trying a nonblocking }
      → Step s t
  read_some :
      (len : ℕ) (peek nonblocking : Bool) (bs : List ℕ) (c : ByteChannel)
      → s.reader ≡ trying (len, peek) nonblocking
      → read s.pipe.chan len peek ≡ (ok bs, c)
      → t ≡ record s {
        pipe = record s.pipe { chan = c };
        reader = moved bs;
        received = if peek then s.received else s.received ++ bs;
      }
      → Step s t
  read_none :
      (len : ℕ) (peek : Bool) (c : ByteChannel)
      → s.reader ≡ trying (len, peek) true
      → read s.pipe.chan len peek ≡ (err eagain, c)
      → t ≡ record s { reader = returned (read_refused s.pipe) }
      → Step s t
  read_blocks :
      (len : ℕ) (peek : Bool) (c : ByteChannel)
      → s.reader ≡ trying (len, peek) false
      → read s.pipe.chan len peek ≡ (err eagain, c)
      → t ≡ record s { reader = waiting (len, peek) }
      → Step s t
  read_ready :
      (a : ℕ × Bool)
      → s.reader ≡ waiting a
      → is_locked s ≡ false
      → read_stop s.pipe ≡ true
      → t ≡ record s { reader = resumed a (read_waited s.pipe false) }
      → Step s t
  read_sleeps :
      (a : ℕ × Bool)
      → s.reader ≡ waiting a
      → is_locked s ≡ false
      → read_stop s.pipe ≡ false
      → t ≡ record s { pipe = record s.pipe { read_waker = true }; reader = asleep a }
      → Step s t
  -- A signal is pending before the thread parks, or comes while its waker is armed.
  read_interrupted :
      (a : ℕ × Bool)
      → s.reader ≡ waiting a
      → is_locked s ≡ false
      → read_stop s.pipe ≡ false
      → t ≡ record s { reader = resumed a (read_waited s.pipe true) }
      → Step s t
  read_signaled :
      (a : ℕ × Bool)
      → s.reader ≡ asleep a
      → is_locked s ≡ false
      → s.pipe.read_waker ≡ true
      → t ≡ record s {
        pipe = record s.pipe { read_waker = false };
        reader = resumed a (read_waited s.pipe true);
      }
      → Step s t
  -- The thread was woken, and tests its predicate again.
  read_wakes :
      (a : ℕ × Bool)
      → s.reader ≡ asleep a
      → s.pipe.read_waker ≡ false
      → t ≡ record s { reader = waiting a }
      → Step s t
  read_clears :
      (bs : List ℕ)
      → s.reader ≡ moved bs
      → is_locked s ≡ false
      → t ≡ record s { pipe = clear_readable s.pipe; reader = locked bs }
      → Step s t
  read_ends :
      (bs : List ℕ)
      → s.reader ≡ locked bs
      → t ≡ record s { pipe = wake_writer s.pipe; reader = returned (ok bs) }
      → Step s t
  read_leaves :
      (r : Status (List ℕ)) → s.reader ≡ returned r → t ≡ record s { reader = idle } → Step s t
  call_write :
      (src : List ℕ) (nonblocking : Bool)
      → s.writer ≡ idle
      → t ≡ record s { writer = called_write src nonblocking }
      → Step s t
  write_some :
      (src : List ℕ) (nonblocking : Bool) (n : ℕ) (c : ByteChannel)
      → s.writer ≡ trying src nonblocking
      → write s.pipe.chan src ≡ (ok n, c)
      → t ≡ record s {
        pipe = record s.pipe { chan = c };
        writer = moved n;
        sent = s.sent ++ take n src;
      }
      → Step s t
  write_none :
      (src : List ℕ) (c : ByteChannel)
      → s.writer ≡ trying src true
      → write s.pipe.chan src ≡ (err eagain, c)
      → t ≡ record s { writer = returned (write_refused s.pipe) }
      → Step s t
  write_blocks :
      (src : List ℕ) (c : ByteChannel)
      → s.writer ≡ trying src false
      → write s.pipe.chan src ≡ (err eagain, c)
      → t ≡ record s { writer = waiting src }
      → Step s t
  write_ready :
      (src : List ℕ)
      → s.writer ≡ waiting src
      → is_locked s ≡ false
      → write_stop s.pipe ≡ true
      → t ≡ record s { writer = resumed src (write_waited s.pipe false) }
      → Step s t
  write_sleeps :
      (src : List ℕ)
      → s.writer ≡ waiting src
      → is_locked s ≡ false
      → write_stop s.pipe ≡ false
      → t ≡ record s { pipe = record s.pipe { write_waker = true }; writer = asleep src }
      → Step s t
  write_interrupted :
      (src : List ℕ)
      → s.writer ≡ waiting src
      → is_locked s ≡ false
      → write_stop s.pipe ≡ false
      → t ≡ record s { writer = resumed src (write_waited s.pipe true) }
      → Step s t
  write_signaled :
      (src : List ℕ)
      → s.writer ≡ asleep src
      → is_locked s ≡ false
      → s.pipe.write_waker ≡ true
      → t ≡ record s {
        pipe = record s.pipe { write_waker = false };
        writer = resumed src (write_waited s.pipe true);
      }
      → Step s t
  write_wakes :
      (src : List ℕ)
      → s.writer ≡ asleep src
      → s.pipe.write_waker ≡ false
      → t ≡ record s { writer = waiting src }
      → Step s t
  write_clears :
      (n : ℕ)
      → s.writer ≡ moved n
      → is_locked s ≡ false
      → t ≡ record s { pipe = clear_writable s.pipe; writer = locked n }
      → Step s t
  write_ends :
      (n : ℕ)
      → s.writer ≡ locked n
      → t ≡ record s { pipe = wake_reader s.pipe; writer = returned (write_done s.pipe n) }
      → Step s t
  write_leaves : (r : Status ℕ) → s.writer ≡ returned r → t ≡ record s { writer = idle } → Step s t
  close_read_end :
      (detach : Bool)
      → is_locked s ≡ false
      → t ≡ record s { pipe = close_reader detach s.pipe }
      → Step s t
  close_write_end :
      (detach : Bool)
      → is_locked s ≡ false
      → t ≡ record s { pipe = close_writer detach s.pipe }
      → Step s t

pub data Reach (s : PipeSystem) : PipeSystem → Type 0 where
  here : Reach s s
  next : {t u : PipeSystem} → Reach s t → Step t u → Reach s u
