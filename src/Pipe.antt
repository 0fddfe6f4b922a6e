-- ===== src/Pipe.antt =====
-- fs/pipe.h: WaitableChannel over a channel of bytes (StreamPipe), for one reader and one writer. The
-- functions are the parts of DoRead and DoWrite that run in one piece, CloseReader, CloseWriter, and the
-- attaching of pollers; the threads that interleave them stand in Threads.
pub mod Channel
pub mod Threads
pub mod Invariant
pub mod Steps
pub mod Safety
pub mod Ends
pub mod Armed
pub mod Wakes
mod Tests
use junction.Prelude.{
  ℕ, Bool, true, false, ◌&&◌, ◌||◌, not, if◌then◌else◌, List, [], Option, none, some, Status, ok,
  err, eagain, eintr, epipe,
}
use junction.ByteChannel.{ByteChannel, init, is_empty, is_full}

-- A waker is `true` while a thread is armed. Of a poll source, `read_poll` and `write_poll` tell whether
-- it is attached, and the bits are the events that are set.
pub record Pipe : Type 0 where
  pub chan : ByteChannel
  pub reader_closed : Bool
  pub writer_closed : Bool
  pub read_waker : Bool
  pub write_waker : Bool
  pub read_poll : Bool
  pub write_poll : Bool
  pub poll_in : Bool
  pub poll_hup : Bool
  pub poll_out : Bool
  pub poll_err : Bool

abbrev pub new_pipe : ℕ → Pipe
new_pipe size = record {
  chan = init size;
  reader_closed = false;
  writer_closed = false;
  read_waker = false;
  write_waker = false;
  read_poll = false;
  write_poll = false;
  poll_in = false;
  poll_hup = false;
  poll_out = false;
  poll_err = false;
}

abbrev pub attach_read_poll : Pipe → Pipe
attach_read_poll p =
    let q = record p { read_poll = true } in
    if p.reader_closed
    then q
    else if p.writer_closed
    then record q { poll_hup = true }
    else if not (is_empty p.chan)
    then record q { poll_in = true }
    else q

abbrev pub attach_write_poll : Pipe → Pipe
attach_write_poll p =
    let q = record p { write_poll = true } in
    if p.writer_closed
    then q
    else if p.reader_closed
    then record q { poll_err = true }
    else if not (is_full p.chan)
    then record q { poll_out = true }
    else q

-- CreatePipe: the reader's file is made first.
abbrev pub create_pipe : ℕ → Pipe
create_pipe size = attach_write_poll (attach_read_poll (new_pipe size))

-- DoRead, when the channel had nothing and the call cannot block.
abbrev pub read_refused : Pipe → Status (List ℕ)
read_refused p = if p.writer_closed && is_empty p.chan then ok [] else err eagain

-- The predicate that DoRead waits for.
abbrev pub read_stop : Pipe → Bool
read_stop p = not (is_empty p.chan) || (p.writer_closed || p.reader_closed)

-- What DoRead returns after its wait; `none` when it tries again.
abbrev pub read_waited : Pipe → Bool → Option (Status (List ℕ))
read_waited p signaled =
    if (p.reader_closed || p.writer_closed) && is_empty p.chan
    then some (ok [])
    else if signaled
    then some (err eintr)
    else none

-- The last part of DoRead looks at the channel twice, under the lock.
abbrev pub clear_readable : Pipe → Pipe
clear_readable p = if is_empty p.chan && p.read_poll then record p { poll_in = false } else p

abbrev pub wake_writer : Pipe → Pipe
wake_writer p =
    if p.writer_closed
    then p
    else if not (is_full p.chan) && p.write_poll
    then record p { poll_out = true; write_waker = false }
    else p

abbrev pub write_refused : Pipe → Status ℕ
write_refused p = if p.reader_closed then err epipe else err eagain

abbrev pub write_stop : Pipe → Bool
write_stop p = not (is_full p.chan) || (p.reader_closed || p.writer_closed)

abbrev pub write_waited : Pipe → Bool → Option (Status ℕ)
write_waited p signaled =
    if p.writer_closed || p.reader_closed
    then some (err epipe)
    else if signaled
    then some (err eintr)
    else none

abbrev pub clear_writable : Pipe → Pipe
clear_writable p = if is_full p.chan && p.write_poll then record p { poll_out = false } else p

abbrev pub wake_reader : Pipe → Pipe
wake_reader p =
    if p.reader_closed
    then p
    else if not (is_empty p.chan) && p.read_poll
    then record p { poll_in = true; read_waker = false }
    else p

-- What DoWrite returns after it has written `n` bytes.
abbrev pub write_done : Pipe → ℕ → Status ℕ
write_done p n = if p.reader_closed then err epipe else ok n

-- `detach` is `true` for the destructor of a file, which gives its poll source.
abbrev pub close_writer : Bool → Pipe → Pipe
close_writer detach p =
    let notify = not p.reader_closed && p.read_poll in
    record p {
      writer_closed = true;
      poll_hup = if notify then true else p.poll_hup;
      read_waker = if notify then false else p.read_waker;
      write_poll = if detach then false else p.write_poll;
      write_waker = false;
    }

abbrev pub close_reader : Bool → Pipe → Pipe
close_reader detach p =
    let notify = not p.writer_closed && p.write_poll in
    record p {
      reader_closed = true;
      poll_err = if notify then true else p.poll_err;
      write_waker = if notify then false else p.write_waker;
      read_poll = if detach then false else p.read_poll;
      read_waker = false;
    }
