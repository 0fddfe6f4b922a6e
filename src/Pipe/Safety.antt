-- ===== src/Pipe/Safety.antt =====
-- The reachable states of a pipe.
use junction.Prelude.{
  ℕ, ◌≡◌, ◌≤◌, ◌^◌, refl, sym, ap, subst, ◌∙◌, Bool, true, false, ◌&&◌, ◌||◌, not, if◌then◌else◌,
  ◌++◌, arith,
}
use junction.ByteChannel.{init, is_empty, is_full}
use junction.ByteChannel.Valid.{IsValid, contents, init-IsValid}
use junction.Pipe.{Pipe}
use junction.Pipe.Channel.{not_both}
use junction.Pipe.Threads.{Pc, PipeSystem, open_pipe, Reach, here, next}
use junction.Pipe.Invariant.{is_asleep, is_moved, is_busy, Events, Inv}
use junction.Pipe.Steps.{Step-Inv}

init_events : (size : ℕ) → is_empty (init size) ≡ true
unfolding is_empty init
init_events size = ground arith

open_pipe-Inv : (size : ℕ) → size ≤ 2 ^ 63 → Inv (open_pipe size)
open_pipe-Inv size h =
    let (valid, nothing, _) = init-IsValid size h in
    let empty = init_events size in
    let full = not_both (init size) valid empty in
    let (w, p) : Events (open_pipe size) = ground (arith, empty, full) in
    let same : (open_pipe size).pipe.chan ≡ init size = ground (arith, empty, full) in
    record {
      streams = record {
        valid = subst IsValid (sym same) valid;
        nonempty = refl;
        order = ap contents same ∙ nothing;
      };
      wakers = w;
      polls = p;
    }

pub Reach-Inv : (size : ℕ) (s : PipeSystem) → size ≤ 2 ^ 63 → Reach (open_pipe size) s → Inv s
Reach-Inv size s h here = open_pipe-Inv size h
Reach-Inv size s h (next r st) = Step-Inv _ s (Reach-Inv size _ h r) st

-- The bytes that reads have taken out of a pipe, followed by those in its channel, are at all times the
-- bytes that writes have put in, in their order, however the calls of the two threads, the signals, and
-- the closing of the ends interleave. A call that has moved bytes has moved at least one.
pub Reach-Streams :
    (size : ℕ) (s : PipeSystem)
    → size ≤ 2 ^ 63
    → Reach (open_pipe size) s
    → (s.received ++ contents s.pipe.chan ≡ s.sent) × IsValid s.pipe.chan
Reach-Streams size s h r = let v = Reach-Inv size s h r in (v.streams.order, v.streams.valid)

-- A thread sleeps while both ends are open.
abbrev pub sleeps_open : {A M R : Type 0} → Pipe → Pc A M R → Bool
sleeps_open p pc = is_asleep pc && (not p.reader_closed && not p.writer_closed)

asleep_rests : {A M R : Type 0} (p : Pc A M R) → is_asleep p ≡ true → is_busy p ≡ false
asleep_rests p h = ground (arith, h)

-- The reader and the writer of a pipe are never both asleep with their wakers armed. A reader with an
-- armed waker sleeps while both ends are open, and if there are bytes for it, the writer has still to
-- wake it; and a writer with an armed waker sleeps while both ends are open, and if there is room for it,
-- the reader has still to wake it.
pub no_deadlock :
    (size : ℕ) (s : PipeSystem)
    → size ≤ 2 ^ 63
    → Reach (open_pipe size) s
    → ((s.pipe.read_waker && s.pipe.write_waker) ≡ false)
      × ((not s.pipe.read_waker
            || sleeps_open s.pipe s.reader && (is_empty s.pipe.chan || is_busy s.writer))
          ≡ true)
      × ((not s.pipe.write_waker
            || sleeps_open s.pipe s.writer && (is_full s.pipe.chan || is_busy s.reader))
          ≡ true)
no_deadlock size s h r =
    let v = Reach-Inv size s h r in
    ground (
      arith,
      v.wakers,
      not_both s.pipe.chan v.streams.valid,
      asleep_rests s.reader,
      asleep_rests s.writer,
    )

moved_busy : {A M R : Type 0} (p : Pc A M R) → is_moved p ≡ true → is_busy p ≡ true
moved_busy p h = ground (arith, h)

-- While no thread has bytes moved that it has still to account for, the poll events of a pipe are those of
-- its channel: the reader's file has kPollIn set, unless its end is closed, exactly when there is a byte
-- to read, and the writer's file has kPollOut set, unless its end is closed, exactly when there is room.
pub polls_exact :
    (size : ℕ) (s : PipeSystem)
    → size ≤ 2 ^ 63
    → Reach (open_pipe size) s
    → is_busy s.reader ≡ false
    → is_busy s.writer ≡ false
    → (s.pipe.reader_closed || (if is_empty s.pipe.chan then not s.pipe.poll_in else s.pipe.poll_in)
        ≡ true)
      × (s.pipe.writer_closed
            || (if is_full s.pipe.chan then not s.pipe.poll_out else s.pipe.poll_out)
          ≡ true)
polls_exact size s h r rest_r rest_w =
    let v = Reach-Inv size s h r in
    ground (arith, v.polls, moved_busy s.reader, moved_busy s.writer)
