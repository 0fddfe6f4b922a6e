-- ===== src/Pipe/Ends.antt =====
-- How a call to read a pipe ends.
use junction.Prelude.{
  ℕ, ◌≡◌, ◌≢◌, ◌≤◌, ◌^◌, refl, ap, Bool, true, false, ◌||◌, [], arith, ok, err, eagain,
}
use junction.ByteChannel.{ByteChannel, read, is_empty}
use junction.Pipe.Threads.{
  trying, waiting, returned, PipeSystem, holds_lock, open_pipe, Step, call_read, read_some,
  read_none, read_blocks, read_ready, read_sleeps, read_interrupted, read_signaled, read_wakes,
  read_clears, read_ends, read_leaves, call_write, write_some, write_none, write_blocks,
  write_ready, write_sleeps, write_interrupted, write_signaled, write_wakes, write_clears,
  write_ends, write_leaves, close_read_end, close_write_end, Reach,
}
use junction.Pipe.Invariant.{has_bytes}
use junction.Pipe.Safety.{Reach-Inv}

of_reader : {s t : PipeSystem} → s ≡ t → s.reader ≡ t.reader
of_reader e = ap (λ (u : PipeSystem). u.reader) e

Step-eof :
    (s t : PipeSystem)
    → has_bytes s.reader ≡ true
    → Step s t
    → s.reader ≢ returned (ok [])
    → t.reader ≡ returned (ok [])
    → (is_empty s.pipe.chan ≡ true) × ((s.pipe.reader_closed || s.pipe.writer_closed) ≡ true)
Step-eof s t b (call_read a nonblocking pc e) before after =
    ground (arith, of_reader e, pc, before, after, b)
Step-eof s t b (read_some len peek nonblocking bs c pc r e) before after =
    ground (arith, of_reader e, pc, before, after, b)
Step-eof s t b (read_none len peek c pc r e) before after =
    ground (arith, of_reader e, pc, before, after, b)
Step-eof s t b (read_blocks len peek c pc r e) before after =
    ground (arith, of_reader e, pc, before, after, b)
Step-eof s t b (read_ready a pc u stop e) before after =
    ground (arith, of_reader e, pc, before, after, b)
Step-eof s t b (read_sleeps a pc u stop e) before after =
    ground (arith, of_reader e, pc, before, after, b)
Step-eof s t b (read_interrupted a pc u stop e) before after =
    ground (arith, of_reader e, pc, before, after, b)
Step-eof s t b (read_signaled a pc u armed e) before after =
    ground (arith, of_reader e, pc, before, after, b)
Step-eof s t b (read_wakes a pc armed e) before after =
    ground (arith, of_reader e, pc, before, after, b)
Step-eof s t b (read_clears bs pc u e) before after =
    ground (arith, of_reader e, pc, before, after, b)
Step-eof s t b (read_ends bs pc e) before after = ground (arith, of_reader e, pc, before, after, b)
Step-eof s t b (read_leaves r pc e) before after = ground (arith, of_reader e, pc, before, after, b)
Step-eof s t b (call_write src nonblocking pc e) before after =
    ground (arith, of_reader e, pc, before, after, b)
Step-eof s t b (write_some src nonblocking n c pc r e) before after =
    ground (arith, of_reader e, pc, before, after, b)
Step-eof s t b (write_none src c pc r e) before after =
    ground (arith, of_reader e, pc, before, after, b)
Step-eof s t b (write_blocks src c pc r e) before after =
    ground (arith, of_reader e, pc, before, after, b)
Step-eof s t b (write_ready src pc u stop e) before after =
    ground (arith, of_reader e, pc, before, after, b)
Step-eof s t b (write_sleeps src pc u stop e) before after =
    ground (arith, of_reader e, pc, before, after, b)
Step-eof s t b (write_interrupted src pc u stop e) before after =
    ground (arith, of_reader e, pc, before, after, b)
Step-eof s t b (write_signaled src pc u armed e) before after =
    ground (arith, of_reader e, pc, before, after, b)
Step-eof s t b (write_wakes src pc armed e) before after =
    ground (arith, of_reader e, pc, before, after, b)
Step-eof s t b (write_clears n pc u e) before after =
    ground (arith, of_reader e, pc, before, after, b)
Step-eof s t b (write_ends n pc e) before after = ground (arith, of_reader e, pc, before, after, b)
Step-eof s t b (write_leaves r pc e) before after =
    ground (arith, of_reader e, pc, before, after, b)
Step-eof s t b (close_read_end detach u e) before after =
    ground (arith, of_reader e, before, after, b)
Step-eof s t b (close_write_end detach u e) before after =
    ground (arith, of_reader e, before, after, b)

-- When a call to read a pipe ends without bytes, its channel is empty and one of its ends is closed.
pub end_of_file :
    (size : ℕ) (s t : PipeSystem)
    → size ≤ 2 ^ 63
    → Reach (open_pipe size) s
    → Step s t
    → s.reader ≢ returned (ok [])
    → t.reader ≡ returned (ok [])
    → (is_empty s.pipe.chan ≡ true) × ((s.pipe.reader_closed || s.pipe.writer_closed) ≡ true)
end_of_file size s t h r st = Step-eof s t (Reach-Inv size s h r).streams.nonempty st

read_nothing : (c : ByteChannel) (peek : Bool) → read c 0 peek ≡ (err eagain, c)
unfolding read
read_nothing c peek = ground arith

-- A blocking read into an empty buffer, while the pipe has a byte and its lock is free, goes to wait and
-- then tries again, with every part of the state as it was.
pub empty_buffer_cycle :
    (s : PipeSystem) (peek : Bool)
    → s.reader ≡ trying (0, peek) false
    → is_empty s.pipe.chan ≡ false
    → holds_lock s.writer ≡ false
    → let u = record s { reader = waiting (0, peek) } in Step s u × Step u s
empty_buffer_cycle s peek pc some_byte free = (
  read_blocks 0 peek s.pipe.chan pc (read_nothing s.pipe.chan peek) refl,
  read_ready (0, peek) refl free (ground (arith, some_byte)) (ground (arith, pc, some_byte)),
)
