-- ===== src/Pipe/Tests.antt =====
-- A pipe of one byte: the reader sleeps until the writer has written, then the writer sleeps.
use junction.Prelude.{
  ◌≡◌, refl, true, false, not, ◌&&◌, ◌||◌, if◌then◌else◌, [], ◌∷◌, ◌++◌, arith, ok,
}
use junction.ByteChannel.{
  ByteChannel, init, bit_ceil, read, read_bytes, write, write_bytes, is_empty, is_full,
}
use junction.ByteChannel.Valid.{IsValid, contents}
use junction.Pipe.{close_writer}
use junction.Pipe.Threads.{
  trying, waiting, asleep, moved, locked, returned, PipeSystem, open_pipe, Step, call_read,
  read_some, read_none, read_blocks, read_ready, read_sleeps, read_wakes, call_write, write_some,
  write_blocks, write_sleeps, write_clears, write_ends, write_leaves, close_write_end, Reach, here,
  next,
}
use junction.Pipe.Invariant.{is_busy}
use junction.Pipe.Safety.{Reach-Streams, no_deadlock, polls_exact, sleeps_open}
use junction.Pipe.Ends.{end_of_file}
use junction.Pipe.Armed.{Armed}

abbrev full_chan : ByteChannel
full_chan = record { in_ = 1; out_ = 0; size = 1; buf = 9 ∷ [] }

abbrev s1 : PipeSystem
s1 = record (open_pipe 1) { reader = trying (4, false) false }

abbrev s2 : PipeSystem
s2 = record s1 { reader = waiting (4, false) }

abbrev s3 : PipeSystem
s3 = record s2 { pipe = record s2.pipe { read_waker = true }; reader = asleep (4, false) }

abbrev s4 : PipeSystem
s4 = record s3 { writer = trying (9 ∷ 8 ∷ []) false }

abbrev s5 : PipeSystem
s5 = record s4 { pipe = record s4.pipe { chan = full_chan }; writer = moved 1; sent = 9 ∷ [] }

run5 : Reach (open_pipe 1) s5
unfolding init bit_ceil read write write_bytes is_empty is_full
run5 =
    next
      (next
        (next
          (next (next here (call_read (4, false) false refl refl))
            (read_blocks 4 false (open_pipe 1).pipe.chan refl refl refl))
          (read_sleeps (4, false) refl refl refl refl))
        (call_write (9 ∷ 8 ∷ []) false refl refl))
      (write_some (9 ∷ 8 ∷ []) false 1 full_chan refl refl refl)

Reach-Streams_example : (([] ++ contents full_chan) ≡ 9 ∷ []) × IsValid full_chan
Reach-Streams_example = Reach-Streams 1 s5 (omega arith) run5

no_deadlock_example :
    ((s5.pipe.read_waker && s5.pipe.write_waker) ≡ false)
    × ((not s5.pipe.read_waker
          || sleeps_open s5.pipe s5.reader && (is_empty s5.pipe.chan || is_busy s5.writer))
        ≡ true)
    × ((not s5.pipe.write_waker
          || sleeps_open s5.pipe s5.writer && (is_full s5.pipe.chan || is_busy s5.reader))
        ≡ true)
no_deadlock_example = no_deadlock 1 s5 (omega arith) run5

abbrev s6 : PipeSystem
s6 = record s5 { pipe = record s5.pipe { poll_out = false }; writer = locked 1 }

abbrev s7 : PipeSystem
s7 = record s6 {
  pipe = record s6.pipe { poll_in = true; read_waker = false };
  writer = returned (ok 1);
}

run7 : Reach (open_pipe 1) s7
unfolding init bit_ceil is_empty is_full
run7 = next (next run5 (write_clears 1 refl refl refl)) (write_ends 1 refl refl)

polls_exact_example :
    (s7.pipe.reader_closed
        || (if is_empty s7.pipe.chan then not s7.pipe.poll_in else s7.pipe.poll_in)
      ≡ true)
    × (s7.pipe.writer_closed
          || (if is_full s7.pipe.chan then not s7.pipe.poll_out else s7.pipe.poll_out)
        ≡ true)
polls_exact_example = polls_exact 1 s7 (omega arith) run7 refl refl

abbrev s9 : PipeSystem
s9 = record s7 { writer = trying (8 ∷ []) false }

abbrev s11 : PipeSystem
s11 = record s9 { pipe = record s9.pipe { write_waker = true }; writer = asleep (8 ∷ []) }

run11 : Reach (open_pipe 1) s11
unfolding init bit_ceil write is_empty is_full
run11 =
    next
      (next (next (next run7 (write_leaves (ok 1) refl refl)) (call_write (8 ∷ []) false refl refl))
        (write_blocks (8 ∷ []) full_chan refl refl refl))
      (write_sleeps (8 ∷ []) refl refl refl refl)

abbrev s14 : PipeSystem
s14 = record s11 {
  pipe = record s11.pipe { chan = record full_chan { out_ = 1 } };
  reader = moved (9 ∷ []);
  received = 9 ∷ [];
}

run14 : Reach (open_pipe 1) s14
unfolding init bit_ceil read read_bytes is_empty is_full
run14 =
    next
      (next (next run11 (read_wakes (4, false) refl refl refl))
        (read_ready (4, false) refl refl refl refl))
      (read_some 4 false false (9 ∷ []) (record full_chan { out_ = 1 }) refl refl refl)

-- The writer's file is closed while the reader is about to read.
abbrev c1 : PipeSystem
c1 = record (open_pipe 1) { reader = trying (4, false) true }

abbrev c2 : PipeSystem
c2 = record c1 { pipe = close_writer true c1.pipe }

abbrev c3 : PipeSystem
c3 = record c2 { reader = returned (ok []) }

run_c2 : Reach (open_pipe 1) c2
run_c2 = next (next here (call_read (4, false) true refl refl)) (close_write_end true refl refl)

step_c3 : Step c2 c3
unfolding init bit_ceil read is_empty is_full
step_c3 = read_none 4 false (open_pipe 1).pipe.chan refl refl refl

end_of_file_example :
    (is_empty c2.pipe.chan ≡ true) × ((c2.pipe.reader_closed || c2.pipe.writer_closed) ≡ true)
end_of_file_example = end_of_file 1 c2 c3 (omega arith) run_c2 step_c3 (ground arith) refl

abbrev z : PipeSystem
z = record s7 { reader = trying (0, false) false }
