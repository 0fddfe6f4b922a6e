-- ===== src/Pipe/Wakes.antt =====
-- How a sleeping thread of a pipe is woken.
use junction.Prelude.{ℕ, ◌≡◌, ◌≤◌, ◌^◌, refl, true, false, arith, ok}
use junction.ByteChannel.{is_full}
use junction.Pipe.{clear_readable, wake_writer}
use junction.Pipe.Threads.{
  idle, trying, waiting, asleep, moved, locked, returned, ReaderPc, PipeSystem, open_pipe,
  read_clears, read_ends, Reach, here, next,
}
use junction.Pipe.Safety.{Reach-Inv}
use junction.Pipe.Armed.{Armed}

-- When the channel of a pipe has room while its writer sleeps with an armed waker, it will be
-- woken: steps lead on to a state in which the waker is no longer armed, though the writer has done nothing
-- and no end is closed.
pub writer_is_woken :
    (size : ℕ) (s : PipeSystem)
    → size ≤ 2 ^ 63
    → Reach (open_pipe size) s
    → s.pipe.write_waker ≡ true
    → is_full s.pipe.chan ≡ false
    → (t : PipeSystem) × Reach s t
      × (t.pipe.write_waker ≡ false)
      × (t.writer ≡ s.writer)
      × (t.pipe.reader_closed ≡ false)
      × (t.pipe.writer_closed ≡ false)
writer_is_woken size s h r armed some_room = by_reader s.reader refl
  where
    by_reader :
        (w : ReaderPc)
        → s.reader ≡ w
        → (t : PipeSystem) × Reach s t
          × (t.pipe.write_waker ≡ false)
          × (t.writer ≡ s.writer)
          × (t.pipe.reader_closed ≡ false)
          × (t.pipe.writer_closed ≡ false)
    by_reader (locked n) e =
        let v = Reach-Inv size s h r in
        let t = record s { pipe = wake_writer s.pipe; reader = returned (ok n) } in
        (
          t,
          next here (read_ends n e refl),
          ground (arith, armed, some_room, v.wakers, v.polls),
          refl,
          ground (arith, armed, some_room, v.wakers, v.polls),
          ground (arith, armed, some_room, v.wakers, v.polls),
        )
    by_reader (moved n) e =
        let v = Reach-Inv size s h r in
        let t = record s { pipe = clear_readable s.pipe; reader = locked n } in
        let u = record t { pipe = wake_writer t.pipe; reader = returned (ok n) } in
        (
          u,
          next (next here (read_clears n e (ground (arith, e, armed, v.wakers)) refl))
              (read_ends n refl refl),
          ground (arith, armed, some_room, v.wakers, v.polls),
          refl,
          ground (arith, armed, some_room, v.wakers, v.polls),
          ground (arith, armed, some_room, v.wakers, v.polls),
        )
    by_reader idle e = ground (arith, e, armed, some_room, (Reach-Inv size s h r).wakers)
    by_reader (trying a x) e = ground (arith, e, armed, some_room, (Reach-Inv size s h r).wakers)
    by_reader (waiting a) e = ground (arith, e, armed, some_room, (Reach-Inv size s h r).wakers)
    by_reader (asleep a) e = ground (arith, e, armed, some_room, (Reach-Inv size s h r).wakers)
    by_reader (returned x) e = ground (arith, e, armed, some_room, (Reach-Inv size s h r).wakers)
