-- ===== src/Pipe/Armed.antt =====
-- Runs in which the reader of a pipe sleeps on: how far the writer can come.
use junction.Prelude.{ℕ, suc, ◌≡◌, ◌≢◌, ◌+◌, ◌≤◌, ◌^◌, ap, true, false, arith, inl, inr, ◌⊎◌}
use junction.ByteChannel.{is_empty}
use junction.Pipe.Threads.{
  idle, trying, waiting, asleep, moved, locked, returned, WriterPc, PipeSystem, open_pipe,
  call_read, read_some, read_none, read_blocks, read_ready, read_sleeps, read_interrupted,
  read_signaled, read_wakes, read_clears, read_ends, read_leaves, call_write, write_some,
  write_none, write_blocks, write_ready, write_sleeps, write_interrupted, write_signaled,
  write_wakes, write_clears, write_ends, write_leaves, close_read_end, close_write_end, Step, Reach,
  next,
}
use junction.Pipe.Invariant.{is_busy, Wakers}
use junction.Pipe.Safety.{Reach-Inv}

-- How many steps the writer has still to make until its call has woken the reader.
abbrev pub owes : WriterPc → ℕ
owes (moved n) = 2
owes (locked n) = 1
owes _ = 0

-- Runs in which the waker of the reader stays armed, with the number of the steps of the writer.
pub data Armed (s : PipeSystem) : ℕ → PipeSystem → Type 0 where
  still : Armed s 0 s
  beside :
      {n : ℕ} {t u : PipeSystem}
      → Armed s n t
      → Step t u
      → u.pipe.read_waker ≡ true
      → u.writer ≡ t.writer
      → Armed s n u
  writes :
      {n : ℕ} {t u : PipeSystem}
      → Armed s n t
      → Step t u
      → u.pipe.read_waker ≡ true
      → u.writer ≢ t.writer
      → Armed s (suc n) u

-- While the waker stays armed, the channel keeps its bytes, and the writer does nothing or comes nearer.
abbrev Nearer : PipeSystem → PipeSystem → Type 0
Nearer t u =
    (is_empty u.pipe.chan ≡ false) × ((u.writer ≡ t.writer) ⊎ (suc (owes u.writer) ≡ owes t.writer))

armed_step :
    (t u : PipeSystem)
    → Wakers t.pipe t.reader t.writer
    → t.pipe.read_waker ≡ true
    → is_empty t.pipe.chan ≡ false
    → u.pipe.read_waker ≡ true
    → Step t u
    → Nearer t u
armed_step t u v armed bytes left (call_read a nonblocking q0 e) =
    ground (arith, v, armed, bytes, left, q0, e)
armed_step t u v armed bytes left (read_some len peek nonblocking bs c q0 q1 e) =
    ground (arith, v, armed, bytes, left, q0, q1, e)
armed_step t u v armed bytes left (read_none len peek c q0 q1 e) =
    ground (arith, v, armed, bytes, left, q0, q1, e)
armed_step t u v armed bytes left (read_blocks len peek c q0 q1 e) =
    ground (arith, v, armed, bytes, left, q0, q1, e)
armed_step t u v armed bytes left (read_ready a q0 q1 q2 e) =
    ground (arith, v, armed, bytes, left, q0, q1, q2, e)
armed_step t u v armed bytes left (read_sleeps a q0 q1 q2 e) =
    ground (arith, v, armed, bytes, left, q0, q1, q2, e)
armed_step t u v armed bytes left (read_interrupted a q0 q1 q2 e) =
    ground (arith, v, armed, bytes, left, q0, q1, q2, e)
armed_step t u v armed bytes left (read_signaled a q0 q1 q2 e) =
    ground (arith, v, armed, bytes, left, q0, q1, q2, e)
armed_step t u v armed bytes left (read_wakes a q0 q1 e) =
    ground (arith, v, armed, bytes, left, q0, q1, e)
armed_step t u v armed bytes left (read_clears bs q0 q1 e) =
    ground (arith, v, armed, bytes, left, q0, q1, e)
armed_step t u v armed bytes left (read_ends bs q0 e) = ground (arith, v, armed, bytes, left, q0, e)
armed_step t u v armed bytes left (read_leaves r q0 e) =
    ground (arith, v, armed, bytes, left, q0, e)
armed_step t u v armed bytes left (call_write src nonblocking q0 e) =
    ground (arith, v, armed, bytes, left, q0, e)
armed_step t u v armed bytes left (write_some src nonblocking n c q0 q1 e) =
    ground (arith, v, armed, bytes, left, q0, q1, e)
armed_step t u v armed bytes left (write_none src c q0 q1 e) =
    ground (arith, v, armed, bytes, left, q0, q1, e)
armed_step t u v armed bytes left (write_blocks src c q0 q1 e) =
    ground (arith, v, armed, bytes, left, q0, q1, e)
armed_step t u v armed bytes left (write_ready src q0 q1 q2 e) =
    ground (arith, v, armed, bytes, left, q0, q1, q2, e)
armed_step t u v armed bytes left (write_sleeps src q0 q1 q2 e) =
    ground (arith, v, armed, bytes, left, q0, q1, q2, e)
armed_step t u v armed bytes left (write_interrupted src q0 q1 q2 e) =
    ground (arith, v, armed, bytes, left, q0, q1, q2, e)
armed_step t u v armed bytes left (write_signaled src q0 q1 q2 e) =
    ground (arith, v, armed, bytes, left, q0, q1, q2, e)
armed_step t u v armed bytes left (write_wakes src q0 q1 e) =
    ground (arith, v, armed, bytes, left, q0, q1, e)
armed_step t u v armed bytes left (write_clears n q0 q1 e) =
    ground (arith, v, armed, bytes, left, q0, q1, e)
armed_step t u v armed bytes left (write_ends n q0 e) = ground (arith, v, armed, bytes, left, q0, e)
armed_step t u v armed bytes left (write_leaves r q0 e) =
    ground (arith, v, armed, bytes, left, q0, e)
armed_step t u v armed bytes left (close_read_end detach q0 e) =
    ground (arith, v, armed, bytes, left, q0, e)
armed_step t u v armed bytes left (close_write_end detach q0 e) =
    ground (arith, v, armed, bytes, left, q0, e)

abbrev pub Owing : PipeSystem → PipeSystem → ℕ → Type 0
Owing s t n =
    (t.pipe.read_waker ≡ true)
    × (is_empty t.pipe.chan ≡ false)
    × (owes t.writer + n ≤ owes s.writer)

pub Armed-run :
    (size : ℕ) (s t : PipeSystem) (n : ℕ)
    → size ≤ 2 ^ 63
    → Reach (open_pipe size) s
    → s.pipe.read_waker ≡ true
    → is_empty s.pipe.chan ≡ false
    → Armed s n t
    → Reach (open_pipe size) t × Owing s t n
Armed-run size s t n h r a b still = (r, (a, b, omega arith))
Armed-run size s t n h r a b (beside {t = m} run st c e) =
    let (reached, (armed, bytes, near)) = Armed-run size s m n h r a b run in
    let (kept, change) = armed_step m t (Reach-Inv size m h reached).wakers armed bytes c st in
    (next reached st, (c, kept, omega (arith, near, ap owes e)))
Armed-run size s t n h r a b (writes {n = k} {t = m} run st c e) =
    let (reached, (armed, bytes, near)) = Armed-run size s m k h r a b run in
    let (kept, change) = armed_step m t (Reach-Inv size m h reached).wakers armed bytes c st in
    (
      next reached st,
      (
        c,
        kept,
        elim change [ inl same ↦ absurd (e same) | inr nearer ↦ omega (arith, near, nearer) ],
      ),
    )

pub busy_owes : (w : WriterPc) → is_busy w ≡ true → 1 ≤ owes w
busy_owes (moved n) h = omega arith
busy_owes (locked n) h = omega arith
busy_owes idle h = absurd (cc h)
busy_owes (trying a x) h = absurd (cc h)
busy_owes (waiting a) h = absurd (cc h)
busy_owes (asleep a) h = absurd (cc h)
busy_owes (returned x) h = absurd (cc h)

pub at_most_two : (w : WriterPc) → owes w ≤ 2
at_most_two (moved n) = omega arith
at_most_two (locked n) = omega arith
at_most_two idle = omega arith
at_most_two (trying a x) = omega arith
at_most_two (waiting a) = omega arith
at_most_two (asleep a) = omega arith
at_most_two (returned x) = omega arith
