-- ===== src/Pipe/Steps.antt =====
-- The steps of a pipe's threads, one by one.
use junction.Prelude.{
  ℕ, ◌≡◌, refl, sym, ap, ap₂, subst, ◌∙◌, true, false, List, [], ◌∷◌, ◌++◌, take, append_assoc,
  arith,
}
use junction.ByteChannel.Valid.{IsValid, contents}
use junction.Pipe.Channel.{read_moves, read_peeks, read-nonempty, write_moves}
use junction.Pipe.Threads.{
  PipeSystem, Step, call_read, read_some, read_none, read_blocks, read_ready, read_sleeps,
  read_interrupted, read_signaled, read_wakes, read_clears, read_ends, read_leaves, call_write,
  write_some, write_none, write_blocks, write_ready, write_sleeps, write_interrupted,
  write_signaled, write_wakes, write_clears, write_ends, write_leaves, close_read_end,
  close_write_end,
}
use junction.Pipe.Invariant.{has_bytes, Events, Streams, Inv}

pub Step-Events : (s t : PipeSystem) → IsValid s.pipe.chan → Events s → Step s t → Events t
Step-Events s t valid v (call_read a nonblocking pc e) =
    subst Events (sym e) (ground (arith, pc, v))
Step-Events s t valid v (read_some len false nonblocking bs c pc r e) =
    subst Events (sym e) (ground (arith, pc, read_moves s.pipe.chan len bs c valid r, v))
Step-Events s t valid v (read_some len true nonblocking bs c pc r e) =
    subst Events (sym e) (ground (arith, pc, read_peeks s.pipe.chan len bs c r, v))
Step-Events s t valid v (read_none len peek c pc r e) = subst Events (sym e) (ground (arith, pc, v))
Step-Events s t valid v (read_blocks len peek c pc r e) =
    subst Events (sym e) (ground (arith, pc, v))
Step-Events s t valid v (read_ready a pc u stop e) = subst Events (sym e) (ground (arith, pc, v))
Step-Events s t valid v (read_sleeps a pc u stop e) =
    subst Events (sym e) (ground (arith, pc, stop, v))
Step-Events s t valid v (read_interrupted a pc u stop e) =
    subst Events (sym e) (ground (arith, pc, v))
Step-Events s t valid v (read_signaled a pc u armed e) =
    subst Events (sym e) (ground (arith, pc, v))
Step-Events s t valid v (read_wakes a pc armed e) =
    subst Events (sym e) (ground (arith, pc, armed, v))
Step-Events s t valid v (read_clears bs pc u e) = subst Events (sym e) (ground (arith, pc, v))
Step-Events s t valid v (read_ends bs pc e) = subst Events (sym e) (ground (arith, pc, v))
Step-Events s t valid v (read_leaves r pc e) = subst Events (sym e) (ground (arith, pc, v))
Step-Events s t valid v (call_write [] nonblocking pc e) =
    subst Events (sym e) (ground (arith, pc, v))
Step-Events s t valid v (call_write (b ∷ bs) nonblocking pc e) =
    subst Events (sym e) (ground (arith, pc, v))
Step-Events s t valid v (write_some src nonblocking n c pc r e) =
    subst Events (sym e) (ground (arith, pc, write_moves s.pipe.chan src n c valid r, v))
Step-Events s t valid v (write_none src c pc r e) = subst Events (sym e) (ground (arith, pc, v))
Step-Events s t valid v (write_blocks src c pc r e) = subst Events (sym e) (ground (arith, pc, v))
Step-Events s t valid v (write_ready src pc u stop e) = subst Events (sym e) (ground (arith, pc, v))
Step-Events s t valid v (write_sleeps src pc u stop e) =
    subst Events (sym e) (ground (arith, pc, stop, v))
Step-Events s t valid v (write_interrupted src pc u stop e) =
    subst Events (sym e) (ground (arith, pc, v))
Step-Events s t valid v (write_signaled src pc u armed e) =
    subst Events (sym e) (ground (arith, pc, v))
Step-Events s t valid v (write_wakes src pc armed e) =
    subst Events (sym e) (ground (arith, pc, armed, v))
Step-Events s t valid v (write_clears n pc u e) = subst Events (sym e) (ground (arith, pc, v))
Step-Events s t valid v (write_ends n pc e) = subst Events (sym e) (ground (arith, pc, v))
Step-Events s t valid v (write_leaves r pc e) = subst Events (sym e) (ground (arith, pc, v))
Step-Events s t valid v (close_read_end detach u e) = subst Events (sym e) (ground (arith, v))
Step-Events s t valid v (close_write_end detach u e) = subst Events (sym e) (ground (arith, v))

-- A step that leaves the channel alone and moves no bytes.
still :
    (s t : PipeSystem)
    → Streams s
    → t.pipe.chan ≡ s.pipe.chan
    → t.received ≡ s.received
    → t.sent ≡ s.sent
    → has_bytes t.reader ≡ true
    → Streams t
still s t v c r w b = record {
  valid = subst IsValid (sym c) v.valid;
  nonempty = b;
  order = ap₂ ◌++◌ r (ap contents c) ∙ (v.order ∙ sym w);
}

Step-Streams : (s t : PipeSystem) → Streams s → Step s t → Streams t
Step-Streams s t v (call_read a nonblocking pc e) =
    subst Streams (sym e) (still s _ v refl refl refl (ground (arith, v.nonempty, pc)))
Step-Streams s t v (read_some len false nonblocking bs c pc r e) =
    let (valid, _, _, order) = read_moves s.pipe.chan len bs c v.valid r in
    subst Streams (sym e) (record {
      valid = valid;
      nonempty = ground (arith, read-nonempty s.pipe.chan len false bs c v.valid r);
      order =
          append_assoc s.received bs (contents c)
          ∙ (ap (λ (l : List ℕ). s.received ++ l) order ∙ v.order);
    })
Step-Streams s t v (read_some len true nonblocking bs c pc r e) =
    let (_, same) = read_peeks s.pipe.chan len bs c r in
    subst Streams (sym e) (
      still s _ v same refl refl
        (ground (arith, read-nonempty s.pipe.chan len true bs c v.valid r)))
Step-Streams s t v (read_none len peek c pc r e) =
    subst Streams (sym e) (still s _ v refl refl refl (ground (arith, v.nonempty, pc)))
Step-Streams s t v (read_blocks len peek c pc r e) =
    subst Streams (sym e) (still s _ v refl refl refl (ground (arith, v.nonempty, pc)))
Step-Streams s t v (read_ready a pc u stop e) =
    subst Streams (sym e) (still s _ v refl refl refl (ground (arith, v.nonempty, pc)))
Step-Streams s t v (read_sleeps a pc u stop e) =
    subst Streams (sym e) (still s _ v refl refl refl (ground (arith, v.nonempty, pc)))
Step-Streams s t v (read_interrupted a pc u stop e) =
    subst Streams (sym e) (still s _ v refl refl refl (ground (arith, v.nonempty, pc)))
Step-Streams s t v (read_signaled a pc u armed e) =
    subst Streams (sym e) (still s _ v refl refl refl (ground (arith, v.nonempty, pc)))
Step-Streams s t v (read_wakes a pc armed e) =
    subst Streams (sym e) (still s _ v refl refl refl (ground (arith, v.nonempty, pc)))
Step-Streams s t v (read_clears bs pc u e) =
    subst Streams (sym e) (still s _ v (ground arith) refl refl (ground (arith, v.nonempty, pc)))
Step-Streams s t v (read_ends bs pc e) =
    subst Streams (sym e) (still s _ v (ground arith) refl refl (ground (arith, v.nonempty, pc)))
Step-Streams s t v (read_leaves r pc e) =
    subst Streams (sym e) (still s _ v refl refl refl (ground (arith, v.nonempty, pc)))
Step-Streams s t v (call_write [] nonblocking pc e) =
    subst Streams (sym e) (still s _ v refl refl refl (ground (arith, v.nonempty, pc)))
Step-Streams s t v (call_write (b ∷ bs) nonblocking pc e) =
    subst Streams (sym e) (still s _ v refl refl refl (ground (arith, v.nonempty, pc)))
Step-Streams s t v (write_some src nonblocking n c pc r e) =
    let (valid, _, _, order) = write_moves s.pipe.chan src n c v.valid r in
    subst Streams (sym e) (record {
      valid = valid;
      nonempty = v.nonempty;
      order =
          ap (λ (l : List ℕ). s.received ++ l) order
          ∙ (sym (append_assoc s.received (contents s.pipe.chan) (take n src))
              ∙ ap (λ (l : List ℕ). l ++ take n src) v.order);
    })
Step-Streams s t v (write_none src c pc r e) =
    subst Streams (sym e) (still s _ v refl refl refl (ground (arith, v.nonempty, pc)))
Step-Streams s t v (write_blocks src c pc r e) =
    subst Streams (sym e) (still s _ v refl refl refl (ground (arith, v.nonempty, pc)))
Step-Streams s t v (write_ready src pc u stop e) =
    subst Streams (sym e) (still s _ v refl refl refl (ground (arith, v.nonempty, pc)))
Step-Streams s t v (write_sleeps src pc u stop e) =
    subst Streams (sym e) (still s _ v refl refl refl (ground (arith, v.nonempty, pc)))
Step-Streams s t v (write_interrupted src pc u stop e) =
    subst Streams (sym e) (still s _ v refl refl refl (ground (arith, v.nonempty, pc)))
Step-Streams s t v (write_signaled src pc u armed e) =
    subst Streams (sym e) (still s _ v refl refl refl (ground (arith, v.nonempty, pc)))
Step-Streams s t v (write_wakes src pc armed e) =
    subst Streams (sym e) (still s _ v refl refl refl (ground (arith, v.nonempty, pc)))
Step-Streams s t v (write_clears n pc u e) =
    subst Streams (sym e) (still s _ v (ground arith) refl refl (ground (arith, v.nonempty, pc)))
Step-Streams s t v (write_ends n pc e) =
    subst Streams (sym e) (still s _ v (ground arith) refl refl (ground (arith, v.nonempty, pc)))
Step-Streams s t v (write_leaves r pc e) =
    subst Streams (sym e) (still s _ v refl refl refl (ground (arith, v.nonempty, pc)))
Step-Streams s t v (close_read_end detach u e) =
    subst Streams (sym e) (still s _ v refl refl refl (ground (arith, v.nonempty)))
Step-Streams s t v (close_write_end detach u e) =
    subst Streams (sym e) (still s _ v refl refl refl (ground (arith, v.nonempty)))

-- Every step keeps the invariant of the pipe and its threads.
pub Step-Inv : (s t : PipeSystem) → Inv s → Step s t → Inv t
Step-Inv s t v st =
    let (w, p) = Step-Events s t v.streams.valid (v.wakers, v.polls) st in
    record { streams = Step-Streams s t v.streams st; wakers = w; polls = p }
