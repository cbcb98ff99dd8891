-- ===== src/Pipe/Fifo.antt =====
-- Any sequence of passes on a pipe against a queue of bytes.
use valerioedx.Base.{ℕ, ◌≡◌, List, [], ◌∷◌, ◌++◌, ap, sym, ◌∙◌, append_nil, append_assoc}
use valerioedx.Pipe.{Pipe, pipe_read, pipe_write, pipe_close_read, pipe_close_write}
use valerioedx.Pipe.Window.{bytes}
use valerioedx.Pipe.Calls.{contents, IsValid, moved_count, pipe_read_lem, pipe_write_lem}

-- A pass by a task with a size and a buffer, or the end of a side.
pub data Pass : Type 0 where
  reads writes : ℕ → ℕ → (ℕ → ℕ) → Pass
  shuts_read shuts_write : Pass

pub step : Pass → Pipe → Pipe
step (reads task size to) p = (pipe_read task size to p).2
step (writes task size from) p = (pipe_write task size from p).1
step shuts_read p = pipe_close_read p
step shuts_write p = pipe_close_write p

-- The bytes that a reader finds in its buffer after the pass, as many as the call returned.
pub received : Pass → Pipe → List ℕ
received (reads task size to) p = let r = pipe_read task size to p in bytes r.1 0 (moved_count r.0)
received (writes task size from) p = []
received shuts_read p = []
received shuts_write p = []

-- The bytes of a writer's buffer that it was told are written.
pub accepted : Pass → Pipe → List ℕ
accepted (reads task size to) p = []
accepted (writes task size from) p = bytes from 0 (moved_count (pipe_write task size from p).0)
accepted shuts_read p = []
accepted shuts_write p = []

pub steps : List Pass → Pipe → Pipe
steps [] p = p
steps (s ∷ ss) p = steps ss (step s p)

pub all_received : List Pass → Pipe → List ℕ
all_received [] p = []
all_received (s ∷ ss) p = received s p ++ all_received ss (step s p)

pub all_accepted : List Pass → Pipe → List ℕ
all_accepted [] p = []
all_accepted (s ∷ ss) p = accepted s p ++ all_accepted ss (step s p)

step-IsValid : (s : Pass) (p : Pipe) → IsValid p → IsValid (step s p)
unfolding step pipe_close_read pipe_close_write
step-IsValid (reads task size to) p v = (pipe_read_lem task size to p v).1.keeps
step-IsValid (writes task size from) p v = (pipe_write_lem task size from p v).1.keeps
step-IsValid shuts_read p v = record {
  read_inside = v.read_inside;
  fits = v.fits;
  behind = v.behind;
}
step-IsValid shuts_write p v = record {
  read_inside = v.read_inside;
  fits = v.fits;
  behind = v.behind;
}

step_fifo :
    (s : Pass) (p : Pipe)
    → IsValid p
    → received s p ++ contents (step s p) ≡ contents p ++ accepted s p
unfolding step received accepted pipe_close_read pipe_close_write
step_fifo (reads task size to) p v =
    (pipe_read_lem task size to p v).1.oldest ∙ sym (append_nil (contents p))
step_fifo (writes task size from) p v = (pipe_write_lem task size from p v).1.newest
step_fifo shuts_read p v = sym (append_nil (contents p))
step_fifo shuts_write p v = sym (append_nil (contents p))

-- Over any sequence of passes of readers and writers, and closings of either side, from a valid
-- pipe, the bytes that the readers received, and behind them the bytes left in the pipe, are those
-- that were in it at first, and behind them those that writers were told are written: no byte is
-- lost, doubled, changed or moved before another. The pipe stays valid.
pub pipe_fifo :
    (ss : List Pass) (p : Pipe)
    → IsValid p
    → IsValid (steps ss p)
      × (all_received ss p ++ contents (steps ss p) ≡ contents p ++ all_accepted ss p)
unfolding steps all_received all_accepted
pipe_fifo [] p v = (v, sym (append_nil (contents p)))
pipe_fifo (s ∷ ss) p v =
    let (v', later) = pipe_fifo ss (step s p) (step-IsValid s p v) in
    (
      v',
      append_assoc (received s p) (all_received ss (step s p)) (contents (steps ss (step s p)))
          ∙ ap (λ l. received s p ++ l) later
          ∙ sym (append_assoc (received s p) (contents (step s p)) (all_accepted ss (step s p)))
          ∙ ap (λ l. l ++ all_accepted ss (step s p)) (step_fifo s p v)
          ∙ append_assoc (contents p) (accepted s p) (all_accepted ss (step s p)),
    )
