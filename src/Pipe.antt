-- ===== src/Pipe.antt =====
-- Pipes: kernel/syscalls/pipe.c. A call runs with the pipe's mutex held except while it sleeps, so
-- it is modelled as passes: a pass goes from a `mutex_acquire` to the next sleep or to the return,
-- and a task that is woken makes another pass. Wait queues are lists of tasks, the head first. The
-- nodes are the ends of a pipe, so that `node->ptr` is not NULL.
pub mod Window
mod Calls
mod Fifo
mod Tests
use valerioedx.Base.{
  ℕ, zero, suc, ◌+◌, ◌-◌, ◌%◌, Bool, true, false, ◌&&◌, ◌||◌, List, [], ◌∷◌, ltb, ◌==◌,
  if◌then◌else◌, update, ℤ, pos, negsuc, ◌-ℤ◌, leb_ℤ, ltb_ℤ, min,
}

abbrev pub pipe_buf_size : ℕ
pipe_buf_size = 4096

-- `pipe_t`, with what the calls did to others: the tasks made ready, those sent SIGPIPE, and whether
-- the pipe was freed.
pub record Pipe : Type 0 where
  pub buffer : ℕ → ℕ
  pub read_pos : ℕ
  pub write_pos : ℕ
  pub count : ℕ
  pub readers : ℤ
  pub writers : ℤ
  pub read_wait : List ℕ
  pub write_wait : List ℕ
  pub woken : List ℕ
  pub signalled : List ℕ
  pub freed : Bool

-- How a pass ends: the task sleeps, or the call returns a number.
pub data Outcome : Type 0 where
  sleeps : Outcome
  returns : ℤ → Outcome

-- `wake_up` takes the head of a queue, if it has one, and makes it ready.
abbrev pub rest : List ℕ → List ℕ
rest [] = []
rest (t ∷ ts) = ts

abbrev pub with_head : List ℕ → List ℕ → List ℕ
with_head [] woken = woken
with_head (t ∷ ts) woken = t ∷ woken

abbrev pub wake_readers : Pipe → Pipe
wake_readers p = record p { read_wait = rest p.read_wait; woken = with_head p.read_wait p.woken }

abbrev pub wake_writers : Pipe → Pipe
wake_writers p = record p { write_wait = rest p.write_wait; woken = with_head p.write_wait p.woken }

abbrev pub is_zero_ℤ : ℤ → Bool
is_zero_ℤ (pos n) = n == 0
is_zero_ℤ (negsuc n) = false

-- The loop that takes bytes out, with the rounds left: the position and the destination after it.
pub copy_out : ℕ → ℕ → (ℕ → ℕ) → ℕ → (ℕ → ℕ) → ℕ × (ℕ → ℕ)
copy_out zero i from read_pos to = (read_pos, to)
copy_out (suc rounds) i from read_pos to =
    copy_out rounds (i + 1) from ((read_pos + 1) % pipe_buf_size) (update to i (from read_pos))

-- The loop that puts bytes in: the position and the buffer after it.
pub copy_in : ℕ → ℕ → (ℕ → ℕ) → ℕ → (ℕ → ℕ) → ℕ × (ℕ → ℕ)
copy_in zero i from write_pos to = (write_pos, to)
copy_in (suc rounds) i from write_pos to =
    copy_in rounds (i + 1) from ((write_pos + 1) % pipe_buf_size) (update to write_pos (from i))

-- The end of `pipe_read`, with bytes or at the end of the file.
pub take_bytes : ℕ → (ℕ → ℕ) → Pipe → Outcome × (ℕ → ℕ) × Pipe
take_bytes size to p =
    let to_read = if ltb p.count size then p.count else size in
    let copied = copy_out to_read 0 p.buffer p.read_pos to in
    (
      returns (pos to_read),
      copied.1,
      wake_writers (record p { read_pos = copied.0; count = p.count - to_read }),
    )

-- A pass of `pipe_read` by a task, into a buffer.
pub pipe_read : (task size : ℕ) → (ℕ → ℕ) → Pipe → Outcome × (ℕ → ℕ) × Pipe
pipe_read task size to p =
    if (p.count == 0) && ltb_ℤ (pos 0) p.writers
    then (sleeps, to, record p { read_wait = task ∷ p.read_wait })
    else if (p.count == 0) && is_zero_ℤ p.writers
    then (returns (pos 0), to, p)
    else take_bytes size to p

-- The end of `pipe_write`, where it does not sleep.
pub put_bytes : ℕ → (ℕ → ℕ) → Pipe → Outcome × Pipe
put_bytes size from p =
    let available = pipe_buf_size - p.count in
    let to_write = if ltb available size then available else size in
    let copied = copy_in to_write 0 from p.write_pos p.buffer in
    if available == 0 then (returns (pos 0), p) else (
      returns (pos to_write),
      wake_readers
          (record p { write_pos = copied.0; buffer = copied.1; count = p.count + to_write }),
    )

-- A pass of `pipe_write` by a task. The test for readers stands in front of the loop and again after
-- each sleep, so at the start of every pass.
pub pipe_write : (task size : ℕ) → (ℕ → ℕ) → Pipe → Outcome × Pipe
pipe_write task size from p =
    if is_zero_ℤ p.readers
    then (returns (negsuc 0), record p { signalled = task ∷ p.signalled })
    else if (p.count == pipe_buf_size) && ltb_ℤ (pos 0) p.readers
    then (sleeps, record p { write_wait = task ∷ p.write_wait })
    else put_bytes size from p

-- `kfree` where no end is left.
abbrev pub drop_pipe : Pipe → Pipe
drop_pipe p = record p { freed = p.freed || (leb_ℤ p.readers (pos 0) && leb_ℤ p.writers (pos 0)) }

pub pipe_close_read : Pipe → Pipe
pipe_close_read p = drop_pipe (wake_writers (record p { readers = p.readers -ℤ pos 1 }))

pub pipe_close_write : Pipe → Pipe
pipe_close_write p = drop_pipe (wake_readers (record p { writers = p.writers -ℤ pos 1 }))

-- The pipe that `sys_pipe` makes, in memory that is set to 0.
pub pipe_new : Pipe
pipe_new = record {
  buffer = λ i. 0;
  read_pos = 0;
  write_pos = 0;
  count = 0;
  readers = pos 1;
  writers = pos 1;
  read_wait = [];
  write_wait = [];
  woken = [];
  signalled = [];
  freed = false;
}
