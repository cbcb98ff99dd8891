-- ===== src/Pipe/Tests.antt =====
-- The theorems on pipes at a ring whose bytes go past its end.
use valerioedx.Base.{◌≡◌, refl, List, [], ◌∷◌, ◌++◌, pos, arith, ◌+◌}
use valerioedx.Pipe.{Pipe, returns, pipe_read, pipe_new, take_bytes, copy_out}
use valerioedx.Pipe.Calls.{IsValid, contents}
use valerioedx.Pipe.Fifo.{Pass, reads, writes, steps, all_received, all_accepted, pipe_fifo}

-- Two bytes, at the last index and at the first.
abbrev two_bytes : Pipe
two_bytes = record pipe_new { buffer = λ i. i; read_pos = 4095; write_pos = 1; count = 2 }

abbrev valid_two : IsValid two_bytes
valid_two = record { read_inside = omega arith; fits = omega arith; behind = omega arith }

abbrev passes : List Pass
passes = writes 9 2 (λ i. 60 + i) ∷ reads 8 3 (λ i. 0) ∷ []

fifo_example :
    IsValid (steps passes two_bytes)
    × (all_received passes two_bytes ++ contents (steps passes two_bytes)
        ≡ contents two_bytes ++ all_accepted passes two_bytes)
fifo_example = pipe_fifo passes two_bytes valid_two

read_two : (pipe_read 8 2 (λ i. 0) two_bytes).0 ≡ returns (pos 2)
unfolding pipe_read take_bytes copy_out pipe_new
read_two = refl
