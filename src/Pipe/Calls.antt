-- ===== src/Pipe/Calls.antt =====
-- A pass of `pipe_read` and of `pipe_write` against the bytes in the pipe.
use valerioedx.Base.{
  ℕ, ◌+◌, ◌-◌, ◌%◌, ◌≤◌, ◌<◌, ◌≡◌, refl, inl, inr, ◌&&◌, List, ◌∷◌, ◌++◌, ltb, ◌==◌, if◌then◌else◌,
  pos, negsuc, ltb_ℤ, min, arith, ap, sym, ◌∙◌, append_nil, Bool-cases,
}
use valerioedx.Pipe.{
  Pipe, Outcome, sleeps, returns, pipe_buf_size, is_zero_ℤ, wake_readers, wake_writers, copy_out,
  copy_in, take_bytes, pipe_read, put_bytes, pipe_write, pipe_new,
}
use valerioedx.Pipe.Window.{
  window, bytes, window-add, copy_out-position, bytes-copy_out, copy_in-position, window-copy_in,
}

-- The bytes in the pipe, the oldest first.
abbrev pub contents : Pipe → List ℕ
contents p = window p.buffer p.read_pos p.count

-- Positions lie in the ring, and writing goes on behind the bytes that are there.
pub record IsValid (p : Pipe) : Type 0 where
  pub read_inside : p.read_pos < pipe_buf_size
  pub fits : p.count ≤ pipe_buf_size
  pub behind : p.write_pos ≡ (p.read_pos + p.count) % pipe_buf_size

pub new-IsValid : IsValid pipe_new
unfolding pipe_new
new-IsValid = record { read_inside = omega arith; fits = omega arith; behind = omega arith }

-- How many bytes a pass that ends so has moved.
abbrev pub moved_count : Outcome → ℕ
moved_count sleeps = 0
moved_count (returns (pos n)) = n
moved_count (returns (negsuc n)) = 0

-- What a reader got from a pass that took `n` bytes, and what is left.
pub record Took (n : ℕ) (to : ℕ → ℕ) (p q : Pipe) : Type 0 where
  pub keeps : IsValid q
  pub oldest : bytes to 0 n ++ contents q ≡ contents p

take-Took :
    (n : ℕ) (to : ℕ → ℕ) (p : Pipe)
    → IsValid p
    → n ≤ p.count
    → let copied = copy_out n 0 p.buffer p.read_pos to in
      Took n copied.1 p (wake_writers (record p { read_pos = copied.0; count = p.count - n }))
take-Took n to p v h =
    let at = copy_out-position n 0 p.buffer p.read_pos to v.read_inside in
    record {
      keeps = record {
        read_inside = omega (arith, v.read_inside, at);
        fits = omega (arith, v.fits);
        behind = omega (arith, v.behind, at, h);
      };
      oldest =
          rw (bytes-copy_out n 0 p.buffer p.read_pos to, at)
            (sym (window-add p.buffer p.read_pos n (p.count - n) v.read_inside)
              ∙ ap (λ c. window p.buffer p.read_pos c) (omega (arith, h)));
    }

smaller : (a b : ℕ) → (if ltb a b then a else b) ≡ min b a
smaller a b = ground arith

none-Took : (to : ℕ → ℕ) (p q : Pipe) → IsValid q → contents q ≡ contents p → Took 0 to p q
unfolding bytes
none-Took to p q v same = record { keeps = v; oldest = same }

-- A pass of `pipe_read` on a valid pipe sleeps exactly when the pipe is empty and has writers.
-- Otherwise it returns the smaller of the size and the count of bytes. The bytes put into the
-- reader's buffer are the oldest of the pipe, in order, those left follow them, and the pipe is
-- valid again.
pub pipe_read_lem :
    (task size : ℕ) (to : ℕ → ℕ) (p : Pipe)
    → IsValid p
    → let (o, to', q) = pipe_read task size to p in
      (o ≡ (
        if (p.count == 0) && ltb_ℤ (pos 0) p.writers
        then sleeps
        else returns (pos (min size p.count))))
      × Took (moved_count o) to' p q
unfolding pipe_read take_bytes
pipe_read_lem task size to p v = elim (Bool-cases ((p.count == 0) && ltb_ℤ (pos 0) p.writers)) [
  | inl waits ↦ rw waits (
    refl,
    none-Took to p (record p { read_wait = task ∷ p.read_wait })
        (record { read_inside = v.read_inside; fits = v.fits; behind = v.behind }) refl,
  )
  | inr there ↦ rw there (elim (Bool-cases ((p.count == 0) && is_zero_ℤ p.writers)) [
    | inl ended ↦
        rw ended (ap (λ k. returns (pos k)) (ground (arith, ended)), none-Took to p p v refl)
    | inr going ↦
        rw (going, smaller p.count size) (refl, take-Took (min size p.count) to p v (omega arith))
  ])
]

-- `n` bytes of a writer's buffer follow those that were there.
pub record Gave (n : ℕ) (from : ℕ → ℕ) (p q : Pipe) : Type 0 where
  pub keeps : IsValid q
  pub newest : contents q ≡ contents p ++ bytes from 0 n

put-Gave :
    (n : ℕ) (from : ℕ → ℕ) (p : Pipe)
    → IsValid p
    → p.count + n ≤ pipe_buf_size
    → let copied = copy_in n 0 from p.write_pos p.buffer in
      Gave n from p
        (wake_readers (record p { write_pos = copied.0; buffer = copied.1; count = p.count + n }))
put-Gave n from p v h = record {
  keeps = record {
    read_inside = v.read_inside;
    fits = h;
    behind = omega (
      arith,
      v.behind,
      v.read_inside,
      copy_in-position n 0 from p.write_pos p.buffer (omega (arith, v.behind)),
    );
  };
  newest = window-copy_in n 0 from p.read_pos p.count p.write_pos p.buffer v.read_inside h v.behind;
}

none-Gave : (from : ℕ → ℕ) (p q : Pipe) → IsValid q → contents q ≡ contents p → Gave 0 from p q
unfolding bytes
none-Gave from p q v same = record { keeps = v; newest = same ∙ sym (append_nil (contents p)) }

-- A pass of `pipe_write` on a valid pipe fails with -1 exactly when no reader is left; otherwise it
-- sleeps exactly when the pipe is full and has readers, and else returns the smaller of the size and
-- the free space. As many bytes as it returns, from the start of the writer's buffer, follow those
-- that were in the pipe, none where it fails or sleeps, and the pipe is valid again.
pub pipe_write_lem :
    (task size : ℕ) (from : ℕ → ℕ) (p : Pipe)
    → IsValid p
    → let (o, q) = pipe_write task size from p in
      (o ≡ (
        if is_zero_ℤ p.readers
        then returns (negsuc 0)
        else if (p.count == pipe_buf_size) && ltb_ℤ (pos 0) p.readers
        then sleeps
        else returns (pos (min size (pipe_buf_size - p.count)))))
      × Gave (moved_count o) from p q
unfolding pipe_write put_bytes
pipe_write_lem task size from p v = elim (Bool-cases (is_zero_ℤ p.readers)) [
  | inl broken ↦ rw broken (
    refl,
    none-Gave from p (record p { signalled = task ∷ p.signalled })
        (record { read_inside = v.read_inside; fits = v.fits; behind = v.behind }) refl,
  )
  | inr read ↦ rw read (elim (Bool-cases ((p.count == pipe_buf_size) && ltb_ℤ (pos 0) p.readers)) [
    | inl full ↦ rw full (
      refl,
      none-Gave from p (record p { write_wait = task ∷ p.write_wait })
          (record { read_inside = v.read_inside; fits = v.fits; behind = v.behind }) refl,
    )
    | inr there ↦ rw there (elim (Bool-cases (pipe_buf_size - p.count == 0)) [
      | inl no_space ↦
          rw no_space
            (ap (λ k. returns (pos k)) (ground (arith, no_space)), none-Gave from p p v refl)
      | inr space ↦
          rw (space, smaller (pipe_buf_size - p.count) size)
            (refl, put-Gave (min size (pipe_buf_size - p.count)) from p v (omega (arith, v.fits)))
    ])
  ])
]
