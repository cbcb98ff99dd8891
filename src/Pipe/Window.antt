-- ===== src/Pipe/Window.antt =====
-- The bytes of a ring buffer as a list, and what the copying loops of kernel/syscalls/pipe.c do to it.
use valerioedx.Base.{
  ℕ, zero, suc, ◌+◌, ◌%◌, ◌≤◌, ◌<◌, ◌≡◌, refl, List, [], ◌∷◌, ◌++◌, update, arith, ap, sym, ◌∙◌,
  append_snoc, append_nil,
}
use valerioedx.Pipe.{pipe_buf_size, copy_out, copy_in}

-- `n` bytes of the ring, from a position on.
pub window : (ℕ → ℕ) → ℕ → ℕ → List ℕ
window ring at zero = []
window ring at (suc n) = ring at ∷ window ring ((at + 1) % pipe_buf_size) n

-- `n` bytes of a flat buffer, from an index on.
unfoldable pub bytes : (ℕ → ℕ) → ℕ → ℕ → List ℕ
bytes f i zero = []
bytes f i (suc n) = f i ∷ bytes f (i + 1) n

window-eq :
    (ring : ℕ → ℕ) {at at' n n' : ℕ} → at ≡ at' → n ≡ n' → window ring at n ≡ window ring at' n'
window-eq ring e h = rw (e, h) refl

pub window-add :
    (ring : ℕ → ℕ) (at m n : ℕ)
    → at < pipe_buf_size
    → window ring at (m + n) ≡ window ring at m ++ window ring ((at + m) % pipe_buf_size) n
unfolding window
window-add ring at zero n h = window-eq ring (omega arith) (omega arith)
window-add ring at (suc m) n h =
    window-eq ring {n' = suc (m + n)} refl (omega arith)
    ∙ ap (λ l. ring at ∷ l)
        (window-add ring ((at + 1) % pipe_buf_size) m n (omega arith)
          ∙ ap (λ l. window ring ((at + 1) % pipe_buf_size) m ++ l)
              (window-eq ring {n' = n} (omega arith) refl))

-- A byte outside of the window.
window-update :
    (ring : ℕ → ℕ) (at n c p x : ℕ)
    → at < pipe_buf_size
    → n ≤ c
    → c < pipe_buf_size
    → p ≡ (at + c) % pipe_buf_size
    → window (update ring p x) at n ≡ window ring at n
unfolding window
window-update ring at zero c p x h k l e = refl
window-update ring at (suc n) zero p x h k l e = absurd (omega arith)
window-update ring at (suc n) (suc c) p x h k l e =
    rw
      (window-update ring ((at + 1) % pipe_buf_size) n c p x (omega arith) (omega arith)
        (omega arith) (omega arith))
      (ap (λ b. b ∷ window ring ((at + 1) % pipe_buf_size) n) (ground arith))

-- The loop of `pipe_read` moves the position by the bytes read, and puts the window in front of it
-- into the destination.
pub copy_out-position :
    (n i : ℕ) (from : ℕ → ℕ) (at : ℕ) (to : ℕ → ℕ)
    → at < pipe_buf_size
    → (copy_out n i from at to).0 ≡ (at + n) % pipe_buf_size
unfolding copy_out
copy_out-position zero i from at to h = omega arith
copy_out-position (suc n) i from at to h = omega (
  arith,
  copy_out-position n (i + 1) from ((at + 1) % pipe_buf_size) (update to i (from at)) (omega arith),
)

copy_out_before :
    (n i : ℕ) (from : ℕ → ℕ) (at : ℕ) (to : ℕ → ℕ) (k : ℕ)
    → k < i
    → (copy_out n i from at to).1 k ≡ to k
unfolding copy_out
copy_out_before zero i from at to k h = refl
copy_out_before (suc n) i from at to k h =
    copy_out_before n (i + 1) from ((at + 1) % pipe_buf_size) (update to i (from at)) k
      (omega arith)
    ∙ ground arith

pub bytes-copy_out :
    (n i : ℕ) (from : ℕ → ℕ) (at : ℕ) (to : ℕ → ℕ)
    → bytes (copy_out n i from at to).1 i n ≡ window from at n
unfolding copy_out bytes window
bytes-copy_out zero i from at to = refl
bytes-copy_out (suc n) i from at to =
    rw
      (
        bytes-copy_out n (i + 1) from ((at + 1) % pipe_buf_size) (update to i (from at)),
        copy_out_before n (i + 1) from ((at + 1) % pipe_buf_size) (update to i (from at)) i
            (omega arith),
      )
      (ap (λ b. b ∷ window from ((at + 1) % pipe_buf_size) n) (ground arith))

pub copy_in-position :
    (n i : ℕ) (from : ℕ → ℕ) (at : ℕ) (to : ℕ → ℕ)
    → at < pipe_buf_size
    → (copy_in n i from at to).0 ≡ (at + n) % pipe_buf_size
unfolding copy_in
copy_in-position zero i from at to h = omega arith
copy_in-position (suc n) i from at to h = omega (
  arith,
  copy_in-position n (i + 1) from ((at + 1) % pipe_buf_size) (update to at (from i)) (omega arith),
)

-- The loop of `pipe_write` appends the bytes to the window that ends where it starts.
pub window-copy_in :
    (n i : ℕ) (from : ℕ → ℕ) (at c p : ℕ) (to : ℕ → ℕ)
    → at < pipe_buf_size
    → c + n ≤ pipe_buf_size
    → p ≡ (at + c) % pipe_buf_size
    → window (copy_in n i from p to).1 at (c + n) ≡ window to at c ++ bytes from i n
unfolding copy_in bytes window
window-copy_in zero i from at c p to h k e =
    window-eq to refl (omega arith) ∙ sym (append_nil (window to at c))
window-copy_in (suc n) i from at c p to h k e =
    let to' = update to p (from i) in
    let w = window to at c in
    let rest = bytes from (i + 1) n in
    window-eq (copy_in n (i + 1) from ((p + 1) % pipe_buf_size) to').1 refl (omega arith)
    ∙ window-copy_in n (i + 1) from at (c + 1) ((p + 1) % pipe_buf_size) to' h (omega arith)
        (omega arith)
    ∙ ap (λ l. l ++ rest)
        (window-add to' at c 1 h
          ∙ rw (window-update to at c c p (from i) h (omega arith) (omega arith) e)
              (ap (λ b. w ++ b ∷ []) (ground arith)))
    ∙ append_snoc w (from i) rest
