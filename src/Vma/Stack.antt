-- ===== src/Vma/Stack.antt =====
-- `vma_expand_stack` of kernel/mm/vma.c.
use valerioedx.Base.{
  ℕ, ◌-◌, ◌*◌, ◌/◌, ◌≤◌, ◌<◌, ◌≡◌, refl, ◌↔◌, true, false, List, [], ◌∷◌, ◌++◌, pos, arith,
}
use valerioedx.Pmm.{page_size}
use valerioedx.Vma.{
  Vma, user_stack_top, user_stack_size, grows_down, expand_first, vma_expand_stack,
}
use valerioedx.Vma.Order.{Ordered}

-- No area of the list grows down.
abbrev pub NoneGrows : List Vma → Type 0
NoneGrows [] = Unit {0}
NoneGrows (v ∷ vs) = (grows_down v ≡ false) × NoneGrows vs

abbrev pub AllBelow : ℕ → List Vma → Type 0
AllBelow n [] = Unit {0}
AllBelow n (v ∷ vs) = (v.vm_end ≤ n) × AllBelow n vs

expand_first-append :
    (n : ℕ) (front back : List Vma) (s : Vma)
    → NoneGrows front
    → grows_down s ≡ true
    → user_stack_top - user_stack_size * 2 ≤ n
    → expand_first n (front ++ (s ∷ back)) ≡ (pos 0, front ++ (record s { vm_start = n } ∷ back))
unfolding expand_first
expand_first-append n [] back s none_grows g low = ground arith
expand_first-append n (v ∷ front) back s none_grows g low =
    rw (none_grows.0, expand_first-append n front back s none_grows.1 g low)

Ordered-start-le :
    (lo : ℕ) (front back : List Vma) (s : Vma) → Ordered lo (front ++ (s ∷ back)) → lo ≤ s.vm_start
Ordered-start-le lo [] back s o = o.0
Ordered-start-le lo (v ∷ front) back s o = omega (arith, Ordered-start-le v.vm_end front back s o.2)

Ordered-expanded :
    (lo n : ℕ) (front back : List Vma) (s : Vma)
    → Ordered lo (front ++ (s ∷ back))
    → n < s.vm_end
    → lo ≤ n
    → Ordered lo (front ++ (record s { vm_start = n } ∷ back)) ↔ AllBelow n front
Ordered-expanded lo n [] back s o h le = (λ o'. tt, λ u. (le, h, o.2))
Ordered-expanded lo n (v ∷ front) back s o h le = (
  λ o'.
      let below : v.vm_end ≤ n =
        Ordered-start-le v.vm_end front back (record s { vm_start = n }) o'.2 in
      (below, (Ordered-expanded v.vm_end n front back s o.2 h below).0 o'.2),
  λ b. (o.0, o.1, (Ordered-expanded v.vm_end n front back s o.2 h b.0).1 b.1),
)

-- At an address at most 16 MiB below the top of the stack and below the end of the first area that
-- grows down, the expansion returns 0 and moves that area's start to the page of the address. The
-- areas stay ordered exactly when all areas in front of it end at or below that page: this the code
-- does not test.
pub expand_stack_lem :
    (addr : ℕ) (front back : List Vma) (s : Vma)
    → NoneGrows front
    → grows_down s ≡ true
    → user_stack_top - user_stack_size * 2 ≤ addr
    → addr < s.vm_end
    → Ordered 0 (front ++ (s ∷ back))
    → let (code, vs) = vma_expand_stack addr (front ++ (s ∷ back)) in
      let n = addr / page_size * page_size in
      (code ≡ pos 0)
      × (vs ≡ front ++ (record s { vm_start = n } ∷ back))
      × (Ordered 0 vs ↔ AllBelow n front)
unfolding vma_expand_stack
expand_stack_lem addr front back s none_grows g low h o =
    rw (expand_first-append (addr / page_size * page_size) front back s none_grows g (omega arith))
      (refl, refl, Ordered-expanded 0 _ front back s o (omega arith) (omega arith))
