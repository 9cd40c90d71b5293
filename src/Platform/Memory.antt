-- ===== src/Platform/Memory.antt =====
-- The memory that _sbrk hands out.
use microkernel_rtos.Common.{
  ℕ, ◌+◌, ◌-◌, ◌%◌, ◌^◌, ◌≤◌, ◌<◌, ◌≡◌, ◌≢◌, refl, List, [], ◌∷◌, ◌==◌, if◌then◌else◌, ltb, arith,
  true, false, subst, sym, dec_lt, ==-false,
}
use microkernel_rtos.Links.{Ptr, null}
use microkernel_rtos.Kernel.{uint32_max, uint32_mod}
use microkernel_rtos.Platform.Syscalls.{Break, Layout, heap_begin, sbrk}

-- The calls of _sbrk for the sizes `incrs`, one after the other: the addresses and sizes of those that
-- have been granted, and what is left.
abbrev pub granted : Layout → Break → List ℕ → List (Ptr × ℕ) × Break
granted l s [] = ([], s)
granted l s (n ∷ ns) =
    let (p, s') = sbrk l s n in
    let (rest, s'') = granted l s' ns in (if p == uint32_max then rest else (p, n) ∷ rest, s'')

-- The pieces follow each other from `p` to `q` without a gap.
abbrev pub Adjoin : Ptr → List (Ptr × ℕ) → Ptr → Type 0
Adjoin p [] q = p ≡ q
Adjoin p ((a, n) ∷ r) q = (a ≡ p) × Adjoin (p + n) r q

-- Every size is the pattern of a number that is not negative.
abbrev pub Sizes : List ℕ → Type 0
Sizes [] = Unit {0}
Sizes (n ∷ ns) = (n < 2 ^ 31) × Sizes ns

module _ (l : Layout) (s : Break) (n : ℕ) (image : l.image_end ≢ null) (below : l.estack ≤ 2 ^ 31)
    (room : heap_begin l s + 4096 ≤ l.estack) (size : n < 2 ^ 31) where
  begin_ne : heap_begin l s ≢ null
  unfolding heap_begin
  begin_ne = ground arith

  -- A piece that fits is granted, …
  fits :
      heap_begin l s + n + 4096 ≤ l.estack
      → sbrk l s n ≡ (heap_begin l s, record s { heap_end = heap_begin l s + n })
  unfolding sbrk
  fits h =
      let low : (heap_begin l s + n) % uint32_mod ≡ heap_begin l s + n = omega arith in
      let high : (l.estack + uint32_mod - 4096) % uint32_mod ≡ l.estack - 4096 = omega arith in
      let under : ltb (l.estack - 4096) (heap_begin l s + n) ≡ false = ground arith in
      rw (low, high, under) refl

  -- and no other.
  refused :
      l.estack < heap_begin l s + n + 4096
      → sbrk l s n ≡ (uint32_max, record s { heap_end = heap_begin l s; errno = l.enomem })
  unfolding sbrk
  refused h =
      let low : (heap_begin l s + n) % uint32_mod ≡ heap_begin l s + n = omega arith in
      let high : (l.estack + uint32_mod - 4096) % uint32_mod ≡ l.estack - 4096 = omega arith in
      let over : ltb (l.estack - 4096) (heap_begin l s + n) ≡ true = ground arith in
      rw (low, high, over) refl

begin-of : (l : Layout) (s : Break) → s.heap_end ≢ null → heap_begin l s ≡ s.heap_end
unfolding heap_begin
begin-of l s ne = rw (==-false ne) refl

-- Where RAM ends below 2 ^ 31 and the image at least 4096 bytes before that: whatever sizes are asked for,
-- the pieces that _sbrk grants follow each other from the end of what it has granted before without gaps
-- or overlaps, and end at least 4096 bytes below the end of RAM, which are left for the stack.
pub granted-Adjoin :
    (l : Layout) (s : Break) (ns : List ℕ)
    → l.image_end ≢ null
    → l.estack ≤ 2 ^ 31
    → heap_begin l s + 4096 ≤ l.estack
    → Sizes ns
    → Adjoin (heap_begin l s) ((granted l s ns).0) (heap_begin l ((granted l s ns).1))
      × (heap_begin l ((granted l s ns).1) + 4096 ≤ l.estack)
granted-Adjoin l s [] image below room sizes = (refl, room)
granted-Adjoin l s (n ∷ ns) image below room sizes =
    let p = heap_begin l s in
    let ne = begin_ne l s n image below room sizes.0 in
    elim (dec_lt l.estack (p + n + 4096)) [
      | yes over ↦
          let s' : Break = record s { heap_end = p; errno = l.enomem } in
          let still : heap_begin l s' ≡ p = begin-of l s' ne in
          let rest =
            granted-Adjoin l s' ns image below (subst (λ a. a + 4096 ≤ l.estack) (sym still) room)
              sizes.1 in
          rw (refused l s n image below room sizes.0 over) (
            subst
              (λ a.
                Adjoin a ((granted l s' ns).0) (heap_begin l ((granted l s' ns).1))
                × (heap_begin l ((granted l s' ns).1) + 4096 ≤ l.estack))
              still rest)
      | no within ↦
          let s' : Break = record s { heap_end = p + n } in
          let next : heap_begin l s' ≡ p + n = begin-of l s' (omega arith) in
          let rest = granted-Adjoin l s' ns image below (omega (arith, next)) sizes.1 in
          let own : (p == uint32_max) ≡ false = ground arith in
          rw (fits l s n image below room sizes.0 (omega arith), own)
            (
              (
                refl,
                subst (λ a. Adjoin a ((granted l s' ns).0) (heap_begin l ((granted l s' ns).1)))
                    next rest.0,
              ),
              rest.1,
            )
    ]
