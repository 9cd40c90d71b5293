-- ===== src/Heap/Walks.antt =====
-- The loop of heap_alloc: the first block that fits.
use microkernel_rtos.Common.{
  ℕ, zero, suc, ◌≤◌, ◌<◌, ◌≡◌, refl, List, [], ◌∷◌, true, false, Option, none, some, ◌==◌, leb,
  if◌then◌else◌, has, Distinct, length, arith, subst, ◌∙◌, ap, ==-false, ==_refl, Bool-cases, inl,
  inr,
}
use microkernel_rtos.Links.{Ptr, null, pred_of, Chain}
use microkernel_rtos.Heap.{Heap, find_fit}

-- The first of the blocks `fs` with room for `n` bytes.
abbrev pub first_fit : (Ptr → ℕ) → ℕ → List Ptr → Option Ptr
first_fit f n [] = none
first_fit f n (x ∷ xs) = if leb n (f x) then some x else first_fit f n xs

-- The pair that the walk stops with: the block before the one it found, and that one.
abbrev pub placed : Ptr → List Ptr → Option Ptr → Option (Ptr × Ptr)
placed prev fs none = none
placed prev fs (some c) = some (pred_of c prev fs, c)

pub first_fit-has :
    (f : Ptr → ℕ) (n : ℕ) (fs : List Ptr) (c : Ptr)
    → first_fit f n fs ≡ some c
    → (has c fs ≡ true) × (n ≤ f c)
first_fit-has f n [] c e = absurd (ground arith)
first_fit-has f n (x ∷ xs) c e = elim (Bool-cases (leb n (f x))) [
  | inl fits ↦ let h : x ≡ c = ground arith in ground arith
  | inr small ↦ let r = first_fit-has f n xs c (ground arith) in ground arith
]

-- Behind another block, the place is the same.
placed-behind :
    (prev x : Ptr) (xs : List Ptr) (o : Option Ptr)
    → ((c : Ptr) → o ≡ some c → has c xs ≡ true)
    → has x xs ≡ false
    → placed x xs o ≡ placed prev (x ∷ xs) o
placed-behind prev x xs none on off = refl
placed-behind prev x xs (some c) on off =
    let i = on c refl in
    let miss : (x == c) ≡ false =
      ==-false λ (z : x ≡ c). absurd (ground (arith, subst (λ v. has v xs ≡ false) z off)) in
    rw miss refl

pub find_fit-first :
    (h : Heap) (n fuel : ℕ) (prev p : Ptr) (fs : List Ptr)
    → Chain h.next_free p fs null
    → Distinct fs
    → length fs < fuel
    → find_fit fuel h n prev p ≡ some (placed prev fs (first_fit h.block_size n fs))
unfolding find_fit
find_fit-first h n zero prev p fs c d f = absurd (omega arith)
find_fit-first h n (suc fuel) prev p [] c d f = rw c refl
find_fit-first h n (suc fuel) prev p (x ∷ xs) (e, ne, c) d f =
    rw (e, ==-false ne)
      (elim (Bool-cases (leb n (h.block_size x))) [
        | inl fits ↦ rw (fits, ==_refl x) refl
        | inr small ↦ rw small (
            find_fit-first h n fuel x (h.next_free x) xs c d.1 (omega arith)
            ∙ ap some (
                placed-behind prev x xs (first_fit h.block_size n xs)
                  (λ c e. (first_fit-has h.block_size n xs c e).0) d.0))
      ])
