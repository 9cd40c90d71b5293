-- ===== src/MsgQueue/Memory.antt =====
-- What a copy of bytes does to the messages in memory.
use microkernel_rtos.Common.{
  ℕ, zero, suc, ◌+◌, ◌*◌, ◌≤◌, ◌<◌, ◌≡◌, ◌≢◌, ◌⊎◌, inl, inr, refl, List, [], ◌∷◌, arith, dec_lt, ap,
  ◌∙◌, leb, ltb, true,
}
use microkernel_rtos.Links.{Ptr}
use microkernel_rtos.MsgQueue.{memcpy}

-- The `n` bytes from `a` on.
abbrev pub read : (ℕ → ℕ) → Ptr → ℕ → List ℕ
read b a zero = []
read b a (suc n) = b a ∷ read b (a + 1) n

-- Two ranges of `m` bytes from `a` and `n` bytes from `c` do not meet.
abbrev pub Apart : Ptr → ℕ → Ptr → ℕ → Type 0
Apart a m c n = (a + m ≤ c) ⊎ (c + n ≤ a)

pub read-same :
    (b b' : ℕ → ℕ) (a a' n : ℕ)
    → ((i : ℕ) → i < n → b (a + i) ≡ b' (a' + i))
    → read b a n ≡ read b' a' n
read-same b b' a a' zero same = refl
read-same b b' a a' (suc n) same =
    let first : b a ≡ b' a' = ap b (omega arith) ∙ same 0 (omega arith) ∙ ap b' (omega arith) in
    let rest =
      read-same b b' (a + 1) (a' + 1) n
        λ i h. ap b (omega arith) ∙ same (i + 1) (omega arith) ∙ ap b' (omega arith) in
    rw first (ap (λ xs. b' a' ∷ xs) rest)

-- The bytes that were copied are at the destination.
pub read-memcpy_self : (b : ℕ → ℕ) (dst src n : ℕ) → read (memcpy b dst src n) dst n ≡ read b src n
unfolding memcpy
read-memcpy_self b dst src n = read-same (memcpy b dst src n) b dst src n λ i h.
    let low : leb dst (dst + i) ≡ true = ground arith in
    let high : ltb (dst + i) (dst + n) ≡ true = ground arith in rw (low, high) (ap b (omega arith))

-- Bytes elsewhere are untouched.
pub read-memcpy-Apart :
    (b : ℕ → ℕ) (dst src n a m : ℕ) → Apart a m dst n → read (memcpy b dst src n) a m ≡ read b a m
unfolding memcpy
read-memcpy-Apart b dst src n a m apart = read-same (memcpy b dst src n) b a a m λ i h. ground arith

pub slot-below : (buf i j size : ℕ) → i < j → buf + i * size + size ≤ buf + j * size
slot-below buf i j size h = grind arith

-- Different slots of the ring buffer do not meet.
pub slots-Apart : (buf i j size : ℕ) → i ≢ j → Apart (buf + i * size) size (buf + j * size) size
slots-Apart buf i j size ne = elim (dec_lt i j) [
  | yes below ↦ inl (slot-below buf i j size below)
  | no above ↦ inr (slot-below buf j i size (omega arith))
]
