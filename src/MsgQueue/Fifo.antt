-- ===== src/MsgQueue/Fifo.antt =====
-- The ring buffer of a message queue as the list of its messages, oldest first.
use native.Mathlib.Nat.{mod-add-mod, mod-eq_of_lt, mod-eq-sub-mod}
use microkernel_rtos.Common.{
  ℕ, zero, suc, ◌+◌, ◌*◌, ◌%◌, ◌≤◌, ◌<◌, ◌≡◌, ◌≢◌, refl, List, [], ◌∷◌, ◌++◌, arith, ap, ◌∙◌, sym,
  length,
}
use microkernel_rtos.Kernel.{MsgQueue, uint32_mod}
use microkernel_rtos.MsgQueue.{slot_of}
use microkernel_rtos.MsgQueue.Memory.{read, slot-below}

-- What the C code relies on: the storage lies in the address space, the indices and the count are
-- in range, and `tail` is `count` slots past `head`.
pub record IsRing (v : MsgQueue) : Type 0 where
  pub sized : 0 < v.msg_size
  pub fits : v.buffer + v.depth * v.msg_size ≤ uint32_mod
  pub narrow : v.depth < uint32_mod
  pub head_in : v.head < v.depth
  pub tail_at : v.tail ≡ (v.head + v.count) % v.depth
  pub count_in : v.count ≤ v.depth

-- The message in slot `i`.
abbrev pub slot : (ℕ → ℕ) → MsgQueue → ℕ → List ℕ
slot b v i = read b (v.buffer + i * v.msg_size) v.msg_size

-- The `n` messages from slot `h` on, going round at `depth`.
abbrev pub messages : (ℕ → ℕ) → MsgQueue → ℕ → ℕ → List (List ℕ)
messages b v h zero = []
messages b v h (suc n) = slot b v h ∷ messages b v ((h + 1) % v.depth) n

-- The messages of a queue, oldest first.
abbrev pub contents : (ℕ → ℕ) → MsgQueue → List (List ℕ)
contents b v = messages b v v.head v.count

pub length-messages : (b : ℕ → ℕ) (v : MsgQueue) (h n : ℕ) → length (messages b v h n) ≡ n
length-messages b v h zero = refl
length-messages b v h (suc n) = ap suc (length-messages b v ((h + 1) % v.depth) n)

-- Fewer steps than there are slots do not lead back to the start.
round-ne : (d h n : ℕ) → h < d → suc n < d → (h + suc n) % d ≢ h
round-ne d h n hd nd = grind (arith, mod-eq_of_lt, mod-eq-sub-mod)

round-next : (d h n : ℕ) → (h + suc n) % d ≡ ((h + 1) % d + n) % d
round-next d h n = rw mod-add-mod (ap (λ s. s % d) (omega arith))

module _ (b b' : ℕ → ℕ) (v : MsgQueue) where
  -- A message is written into the slot behind `n` others.
  pub messages-put :
      (m : List ℕ) (i h n : ℕ)
      → slot b' v i ≡ m
      → ((j : ℕ) → j ≢ i → slot b' v j ≡ slot b v j)
      → h < v.depth
      → n < v.depth
      → i ≡ (h + n) % v.depth
      → messages b' v h (suc n) ≡ messages b v h n ++ m ∷ []
  messages-put m i h zero put same hd nd e =
      let here : h ≡ i = grind (arith, mod-eq_of_lt) in
      ap (λ j. slot b' v j ∷ []) here ∙ ap (λ x. x ∷ []) put
  messages-put m i h (suc n) put same hd nd e =
      let ne : h ≢ i = λ z. round-ne v.depth h n hd nd (sym (z ∙ e)) in
      let rest =
        messages-put m i ((h + 1) % v.depth) n put same (omega arith) (omega arith)
          (e ∙ round-next v.depth h n) in
      rw (same h ne) (ap (λ ms. slot b v h ∷ ms) rest)

  -- Every slot reads as before.
  pub messages-same :
      (h n : ℕ)
      → ((j : ℕ) → j < v.depth → slot b' v j ≡ slot b v j)
      → h < v.depth
      → messages b' v h n ≡ messages b v h n
  messages-same h zero same hd = refl
  messages-same h (suc n) same hd =
      rw (same h hd)
        (ap (λ ms. slot b v h ∷ ms) (messages-same ((h + 1) % v.depth) n same (omega arith)))

-- No product of an index and the message size wraps.
pub slot_of-flat :
    (v : MsgQueue) (i : ℕ) → IsRing v → i < v.depth → slot_of v i ≡ v.buffer + i * v.msg_size
unfolding slot_of
slot_of-flat v i r h =
    let within = slot-below v.buffer i v.depth v.msg_size h in
    ap (λ x. v.buffer + x) (mod-eq_of_lt (omega (arith, within, r.sized, r.fits)))
