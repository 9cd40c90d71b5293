-- ===== src/Platform/Console.antt =====
-- What _write sends.
use microkernel_rtos.Common.{
  ℕ, zero, suc, ◌^◌, ◌≤◌, ◌<◌, ◌≢◌, ◌⊎◌, ◌||◌, ◌==◌, leb, true, arith, ◌+◌, ◌%◌, ◌≡◌, refl, sym,
  ◌∙◌, [], ◌∷◌, ◌++◌, append-nil, append_assoc, some, Bool-cases, inl, inr,
}
use microkernel_rtos.Links.{Ptr, null}
use microkernel_rtos.MsgQueue.Memory.{read}
use microkernel_rtos.Platform.Polling.{Answers, poll-Passed}
use microkernel_rtos.Platform.Syscalls.{
  Usart, transmits, usart2_putc, put_bytes, nothing_to_write, write_usart,
}

-- The loop of _write sends the bytes in their order.
put_bytes-sends :
    (n : ℕ) (bytes : Ptr → ℕ) (len : ℕ) (ptr : Ptr) (u : Usart)
    → Answers n (transmits u.status)
    → (u' : Usart) × (put_bytes n bytes len ptr u ≡ some u')
      × (u'.sent ≡ u.sent ++ read (λ a. bytes a % 256) ptr len)
      × (u'.status ≡ u.status)
unfolding put_bytes usart2_putc
put_bytes-sends n bytes zero ptr u answers = (u, refl, sym (append-nil u.sent), refl)
put_bytes-sends n bytes (suc len) ptr u answers =
    let (p, e, passed) = poll-Passed n (transmits u.status) u.reads answers in
    let c : Usart = record u { reads = p + 1; sent = u.sent ++ bytes ptr % 256 ∷ [] } in
    let (u', ran, sent, same) = put_bytes-sends n bytes len (ptr + 1) c answers in
    (u', rw e ran, sent ∙ append_assoc u.sent (bytes ptr % 256 ∷ []) _, same)

-- What _write does with `len` bytes at `ptr`, `len` being the bit pattern of an int: nothing, or it sends
-- them all.
abbrev pub Written : (Ptr → ℕ) → Usart → Ptr → ℕ → ℕ → Usart → Type 0
Written bytes u ptr len count u' =
    (((ptr ≡ null) ⊎ ((len ≡ 0) ⊎ (2 ^ 31 ≤ len))) × (count ≡ 0) × (u' ≡ u))
    ⊎ ((ptr ≢ null)
        × (0 < len)
        × (len < 2 ^ 31)
        × (count ≡ len)
        × (u'.sent ≡ u.sent ++ read (λ a. bytes a % 256) ptr len))

-- Where of any `n` successive reads of USART2_SR one shows that the transmitter is free, and the
-- loop of usart2_putc has `n` rounds, _write returns: for a null pointer or a length that is not
-- positive nothing is sent and it returns 0; else the `len` bytes from `ptr` on are sent in their
-- order, and it returns `len`.
pub write_usart-sends :
    (n : ℕ) (bytes : Ptr → ℕ) (u : Usart) (fd : ℕ) (ptr : Ptr) (len : ℕ)
    → Answers n (transmits u.status)
    → (count : ℕ) × (u' : Usart) × (write_usart n bytes u fd ptr len ≡ some (count, u'))
      × Written bytes u ptr len count u'
unfolding write_usart nothing_to_write
write_usart-sends n bytes u fd ptr len answers = elim (Bool-cases (nothing_to_write ptr len)) [
  | inl idle ↦ (0, u, rw idle refl, inl (why idle, refl, refl))
  | inr goes ↦
      let (u', ran, sent, same) = put_bytes-sends n bytes len ptr u answers in
      (
        len,
        u',
        rw goes (rw ran refl),
        inr (ground (arith, goes), ground (arith, goes), ground (arith, goes), refl, sent),
      )
]
  where
    why :
        ((ptr == null) || (len == 0) || leb (2 ^ 31) len) ≡ true
        → (ptr ≡ null) ⊎ ((len ≡ 0) ⊎ (2 ^ 31 ≤ len))
    why idle = ground arith
