-- ===== src/Platform/Syscalls.antt =====
-- src/platform/syscalls.c: what the C library calls for memory and for console output. _write exists for
-- the emulator, where it asks the host, and for the hardware, where it sends the bytes one by one.
use Prim.Native.Nat.{bit_and}
use microkernel_rtos.Common.{
  ℕ, zero, suc, ◌+◌, ◌-◌, ◌%◌, ◌^◌, List, [], ◌∷◌, ◌++◌, Bool, not, ◌||◌, Option, some, ◌==◌, ltb,
  leb, if◌then◌else◌, ◌>>=◌,
}
use microkernel_rtos.Links.{Ptr, null}
use microkernel_rtos.Kernel.{uint32_mod, uint32_max}
use microkernel_rtos.Platform.Polling.{poll}

-- The static variable of _sbrk, and errno.
pub record Break : Type 0 where
  pub heap_end : Ptr
  pub errno : ℕ

-- What the linker script and the C library define: &_end, &_estack and ENOMEM.
pub record Layout : Type 0 where
  pub image_end : Ptr
  pub estack : Ptr
  pub enomem : ℕ

-- `if (heap_end == NULL) heap_end = &_end;`
unfoldable pub heap_begin : Layout → Break → Ptr
heap_begin l s = if s.heap_end == null then l.image_end else s.heap_end

-- _sbrk; `incr` is the bit pattern of a ptrdiff_t.
unfoldable pub sbrk : Layout → Break → ℕ → Ptr × Break
unfolding heap_begin
sbrk l s incr =
    let prev = heap_begin l s in
    let next = (prev + incr) % uint32_mod in
    if ltb ((l.estack + uint32_mod - 4096) % uint32_mod) next
    then (uint32_max, record s { heap_end = prev; errno = l.enomem })
    else (prev, record s { heap_end = next })

-- `(ptr == NULL) || (len <= 0)`; `len` is the bit pattern of an int.
unfoldable pub nothing_to_write : Ptr → ℕ → Bool
nothing_to_write ptr len = (ptr == null) || (len == 0) || leb (2 ^ 31) len

-- The host behind the emulator's breakpoint: the operation, and the three words of its arguments.
module _ {H : Type 0} (bkpt : ℕ → ℕ × Ptr × ℕ → H → H) where
  -- semihost_sys_write
  unfoldable pub semihost_sys_write : H → Ptr → ℕ → ℕ × H
  semihost_sys_write h buf len = (len, bkpt 5 (1, buf, len) h)

  -- _write with RTOS_QEMU_BUILD
  unfoldable pub write_qemu : H → ℕ → Ptr → ℕ → ℕ × H
  unfolding nothing_to_write semihost_sys_write
  write_qemu h fd ptr len =
      if nothing_to_write ptr len then (0, h) else semihost_sys_write h ptr len

-- USART2: what each read of USART2_SR returns, how often it has been read, and what has been written to
-- USART2_DR, oldest first.
pub record Usart : Type 0 where
  pub status : ℕ → ℕ
  pub reads : ℕ
  pub sent : List ℕ

-- `(USART2_SR & (1u << 7u)) != 0u`
abbrev pub transmits : (ℕ → ℕ) → ℕ → Bool
transmits status i = not (bit_and (status i) (2 ^ 7) == 0)

-- usart2_putc, whose loop has `fuel` rounds
unfoldable pub usart2_putc : ℕ → Usart → ℕ → Option Usart
usart2_putc fuel u c = do
  i ← poll fuel (transmits u.status) u.reads
  some (record u { reads = i; sent = u.sent ++ c % 256 ∷ [] })

-- `for (i = …; i < len; i++)` with `n` rounds left, from the byte at `ptr` on.
unfoldable pub put_bytes : ℕ → (Ptr → ℕ) → ℕ → Ptr → Usart → Option Usart
put_bytes fuel bytes zero ptr u = some u
put_bytes fuel bytes (suc n) ptr u = do
  u ← usart2_putc fuel u (bytes ptr)
  put_bytes fuel bytes n (ptr + 1) u

-- _write on the hardware
unfoldable pub write_usart : ℕ → (Ptr → ℕ) → Usart → ℕ → Ptr → ℕ → Option (ℕ × Usart)
unfolding nothing_to_write
write_usart fuel bytes u fd ptr len =
    if nothing_to_write ptr len
    then some (0, u)
    else do u ← put_bytes fuel bytes len ptr u; some (len, u)
