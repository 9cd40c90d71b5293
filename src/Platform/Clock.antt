-- ===== src/Platform/Clock.antt =====
-- SystemInitClock of src/platform/system.c on the hardware, which waits for bits that the hardware sets,
-- and rtos_start with it.
use Prim.Native.Nat.{bit_and, bit_or}
use microkernel_rtos.Common.{
  ℕ, ◌+◌, ◌*◌, ◌/◌, ◌%◌, ◌^◌, ◌≡◌, ◌≢◌, refl, List, [], ◌∷◌, ◌++◌, append_assoc, sym, ◌∙◌, Bool,
  true, false, arith, Option, none, some, ◌==◌, if◌then◌else◌, ◌>>=◌, ==-false,
}
use microkernel_rtos.Links.{Ptr, null}
use microkernel_rtos.Kernel.{Kernel, Status, err_state}
use microkernel_rtos.Platform.{Device, systick_config, nvic_set_priority, start_ticking}
use microkernel_rtos.Platform.Polling.{poll, Answers, poll-Passed}

-- What the read number `i` of a register returns, how many reads there were, and the writes, oldest first.
pub record Bus : Type 0 where
  pub answer : ℕ → Ptr → ℕ
  pub reads : ℕ
  pub written : List (Ptr × ℕ)

-- RCC_CR, RCC_PLLCFGR, RCC_CFGR and FLASH_ACR
abbrev pub rcc_cr : Ptr
rcc_cr = 0x4002_3800

abbrev pub rcc_pllcfgr : Ptr
rcc_pllcfgr = 0x4002_3804

abbrev pub rcc_cfgr : Ptr
rcc_cfgr = 0x4002_3808

abbrev pub flash_acr : Ptr
flash_acr = 0x4002_3c00

abbrev write : Bus → Ptr → ℕ → Bus
write b reg v = record b { written = b.written ++ (reg, v) ∷ [] }

-- `*reg |= bits`
abbrev set_bits : Bus → Ptr → ℕ → Bus
set_bits b reg bits = record b {
  reads = b.reads + 1;
  written = b.written ++ (reg, bit_or (b.answer b.reads reg) bits) ∷ [];
}

-- `(*reg & mask) == wanted`, for the read number `i`.
abbrev pub shows : (ℕ → Ptr → ℕ) → Ptr → ℕ → ℕ → ℕ → Bool
shows answer reg mask wanted i = bit_and (answer i reg) mask == wanted

-- `while ((*reg & mask) != wanted) {}`
pub await : ℕ → Bus → Ptr → ℕ → ℕ → Option Bus
await fuel b reg mask wanted = do
  i ← poll fuel (shows b.answer reg mask wanted) b.reads
  some (record b { reads = i })

-- SystemInitClock without RTOS_QEMU_BUILD; each of its loops has `fuel` rounds.
pub system_init_clock_hardware : ℕ → Bus → Device → Option (Bus × Device)
unfolding await
system_init_clock_hardware fuel b d = do
  b ← await fuel (set_bits b rcc_cr (2 ^ 16)) rcc_cr (2 ^ 17) (2 ^ 17)
  let b = write b flash_acr (5 + 2 ^ 8 + 2 ^ 9 + 2 ^ 10)
  let b = write b rcc_pllcfgr (8 + 192 * 2 ^ 6 + 4 * 2 ^ 24)
  b ← await fuel (set_bits b rcc_cr (2 ^ 24)) rcc_cr (2 ^ 25) (2 ^ 25)
  b ← await fuel (set_bits b rcc_cfgr 2) rcc_cfgr 12 8
  some (b, record d { system_core_clock = 168000000 })

-- rtos_start without RTOS_QEMU_BUILD.
pub rtos_start_hardware : ℕ → Kernel → Bus → Device → Option (Option Status × Bus × Device)
rtos_start_hardware fuel k b d = if k.idle_tcb == null then some (some err_state, b, d) else do
  (b, d) ← system_init_clock_hardware fuel b d
  let (st, d) = start_ticking d
  some (st, b, d)

-- Where of any `n` successive reads of the registers one shows that the oscillator, then the PLL, then the
-- switch are ready, and the loops have `n` rounds, rtos_start with an idle task goes on to the first task. It
-- has switched the oscillator on, set the flash and the PLL up, switched the PLL on, and switched to it,
-- in that order and each behind a read `p1`, `p2` that shows the step before it done; the tick is 168000
-- cycles.
pub rtos_start_hardware-starts :
    (n : ℕ) (k : Kernel) (b : Bus) (d : Device)
    → k.idle_tcb ≢ null
    → Answers n (shows b.answer rcc_cr (2 ^ 17) (2 ^ 17))
    → Answers n (shows b.answer rcc_cr (2 ^ 25) (2 ^ 25))
    → Answers n (shows b.answer rcc_cfgr 12 8)
    → (p1 p2 p3 : ℕ) × (b' : Bus) × (d' : Device) × (rtos_start_hardware n k b d
        ≡ some (none, b', d'))
      × (shows b.answer rcc_cr (2 ^ 17) (2 ^ 17) p1 ≡ true)
      × (shows b.answer rcc_cr (2 ^ 25) (2 ^ 25) p2 ≡ true)
      × (shows b.answer rcc_cfgr 12 8 p3 ≡ true)
      × (b'.written
          ≡ b.written
            ++ (rcc_cr, bit_or (b.answer b.reads rcc_cr) (2 ^ 16))
              ∷ (flash_acr, 0x705)
              ∷ (rcc_pllcfgr, 0x400_3008)
              ∷ (rcc_cr, bit_or (b.answer (p1 + 1) rcc_cr) (2 ^ 24))
              ∷ (rcc_cfgr, bit_or (b.answer (p2 + 1) rcc_cfgr) 2)
              ∷ [])
      × (b'.reads ≡ p3 + 1)
      × (d'.system_core_clock ≡ 168000000)
      × (d'.systick_load ≡ 167999)
unfolding rtos_start_hardware system_init_clock_hardware start_ticking systick_config
    nvic_set_priority
rtos_start_hardware-starts n k b d idle osc pll switch =
    let (p1, e1, s1) = poll-Passed n (shows b.answer rcc_cr (2 ^ 17) (2 ^ 17)) (b.reads + 1) osc in
    let (p2, e2, s2) = poll-Passed n (shows b.answer rcc_cr (2 ^ 25) (2 ^ 25)) (p1 + 1 + 1) pll in
    let (p3, e3, s3) = poll-Passed n (shows b.answer rcc_cfgr 12 8) (p2 + 1 + 1) switch in
    let b1 : Bus = record (set_bits b rcc_cr (2 ^ 16)) { reads = p1 + 1 } in
    let b2 = write (write b1 flash_acr 0x705) rcc_pllcfgr 0x400_3008 in
    let b3 : Bus = record (set_bits b2 rcc_cr (2 ^ 24)) { reads = p2 + 1 } in
    let b4 : Bus = record (set_bits b3 rcc_cfgr 2) { reads = p3 + 1 } in
    (
      p1,
      p2,
      p3,
      b4,
      (start_ticking (record d { system_core_clock = 168000000 })).1,
      rw (==-false idle, e1, e2, e3) refl,
      s1,
      s2,
      s3,
      simp append_assoc,
      refl,
      refl,
      refl,
    )

-- The frequency that the PLL makes of its source's with the value `v` in RCC_PLLCFGR, by the fields M, N
-- and P of that register, and whether the source is the external oscillator.
abbrev pub pll_output : ℕ → ℕ → ℕ
pll_output source v = source / (v % 2 ^ 6) * (v / 2 ^ 6 % 2 ^ 9) / (2 * (v / 2 ^ 16 % 4) + 2)

abbrev pub pll_external : ℕ → Bool
pll_external v = v / 2 ^ 22 % 2 == 1

-- Under the same conditions, the value that is written to RCC_PLLCFGR selects the internal oscillator, and
-- neither from the 16 MHz of that one nor from the 8 MHz of the external one does the PLL make the
-- frequency that SystemCoreClock has and the tick is counted by.
pub rtos_start_hardware-off_frequency :
    (n : ℕ) (k : Kernel) (b : Bus) (d : Device)
    → k.idle_tcb ≢ null
    → Answers n (shows b.answer rcc_cr (2 ^ 17) (2 ^ 17))
    → Answers n (shows b.answer rcc_cr (2 ^ 25) (2 ^ 25))
    → Answers n (shows b.answer rcc_cfgr 12 8)
    → (b' : Bus) × (d' : Device) × (before : List (Ptr × ℕ)) × (v : ℕ) × (after : List (Ptr × ℕ))
      × (rtos_start_hardware n k b d ≡ some (none, b', d'))
      × (b'.written ≡ before ++ (rcc_pllcfgr, v) ∷ after)
      × (pll_external v ≡ false)
      × (pll_output 16000000 v ≢ d'.system_core_clock)
      × (pll_output 8000000 v ≢ d'.system_core_clock)
rtos_start_hardware-off_frequency n k b d idle osc pll switch =
    let (p1, p2, p3, b', d', ran, s1, s2, s3, writes, reads, clock, load) =
      rtos_start_hardware-starts n k b d idle osc pll switch in
    let on : Ptr × ℕ = (rcc_cr, bit_or (b.answer b.reads rcc_cr) (2 ^ 16)) in
    (
      b',
      d',
      b.written ++ on ∷ (flash_acr, 0x705) ∷ [],
      0x400_3008,
      (rcc_cr, bit_or (b.answer (p1 + 1) rcc_cr) (2 ^ 24))
          ∷ (rcc_cfgr, bit_or (b.answer (p2 + 1) rcc_cfgr) 2)
          ∷ [],
      ran,
      writes ∙ sym (append_assoc b.written (on ∷ (flash_acr, 0x705) ∷ []) _),
      refl,
      rw clock (omega arith),
      rw clock (omega arith),
    )
