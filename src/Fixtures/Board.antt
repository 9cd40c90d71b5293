-- ===== src/Fixtures/Board.antt =====
-- The theorems on the clock, the console and _sbrk, on a board that is always ready, with 128 KiB of RAM
-- from 0x20000000 on.
use microkernel_rtos.Common.{
  ℕ, ◌+◌, ◌≡◌, ◌≢◌, refl, [], ◌∷◌, ◌≤◌, false, none, some, ◌==◌, if◌then◌else◌, arith,
}
use microkernel_rtos.Platform.{Device}
use microkernel_rtos.Platform.Clock.{
  Bus, rcc_cr, rcc_pllcfgr, rcc_cfgr, flash_acr, rtos_start_hardware, pll_output, pll_external,
  rtos_start_hardware-starts, rtos_start_hardware-off_frequency,
}
use microkernel_rtos.Platform.Syscalls.{Usart, write_usart, Layout, Break, heap_begin}
use microkernel_rtos.Platform.Console.{Written, write_usart-sends}
use microkernel_rtos.Platform.Memory.{granted, Adjoin, granted-Adjoin}
use microkernel_rtos.Fixtures.{demo}

abbrev bus : Bus
bus = record {
  answer = λ i reg. if reg == rcc_cfgr then 10 else 0x0302_0083;
  reads = 0;
  written = [];
}

abbrev reset : Device
reset = record {
  systick_ctrl = 0;
  systick_load = 0;
  systick_val = 0;
  priority_bytes = λ a. 0;
  system_core_clock = 16000000;
}

rtos_start_hardware-starts_example :
    (b' : Bus) × (d' : Device) × (rtos_start_hardware 1 demo bus reset ≡ some (none, b', d'))
    × (b'.written
        ≡ (rcc_cr, 0x0303_0083)
          ∷ (flash_acr, 0x705)
          ∷ (rcc_pllcfgr, 0x400_3008)
          ∷ (rcc_cr, 0x0302_0083)
          ∷ (rcc_cfgr, 10)
          ∷ [])
    × (d'.systick_load ≡ 167999)
rtos_start_hardware-starts_example =
    let (p1, p2, p3, b', d', ran, s1, s2, s3, writes, reads, clock, load) =
      rtos_start_hardware-starts 1 demo bus reset (omega arith) (λ i. (0, omega arith, refl))
        (λ i. (0, omega arith, refl)) (λ i. (0, omega arith, refl)) in
    (b', d', ran, writes, load)

rtos_start_hardware-off_frequency_example :
    (d' : Device) × (v : ℕ) × (pll_external v ≡ false)
    × (pll_output 16000000 v ≢ d'.system_core_clock)
rtos_start_hardware-off_frequency_example =
    let (b', d', before, v, after, ran, writes, internal, off, off8) =
      rtos_start_hardware-off_frequency 1 demo bus reset (omega arith) (λ i. (0, omega arith, refl))
        (λ i. (0, omega arith, refl)) (λ i. (0, omega arith, refl)) in
    (d', v, internal, off)

abbrev port : Usart
port = record { status = λ i. 0xc0; reads = 0; sent = 33 ∷ [] }

write_usart-sends_example :
    (count : ℕ) × (u' : Usart) × (write_usart 1 (λ a. a) port 1 600 3 ≡ some (count, u'))
    × Written (λ a. a) port 600 3 count u'
write_usart-sends_example = write_usart-sends 1 (λ a. a) port 1 600 3 (λ i. (0, omega arith, refl))

abbrev ram : Layout
ram = record { image_end = 0x2001_0000; estack = 0x2002_0000; enomem = 12 }

abbrev start : Break
start = record { heap_end = 0; errno = 0 }

granted-Adjoin_example :
    Adjoin
      (heap_begin ram start)
      ((granted ram start (4096 ∷ 70000 ∷ 100 ∷ [])).0)
      (heap_begin ram ((granted ram start (4096 ∷ 70000 ∷ 100 ∷ [])).1))
    × (heap_begin ram ((granted ram start (4096 ∷ 70000 ∷ 100 ∷ [])).1) + 4096 ≤ 0x2002_0000)
unfolding heap_begin
granted-Adjoin_example =
    granted-Adjoin ram start (4096 ∷ 70000 ∷ 100 ∷ []) (omega arith) (omega arith) (omega arith)
      (omega arith)
