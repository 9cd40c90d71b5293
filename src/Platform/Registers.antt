-- ===== src/Platform/Registers.antt =====
-- The registers that rtos_start writes.
use microkernel_rtos.Common.{ℕ, ◌+◌, ◌-◌, ◌/◌, ◌^◌, ◌≡◌, ◌≢◌, refl, none, ==-false}
use microkernel_rtos.Links.{null}
use microkernel_rtos.Kernel.{Kernel}
use microkernel_rtos.Platform.{
  Device, scb_shpr_base, nvic_prio_bits, systick_config, nvic_set_priority, system_init_clock,
  rtos_start,
}

-- The part of a priority byte that the processor implements: its upper NVIC_PRIO_BITS bits.
abbrev pub implemented : ℕ → ℕ
implemented byte = byte / 2 ^ (8 - nvic_prio_bits)

-- rtos_start with an idle task configures a tick of 16000 cycles and does not return; the bytes that
-- it writes for SysTick and for PendSV are the same priority in the bits that the processor
-- implements, the highest one.
pub rtos_start-equal_priorities :
    (k : Kernel) (d : Device)
    → k.idle_tcb ≢ null
    → ((rtos_start k d).0 ≡ none)
      × ((rtos_start k d).1.systick_load ≡ 15999)
      × (implemented ((rtos_start k d).1.priority_bytes (scb_shpr_base + 11)) ≡ 0)
      × (implemented ((rtos_start k d).1.priority_bytes (scb_shpr_base + 10)) ≡ 0)
unfolding rtos_start system_init_clock nvic_set_priority systick_config
rtos_start-equal_priorities k d ne = rw (==-false ne) (refl, refl, refl, refl)
