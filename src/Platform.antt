-- ===== src/Platform.antt =====
-- src/platform/system.c, and rtos_start of src/core/task.c: the tick interrupt, and the registers of
-- the system timer and of the interrupt priorities.
pub mod Registers
pub mod Tick
pub mod Polling
pub mod Clock
pub mod Syscalls
pub mod Console
pub mod Memory
use microkernel_rtos.Common.{
  ℕ, ◌+◌, ◌-◌, ◌*◌, ◌/◌, ◌%◌, ◌^◌, Bool, Option, none, some, ◌==◌, leb, ltb, if◌then◌else◌, ◌>>=◌,
}
use microkernel_rtos.Links.{Ptr, null, update}
use microkernel_rtos.Kernel.{Kernel, Status, err_state, tick_rate_hz, uint32_mod}
use microkernel_rtos.Scheduler.{scheduler_mark_reschedule, scheduler_time_slice_tick}
use microkernel_rtos.Timer.{Timers, sw_timer_tick_process}
use microkernel_rtos.Task.{rtos_tick_increment, rtos_wake_delayed}
use microkernel_rtos.Stack.{StackCheck, intact, overflowed, rtos_stack_check_all}
use microkernel_rtos.Lifecycle.{System}

-- SYSTICK_CTRL, SYSTICK_LOAD and SYSTICK_VAL, the bytes of the priority registers by address, and
-- SystemCoreClock.
pub record Device : Type 0 where
  pub systick_ctrl : ℕ
  pub systick_load : ℕ
  pub systick_val : ℕ
  pub priority_bytes : Ptr → ℕ
  pub system_core_clock : ℕ

-- SCB_SHPR_BASE
abbrev pub scb_shpr_base : Ptr
scb_shpr_base = 0xe000_ed18

-- NVIC_IPR_BASE
abbrev pub nvic_ipr_base : Ptr
nvic_ipr_base = 0xe000_e400

-- NVIC_PRIO_BITS
abbrev pub nvic_prio_bits : ℕ
nvic_prio_bits = 4

-- SysTick_Config; the uint32_t that it returns comes first.
pub systick_config : Device → ℕ → ℕ × Device
systick_config d ticks =
    let reload = (ticks + uint32_mod - 1) % uint32_mod in
    if ltb 0xff_ffff reload
    then (1, d)
    else (0, record d { systick_load = reload; systick_val = 0; systick_ctrl = 7 })

-- nvic_set_priority; `irqn` is the bit pattern of an int32_t.
pub nvic_set_priority : Device → ℕ → ℕ → Device
nvic_set_priority d irqn preempt_prio =
    let reg =
      if leb (2 ^ 31) irqn
      then (scb_shpr_base + (irqn % 16 + uint32_mod - 4) % uint32_mod) % uint32_mod
      else (nvic_ipr_base + irqn) % uint32_mod in
    record d { priority_bytes = update d.priority_bytes reg (preempt_prio % 256) }

-- SystemInitClock with RTOS_QEMU_BUILD.
pub system_init_clock : Device → Device
system_init_clock d = record d { system_core_clock = 16000000 }

-- The patterns of -1 and -2, the numbers of SysTick and PendSV.
abbrev pub systick_irqn : ℕ
systick_irqn = 0xffff_ffff

abbrev pub pendsv_irqn : ℕ
pendsv_irqn = 0xffff_fffe

-- rtos_start behind SystemInitClock; `none` where it goes on to the first task and does not return.
pub start_ticking : Device → Option Status × Device
start_ticking d =
    let d = nvic_set_priority d systick_irqn (2 ^ (nvic_prio_bits - 1)) in
    let d = nvic_set_priority d pendsv_irqn (2 ^ nvic_prio_bits - 1) in
    let (failed, d) = systick_config d (d.system_core_clock / tick_rate_hz) in
    (if failed == 0 then none else some err_state, d)

-- rtos_start with RTOS_QEMU_BUILD.
pub rtos_start : Kernel → Device → Option Status × Device
unfolding start_ticking
rtos_start k d =
    if k.idle_tcb == null then (some err_state, d) else start_ticking (system_init_clock d)

-- SysTick_Handler after the stack check.
unfoldable pub after_check : Kernel → StackCheck → Option Kernel
after_check k intact = some (scheduler_mark_reschedule (scheduler_time_slice_tick k))
after_check k (overflowed t word) = none

-- The state of the application, and what a timer's callback does to it, to the kernel and to the
-- timers.
module _ {A : Type 0} (call : Ptr → Ptr → Kernel × A → Timers → (Kernel × A) × Timers) where
  -- SysTick_Handler, with `fuel` rounds for the timers.
  unfoldable pub systick_handler : ℕ → A → System → Option (A × System)
  systick_handler fuel app s = do
    k ← rtos_wake_delayed (rtos_tick_increment s.kernel)
    ((k, app), t) ← sw_timer_tick_process call fuel k.tick_count (k, app) s.timers
    k ← after_check k (rtos_stack_check_all k)
    some (app, record s { kernel = k; timers = t })
