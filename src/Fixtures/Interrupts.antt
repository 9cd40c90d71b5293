-- ===== src/Fixtures/Interrupts.antt =====
-- The theorems on the tick interrupt and on the stack check: task 30 is delayed until tick 1000, timers
-- 800 and 810 expire then, and every stack has its canary.
use microkernel_rtos.Common.{
  ◌%◌, ◌+◌, ◌≡◌, ◌⊎◌, refl, List, [], ◌∷◌, true, none, some, ◌==◌, if◌then◌else◌, arith, has,
}
use microkernel_rtos.Links.{Ptr}
use microkernel_rtos.Kernel.{Kernel, ready}
use microkernel_rtos.Timer.{Timers}
use microkernel_rtos.Task.{rtos_tick_increment}
use microkernel_rtos.Stack.{get_word, intact, overflowed, rtos_stack_check_all}
use microkernel_rtos.Stack.Check.{is_whole, canary_of, Overflow, rtos_stack_check_all-cases}
use microkernel_rtos.Lifecycle.{System}
use microkernel_rtos.Platform.{Device, scb_shpr_base, rtos_start, systick_handler}
use microkernel_rtos.Platform.Tick.{systick_handler-ticks}
use microkernel_rtos.Platform.Registers.{implemented, rtos_start-equal_priorities}
use microkernel_rtos.Fixtures.{demo, demo-Ready}
use microkernel_rtos.Fixtures.Ticking.{delayed, since, ticks}
use microkernel_rtos.Fixtures.Timing.{three, three-Running, log}
use microkernel_rtos.Fixtures.Heaps.{before}

-- Every word at a multiple of four is the canary.
abbrev guarded : Kernel
guarded = record delayed {
  tick_count = 999;
  bytes = λ a.
      if a % 4 == 0 then 0xef else if a % 4 == 1 then 0xbe else if a % 4 == 2 then 0xad else 0xde;
}

guarded-whole : (t : Ptr) → has t guarded.task_registry ≡ true → is_whole guarded t ≡ true
unfolding get_word
guarded-whole t i = ground arith

rtos_stack_check_all-cases_example :
    ((rtos_stack_check_all guarded ≡ intact)
      × ((p : Ptr) → has p guarded.task_registry ≡ true → is_whole guarded p ≡ true))
    ⊎ ((t : Ptr) × (rtos_stack_check_all guarded ≡ overflowed t (canary_of guarded t))
        × Overflow guarded guarded.task_registry t)
rtos_stack_check_all-cases_example = rtos_stack_check_all-cases guarded

abbrev at_work : System
at_work = record { kernel = guarded; heap = before; timers = three }

abbrev calls : Ptr → Ptr → Kernel × List Ptr → Timers → (Kernel × List Ptr) × Timers
calls c a w t = ((w.0, c ∷ w.1), t)

systick_handler-ticks_example :
    (s' : System) × (systick_handler calls 5 [] at_work ≡ some (811 ∷ 801 ∷ [], s'))
    × (s'.kernel.state 30 ≡ ready)
    × (s'.kernel.tick_count ≡ 1000)
    × (s'.kernel.pendsv ≡ true)
unfolding rtos_tick_increment
systick_handler-ticks_example =
    let (s', ls', ran, rings, state, tick, pend, run, late) =
      systick_handler-ticks calls log (λ c a w t. refl) 5 [] at_work 30 (800 ∷ 810 ∷ []) (820 ∷ [])
        since ticks demo-Ready (ground arith)
        (record { no_null = refl; idle_runs = refl; ends = λ t i b. ground arith })
        (λ t i j. ground arith) (λ t a i j. ground arith) (λ t i. ground arith) (λ b. ground arith)
        guarded-whole three-Running (ground arith) (ground arith) (λ t i p. ground arith)
        (λ t i. ground arith) (omega arith) in
    (s', ran, state, tick, pend)

abbrev pub reset : Device
reset = record {
  systick_ctrl = 0;
  systick_load = 0;
  systick_val = 0;
  priority_bytes = λ a. 0xff;
  system_core_clock = 8000000;
}

rtos_start-equal_priorities_example :
    ((rtos_start demo reset).0 ≡ none)
    × ((rtos_start demo reset).1.systick_load ≡ 15999)
    × (implemented ((rtos_start demo reset).1.priority_bytes (scb_shpr_base + 11)) ≡ 0)
    × (implemented ((rtos_start demo reset).1.priority_bytes (scb_shpr_base + 10)) ≡ 0)
rtos_start-equal_priorities_example = rtos_start-equal_priorities demo reset (omega arith)
