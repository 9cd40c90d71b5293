-- ===== src/Fixtures/Ticking.antt =====
-- The tick's theorem on the system of the fixtures, with task 30 delayed until now.
use microkernel_rtos.Common.{ℕ, ◌≡◌, refl, [], ◌∷◌, Option, none, some, ◌==◌, if◌then◌else◌, arith}
use microkernel_rtos.Links.{Ptr}
use microkernel_rtos.Kernel.{Kernel, ready, block_none, block_delay}
use microkernel_rtos.Scheduler.Invariant.{Ready}
use microkernel_rtos.Task.{rtos_wake_delayed}
use microkernel_rtos.Task.Ticks.{over, released, rtos_wake_delayed-released}
use microkernel_rtos.Fixtures.{demo, demo_queues, demo-Ready}

abbrev pub delayed : Kernel
delayed = record demo {
  wake_time = λ p. if p == 30 then 1000 else 0xffff_ffff;
  block_reason = λ p. if p == 30 then block_delay else block_none;
}

-- Task 30 began to wait at tick 900, for 100 ticks.
abbrev pub since : Ptr → ℕ
since p = 900

abbrev pub ticks : Ptr → Option ℕ
ticks p = if p == 30 then some 100 else none

rtos_wake_delayed-released_example :
    (k' : Kernel) × (rtos_wake_delayed delayed ≡ some k')
    × Ready k' (
        released
          (over since ticks delayed)
          delayed.prio_bucket
          demo_queues
          (90 ∷ 10 ∷ 20 ∷ 30 ∷ []))
    × (k'.state 30 ≡ ready)
rtos_wake_delayed-released_example =
    rtos_wake_delayed-released delayed since ticks 30 demo-Ready (ground arith)
      (record { no_null = refl; idle_runs = refl; ends = λ t i b. ground arith })
      (λ t i j. ground arith) (λ t a i j. ground arith) (λ t i. ground arith) (λ b. ground arith)
