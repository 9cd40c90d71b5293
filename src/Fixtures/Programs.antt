-- ===== src/Fixtures/Programs.antt =====
-- The example programs on the image and the pool of Lifetimes.
use microkernel_rtos.Common.{ℕ, ◌+◌, refl, [], ◌∷◌, arith}
use microkernel_rtos.Demos.{
  Shown, sched_demo_tasks, sched_demo_main, mutex_demo_tasks, mutex_demo_main, stress_tasks,
  stress_test_main,
}
use microkernel_rtos.Demos.Startup.{Booted, boot-Booted}
use microkernel_rtos.Demos.Programs.{Runs, without_shown, programs-Run}
use microkernel_rtos.Fixtures.Lifetimes.{image, unstarted}
use microkernel_rtos.Fixtures.Interrupts.{reset}

-- The functions of stress_test from 3000 on, and names from 4000 on.
abbrev entry : ℕ → ℕ
entry i = 3000 + i

abbrev text : ℕ → ℕ
text i = 4000 + i

boot-Booted_example : Booted image unstarted (700 ∷ []) (stress_tasks entry text) 0 reset
boot-Booted_example =
    boot-Booted image unstarted (omega arith) (omega arith) (omega arith) (omega arith)
      (omega arith) (omega arith) (omega arith) (omega arith) (700 ∷ []) (stress_tasks entry text) 0
      reset refl

abbrev nothing_shown : Shown
nothing_shown = record { demo_phase = 9; last_event = λ i. 65 }

programs-Run_example :
    Runs image unstarted
      (sched_demo_main image 2001 4000 1 unstarted reset)
      reset
      (sched_demo_tasks 2001 4000)
      2001
    × Runs image unstarted
        (without_shown
          (mutex_demo_main image 700 2101 2201 2301 text 1 nothing_shown unstarted reset))
        reset
        (mutex_demo_tasks 2101 2201 2301 text)
        2301
    × Runs image unstarted
        (stress_test_main image 700 entry text 1 unstarted reset)
        reset
        (stress_tasks entry text)
        3000
programs-Run_example =
    programs-Run image unstarted (omega arith) (omega arith) (omega arith) (omega arith)
      (omega arith) (omega arith) (omega arith) (omega arith) 700 2001 2101 2201 2301 entry text 0
      reset nothing_shown (omega arith) (omega arith) refl refl refl refl
