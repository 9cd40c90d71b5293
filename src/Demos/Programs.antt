-- ===== src/Demos/Programs.antt =====
-- The three example programs: each reaches its first task.
use microkernel_rtos.Common.{
  ℕ, suc, ◌+◌, ◌≤◌, ◌<◌, ◌≡◌, ◌≢◌, refl, [], ◌∷◌, true, List, Option, none, some, length, arith,
}
use microkernel_rtos.Links.{Ptr, null}
use microkernel_rtos.Kernel.{idle_stack_size, max_tasks, uint32_mod}
use microkernel_rtos.Heap.{header_size, heap_pool_size, total_of}
use microkernel_rtos.Mutex.{prio_bucket_of}
use microkernel_rtos.Stack.{Image}
use microkernel_rtos.Lifecycle.{System}
use microkernel_rtos.Platform.{Device, rtos_start}
use microkernel_rtos.Demos.{
  TaskSpec, boot, sched_demo_tasks, sched_demo_main, mutex_demo_tasks, stress_tasks,
  stress_test_main, Shown, mutex_demo_main,
}
use microkernel_rtos.Demos.Tasks.{Made, described, Populated, within}
use microkernel_rtos.Demos.Supply.{costs, proper}
use microkernel_rtos.Demos.Urgency.{first_in, MostUrgent-first}
use microkernel_rtos.Demos.Startup.{First, boot-Starts}

-- What mutex_demo shares with the other programs.
abbrev pub without_shown : Option (Shown × System × Device) → Option (System × Device)
without_shown none = none
without_shown (some (shown, s, d)) = some (s, d)

module _ (img : Image) (s : System) where
  -- The program reaches its first task, which is the one at `f`, with the tasks `ts` created.
  abbrev pub Runs : Option (System × Device) → Device → List TaskSpec → Ptr → Type 0
  Runs reached d ts f =
      (made : Made) × (s' : System) × (reached ≡ some (s', (rtos_start s'.kernel d).1))
      × (described made ≡ ts)
      × Populated s' (s.heap.heap_pool + header_size) made
      × (first : First s'.kernel (s.heap.heap_pool + header_size) ts) × (s'.kernel.task_func
            first.task
          ≡ f)

  module _ (placed : 0 < s.heap.heap_pool)
      (within_words : s.heap.heap_pool + heap_pool_size < uint32_mod)
      (positive : 0 < img.sizeof_tcb) (small : img.sizeof_tcb ≤ 1024)
      (fits : img.idle_stack_words + idle_stack_size < uint32_mod)
      (trap : img.task_exit_trap < uint32_mod) (entry : img.idle_task_fn < uint32_mod)
      (ne : img.idle_task_fn ≢ null) where
    runs :
        (ms : List Ptr) (t : TaskSpec) (ts : List TaskSpec) (fuel : ℕ) (d : Device)
        → within ts ≡ true
        → proper ts ≡ true
        → length ts < max_tasks
        → total_of img.sizeof_tcb + costs img ts + (header_size + 8) ≤ heap_pool_size
        → first_in 0 ts ≡ none
        → first_in 1 ts ≡ some t
        → Runs (boot img ms ts (suc fuel) s d) d ts t.func
    runs ms t ts fuel d w pr few enough unused lead =
        let (made, s', ran, all, p, first) =
          boot-Starts img s placed within_words positive (omega (arith, small)) fits trap entry ne
            ms ts fuel d w pr few enough in
        (
          made,
          s',
          ran,
          all,
          p,
          first,
          MostUrgent-first s'.kernel (s.heap.heap_pool + header_size) first.task ts t unused lead
              first.urgent,
        )

    sched_demo_main-Runs :
        (worker text : Ptr) (fuel : ℕ) (d : Device)
        → 0 < worker
        → worker < uint32_mod
        → Runs
            (sched_demo_main img worker text (suc fuel) s d)
            d
            (sched_demo_tasks worker text)
            worker
    unfolding prio_bucket_of total_of
    sched_demo_main-Runs worker text fuel d real inside =
        runs [] (record { func = worker; priority = 32; stack_bytes = 512; text = text })
          (sched_demo_tasks worker text) fuel d (ground arith) (ground arith) (omega arith)
          (omega (arith, small)) refl refl

    mutex_demo_main-Runs :
        (m low medium high : Ptr) (text : ℕ → Ptr) (fuel : ℕ) (d : Device) (shown : Shown)
        → proper (mutex_demo_tasks low medium high text) ≡ true
        → within (mutex_demo_tasks low medium high text) ≡ true
        → Runs
            (without_shown (mutex_demo_main img m low medium high text (suc fuel) shown s d))
            d
            (mutex_demo_tasks low medium high text)
            high
    unfolding prio_bucket_of total_of
    mutex_demo_main-Runs m low medium high text fuel d shown real inside =
        let (made, s', ran, all, p, first, same) =
          runs (m ∷ []) (record { func = high; priority = 32; stack_bytes = 1024; text = text 2 })
            (mutex_demo_tasks low medium high text) fuel d inside real (omega arith)
            (omega (arith, small)) refl refl in
        (made, s', rw ran refl, all, p, first, same)

    stress_test_main-Runs :
        (m : Ptr) (entry text : ℕ → Ptr) (fuel : ℕ) (d : Device)
        → proper (stress_tasks entry text) ≡ true
        → within (stress_tasks entry text) ≡ true
        → Runs
            (stress_test_main img m entry text (suc fuel) s d)
            d
            (stress_tasks entry text)
            (entry 0)
    unfolding prio_bucket_of total_of
    stress_test_main-Runs m entry text fuel d real inside =
        runs (m ∷ []) (record { func = entry 0; priority = 32; stack_bytes = 768; text = text 0 })
          (stress_tasks entry text) fuel d inside real (omega arith) (omega (arith, small)) refl
          refl

    -- On a pool with a control block of at most 1024 bytes, with the idle stack, the functions and the
    -- exit trap in the address space and no null function, the three example programs reach their first task: no call of
    -- task_init or task_create fails. The registry has the idle task and then the tasks in the order of
    -- their creation, each READY on its ring with its function, its priority and its bucket, and
    -- scheduler_get_next runs the worker in sched_demo, the task H in mutex_demo and the task T0 in
    -- stress_test.
    pub programs-Run :
        (m worker low medium high : Ptr) (entry text : ℕ → Ptr) (fuel : ℕ) (d : Device)
        (shown : Shown)
        → 0 < worker
        → worker < uint32_mod
        → proper (mutex_demo_tasks low medium high text) ≡ true
        → within (mutex_demo_tasks low medium high text) ≡ true
        → proper (stress_tasks entry text) ≡ true
        → within (stress_tasks entry text) ≡ true
        → Runs
            (sched_demo_main img worker (text 0) (suc fuel) s d)
            d
            (sched_demo_tasks worker (text 0))
            worker
          × Runs
              (without_shown (mutex_demo_main img m low medium high text (suc fuel) shown s d))
              d
              (mutex_demo_tasks low medium high text)
              high
          × Runs
              (stress_test_main img m entry text (suc fuel) s d)
              d
              (stress_tasks entry text)
              (entry 0)
    programs-Run m worker low medium high entry text fuel d shown real inside real' inside' real2
          inside2 =
        (
          sched_demo_main-Runs worker (text 0) fuel d real inside,
          mutex_demo_main-Runs m low medium high text fuel d shown real' inside',
          stress_test_main-Runs m entry text fuel d real2 inside2,
        )
