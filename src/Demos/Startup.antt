-- ===== src/Demos/Startup.antt =====
-- The main of the example programs: from reset to the first task.
use microkernel_rtos.Common.{
  ℕ, suc, ◌+◌, ◌-◌, ◌≤◌, ◌<◌, ◌≡◌, ◌≢◌, ◌⊎◌, inl, inr, refl, true, List, [], ◌∷◌, none, some, ◌==◌,
  arith, length, sym, subst, ◌∙◌, ap, ==_refl, Bool-cases,
}
use microkernel_rtos.Links.{Ptr, null}
use microkernel_rtos.Kernel.{
  Kernel, Mutex, running, idle_stack_size, max_tasks, num_priorities, uint32_mod,
}
use microkernel_rtos.Scheduler.{scheduler_get_next}
use microkernel_rtos.Scheduler.Invariant.{Ready}
use microkernel_rtos.Scheduler.Dispatch.{scheduler_get_next-Highest}
use microkernel_rtos.Scheduler.Progress.{highest-or-empty}
use microkernel_rtos.Mutex.{mutex_init}
use microkernel_rtos.Heap.{header_size, heap_pool_size, total_of, heap_init, heap_alloc}
use microkernel_rtos.Heap.Single.{heap_init-Single, heap_alloc-granted}
use microkernel_rtos.Stack.{Image}
use microkernel_rtos.Lifecycle.{System}
use microkernel_rtos.Lifecycle.Init.{task_init-Started}
use microkernel_rtos.Platform.{Device, rtos_start}
use microkernel_rtos.Platform.Registers.{rtos_start-equal_priorities}
use microkernel_rtos.Demos.{TaskSpec, init_or_stop, init_mutexes, create_each, start_loop, boot}
use microkernel_rtos.Demos.Tasks.{Made, described, filled, AllSettled, Populated, within}
use microkernel_rtos.Demos.Urgency.{MostUrgent, idle_leads, Highest-MostUrgent}
use microkernel_rtos.Demos.Supply.{costs, proper, create_each-Supplied}
use microkernel_rtos.Demos.Creation.{Refusal, create_each-Populated}

-- Initialising a mutex leaves the tasks alone.
only_mutexes :
    (k : Kernel) (m : Ptr) → (mutex_init k m).1 ≡ record k { mutexes = (mutex_init k m).1.mutexes }
unfolding mutex_init
only_mutexes k m = elim (Bool-cases (m == null)) [ inl z ↦ rw z refl | inr nz ↦ rw nz refl ]

init_mutexes-only :
    (ms : List Ptr) (k : Kernel)
    → (f : Ptr → Mutex) × (init_mutexes ms k ≡ record k { mutexes = f })
unfolding init_mutexes
init_mutexes-only [] k = (k.mutexes, refl)
init_mutexes-only (m ∷ ms) k =
    let (g, e) = init_mutexes-only ms (mutex_init k m).1 in
    (g, e ∙ ap (λ (c : Kernel). record c { mutexes = g }) (only_mutexes k m))

-- What SVC_Handler's call of scheduler_get_next does where the tasks `ts` have been created.
pub record First (k : Kernel) (idle : Ptr) (ts : List TaskSpec) : Type 0 where
  pub task : Ptr
  pub urgent : MostUrgent k idle ts task
  pub after : Kernel
  pub ran : scheduler_get_next k ≡ some (task, after)
  pub current : after.current_tcb ≡ task
  pub runs : after.state task ≡ running

begins_with :
    (k : Kernel) (idle : Ptr) (made : Made)
    → Ready k (filled idle made)
    → AllSettled k made
    → First k idle (described made)
begins_with k idle made r a =
    elim (highest-or-empty num_priorities (filled idle made) (omega arith)) [
      | inl empty ↦
          let (xs, leads) = idle_leads idle made in
          absurd (ground (arith, leads, empty (num_priorities - 1) (omega arith)))
      | inr (b, x, xs, lt, h) ↦
          let (k', ran, r', now, fresh, states, u) = scheduler_get_next-Highest k r h in
          record {
            task = x;
            urgent = Highest-MostUrgent k idle made a h;
            after = k';
            ran = ran;
            current = now;
            runs = states x ∙ rw (==_refl x) refl;
          }
    ]

start_loop-starts :
    (fuel : ℕ) (s : System) (d : Device)
    → s.kernel.idle_tcb ≢ null
    → start_loop (suc fuel) s d ≡ some (s, (rtos_start s.kernel d).1)
unfolding start_loop
start_loop-starts fuel s d ne = rw (rtos_start-equal_priorities s.kernel d ne).0 refl

module _ (img : Image) (s : System) where
  abbrev idle : Ptr
  idle = s.heap.heap_pool + header_size

  -- The first task is reached, with the tasks `ts` created.
  abbrev pub Starts : List Ptr → List TaskSpec → ℕ → Device → Type 0
  Starts ms ts fuel d =
      (made : Made) × (s' : System) × (boot img ms ts (suc fuel) s d
        ≡ some (s', (rtos_start s'.kernel d).1))
      × (described made ≡ ts)
      × Populated s' idle made
      × First s'.kernel idle ts

  -- What main comes to: it stops at the call of task_create that returned NULL, or reaches the first task.
  abbrev pub Booted : List Ptr → List TaskSpec → ℕ → Device → Type 0
  Booted ms ts fuel d =
      ((s1 : System) × (init_or_stop img s ≡ some s1)
        × (boot img ms ts (suc fuel) s d ≡ none)
        × Refusal img idle (record s1 { kernel = init_mutexes ms s1.kernel }) ts)
      ⊎ Starts ms ts fuel d

  module _ (low : 0 < s.heap.heap_pool) (high : s.heap.heap_pool + heap_pool_size < uint32_mod)
      (positive : 0 < img.sizeof_tcb) (small : img.sizeof_tcb + header_size + 8 ≤ heap_pool_size)
      (fits : img.idle_stack_words + idle_stack_size < uint32_mod)
      (trap : img.task_exit_trap < uint32_mod) (entry : img.idle_task_fn < uint32_mod)
      (ne : img.idle_task_fn ≢ null) where
    abbrev Initialised : List Ptr → Type 0
    Initialised ms =
        (s1 : System) × (init_or_stop img s ≡ some s1)
        × (heap_alloc (heap_init s.heap) img.sizeof_tcb ≡ some (idle, s1.heap))
        × Populated (record s1 { kernel = init_mutexes ms s1.kernel }) idle []

    initialised : (ms : List Ptr) → Initialised ms
    unfolding init_or_stop
    initialised ms =
        let (s1, ran, z) =
          task_init-Started img s low (omega arith) positive small fits trap entry ne in
        let (f, e) = init_mutexes-only ms s1.kernel in
        (
          s1,
          rw ran refl,
          z.allocated,
          subst (λ k. Populated (record s1 { kernel = k }) idle []) (sym e)
              (record {
                rings = z.task.rings;
                registry = z.task.registry;
                settled = tt;
                is_idle = z.task.current.1;
                fits = rw z.same_pool high;
                free = z.free;
                used = s.heap.heap_pool ∷ [];
                heap = z.heap;
                owned = λ p i. ground arith;
              }),
        )

    starts :
        (ms : List Ptr) (ts : List TaskSpec) (fuel : ℕ) (d : Device) (s1 s' : System) (made : Made)
        → init_or_stop img s ≡ some s1
        → create_each img (record s1 { kernel = init_mutexes ms s1.kernel }) ts ≡ some s'
        → described made ≡ ts
        → Populated s' idle made
        → Starts ms ts fuel d
    unfolding boot
    starts ms ts fuel d s1 s' made ran made_all all p =
        let there : s'.kernel.idle_tcb ≢ null = λ z. absurd (omega (arith, z, p.is_idle)) in
        (
          made,
          s',
          rw ran (rw made_all (start_loop-starts fuel s' d there)),
          all,
          p,
          subst (First s'.kernel idle) all (begins_with s'.kernel idle made p.rings p.settled),
        )

    -- From reset with the pool and the idle stack in the address space and a control block that
    -- fits the pool, and for task functions in the address space and stack sizes that do not wrap,
    -- main of a program of this shape either stops because a call of task_create returned NULL, in
    -- the state that task_init, mutex_init and the calls of task_create before it have led to and
    -- for one of the four reasons of task_create, or reaches the first task: the registry has the
    -- idle task and then the tasks in the order of the calls; each is READY with its function, its
    -- priority and its bucket, behind those of its bucket that were created before it; and
    -- scheduler_get_next then runs the first task of the most urgent bucket in use, or the idle
    -- task where no task has a more urgent bucket than it.
    pub boot-Booted :
        (ms : List Ptr) (ts : List TaskSpec) (fuel : ℕ) (d : Device)
        → within ts ≡ true
        → Booted ms ts fuel d
    unfolding boot
    boot-Booted ms ts fuel d w =
        let (s1, ran, allocated, p) = initialised ms in
        let s2 : System = record s1 { kernel = init_mutexes ms s1.kernel } in
        elim (create_each-Populated img idle positive (omega arith) trap s2 ts s2 []
          (unfold create_each in refl) p w) [
            | inl (stopped, r) ↦ inl (s1, ran, rw ran (rw stopped refl), r)
            | inr (made, s', made_all, all, p') ↦
                inr (starts ms ts fuel d s1 s' made ran made_all all p')
          ]

    -- Where the pool has room for all tasks, the first task is reached.
    pub boot-Starts :
        (ms : List Ptr) (ts : List TaskSpec) (fuel : ℕ) (d : Device)
        → within ts ≡ true
        → proper ts ≡ true
        → length ts < max_tasks
        → total_of img.sizeof_tcb + costs img ts + (header_size + 8) ≤ heap_pool_size
        → Starts ms ts fuel d
    boot-Starts ms ts fuel d w pr few enough =
        let (s1, ran, allocated, p) = initialised ms in
        let s2 : System = record s1 { kernel = init_mutexes ms s1.kernel } in
        let (ne, one) =
          heap_alloc-granted (heap_init s.heap) s1.heap img.sizeof_tcb s.heap.heap_pool idle
            (heap_init-Single s.heap low) positive (omega arith) (omega (arith, enough))
            allocated in
        let (made, s', made_all, all, p') =
          create_each-Supplied img idle positive (omega arith) trap ts s2 []
            (s.heap.heap_pool + total_of img.sizeof_tcb) p one (omega (arith, enough))
            (omega (arith, few)) w pr in
        starts ms ts fuel d s1 s' made ran made_all all p'
