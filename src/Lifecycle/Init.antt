-- ===== src/Lifecycle/Init.antt =====
-- task_init: the idle task, alone on the ring of the lowest bucket.
use microkernel_rtos.Common.{
  ℕ, ◌+◌, ◌-◌, ◌≤◌, ◌<◌, ◌≡◌, ◌≢◌, refl, List, [], ◌∷◌, some, arith, ==-false,
}
use microkernel_rtos.Links.{Ptr, null, update}
use microkernel_rtos.Kernel.{Kernel, ok, idle_stack_size, num_priorities, uint32_mod}
use microkernel_rtos.Scheduler.{scheduler_init}
use microkernel_rtos.Scheduler.Invariant.{Queues, Ready}
use microkernel_rtos.Heap.{header_size, heap_pool_size, heap_init, heap_alloc, total_of}
use microkernel_rtos.Heap.Walks.{first_fit}
use microkernel_rtos.Heap.Blocks.{IsHeap, heap_init-IsHeap}
use microkernel_rtos.Heap.Calls.{heap_alloc-Taken}
use microkernel_rtos.Timer.{sw_timer_init}
use microkernel_rtos.Stack.{Image}
use microkernel_rtos.Lifecycle.{System, cleared, furnished, idle_name, build_idle, task_init}
use microkernel_rtos.Lifecycle.Build.{Created, built-Created, task_build_common-prepared}

-- No task is ready.
abbrev pub no_tasks : Queues
no_tasks b = []

-- The kernel when the idle task's block has been allocated.
abbrev pub at_start : Kernel → Ptr → Kernel
at_start k idle = record (scheduler_init k) { task_registry = []; idle_tcb = idle }

at_start-Ready : (k : Kernel) (idle : Ptr) → Ready (at_start k idle) no_tasks
unfolding scheduler_init
at_start-Ready k idle = record {
  rings = λ b. refl;
  apart = λ a b p i j. absurd (ground arith);
  short = λ b. omega arith;
  bounded = λ b h. refl;
}

module _ (img : Image) (s : System) (idle : Ptr) (ne : idle ≢ null) (ne' : img.idle_task_fn ≢ null)
    (fits : img.idle_stack_words + idle_stack_size < uint32_mod)
    (trap : img.task_exit_trap < uint32_mod) (entry : img.idle_task_fn < uint32_mod) where
  abbrev k0 : Kernel
  k0 = at_start s.kernel idle

  abbrev idle_block : Kernel
  idle_block =
      furnished (cleared k0 idle) idle img.idle_stack_words idle_stack_size 255 (num_priorities - 1)

  abbrev names : Ptr → ℕ → ℕ
  names = update idle_block.name idle idle_name

  build_idle-Created :
      (k' : Kernel) × (build_idle img k0 idle ≡ some (ok, k'))
      × Created img k0 k' no_tasks idle img.idle_stack_words img.idle_task_fn 255
          (num_priorities - 1)
          idle_stack_size
  unfolding build_idle
  build_idle-Created =
      let built_up =
        task_build_common-prepared img (record idle_block { name = names }) idle img.idle_task_fn ne
          ne' in
      let (k1, k2, added, listed, c) =
        built-Created img (record s { kernel = k0 }) idle img.idle_stack_words img.idle_task_fn 255
          (num_priorities - 1) idle_stack_size names (at_start-Ready s.kernel idle) ne ne'
          (λ a. refl) (omega arith) (omega arith) (omega arith) (omega arith) fits trap entry in
      (k2, rw built_up (rw added (rw listed refl)), c)

-- The state that task_init leaves.
pub record Started (img : Image) (s s' : System) : Type 0 where
  pub task :
      Created img
        (at_start s.kernel (s.heap.heap_pool + header_size))
        s'.kernel
        no_tasks
        (s.heap.heap_pool + header_size)
        img.idle_stack_words
        img.idle_task_fn
        255
        (num_priorities - 1)
        idle_stack_size
  pub free : List Ptr
  pub heap : IsHeap s'.heap free (s.heap.heap_pool ∷ [])
  pub same_pool : s'.heap.heap_pool ≡ s.heap.heap_pool
  pub allocated :
      heap_alloc (heap_init s.heap) img.sizeof_tcb ≡ some (s.heap.heap_pool + header_size, s'.heap)
  pub timers : s'.timers.timer_list ≡ null

-- With the pool and the idle stack in the address space and a control block that fits the pool,
-- task_init returns RTOS_OK on every state before it: the idle task has the first block of the heap, is
-- READY and alone on the ring of the lowest bucket and in the registry, no timer runs, and the rest of
-- the heap is free.
pub task_init-Started :
    (img : Image) (s : System)
    → 0 < s.heap.heap_pool
    → s.heap.heap_pool + heap_pool_size ≤ uint32_mod
    → 0 < img.sizeof_tcb
    → img.sizeof_tcb + header_size + 8 ≤ heap_pool_size
    → img.idle_stack_words + idle_stack_size < uint32_mod
    → img.task_exit_trap < uint32_mod
    → img.idle_task_fn < uint32_mod
    → img.idle_task_fn ≢ null
    → (s' : System) × (task_init img s ≡ some (ok, s')) × Started img s s'
unfolding task_init sw_timer_init heap_init total_of
task_init-Started img s low high positive small fits trap entry ne =
    let pool = s.heap.heap_pool in
    let i = heap_init-IsHeap s.heap low high in
    let hit : first_fit (heap_init s.heap).block_size (total_of img.sizeof_tcb) (pool ∷ [])
        ≡ some pool =
      ground arith in
    let (h', fs', ran, t) =
      heap_alloc-Taken (heap_init s.heap) img.sizeof_tcb pool i positive (omega arith) hit in
    let idle_ne : pool + header_size ≢ null = omega arith in
    let (k', built_up, c) =
      build_idle-Created img s (pool + header_size) idle_ne ne fits trap entry in
    (
      record { kernel = k'; heap = h'; timers = sw_timer_init s.timers },
      rw ran (rw (==-false idle_ne) (rw built_up refl)),
      record {
        task = c;
        free = fs';
        heap = t.heap;
        same_pool = t.kept.same_pool;
        allocated = ran;
        timers = refl;
      },
    )
