-- ===== src/Fixtures/Lifetimes.antt =====
-- Tasks that are created and deleted: the pool is at address 12, so that the first two blocks belong to
-- task 20 and to its stack.
use microkernel_rtos.Common.{
  ◌≡◌, inl, refl, List, [], ◌∷◌, true, Option, none, some, ◌==◌, if◌then◌else◌, arith,
}
use microkernel_rtos.Links.{Ptr, null}
use microkernel_rtos.Kernel.{ok}
use microkernel_rtos.Scheduler.Invariant.{Ready}
use microkernel_rtos.Heap.{
  Heap, heap_init, heap_alloc, total_of, find_fit, take_block, take_found, split_block,
  remove_from_list, prepend_free, coalesce_forward, coalesce_walk, absorb,
}
use microkernel_rtos.Heap.Blocks.{IsHeap}
use microkernel_rtos.Stack.{
  Image, set_word, set_words, build_initial_stack, stack_high, first_frame, prepared,
  task_build_common,
}
use microkernel_rtos.Scheduler.{scheduler_add_task, ring_insert, ring_tail, mark_ready}
use microkernel_rtos.Mutex.{prio_bucket_of}
use microkernel_rtos.Task.{registry_add}
use microkernel_rtos.Lifecycle.{
  System, cleared, furnished, named, task_init, place_task, allocate_task, task_create, task_delete,
}
use microkernel_rtos.Lifecycle.Create.{Outcome, task_create-Outcome}
use microkernel_rtos.Lifecycle.Delete.{Deleted, task_delete-Deleted}
use microkernel_rtos.Lifecycle.Init.{Started, task_init-Started}
use microkernel_rtos.Lifecycle.Roundtrip.{task_delete-task_create}
use microkernel_rtos.Fixtures.{demo, demo_queues, demo-Ready}
use microkernel_rtos.Fixtures.Timing.{three}
use microkernel_rtos.Fixtures.Heaps.{before, pool, pool-IsHeap}

abbrev pub image : Image
image = record {
  sizeof_tcb = 96;
  task_exit_trap = 1001;
  idle_task_fn = 1005;
  idle_stack_words = 200000;
}

abbrev pub unstarted : System
unstarted = record { kernel = demo; heap = before; timers = three }

task_init-Started_example :
    (s' : System) × (task_init image unstarted ≡ some (ok, s')) × Started image unstarted s'
task_init-Started_example =
    task_init-Started image unstarted (omega arith) (omega arith) (omega arith) (omega arith)
      (omega arith) (omega arith) (omega arith) (omega arith)

abbrev roomy : System
roomy = record { kernel = demo; heap = pool; timers = three }

task_create-Outcome_example :
    (p : Ptr) × (s' : System) × (task_create image roomy 2001 40 500 0 ≡ some (p, s'))
    × Outcome image roomy s' demo_queues (4096 ∷ []) [] p 2001 40 500
unfolding heap_init
task_create-Outcome_example =
    task_create-Outcome image roomy 2001 40 500 0 demo-Ready pool-IsHeap (omega arith) (omega arith)
      (omega arith) (omega arith) (omega arith) (omega arith) (λ c a i. ground arith)
      (λ b. ground arith)

-- Blocks 12 and 116 are used.
abbrev two_used : Heap
two_used = record {
  block_size = λ a. if a == 12 then 104 else if a == 116 then 520 else 32144;
  next_free = λ a. null;
  heap_pool = 12;
  free_list = 636;
  heap_ready = true;
}

two_used-IsHeap : IsHeap two_used (636 ∷ []) (116 ∷ 12 ∷ [])
two_used-IsHeap = record {
  ready = refl;
  placed = omega arith;
  fits = omega arith;
  chain = ground arith;
  tiles = record {
    free_distinct = ground arith;
    used_distinct = ground arith;
    separate = λ b i. ground arith;
    sized = λ b i. ground arith;
    above = λ b i. ground arith;
    below = λ b i. ground arith;
    apart = λ a b i j n. ground arith;
    total = refl;
  };
}

abbrev owned : System
owned = record { kernel = record demo { stack_base = λ p. 124 }; heap = two_used; timers = three }

task_delete-Deleted_example :
    (s' : System) × (task_delete owned 20 ≡ some (ok, s'))
    × Deleted owned s' demo_queues 20 12 116 (116 ∷ 12 ∷ [])
task_delete-Deleted_example =
    task_delete-Deleted owned 20 12 116 demo-Ready two_used-IsHeap (omega arith) (omega arith)
      (inl refl) (omega arith) refl refl refl refl (omega arith)

abbrev system_of : Option (Ptr × System) → System
system_of none = unstarted
system_of (some (p, s)) = s

-- What the creation of a task leaves.
abbrev grown : System
grown = system_of (task_create image roomy 2001 40 500 0)

grown_lem : task_create image roomy 2001 40 500 0 ≡ some (4104, grown)
unfolding heap_init heap_alloc total_of find_fit take_block take_found split_block remove_from_list
    prepend_free coalesce_forward coalesce_walk absorb cleared furnished named place_task
    allocate_task task_create set_word set_words build_initial_stack stack_high first_frame prepared
    task_build_common scheduler_add_task ring_insert ring_tail mark_ready prio_bucket_of
    registry_add
grown_lem = refl

task_delete-task_create_example :
    (s2 : System) × (fs2 : List Ptr) × (task_delete grown 4104 ≡ some (ok, s2))
    × Ready s2.kernel demo_queues
    × (s2.kernel.task_registry ≡ 90 ∷ 10 ∷ 20 ∷ 30 ∷ [])
    × IsHeap s2.heap fs2 []
unfolding heap_init
task_delete-task_create_example =
    task_delete-task_create image roomy grown 4104 2001 40 500 0 demo-Ready pool-IsHeap
      (omega arith) (omega arith) (omega arith) (omega arith) (omega arith) (omega arith)
      (λ c a i. ground arith) (λ b. ground arith) grown_lem (omega arith) (omega arith)
      (omega arith) refl
