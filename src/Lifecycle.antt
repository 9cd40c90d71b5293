-- ===== src/Lifecycle.antt =====
-- src/core/task.c: starting the kernel's tasks, and creating and deleting a task, which take memory
-- from the heap and put the task on a ready ring and into the registry.
pub mod Memory
pub mod Build
pub mod Create
pub mod Delete
pub mod Roundtrip
pub mod Init
use microkernel_rtos.Common.{
  ℕ, ◌+◌, ◌-◌, ◌*◌, ◌/◌, ◌%◌, ◌||◌, Bool, true, false, List, [], ◌∷◌, Option, some, ◌==◌, leb, ltb,
  if◌then◌else◌, ◌>>=◌, length,
}
use microkernel_rtos.Links.{Ptr, null, update}
use microkernel_rtos.Kernel.{
  Kernel, Status, ok, err_param, err_no_mem, err_state, ready, terminated, block_none, is_blocked,
  is_ok, max_tasks, min_stack_size, idle_stack_size, task_name_max, num_priorities, uint32_mod,
  set_state,
}
use microkernel_rtos.Scheduler.{scheduler_init, scheduler_add_task, scheduler_remove_task}
use microkernel_rtos.Mutex.{prio_bucket_of}
use microkernel_rtos.Timer.{Timers, sw_timer_init}
use microkernel_rtos.Heap.{Heap, heap_init, heap_alloc, heap_free}
use microkernel_rtos.Task.{registry_add, registry_remove, detach_blocked_task}
use microkernel_rtos.Stack.{Image, task_build_common}

-- The kernel, its heap and its software timers.
pub record System : Type 0 where
  pub kernel : Kernel
  pub heap : Heap
  pub timers : Timers

-- `memset(tcb, 0, sizeof(TCB_t))`
unfoldable pub cleared : Kernel → Ptr → Kernel
cleared k t = record k {
  stack_ptr = update k.stack_ptr t null;
  prio_bucket = update k.prio_bucket t 0;
  priority = update k.priority t 0;
  state = update k.state t ready;
  stack_base = update k.stack_base t null;
  stack_size = update k.stack_size t 0;
  name = update k.name t (λ i. 0);
  wake_time = update k.wake_time t 0;
  base_priority = update k.base_priority t 0;
  blocked_on_mutex = update k.blocked_on_mutex t null;
  mutex_wait_next = update k.mutex_wait_next t null;
  task_func = update k.task_func t null;
  next_ready = update k.next_ready t null;
  time_slice_counter = update k.time_slice_counter t 0;
  block_reason = update k.block_reason t block_none;
  block_object = update k.block_object t null;
  block_wake_status = update k.block_wake_status t ok;
}

-- The four assignments to a cleared block that give it its stack and its priority.
unfoldable pub furnished : Kernel → Ptr → Ptr → ℕ → ℕ → ℕ → Kernel
furnished k t base size priority bucket = record k {
  stack_base = update k.stack_base t base;
  stack_size = update k.stack_size t size;
  priority = update k.priority t priority;
  prio_bucket = update k.prio_bucket t bucket;
}

-- The name of a task: 15 characters from `text`, and a null character.
unfoldable pub named : Kernel → Ptr → Ptr → Kernel
named k t text =
    if text == null
    then record k { name = update k.name t (λ i. if i == 0 then 0 else k.name t i) }
    else record k {
      name = update k.name t (λ i.
          if ltb i (task_name_max - 1)
          then k.bytes (text + i)
          else if i == task_name_max - 1
          then 0
          else k.name t i);
    }

-- The text "idle" with its null character.
abbrev pub idle_name : ℕ → ℕ
idle_name i =
    if i == 0
    then 105
    else if i == 1
    then 100
    else if i == 2
    then 108
    else if i == 3
    then 101
    else 0

-- The steps of task_init after the idle task's block has been allocated.
unfoldable pub build_idle : Image → Kernel → Ptr → Option (Status × Kernel)
build_idle img k idle =
    let base = img.idle_stack_words in
    let given = furnished (cleared k idle) idle base idle_stack_size 255 (num_priorities - 1) in
    let (st, k) =
      task_build_common img (record given { name = update given.name idle idle_name }) idle
        img.idle_task_fn in
    if is_ok st
    then (do
      (st, k) ← scheduler_add_task (set_state k idle ready) idle
      some (if is_ok st then (ok, registry_add k idle) else (err_state, k)))
    else some (err_state, k)

-- task_init
unfoldable pub task_init : Image → System → Option (Status × System)
task_init img s = do
  let k = record (scheduler_init s.kernel) { task_registry = [] }
  let t = sw_timer_init s.timers
  (idle, h) ← heap_alloc (heap_init s.heap) img.sizeof_tcb
  let k = record k { idle_tcb = idle }
  (st, k) ← if idle == null then some (err_no_mem, k) else build_idle img k idle
  some (st, record { kernel = k; heap = h; timers = t })

-- Two calls of heap_free, and `return NULL;`.
unfoldable pub give_up : System → Ptr → Ptr → Option (Ptr × System)
give_up s first second = do
  h ← heap_free s.heap first
  h ← heap_free h second
  some (null, record s { heap = h })

-- task_create after the test of the two allocations.
unfoldable pub place_task : Image → System → Ptr → Ptr → Ptr → ℕ → ℕ → Ptr → Option (Ptr × System)
place_task img s tcb stk func priority size text =
    let k = furnished (cleared s.kernel tcb) tcb stk size priority (prio_bucket_of priority) in
    let (st, k) = task_build_common img (named k tcb text) tcb func in
    if is_ok st
    then (do
      (st, k) ← scheduler_add_task (set_state k tcb ready) tcb
      if is_ok st
          then some (tcb, record s { kernel = registry_add k tcb })
          else give_up (record s { kernel = k }) stk tcb)
    else give_up (record s { kernel = k }) stk tcb

-- `(stack_size + 7u) & ~7u`
abbrev pub rounded : ℕ → ℕ
rounded size = (size + 7) % uint32_mod / 8 * 8

-- task_create from the allocations on; `size` is rounded.
unfoldable pub allocate_task : Image → System → Ptr → ℕ → ℕ → Ptr → Option (Ptr × System)
allocate_task img s func priority size text = do
  (tcb, h) ← heap_alloc s.heap img.sizeof_tcb
  (stk, h) ← heap_alloc h size
  if (tcb == null) || (stk == null)
      then give_up (record s { heap = h }) tcb stk
      else place_task img (record s { heap = h }) tcb stk func priority size text

-- task_create; the pointer that it returns comes first.
unfoldable pub task_create : Image → System → Ptr → ℕ → ℕ → Ptr → Option (Ptr × System)
task_create img s func priority size text =
    if (func == null) || ltb size min_stack_size
    then some (null, s)
    else if leb max_tasks (length s.kernel.task_registry)
    then some (null, s)
    else allocate_task img s func priority (rounded size) text

-- task_delete
unfoldable pub task_delete : System → Ptr → Option (Status × System)
task_delete s t =
    let k = s.kernel in
    if t == null
    then some (err_param, s)
    else if t == k.idle_tcb
    then some (err_state, s)
    else if t == k.current_tcb
    then some (err_state, s)
    else do
      k ← if is_blocked (k.state t) then detach_blocked_task k t else some k
      k ← scheduler_remove_task k t
      let k = registry_remove (set_state k t terminated) t
      h ← heap_free s.heap (k.stack_base t)
      h ← heap_free h t
      some (ok, record s { kernel = k; heap = h })
