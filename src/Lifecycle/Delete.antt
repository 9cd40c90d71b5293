-- ===== src/Lifecycle/Delete.antt =====
-- task_delete: its refusals, and what it leaves of the rings, the registry and the heap.
use microkernel_rtos.Common.{
  has-of_erase, ◌+◌, ◌<◌, ◌≡◌, ◌≢◌, ◌⊎◌, inl, inr, refl, List, true, false, Option, some, ◌==◌,
  arith, has, erase, ◌∙◌, ap, ==_refl, ==-false, Bool-cases, if◌then◌else◌,
}
use microkernel_rtos.Links.{Ptr, null, update}
use microkernel_rtos.Kernel.{
  Kernel, ok, err_param, err_state, BlockReason, terminated, block_delay, block_none, is_blocked,
  num_priorities, set_state,
}
use microkernel_rtos.Scheduler.Invariant.{Queues, Ready, relink}
use microkernel_rtos.Scheduler.Remove.{dequeue, scheduler_remove_task-Ready}
use microkernel_rtos.Heap.{header_size, heap_free}
use microkernel_rtos.Heap.Blocks.{IsHeap}
use microkernel_rtos.Heap.Calls.{heap_free-IsHeap}
use microkernel_rtos.Task.{detach_by_reason, detach_blocked_task, registry_remove}
use microkernel_rtos.Lifecycle.{System, task_delete}

-- NULL, the idle task and the current task are refused, and nothing changes.
pub task_delete-refuses :
    (s : System) (t : Ptr)
    → (t ≡ null) ⊎ ((t ≡ s.kernel.idle_tcb) ⊎ (t ≡ s.kernel.current_tcb))
    → task_delete s t ≡ some (if t == null then err_param else err_state, s)
unfolding task_delete
task_delete-refuses s t why = ground (arith, ==_refl t)

-- The task is in no list of waiting tasks.
abbrev pub NotWaiting : Kernel → Ptr → Type 0
NotWaiting k t = (is_blocked (k.state t) ≡ false) ⊎ (k.block_reason t ≡ block_delay)

-- The step of task_delete that ends a wait.
abbrev ended_wait : Kernel → Ptr → Option Kernel
ended_wait k t = if is_blocked (k.state t) then detach_blocked_task k t else some k

abbrev waits : Kernel → (Ptr → BlockReason) → (Ptr → Ptr) → (Ptr → Ptr) → Kernel
waits k reason object mutex = record k {
  block_reason = reason;
  block_object = object;
  blocked_on_mutex = mutex;
}

-- It changes what the blocks say of their waits, and nothing else.
ended_wait-steps :
    (k : Kernel) (t : Ptr)
    → NotWaiting k t
    → (reason : Ptr → BlockReason) × (object : Ptr → Ptr) × (mutex : Ptr → Ptr) × (ended_wait k t
        ≡ some (waits k reason object mutex))
unfolding detach_blocked_task detach_by_reason
ended_wait-steps k t why = elim (Bool-cases (is_blocked (k.state t))) [
  | inr runs ↦ (k.block_reason, k.block_object, k.blocked_on_mutex, rw runs refl)
  | inl stands ↦ elim why [
    | inl runs ↦ absurd (ground (arith, runs, stands))
    | inr delayed ↦ (
      update k.block_reason t block_none,
      update k.block_object t null,
      update k.blocked_on_mutex t null,
      rw (stands, delayed) refl,
    )
  ]
]

-- What the deletion of the task `t` leaves, with the ready queues `q` and the used blocks `us` before.
pub record Deleted (s s' : System) (q : Queues) (t b stk_block : Ptr) (us : List Ptr) : Type 0 where
  pub rings : Ready s'.kernel (dequeue q (s.kernel.prio_bucket t) t)
  pub state : s'.kernel.state t ≡ terminated
  pub registry : s'.kernel.task_registry ≡ erase t s.kernel.task_registry
  pub others : (p : Ptr) → p ≢ t → s'.kernel.state p ≡ s.kernel.state p
  pub free : List Ptr
  pub heap : IsHeap s'.heap free (erase b (erase stk_block us))

-- task_delete of a task whose block and stack are used blocks of the heap, which is neither the idle
-- task nor the current one and in no list of waiting tasks, returns RTOS_OK: the task leaves its ready
-- ring and the registry, is TERMINATED, and its stack and its block are free memory.
pub task_delete-Deleted :
    (s : System) (t b stk_block : Ptr) {q : Queues} {fs us : List Ptr}
    → Ready s.kernel q
    → IsHeap s.heap fs us
    → t ≢ s.kernel.idle_tcb
    → t ≢ s.kernel.current_tcb
    → NotWaiting s.kernel t
    → s.kernel.prio_bucket t < num_priorities
    → t ≡ b + header_size
    → s.kernel.stack_base t ≡ stk_block + header_size
    → has b us ≡ true
    → has stk_block us ≡ true
    → b ≢ stk_block
    → (s' : System) × (task_delete s t ≡ some (ok, s')) × Deleted s s' q t b stk_block us
unfolding task_delete registry_remove
task_delete-Deleted s t b stk_block {q} {fs} {us} r i ni nc why in_range at_b at_stk on on' off =
    let k = s.kernel in
    let ne : t ≢ null = omega (arith, at_b) in
    let (reason, object, mutex, calm) = ended_wait-steps k t why in
    let c = waits k reason object mutex in
    let (nx, heads, removed, r') = scheduler_remove_task-Ready c t r ne in_range in
    let (h1, fs1, free1, whole1, k1) = heap_free-IsHeap s.heap stk_block i on' in
    let still : has b (erase stk_block us) ≡ true =
      ground (arith, has-of_erase b stk_block us i.tiles.used_distinct) in
    let (h2, fs2, free2, whole2, k2) = heap_free-IsHeap h1 b whole1 still in
    let free1' = ap (heap_free s.heap) at_stk ∙ free1 in
    let free2' = ap (heap_free h1) at_b ∙ free2 in
    (
      record {
        kernel = registry_remove (set_state (relink c nx heads) t terminated) t;
        heap = h2;
        timers = s.timers;
      },
      rw (==-false ne, ==-false ni, ==-false nc)
          (rw calm (rw removed (rw free1' (rw free2' refl)))),
      record {
        rings = r';
        state = ground arith;
        registry = refl;
        others = λ p away. ground arith;
        free = fs2;
        heap = whole2;
      },
    )
