-- ===== src/Semaphore.antt =====
-- src/sync/semaphore.c: counting semaphores with a list of waiting tasks.
pub mod Timeout
pub mod Waits
pub mod Shared
pub mod Moves
pub mod Calls
pub mod Runs
pub mod LostWake
use microkernel_rtos.Common.{
  ℕ, ◌+◌, ◌-◌, ◌%◌, Bool, ◌||◌, Option, some, ◌==◌, ltb, leb, if◌then◌else◌, ◌>>=◌,
}
use microkernel_rtos.Links.{Ptr, null, update}
use microkernel_rtos.Kernel.{
  Kernel, Status, ok, err_param, err_state, err_full, err_timeout, Semaphore, WaitList,
  block_semaphore, is_timeout, uint32_mod, set_wait_next,
}
use microkernel_rtos.Waiting.{tcb_enqueue_tail, tcb_pop_head, tcb_unlink}
use microkernel_rtos.Blocking.{
  Wait, returned, waiting, rtos_block_current, block_outcome, wake_task, wake_timed_out,
}
use microkernel_rtos.Scheduler.{scheduler_mark_reschedule}

-- Writes of `sem->count`, and of `sem->wait_head` and `sem->wait_tail`.
abbrev pub set_count : Kernel → Ptr → ℕ → Kernel
set_count k sem n = record k {
  semaphores = update k.semaphores sem (record (k.semaphores sem) { count = n });
}

abbrev pub set_waiters : Kernel → Ptr → WaitList → Kernel
set_waiters k sem w = record k {
  semaphores = update k.semaphores sem (record (k.semaphores sem) { waiters = w });
}

-- _wait_enqueue
pub wait_enqueue : Kernel → Ptr → Ptr → Kernel
wait_enqueue k sem t =
    let (k', w) = tcb_enqueue_tail k (k.semaphores sem).waiters t in set_waiters k' sem w

-- _wait_pop_head
unfoldable pub wait_pop_head : Kernel → Ptr → Ptr × Kernel
wait_pop_head k sem =
    let (t, k', w) = tcb_pop_head k (k.semaphores sem).waiters in (t, set_waiters k' sem w)

-- _wait_unlink
pub wait_unlink : Kernel → Ptr → Ptr → Option Kernel
wait_unlink k sem t =
    if sem == null
    then some k
    else do (k', w) ← tcb_unlink k (k.semaphores sem).waiters t; some (set_waiters k' sem w)

-- semaphore_wake_timeout
pub semaphore_wake_timeout : Kernel → Ptr → Option Kernel
semaphore_wake_timeout k t =
    if t == null then some k else do k ← wait_unlink k (k.block_object t) t; wake_timed_out k t

-- semaphore_detach_waiter
pub semaphore_detach_waiter : Kernel → Ptr → Ptr → Option Kernel
semaphore_detach_waiter k sem t =
    if (sem == null) || (t == null)
    then some k
    else do k ← wait_unlink k sem t; some (set_wait_next k t null)

-- semaphore_init
pub semaphore_init : Kernel → Ptr → ℕ → ℕ → Status × Kernel
semaphore_init k sem initial max_count =
    if (sem == null) || (max_count == 0) || ltb max_count initial
    then (err_param, k)
    else (ok, record k { semaphores = update k.semaphores sem fresh })
  where
    fresh : Semaphore
    fresh = record {
      count = initial;
      max_count = max_count;
      waiters = record { wait_head = null; wait_tail = null };
    }

-- semaphore_init_binary
pub semaphore_init_binary : Kernel → Ptr → Bool → Status × Kernel
unfolding semaphore_init
semaphore_init_binary k sem initially_available =
    semaphore_init k sem (if initially_available then 1 else 0) 1

-- One round of the loop of semaphore_wait, up to the point where the task `self` waits.
-- rtos_block_current does not return at once, since `self` is not NULL.
pub wait_round : Kernel → Ptr → Ptr → ℕ → Option (Wait × Kernel)
wait_round k sem self timeout =
    let count = (k.semaphores sem).count in
    if ltb 0 count
    then some (returned ok, set_count k sem (count - 1))
    else rtos_block_current (wait_enqueue k sem self) timeout block_semaphore sem

-- semaphore_wait, called by the current task
pub semaphore_wait : Kernel → Ptr → ℕ → Option (Wait × Kernel)
semaphore_wait k sem timeout =
    let self = k.current_tcb in
    if sem == null
    then some (returned err_param, k)
    else if self == null
    then some (returned err_state, k)
    else wait_round k sem self timeout

-- The loop goes on with what rtos_block_current returned.
pub wait_again : Kernel → Ptr → Ptr → ℕ → Wait → Option (Wait × Kernel)
wait_again k sem self timeout waiting = some (waiting, k)
wait_again k sem self timeout (returned st) =
    if is_timeout st then some (returned err_timeout, k) else wait_round k sem self timeout

-- semaphore_wait when its task `self` runs again
pub wait_resume : Kernel → Ptr → Ptr → ℕ → Option (Wait × Kernel)
unfolding wait_again
wait_resume k sem self timeout = wait_again k sem self timeout (block_outcome k self)

-- `if (wake != NULL) { … }`
unfoldable pub wake_if : Kernel → Ptr → Option Kernel
wake_if k wake = if wake == null then some k else wake_task k wake

-- semaphore_post
unfoldable pub semaphore_post : Kernel → Ptr → Option (Status × Kernel)
semaphore_post k sem =
    let s = k.semaphores sem in
    if sem == null
    then some (err_param, k)
    else if leb s.max_count s.count
    then some (err_full, k)
    else do
      let (wake, k') = wait_pop_head (set_count k sem ((s.count + 1) % uint32_mod)) sem
      k'' ← wake_if k' wake
      some (ok, scheduler_mark_reschedule k'')
