-- ===== src/Task.antt =====
-- src/core/task.c: the registry of tasks, the tick, delays, and the wake-ups at a tick.
pub mod Ticks
pub mod Stranded
use microkernel_rtos.Common.{
  ℕ, ◌+◌, ◌%◌, ◌&&◌, ◌||◌, not, List, [], ◌∷◌, ◌++◌, Bool, Option, some, ◌==◌, ltb, if◌then◌else◌,
  ◌>>=◌, length, erase,
}
use microkernel_rtos.Links.{Ptr, null, update}
use microkernel_rtos.Kernel.{
  Kernel, err_param, err_state, BlockReason, block_none, block_delay, block_mutex, block_semaphore,
  block_msg_send, block_msg_recv, is_blocked, max_tasks, uint32_max, uint32_mod,
}
use microkernel_rtos.Scheduler.{scheduler_mark_reschedule}
use microkernel_rtos.Blocking.{Wait, returned, rtos_block_current, wake_task}
use microkernel_rtos.Semaphore.{semaphore_wake_timeout, semaphore_detach_waiter}
use microkernel_rtos.MsgQueue.{msgqueue_wake_timeout, msgqueue_detach_waiter}
use microkernel_rtos.Mutex.{mutex_wake_timeout, mutex_detach_waiter}

-- _registry_add; the registry is task_registry up to task_registry_count.
unfoldable pub registry_add : Kernel → Ptr → Kernel
registry_add k t =
    if ltb (length k.task_registry) (max_tasks + 1) && not (t == null)
    then record k { task_registry = k.task_registry ++ t ∷ [] }
    else k

-- _registry_remove
unfoldable pub registry_remove : Kernel → Ptr → Kernel
registry_remove k t = record k { task_registry = erase t k.task_registry }

-- The branches on `tcb->block_reason` of _detach_blocked_task.
unfoldable pub detach_by_reason : Kernel → Ptr → BlockReason → Option Kernel
detach_by_reason k t block_mutex = mutex_detach_waiter k (k.block_object t) t
detach_by_reason k t block_semaphore = semaphore_detach_waiter k (k.block_object t) t
detach_by_reason k t block_msg_send = msgqueue_detach_waiter k (k.block_object t) t
detach_by_reason k t block_msg_recv = msgqueue_detach_waiter k (k.block_object t) t
detach_by_reason k t block_none = some k
detach_by_reason k t block_delay = some k

-- _detach_blocked_task
unfoldable pub detach_blocked_task : Kernel → Ptr → Option Kernel
detach_blocked_task k t = do
  k ← detach_by_reason k t (k.block_reason t)
  some (record k {
    block_reason = update k.block_reason t block_none;
    block_object = update k.block_object t null;
    blocked_on_mutex = update k.blocked_on_mutex t null;
  })

-- task_yield
pub task_yield : Kernel → Kernel
task_yield k = scheduler_mark_reschedule k

-- task_delay, called by the current task
unfoldable pub task_delay : Kernel → ℕ → Option (Wait × Kernel)
task_delay k ticks =
    if ticks == 0
    then some (returned err_param, k)
    else if k.current_tcb == null
    then some (returned err_state, k)
    else rtos_block_current k ticks block_delay null

-- rtos_tick_increment
unfoldable pub rtos_tick_increment : Kernel → Kernel
rtos_tick_increment k = record k { tick_count = (k.tick_count + 1) % uint32_mod }

-- The two tests with which rtos_wake_delayed passes over a task.
unfoldable pub is_due : Kernel → Ptr → Bool
is_due k t =
    not ((t == null) || (t == k.idle_tcb))
    && not (
        not (is_blocked (k.state t))
        || ((k.wake_time t == uint32_max) || ltb k.tick_count (k.wake_time t)))

-- The branches on `t->block_reason` of rtos_wake_delayed.
pub wake_by_reason : Kernel → Ptr → BlockReason → Option Kernel
wake_by_reason k t block_delay = wake_task k t
wake_by_reason k t block_mutex = mutex_wake_timeout k t
wake_by_reason k t block_semaphore = semaphore_wake_timeout k t
wake_by_reason k t block_msg_send = msgqueue_wake_timeout k t
wake_by_reason k t block_msg_recv = msgqueue_wake_timeout k t
wake_by_reason k t block_none = some k

-- The loop of rtos_wake_delayed over the tasks that are left.
pub wake_all : List Ptr → Kernel → Option Kernel
wake_all [] k = some k
wake_all (t ∷ ts) k = do
  k ← if is_due k t then wake_by_reason k t (k.block_reason t) else some k
  wake_all ts k

-- rtos_wake_delayed
pub rtos_wake_delayed : Kernel → Option Kernel
rtos_wake_delayed k = wake_all k.task_registry k
