-- ===== src/Blocking.antt =====
-- src/core/block.c, and the statements with which the kernel wakes a blocked task. A blocking call
-- is cut where the calling task gives up the processor: rtos_block_current up to its loop
-- `while (self->state == TASK_STATE_BLOCKED)`, and what follows when the task runs again.
pub mod Rings
pub mod Kept
use microkernel_rtos.Common.{ℕ, ◌+◌, ◌%◌, Option, some, ◌==◌, if◌then◌else◌, ◌>>=◌}
use microkernel_rtos.Links.{Ptr, null, update}
use microkernel_rtos.Kernel.{
  Kernel, Status, ok, err_state, err_timeout, ready, blocked, BlockReason, block_none, is_blocked,
  wait_forever, uint32_max, uint32_mod,
}
use microkernel_rtos.Scheduler.{
  scheduler_add_task, scheduler_remove_task, scheduler_mark_reschedule,
}

-- Where a blocking call stands: it has returned, or its task waits in rtos_block_current.
pub data Wait : Type 0 where
  returned : Status → Wait
  waiting : Wait

-- The tick at which a wait of `timeout` ticks ends.
unfoldable pub wake_time_after : Kernel → ℕ → ℕ
wake_time_after k timeout =
    if timeout == wait_forever then uint32_max else (k.tick_count + timeout) % uint32_mod

-- The writes of rtos_block_current to the block of the calling task.
unfoldable pub mark_blocked : Kernel → Ptr → ℕ → BlockReason → Ptr → Kernel
unfolding wake_time_after
mark_blocked k self timeout reason obj = record k {
  block_reason = update k.block_reason self reason;
  block_object = update k.block_object self obj;
  block_wake_status = update k.block_wake_status self ok;
  wake_time = update k.wake_time self (wake_time_after k timeout);
  state = update k.state self blocked;
}

-- rtos_block_current up to its loop
pub rtos_block_current : Kernel → ℕ → BlockReason → Ptr → Option (Wait × Kernel)
rtos_block_current k timeout reason obj =
    let self = k.current_tcb in
    if self == null then some (returned err_state, k) else do
      k ← scheduler_remove_task (mark_blocked k self timeout reason obj) self
      some (waiting, scheduler_mark_reschedule k)

-- The loop, and the value that is returned behind it, for the calling task `self`.
unfoldable pub block_outcome : Kernel → Ptr → Wait
block_outcome k self =
    if is_blocked (k.state self) then waiting else returned (k.block_wake_status self)

-- The task has nothing to wait for any more, and is ready.
unfoldable pub clear_block : Kernel → Ptr → Kernel
clear_block k t = record k {
  block_reason = update k.block_reason t block_none;
  block_object = update k.block_object t null;
  state = update k.state t ready;
}

-- `t->block_reason = BLOCK_NONE; …; t->state = TASK_STATE_READY; (void)scheduler_add_task(t);`
unfoldable pub wake_task : Kernel → Ptr → Option Kernel
wake_task k t = do (st, k) ← scheduler_add_task (clear_block k t) t; some k

-- The same behind `t->block_wake_status = RTOS_ERR_TIMEOUT;`.
unfoldable pub wake_timed_out : Kernel → Ptr → Option Kernel
unfolding wake_task
wake_timed_out k t =
    wake_task (record k { block_wake_status = update k.block_wake_status t err_timeout }) t
