-- ===== src/Blocking/Kept.antt =====
-- What blocking and waking a task leave alone whenever they return, whatever the ready rings are.
use microkernel_rtos.Common.{ℕ, ◌≡◌, ◌≢◌, refl, true, ==-false, Whenever, Whenever-bind}
use microkernel_rtos.Links.{Ptr, null}
use microkernel_rtos.Kernel.{Kernel, Status, BlockReason}
use microkernel_rtos.Scheduler.{
  scheduler_add_task, scheduler_remove_task, scheduler_mark_reschedule,
}
use microkernel_rtos.Scheduler.Kept.{Kept, scheduler_add_task-Kept, scheduler_remove_task-Kept}
use microkernel_rtos.Blocking.{
  Wait, waiting, mark_blocked, rtos_block_current, clear_block, wake_task,
}

pub rescheduled-Kept : {k c : Kernel} → Kept k c → Kept k (record c { pendsv = true })
rescheduled-Kept h = record {
  mutexes = h.mutexes;
  links = h.links;
  object = h.object;
  current = h.current;
  asleep = h.asleep;
}

pub rtos_block_current-Kept :
    (k : Kernel) (timeout : ℕ) (reason : BlockReason) (obj : Ptr)
    → k.current_tcb ≢ null
    → Whenever
        (λ (r : Wait × Kernel).
          (r.0 ≡ waiting) × Kept (mark_blocked k k.current_tcb timeout reason obj) (r.1))
        (rtos_block_current k timeout reason obj)
unfolding rtos_block_current scheduler_mark_reschedule
rtos_block_current-Kept k timeout reason obj ne =
    let c = mark_blocked k k.current_tcb timeout reason obj in
    rw (==-false ne) (
      Whenever-bind (Kept c) _ (scheduler_remove_task c k.current_tcb) _
        (scheduler_remove_task-Kept c k.current_tcb) (λ c' h. (refl, rescheduled-Kept h)))

pub wake_task-Kept : (k : Kernel) (t : Ptr) → Whenever (Kept (clear_block k t)) (wake_task k t)
unfolding wake_task
wake_task-Kept k t =
    Whenever-bind (λ (r : Status × Kernel). Kept (clear_block k t) (r.1)) _
      (scheduler_add_task (clear_block k t) t) _ (scheduler_add_task-Kept (clear_block k t) t)
      (λ r h. h)
