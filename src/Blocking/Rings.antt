-- ===== src/Blocking/Rings.antt =====
-- What blocking and waking a task do to the ready rings.
use microkernel_rtos.Common.{
  ℕ, suc, ◌<◌, ◌≡◌, ◌≢◌, refl, true, false, some, has, length, arith, ==-false,
}
use microkernel_rtos.Links.{Ptr, null, update}
use microkernel_rtos.Kernel.{Kernel, ready, TaskState, BlockReason, num_priorities, walk_fuel}
use microkernel_rtos.Scheduler.{scheduler_mark_reschedule}
use microkernel_rtos.Scheduler.Invariant.{Queues, Rings, Ready, relink}
use microkernel_rtos.Scheduler.Insert.{enqueue, mark_ready_again, scheduler_add_task-Ready}
use microkernel_rtos.Scheduler.Remove.{dequeue, scheduler_remove_task-Ready}
use microkernel_rtos.Blocking.{waiting, mark_blocked, rtos_block_current, clear_block, wake_task}

-- With the priorities `bucket`, `t` may be linked into the ring of its bucket: it is on no ring, and there is room for it.
pub record MayRun (bucket : Ptr → ℕ) (q : Queues) (t : Ptr) : Type 0 where
  pub ne_null : t ≢ null
  pub in_range : bucket t < num_priorities
  pub absent : (a : ℕ) → has t (q a) ≡ false
  pub room : suc (length (q (bucket t))) < walk_fuel

-- The task `t` is in the state `s` now, and the other tasks are as they were.
pub record Moved (k k' : Kernel) (t : Ptr) (s : TaskState) : Type 0 where
  pub state : k'.state ≡ update k.state t s
  pub bucket : k'.prio_bucket ≡ k.prio_bucket
  pub current : k'.current_tcb ≡ k.current_tcb
  pub idle : k'.idle_tcb ≡ k.idle_tcb

-- `k` with the rings linked anew and `t` no longer blocked.
abbrev pub woken : Kernel → Ptr → (Ptr → Ptr) → (ℕ → Ptr) → Kernel
woken k t nx heads = relink (clear_block k t) nx heads

-- Waking a task puts it at the end of its ring.
pub wake_task-Ready :
    (k : Kernel) (t : Ptr) {q : Queues}
    → Ready k q
    → MayRun k.prio_bucket q t
    → (nx : Ptr → Ptr) × (heads : ℕ → Ptr) × (wake_task k t ≡ some (woken k t nx heads))
      × Rings nx heads (enqueue q (k.prio_bucket t) t)
unfolding wake_task clear_block
wake_task-Ready k t {q} r m =
    let c = clear_block k t in
    let now : c.state t ≡ ready = ground arith in
    let (nx, heads, e, r') =
      scheduler_add_task-Ready c t r m.ne_null (rw now refl) m.in_range m.absent m.room in
    (nx, heads, rw e (rw (mark_ready_again (relink c nx heads) t now) refl), r')

-- Blocking the current task takes it off its ring and asks for a context switch.
pub rtos_block_current-Ready :
    (k : Kernel) (timeout : ℕ) (reason : BlockReason) (obj : Ptr) {q : Queues}
    → let self = k.current_tcb in
      Ready k q
      → self ≢ null
      → k.prio_bucket self < num_priorities
      → (nx : Ptr → Ptr) × (heads : ℕ → Ptr) × (rtos_block_current k timeout reason obj
          ≡ some (
            waiting,
            record (relink (mark_blocked k self timeout reason obj) nx heads) { pendsv = true },
          ))
        × Rings nx heads (dequeue q (k.prio_bucket self) self)
unfolding rtos_block_current mark_blocked scheduler_mark_reschedule
rtos_block_current-Ready k timeout reason obj r ne in_range =
    let c = mark_blocked k k.current_tcb timeout reason obj in
    let (nx, heads, e, r') = scheduler_remove_task-Ready c k.current_tcb r ne in_range in
    (nx, heads, rw (==-false ne) (rw e refl), r')
