-- ===== src/Mutex/Priority.antt =====
-- The static functions of mutex.c that change a task's priority, and what becomes of its ready ring.
use microkernel_rtos.Common.{ℕ, suc, ◌<◌, ◌≡◌, ◌≢◌, true, false, some, ◌==◌, has, length, arith}
use microkernel_rtos.Links.{Ptr, null, update, update-at}
use microkernel_rtos.Kernel.{Kernel, ready, is_ready, num_priorities, walk_fuel}
use microkernel_rtos.Scheduler.Invariant.{Queues, Rings, Ready, relink}
use microkernel_rtos.Scheduler.Insert.{enqueue}
use microkernel_rtos.Scheduler.Remove.{dequeue}
use microkernel_rtos.Scheduler.Rebucket.{
  scheduler_rebucket_task-same, scheduler_rebucket_task-off_ring, scheduler_rebucket_task-Ready,
}
use microkernel_rtos.Mutex.{prio_bucket_of, set_priority}

-- `k` with the priority `p` for the task `t`.
abbrev pub prioritised : Kernel → Ptr → ℕ → Kernel
prioritised k t p = record k {
  priority = update k.priority t p;
  prio_bucket = update k.prio_bucket t (prio_bucket_of p);
}

-- The priority of a task that is not READY changes in its block only.
pub set_priority-off_ring :
    (k : Kernel) (t : Ptr) (p : ℕ)
    → is_ready (k.state t) ≡ false
    → set_priority k t p ≡ some (prioritised k t p)
unfolding set_priority
set_priority-off_ring k t p off =
    scheduler_rebucket_task-off_ring (prioritised k t p) t (k.prio_bucket t) (prio_bucket_of p) off
      (update-at k.prio_bucket t (prio_bucket_of p))

-- Every priority has a bucket.
pub prio_bucket_of-lt : (p : ℕ) → prio_bucket_of p < num_priorities
unfolding prio_bucket_of
prio_bucket_of-lt p = ground arith

-- A task whose bucket stays keeps its place.
pub set_priority-same_bucket :
    (k : Kernel) (t : Ptr) (p : ℕ)
    → (k.prio_bucket t == prio_bucket_of p) ≡ true
    → set_priority k t p ≡ some (prioritised k t p)
unfolding set_priority
set_priority-same_bucket k t p same =
    scheduler_rebucket_task-same (prioritised k t p) t (k.prio_bucket t) (prio_bucket_of p) same

-- A READY task whose priority changes its bucket goes to the end of the ring of the new one.
pub set_priority-Ready :
    (k : Kernel) (t : Ptr) (p : ℕ) {q : Queues}
    → Ready k q
    → t ≢ null
    → k.state t ≡ ready
    → k.prio_bucket t ≢ prio_bucket_of p
    → k.prio_bucket t < num_priorities
    → has t (q (k.prio_bucket t)) ≡ true
    → suc (length (q (prio_bucket_of p))) < walk_fuel
    → (nx : Ptr → Ptr) × (heads : ℕ → Ptr) × (set_priority k t p
        ≡ some (relink (prioritised k t p) nx heads))
      × Rings nx heads (enqueue (dequeue q (k.prio_bucket t) t) (prio_bucket_of p) t)
unfolding set_priority
set_priority-Ready k t p r ne now moved in_range on room =
    scheduler_rebucket_task-Ready (prioritised k t p) t (k.prio_bucket t) (prio_bucket_of p) r ne
      now (update-at k.prio_bucket t (prio_bucket_of p)) moved in_range (prio_bucket_of-lt p) on
      room
