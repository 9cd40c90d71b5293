-- ===== src/Mutex.antt =====
-- src/sync/mutex.c: mutexes with priority inheritance; the waiting task of the highest priority is
-- handed the mutex when it is released. A priority is a uint8_t, and 0 is the highest.
pub mod Highest
pub mod Priority
pub mod Pop
pub mod Unlock
pub mod Inherit
pub mod Lock
pub mod Guarded
pub mod Exclusion
pub mod Release
pub mod Runs
use microkernel_rtos.Common.{
  ℕ, zero, suc, ◌-◌, ◌/◌, true, false, ◌&&◌, ◌||◌, not, Option, none, some, ◌==◌, ltb, leb,
  if◌then◌else◌, ◌>>=◌,
}
use microkernel_rtos.Links.{Ptr, null, update}
use microkernel_rtos.Kernel.{
  Kernel, Status, ok, err_param, err_state, err_owner, err_timeout, Mutex, WaitList, block_mutex,
  is_timeout, num_priorities, priority_max, walk_fuel, set_wait_next,
}
use microkernel_rtos.Waiting.{tcb_enqueue_tail, tcb_unlink, settle_tail}
use microkernel_rtos.Blocking.{
  Wait, returned, waiting, rtos_block_current, block_outcome, wake_task, wake_timed_out,
}
use microkernel_rtos.Scheduler.{scheduler_rebucket_task, scheduler_mark_reschedule}

-- Writes of the mutex at `m`.
abbrev pub set_mutex : Kernel → Ptr → Mutex → Kernel
set_mutex k m v = record k { mutexes = update k.mutexes m v }

abbrev pub set_waiters : Kernel → Ptr → WaitList → Kernel
set_waiters k m w = set_mutex k m (record (k.mutexes m) { waiters = w })

abbrev pub set_blocked_on : Kernel → Ptr → Ptr → Kernel
set_blocked_on k t m = record k { blocked_on_mutex = update k.blocked_on_mutex t m }

-- `(uint8_t)(priority >> 5)`, held below RTOS_NUM_PRIORITIES. task.c has the same as _prio_bucket.
unfoldable pub prio_bucket_of : ℕ → ℕ
prio_bucket_of priority =
    if leb num_priorities (priority / 32) then num_priorities - 1 else priority / 32

-- The loop of _min_wait_priority_value.
pub min_walk : ℕ → (Ptr → Ptr) → (Ptr → ℕ) → Ptr → ℕ → Option ℕ
min_walk zero nx prio w min_pri = none
min_walk (suc fuel) nx prio w min_pri =
    let rest = min_walk fuel nx prio (nx w) (if ltb (prio w) min_pri then prio w else min_pri) in
    if w == null then some min_pri else rest

-- _min_wait_priority_value
pub min_wait_priority_value : Kernel → Ptr → Option ℕ
min_wait_priority_value k m =
    let w = (k.mutexes m).waiters.wait_head in
    if w == null
    then some priority_max
    else min_walk walk_fuel k.mutex_wait_next k.priority (k.mutex_wait_next w) (k.priority w)

-- `tcb->priority = p; tcb->prio_bucket = …; scheduler_rebucket_task(tcb, old_bucket, new_bucket);`
pub set_priority : Kernel → Ptr → ℕ → Option Kernel
unfolding prio_bucket_of
set_priority k t p =
    scheduler_rebucket_task
      (record k {
        priority = update k.priority t p;
        prio_bucket = update k.prio_bucket t (prio_bucket_of p);
      })
      t (k.prio_bucket t) (prio_bucket_of p)

-- `if (hp < owner->priority) { … }`
pub boost : Kernel → Ptr → ℕ → Option Kernel
boost k owner hp = if ltb hp (k.priority owner) then set_priority k owner hp else some k

-- _apply_pi
pub apply_pi : Kernel → Ptr → Option Kernel
unfolding min_wait_priority_value boost
apply_pi k m =
    let owner = (k.mutexes m).owner in
    if (owner == null) || ((k.mutexes m).waiters.wait_head == null)
    then some k
    else do hp ← min_wait_priority_value k m; boost k owner hp

-- _restore_owner_priority
pub restore_owner_priority : Kernel → Ptr → Option Kernel
restore_owner_priority k t = if t == null then some k else set_priority k t (k.base_priority t)

-- _wait_unlink
pub wait_unlink : Kernel → Ptr → Ptr → Option Kernel
wait_unlink k m t =
    if m == null
    then some k
    else do (k', w) ← tcb_unlink k (k.mutexes m).waiters t; some (set_waiters k' m w)

-- _wait_enqueue_tail
pub wait_enqueue_tail : Kernel → Ptr → Ptr → Kernel
wait_enqueue_tail k m t =
    let (k', w) = tcb_enqueue_tail k (k.mutexes m).waiters t in set_waiters k' m w

-- The loop of _wait_pop_highest: the block that it settles on, and the one before it.
pub best_walk : ℕ → (Ptr → Ptr) → (Ptr → ℕ) → Ptr → Ptr → Ptr → Ptr → Option (Ptr × Ptr)
best_walk zero nx prio best best_prev prev walk = none
best_walk (suc fuel) nx prio best best_prev prev walk =
    let higher = ltb (prio walk) (prio best) in
    let rest =
      best_walk fuel nx prio (if higher then walk else best) (if higher then prev else best_prev)
        walk (nx walk) in
    if walk == null then some (best, best_prev) else rest

-- What follows that loop.
pub unlink_best : Kernel → WaitList → Ptr → Ptr → Kernel × WaitList
unlink_best k w best best_prev =
    let next = k.mutex_wait_next best in
    if best_prev == null
    then (set_wait_next k best null, settle_tail (record w { wait_head = next }))
    else (
      set_wait_next (set_wait_next k best_prev next) best null,
      if best == w.wait_tail then record w { wait_tail = best_prev } else w,
    )

-- _wait_pop_highest; NULL if nobody waits.
pub wait_pop_highest : Kernel → Ptr → Option (Ptr × Kernel)
wait_pop_highest k m =
    let w = (k.mutexes m).waiters in
    if w.wait_head == null then some (null, k) else do
      (best, best_prev) ←
          best_walk walk_fuel k.mutex_wait_next k.priority w.wait_head null null w.wait_head
      let (k', w') = unlink_best k w best best_prev
      some (best, set_waiters k' m w')

-- mutex_wake_timeout
pub mutex_wake_timeout : Kernel → Ptr → Option Kernel
mutex_wake_timeout k t =
    if t == null
    then some k
    else do k ← wait_unlink k (k.block_object t) t; wake_timed_out (set_blocked_on k t null) t

-- mutex_detach_waiter
pub mutex_detach_waiter : Kernel → Ptr → Ptr → Option Kernel
mutex_detach_waiter k m t =
    if (m == null) || (t == null)
    then some k
    else do k ← wait_unlink k m t; some (set_wait_next (set_blocked_on k t null) t null)

-- mutex_init
unfoldable pub mutex_init : Kernel → Ptr → Status × Kernel
mutex_init k m = if m == null then (err_param, k) else (ok, set_mutex k m fresh)
  where
    fresh : Mutex
    fresh = record {
      locked = false;
      owner = null;
      waiters = record { wait_head = null; wait_tail = null };
    }

-- The part of mutex_lock's loop for a mutex that another task owns, up to where the task waits.
pub lock_contended : Kernel → Ptr → Ptr → ℕ → Option (Wait × Kernel)
lock_contended k m self timeout = do
  k ← apply_pi (wait_enqueue_tail (set_blocked_on k self m) m self) m
  rtos_block_current k timeout block_mutex m

-- One round of the loop of mutex_lock.
unfoldable pub lock_round : Kernel → Ptr → Ptr → ℕ → Option (Wait × Kernel)
lock_round k m self timeout =
    let v = k.mutexes m in
    if v.locked && (v.owner == self)
    then some (returned ok, k)
    else if not v.locked
    then some (
      returned ok,
      set_blocked_on (set_mutex k m (record v { locked = true; owner = self })) self null,
    )
    else lock_contended k m self timeout

-- mutex_lock, called by the current task
unfoldable pub mutex_lock : Kernel → Ptr → ℕ → Option (Wait × Kernel)
mutex_lock k m timeout =
    let self = k.current_tcb in
    if m == null
    then some (returned err_param, k)
    else if self == null
    then some (returned err_state, k)
    else lock_round k m self timeout

-- The loop goes on with what rtos_block_current returned.
pub lock_again : Kernel → Ptr → Ptr → ℕ → Wait → Option (Wait × Kernel)
lock_again k m self timeout waiting = some (waiting, k)
lock_again k m self timeout (returned st) =
    if is_timeout st then some (returned err_timeout, k) else lock_round k m self timeout

-- mutex_lock when its task `self` runs again
pub lock_resume : Kernel → Ptr → Ptr → ℕ → Option (Wait × Kernel)
unfolding lock_again
lock_resume k m self timeout = lock_again k m self timeout (block_outcome k self)

-- The branches on `next` of mutex_unlock.
pub hand_over : Kernel → Ptr → Ptr → Option Kernel
hand_over k m next =
    let v = k.mutexes m in
    if next == null
    then some (set_mutex k m (record v { locked = false; owner = null }))
    else wake_task
        (set_blocked_on (set_mutex k m (record v { locked = true; owner = next })) next null) next

-- mutex_unlock
pub mutex_unlock : Kernel → Ptr → Option (Status × Kernel)
mutex_unlock k m =
    let self = k.current_tcb in
    let v = k.mutexes m in
    if m == null
    then some (err_param, k)
    else if (self == null) || not v.locked || not (v.owner == self)
    then some (err_owner, k)
    else do
      k ← restore_owner_priority k self
      (next, k) ← wait_pop_highest k m
      k ← hand_over k m next
      some (ok, scheduler_mark_reschedule k)
