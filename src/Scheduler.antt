-- ===== src/Scheduler.antt =====
-- src/core/scheduler.c: eight circular ready rings, linked by `next_ready`.
-- `none` is a call that does not return: a walk that goes round for ever, or the loop at the end of
-- scheduler_get_next.
pub mod Rings
pub mod Invariant
pub mod Insert
pub mod Remove
pub mod Dispatch
pub mod Progress
pub mod Rebucket
pub mod Slice
pub mod Kept
use microkernel_rtos.Common.{
  ℕ, zero, suc, ◌+◌, ◌%◌, Bool, true, not, ◌&&◌, ◌||◌, Option, none, some, ◌==◌, ltb, if◌then◌else◌,
  ◌>>=◌,
}
use microkernel_rtos.Links.{Ptr, null}
use microkernel_rtos.Kernel.{
  Kernel, Status, ok, err_param, err_state, ready, running, is_ready, is_running, is_blocked,
  is_suspended, is_terminated, num_priorities, time_slice_ticks, uint32_mod, walk_fuel, set_state,
  set_next_ready, set_ready_head, set_bucket, set_slice,
}

-- scheduler_init
unfoldable pub scheduler_init : Kernel → Kernel
scheduler_init k = record k { ready_head = λ b. null; current_tcb = null; idle_tcb = null }

-- `while (tail->next_ready != head) tail = tail->next_ready;`
unfoldable pub ring_tail : ℕ → (Ptr → Ptr) → Ptr → Ptr → Option Ptr
ring_tail zero nx head tail = none
ring_tail (suc fuel) nx head tail =
    let rest = ring_tail fuel nx head (nx tail) in if nx tail == head then some tail else rest

-- _ring_insert
unfoldable pub ring_insert : Kernel → ℕ → Ptr → Option Kernel
ring_insert k bucket tcb =
    let head = k.ready_head bucket in
    if head == null then some (set_ready_head (set_next_ready k tcb tcb) bucket tcb) else do
      tail ← ring_tail walk_fuel k.next_ready head head
      some (set_next_ready (set_next_ready k tail tcb) tcb head)

-- `if (state != BLOCKED && state != SUSPENDED) state = READY;`
unfoldable pub mark_ready : Kernel → Ptr → Kernel
mark_ready k tcb =
    if not (is_blocked (k.state tcb)) && not (is_suspended (k.state tcb))
    then set_state k tcb ready
    else k

-- scheduler_add_task
unfoldable pub scheduler_add_task : Kernel → Ptr → Option (Status × Kernel)
scheduler_add_task k tcb =
    if tcb == null
    then some (err_param, k)
    else if is_terminated (k.state tcb)
    then some (err_state, k)
    else do k ← ring_insert k (k.prio_bucket tcb) tcb; some (ok, mark_ready k tcb)

-- The first loop of scheduler_remove_task, from `walk` with `prev` behind it: the predecessor with
-- which it stops at `tcb` (NULL at the head), or `none` inside where it comes round to the head.
pub ring_find : ℕ → (Ptr → Ptr) → Ptr → Ptr → Ptr → Ptr → Option (Option Ptr)
ring_find zero nx head tcb prev walk = none
ring_find (suc fuel) nx head tcb prev walk =
    let rest = ring_find fuel nx head tcb walk (nx walk) in
    if walk == tcb then some (some prev) else if nx walk == head then some none else rest

-- What follows that loop, for the predecessor `prev`.
pub ring_unlink : Kernel → ℕ → Ptr → Ptr → Ptr → Option Kernel
ring_unlink k bucket head tcb prev =
    let next_link = k.next_ready tcb in
    if next_link == tcb
    then some (set_next_ready (set_ready_head k bucket null) tcb null)
    else if prev == null
    then (do
      tail ← ring_tail walk_fuel k.next_ready head head
      some (
          set_next_ready (set_ready_head (set_next_ready k tail next_link) bucket next_link) tcb
            null))
    else some (set_next_ready (set_next_ready k prev next_link) tcb null)

-- The rest of scheduler_remove_task after the search.
pub unlink_found : Kernel → ℕ → Ptr → Ptr → Option Ptr → Option Kernel
unlink_found k bucket head tcb none = some k
unlink_found k bucket head tcb (some prev) = ring_unlink k bucket head tcb prev

-- scheduler_remove_task
pub scheduler_remove_task : Kernel → Ptr → Option Kernel
scheduler_remove_task k tcb =
    let bucket = k.prio_bucket tcb in
    let head = k.ready_head bucket in
    if tcb == null then some k else if head == null then some k else do
      found ← ring_find walk_fuel k.next_ready head tcb null head
      unlink_found k bucket head tcb found

-- scheduler_rebucket_task
pub scheduler_rebucket_task : Kernel → Ptr → ℕ → ℕ → Option Kernel
scheduler_rebucket_task k tcb old_bucket new_bucket =
    if (tcb == null) || (old_bucket == new_bucket)
    then some k
    else if is_ready (k.state tcb)
    then (do
      k ← scheduler_remove_task (set_bucket k tcb old_bucket) tcb
      (st, k) ← scheduler_add_task (set_bucket k tcb new_bucket) tcb
      some k)
    else some (set_bucket k tcb new_bucket)

-- The body of the loop of scheduler_get_next at a bucket with head `sel`.
pub dispatch_head : Kernel → ℕ → Ptr → Kernel
dispatch_head k p sel =
    record (set_slice (set_state (set_ready_head k p (k.next_ready sel)) sel running) sel 0) {
      current_tcb = sel;
    }

-- The code after that loop, where every ring is empty.
pub dispatch_idle : Kernel → Option (Ptr × Kernel)
dispatch_idle k =
    let idle = k.idle_tcb in
    if idle == null
    then none
    else some (idle, record (set_slice (set_state k idle running) idle 0) { current_tcb = idle })

-- `for (p = …; p < RTOS_NUM_PRIORITIES; p++)` with `n` rounds left, and what follows it.
pub scan_buckets : ℕ → ℕ → Kernel → Option (Ptr × Kernel)
scan_buckets zero p k = dispatch_idle k
scan_buckets (suc n) p k =
    let rest = scan_buckets n (p + 1) k in
    if k.ready_head p == null
    then rest
    else some (k.ready_head p, dispatch_head k p (k.ready_head p))

-- The first statement: the running task goes back to READY.
pub requeue_current : Kernel → Kernel
requeue_current k =
    let prev = k.current_tcb in
    if not (prev == null) && is_running (k.state prev) then set_state k prev ready else k

-- scheduler_get_next
pub scheduler_get_next : Kernel → Option (Ptr × Kernel)
scheduler_get_next k = scan_buckets num_priorities 0 (requeue_current k)

-- scheduler_mark_reschedule
unfoldable pub scheduler_mark_reschedule : Kernel → Kernel
scheduler_mark_reschedule k = record k { pendsv = true }

-- `head == NULL || head->next_ready == head`
unfoldable pub no_peer : Kernel → ℕ → Bool
no_peer k bucket = let head = k.ready_head bucket in (head == null) || (k.next_ready head == head)

-- scheduler_time_slice_tick after the counter of `cur` has gone up.
unfoldable pub slice_expired : Kernel → Ptr → Kernel
slice_expired k cur =
    if ltb (k.time_slice_counter cur) time_slice_ticks
    then k
    else if no_peer k (k.prio_bucket cur)
    then set_slice k cur 0
    else scheduler_mark_reschedule (set_slice k cur 0)

-- scheduler_time_slice_tick
unfoldable pub scheduler_time_slice_tick : Kernel → Kernel
scheduler_time_slice_tick k =
    let cur = k.current_tcb in
    if (cur == null) || (cur == k.idle_tcb) || not (is_running (k.state cur))
    then k
    else slice_expired (set_slice k cur ((k.time_slice_counter cur + 1) % uint32_mod)) cur
