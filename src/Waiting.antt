-- ===== src/Waiting.antt =====
-- The lists of waiting tasks, linked by `mutex_wait_next`: the static functions _tcb_enqueue_tail,
-- _tcb_unlink and _tcb_pop_head of src/ipc/msgqueue.c. src/sync/semaphore.c and src/sync/mutex.c
-- repeat them, statement for statement, on the two pointers of their own objects.
pub mod Chains
pub mod Unlink
use microkernel_rtos.Common.{ℕ, zero, suc, ◌||◌, Option, none, some, ◌==◌, if◌then◌else◌, ◌>>=◌}
use microkernel_rtos.Links.{Ptr, null}
use microkernel_rtos.Kernel.{Kernel, WaitList, walk_fuel, set_wait_next}

-- _tcb_enqueue_tail
pub tcb_enqueue_tail : Kernel → WaitList → Ptr → Kernel × WaitList
tcb_enqueue_tail k w t =
    if w.wait_head == null
    then (set_wait_next k t null, record { wait_head = t; wait_tail = t })
    else (set_wait_next (set_wait_next k t null) w.wait_tail t, record w { wait_tail = t })

-- `if (*head == NULL) *tail = NULL;`
unfoldable pub settle_tail : WaitList → WaitList
settle_tail w = if w.wait_head == null then record w { wait_tail = null } else w

-- _tcb_pop_head; the pointer that it returns comes first.
unfoldable pub tcb_pop_head : Kernel → WaitList → Ptr × Kernel × WaitList
tcb_pop_head k w = if w.wait_head == null then (null, k, w) else (
  w.wait_head,
  set_wait_next k w.wait_head null,
  settle_tail (record w { wait_head = k.mutex_wait_next w.wait_head }),
)

-- The walk of _tcb_unlink from `walk` with `prev` behind it: the predecessor with which it stops at
-- `t` (NULL at the head), or `none` inside where it reaches the end.
pub list_find : ℕ → (Ptr → Ptr) → Ptr → Ptr → Ptr → Option (Option Ptr)
list_find zero nx t prev walk = none
list_find (suc fuel) nx t prev walk =
    let rest = list_find fuel nx t walk (nx walk) in
    if walk == null then some none else if walk == t then some (some prev) else rest

-- The body of that walk's `if (walk == t)`: the head or the predecessor skips `t`, …
unfoldable pub skip_over : Kernel → WaitList → Ptr → Ptr → Kernel × WaitList
skip_over k w t prev =
    if prev == null
    then (k, record w { wait_head = k.mutex_wait_next t })
    else (set_wait_next k prev (k.mutex_wait_next t), w)

-- … and the tail pointer and the link of `t` are put right.
unfoldable pub unlink_at : Kernel → WaitList → Ptr → Ptr → Kernel × WaitList
unlink_at k w t prev =
    let (k', w') = skip_over k w t prev in
    (
      set_wait_next k' t null,
      settle_tail (if t == w'.wait_tail then record w' { wait_tail = prev } else w'),
    )

pub unlink_waiter : Kernel → WaitList → Ptr → Option Ptr → Kernel × WaitList
unlink_waiter k w t none = (k, w)
unlink_waiter k w t (some prev) = unlink_at k w t prev

-- _tcb_unlink
pub tcb_unlink : Kernel → WaitList → Ptr → Option (Kernel × WaitList)
tcb_unlink k w t = if (w.wait_head == null) || (t == null) then some (k, w) else do
  found ← list_find walk_fuel k.mutex_wait_next t null w.wait_head
  some (unlink_waiter k w t found)
