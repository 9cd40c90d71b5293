-- ===== src/MsgQueue.antt =====
-- src/ipc/msgqueue.c: fixed-size messages in a ring buffer, with tasks waiting to send and to
-- receive. The helpers on the wait lists are in Waiting.antt.
pub mod Memory
pub mod Fifo
pub mod Transfer
pub mod Sides
pub mod Calls
pub mod Blocks
pub mod Initial
pub mod Traffic
use microkernel_rtos.Common.{
  ℕ, ◌+◌, ◌-◌, ◌*◌, ◌%◌, ◌||◌, ◌&&◌, Option, some, ◌==◌, ltb, leb, if◌then◌else◌, ◌>>=◌,
}
use microkernel_rtos.Links.{Ptr, null, update}
use microkernel_rtos.Kernel.{
  Kernel, Status, ok, err_param, err_state, err_timeout, MsgQueue, WaitList, BlockReason,
  block_none, block_delay, block_mutex, block_semaphore, block_msg_send, block_msg_recv, is_timeout,
  uint32_mod, set_wait_next,
}
use microkernel_rtos.Waiting.{tcb_enqueue_tail, tcb_pop_head, tcb_unlink}
use microkernel_rtos.Blocking.{
  Wait, returned, waiting, rtos_block_current, block_outcome, wake_task, wake_timed_out,
}
use microkernel_rtos.Scheduler.{scheduler_mark_reschedule}

-- Which of a queue's two wait lists is meant.
pub data Side : Type 0 where
  senders receivers : Side

abbrev pub waiters_of : MsgQueue → Side → WaitList
waiters_of q senders = q.send_waiters
waiters_of q receivers = q.recv_waiters

abbrev pub with_waiters : MsgQueue → Side → WaitList → MsgQueue
with_waiters q senders w = record q { send_waiters = w }
with_waiters q receivers w = record q { recv_waiters = w }

-- Writes of the queue at `q`, and of one of its wait lists.
abbrev pub set_queue : Kernel → Ptr → MsgQueue → Kernel
set_queue k q v = record k { queues = update k.queues q v }

abbrev pub set_side : Kernel → Ptr → Side → WaitList → Kernel
set_side k q side w = set_queue k q (with_waiters (k.queues q) side w)

-- memcpy: `n` bytes from `src` to `dst`.
unfoldable pub memcpy : (ℕ → ℕ) → Ptr → Ptr → ℕ → ℕ → ℕ
memcpy b dst src n a = if leb dst a && ltb a (dst + n) then b (src + (a - dst)) else b a

-- `if (t != NULL) { … }` of _wake_head
pub wake_popped : Kernel → Ptr → Option Kernel
wake_popped k t =
    if t == null then some k else do k ← wake_task k t; some (scheduler_mark_reschedule k)

-- _wake_head
pub wake_head : Kernel → Ptr → Side → Option Kernel
wake_head k q side =
    let (t, k', w) = tcb_pop_head k (waiters_of (k.queues q) side) in
    wake_popped (set_side k' q side w) t

-- _tcb_unlink on one of the lists of `q`
pub unlink_side : Kernel → Ptr → Side → Ptr → Option Kernel
unlink_side k q side t = do
  (k', w) ← tcb_unlink k (waiters_of (k.queues q) side) t
  some (set_side k' q side w)

-- The branch on `t->block_reason` of msgqueue_wake_timeout and msgqueue_detach_waiter.
pub unlink_by_reason : Kernel → Ptr → Ptr → BlockReason → Option Kernel
unlink_by_reason k q t block_msg_send = unlink_side k q senders t
unlink_by_reason k q t block_msg_recv = unlink_side k q receivers t
unlink_by_reason k q t block_none = some k
unlink_by_reason k q t block_delay = some k
unlink_by_reason k q t block_mutex = some k
unlink_by_reason k q t block_semaphore = some k

-- msgqueue_wake_timeout
pub msgqueue_wake_timeout : Kernel → Ptr → Option Kernel
msgqueue_wake_timeout k t =
    let q = k.block_object t in
    if t == null then some k else do
      k ← if q == null then some k else unlink_by_reason k q t (k.block_reason t)
      wake_timed_out k t

-- msgqueue_detach_waiter
pub msgqueue_detach_waiter : Kernel → Ptr → Ptr → Option Kernel
msgqueue_detach_waiter k q t =
    if (q == null) || (t == null)
    then some k
    else do k ← unlink_by_reason k q t (k.block_reason t); some (set_wait_next k t null)

-- msg_queue_init
pub msg_queue_init : Kernel → Ptr → Ptr → ℕ → ℕ → Status × Kernel
msg_queue_init k q storage msg_size depth =
    if (q == null) || (storage == null) || (msg_size == 0) || (depth == 0)
    then (err_param, k)
    else (ok, set_queue k q fresh)
  where
    none_waiting : WaitList
    none_waiting = record { wait_head = null; wait_tail = null }

    fresh : MsgQueue
    fresh = record {
      buffer = storage;
      msg_size = msg_size;
      depth = depth;
      head = 0;
      tail = 0;
      count = 0;
      send_waiters = none_waiting;
      recv_waiters = none_waiting;
    }

-- `q->buffer + (index * q->msg_size)`, with the product in uint32_t.
unfoldable pub slot_of : MsgQueue → ℕ → Ptr
slot_of v index = v.buffer + (index * v.msg_size) % uint32_mod

-- The statements that put a message into the ring buffer.
unfoldable pub put_message : Kernel → Ptr → Ptr → Kernel
unfolding slot_of
put_message k q msg =
    let v = k.queues q in
    record (set_queue k q moved) { bytes = memcpy k.bytes (slot_of v v.tail) msg v.msg_size }
  where
    moved : MsgQueue
    moved = record (k.queues q) {
      tail = (((k.queues q).tail + 1) % uint32_mod) % (k.queues q).depth;
      count = ((k.queues q).count + 1) % uint32_mod;
    }

-- The statements that take one out. The count is not 0 there.
unfoldable pub take_message : Kernel → Ptr → Ptr → Kernel
unfolding slot_of
take_message k q out =
    let v = k.queues q in
    record (set_queue k q moved) { bytes = memcpy k.bytes out (slot_of v v.head) v.msg_size }
  where
    moved : MsgQueue
    moved = record (k.queues q) {
      head = (((k.queues q).head + 1) % uint32_mod) % (k.queues q).depth;
      count = (k.queues q).count - 1;
    }

-- _tcb_enqueue_tail on one of the lists of `q`
pub enqueue_side : Kernel → Ptr → Side → Ptr → Kernel
enqueue_side k q side t =
    let (k', w) = tcb_enqueue_tail k (waiters_of (k.queues q) side) t in set_side k' q side w

-- One round of the loop of msg_queue_send, up to the point where the task waits.
pub send_round : Kernel → Ptr → Ptr → Ptr → ℕ → Option (Wait × Kernel)
send_round k q self msg timeout =
    if ltb (k.queues q).count (k.queues q).depth
    then (do k ← wake_head (put_message k q msg) q receivers; some (returned ok, k))
    else rtos_block_current (enqueue_side k q senders self) timeout block_msg_send q

-- One round of the loop of msg_queue_recv, up to the point where the task waits.
pub recv_round : Kernel → Ptr → Ptr → Ptr → ℕ → Option (Wait × Kernel)
recv_round k q self out timeout =
    if ltb 0 (k.queues q).count
    then (do k ← wake_head (take_message k q out) q senders; some (returned ok, k))
    else rtos_block_current (enqueue_side k q receivers self) timeout block_msg_recv q

-- msg_queue_send, called by the current task
pub msg_queue_send : Kernel → Ptr → Ptr → ℕ → Option (Wait × Kernel)
msg_queue_send k q msg timeout =
    let self = k.current_tcb in
    if (q == null) || (msg == null)
    then some (returned err_param, k)
    else if self == null
    then some (returned err_state, k)
    else send_round k q self msg timeout

-- msg_queue_recv, called by the current task
pub msg_queue_recv : Kernel → Ptr → Ptr → ℕ → Option (Wait × Kernel)
msg_queue_recv k q out timeout =
    let self = k.current_tcb in
    if (q == null) || (out == null)
    then some (returned err_param, k)
    else if self == null
    then some (returned err_state, k)
    else recv_round k q self out timeout

-- The loops go on with what rtos_block_current returned.
pub send_again : Kernel → Ptr → Ptr → Ptr → ℕ → Wait → Option (Wait × Kernel)
send_again k q self msg timeout waiting = some (waiting, k)
send_again k q self msg timeout (returned st) =
    if is_timeout st then some (returned err_timeout, k) else send_round k q self msg timeout

pub recv_again : Kernel → Ptr → Ptr → Ptr → ℕ → Wait → Option (Wait × Kernel)
recv_again k q self out timeout waiting = some (waiting, k)
recv_again k q self out timeout (returned st) =
    if is_timeout st then some (returned err_timeout, k) else recv_round k q self out timeout

-- msg_queue_send and msg_queue_recv when their task `self` runs again
pub send_resume : Kernel → Ptr → Ptr → Ptr → ℕ → Option (Wait × Kernel)
unfolding send_again
send_resume k q self msg timeout = send_again k q self msg timeout (block_outcome k self)

pub recv_resume : Kernel → Ptr → Ptr → Ptr → ℕ → Option (Wait × Kernel)
unfolding recv_again
recv_resume k q self out timeout = recv_again k q self out timeout (block_outcome k self)
