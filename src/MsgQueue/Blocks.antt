-- ===== src/MsgQueue/Blocks.antt =====
-- msg_queue_send and msg_queue_recv where the calling task has to wait.
use microkernel_rtos.Common.{
  ℕ, suc, ◌≤◌, ◌<◌, ◌≡◌, ◌≢◌, refl, List, [], ◌∷◌, ◌++◌, true, false, some, ltb, has, length, arith,
  ==-false,
}
use microkernel_rtos.Links.{Ptr, null}
use microkernel_rtos.Kernel.{
  Kernel, blocked, WaitList, block_msg_send, block_msg_recv, num_priorities, walk_fuel,
}
use microkernel_rtos.Scheduler.Invariant.{Queues, Ready, relink}
use microkernel_rtos.Scheduler.Remove.{dequeue}
use microkernel_rtos.Waiting.{tcb_enqueue_tail}
use microkernel_rtos.Waiting.Chains.{rewait, enqueue-list}
use microkernel_rtos.Blocking.{waiting, mark_blocked}
use microkernel_rtos.Blocking.Rings.{rtos_block_current-Ready}
use microkernel_rtos.MsgQueue.{
  senders, receivers, set_side, enqueue_side, send_round, recv_round, msg_queue_send,
  msg_queue_recv,
}
use microkernel_rtos.MsgQueue.Sides.{SideWaits, SideWaits-at, set_side-Holds}
use microkernel_rtos.MsgQueue.Transfer.{Holds}
use microkernel_rtos.MsgQueue.Calls.{empty_count}

-- msg_queue_send into a full queue: the calling task goes to the end of the list of those that wait
-- to send, off its ready ring and into the state BLOCKED; the messages stay.
pub msg_queue_send-blocks :
    (k : Kernel) (q msg : Ptr) (timeout : ℕ) {rq : Queues} {xs : List Ptr} {ms : List (List ℕ)}
    → let self = k.current_tcb in
      Ready k rq
      → Holds k q ms
      → SideWaits k q senders xs
      → q ≢ null
      → msg ≢ null
      → self ≢ null
      → k.prio_bucket self < num_priorities
      → (k.queues q).depth ≤ (k.queues q).count
      → has self xs ≡ false
      → suc (length xs) < walk_fuel
      → (k' : Kernel) × (msg_queue_send k q msg timeout ≡ some (waiting, k'))
        × Holds k' q ms
        × SideWaits k' q senders (xs ++ self ∷ [])
        × Ready k' (dequeue rq (k.prio_bucket self) self)
        × (k'.state self ≡ blocked)
        × (k'.block_reason self ≡ block_msg_send)
        × (k'.block_object self ≡ q)
unfolding msg_queue_send send_round enqueue_side mark_blocked
msg_queue_send-blocks k q msg timeout {xs} r h i q_ne msg_ne self_ne in_range full off room =
    let self = k.current_tcb in
    let w = (k.queues q).send_waiters in
    let (nx, e, listed, same) = enqueue-list k w self self_ne xs i off room in
    let w2 : WaitList = (tcb_enqueue_tail k w self).1 in
    let c = set_side (rewait k nx) q senders w2 in
    let (rx, heads, e', r') =
      rtos_block_current-Ready c timeout block_msg_send q r self_ne in_range in
    let k' = record (relink (mark_blocked c self timeout block_msg_send q) rx heads) {
      pendsv = true;
    } in
    let none_free : ltb (k.queues q).count (k.queues q).depth ≡ false = ground arith in
    (
      k',
      rw (==-false q_ne, ==-false msg_ne, ==-false self_ne, none_free) (rw (e, e') refl),
      set_side-Holds k k' q senders w2 h refl refl,
      SideWaits-at k' k.queues q senders w2 (xs ++ self ∷ []) refl listed,
      r',
      ground arith,
      ground arith,
      ground arith,
    )

-- msg_queue_recv from an empty queue: the calling task goes to the end of the list of those that
-- wait to receive, off its ready ring and into the state BLOCKED.
pub msg_queue_recv-blocks :
    (k : Kernel) (q out : Ptr) (timeout : ℕ) {rq : Queues} {xs : List Ptr}
    → let self = k.current_tcb in
      Ready k rq
      → Holds k q []
      → SideWaits k q receivers xs
      → q ≢ null
      → out ≢ null
      → self ≢ null
      → k.prio_bucket self < num_priorities
      → has self xs ≡ false
      → suc (length xs) < walk_fuel
      → (k' : Kernel) × (msg_queue_recv k q out timeout ≡ some (waiting, k'))
        × Holds k' q []
        × SideWaits k' q receivers (xs ++ self ∷ [])
        × Ready k' (dequeue rq (k.prio_bucket self) self)
        × (k'.state self ≡ blocked)
        × (k'.block_reason self ≡ block_msg_recv)
        × (k'.block_object self ≡ q)
unfolding msg_queue_recv recv_round enqueue_side mark_blocked
msg_queue_recv-blocks k q out timeout {xs} r h i q_ne out_ne self_ne in_range off room =
    let self = k.current_tcb in
    let w = (k.queues q).recv_waiters in
    let (nx, e, listed, same) = enqueue-list k w self self_ne xs i off room in
    let w2 : WaitList = (tcb_enqueue_tail k w self).1 in
    let c = set_side (rewait k nx) q receivers w2 in
    let (rx, heads, e', r') =
      rtos_block_current-Ready c timeout block_msg_recv q r self_ne in_range in
    let k' = record (relink (mark_blocked c self timeout block_msg_recv q) rx heads) {
      pendsv = true;
    } in
    let none_held : ltb 0 (k.queues q).count ≡ false = empty_count k q h in
    (
      k',
      rw (==-false q_ne, ==-false out_ne, ==-false self_ne, none_held) (rw (e, e') refl),
      set_side-Holds k k' q receivers w2 h refl refl,
      SideWaits-at k' k.queues q receivers w2 (xs ++ self ∷ []) refl listed,
      r',
      ground arith,
      ground arith,
      ground arith,
    )
