-- ===== src/MsgQueue/Calls.antt =====
-- msg_queue_send and msg_queue_recv on a queue that holds the messages `ms`: the transfer, and the
-- task on the other side that is woken.
use microkernel_rtos.Common.{
  ℕ, ◌*◌, ◌<◌, ◌≡◌, ◌≢◌, refl, List, [], ◌∷◌, ◌++◌, true, false, some, ltb, length, arith, ap, ◌∙◌,
  sym, ==-false,
}
use microkernel_rtos.Links.{Ptr, null}
use microkernel_rtos.Kernel.{Kernel, ok, ready}
use microkernel_rtos.Scheduler.Invariant.{Queues, Ready}
use microkernel_rtos.Scheduler.Insert.{enqueue}
use microkernel_rtos.Blocking.{returned}
use microkernel_rtos.Blocking.Rings.{MayRun}
use microkernel_rtos.MsgQueue.{
  senders, receivers, put_message, take_message, send_round, recv_round, msg_queue_send,
  msg_queue_recv,
}
use microkernel_rtos.MsgQueue.Sides.{
  SideWaits, wake_head-none, wake_head-first, put_message-SideWaits, take_message-SideWaits,
}
use microkernel_rtos.MsgQueue.Memory.{read, Apart}
use microkernel_rtos.MsgQueue.Fifo.{length-messages}
use microkernel_rtos.MsgQueue.Transfer.{Holds, put_message-Holds, take_message-Holds}

-- The count of a queue is the number of its messages.
pub count-length :
    (k : Kernel) (q : Ptr) {ms : List (List ℕ)} → Holds k q ms → length ms ≡ (k.queues q).count
count-length k q h =
    sym (ap length h.holds)
    ∙ length-messages k.bytes (k.queues q) (k.queues q).head (k.queues q).count

nonempty :
    (k : Kernel) (q : Ptr) {m : List ℕ} {ms : List (List ℕ)}
    → Holds k q (m ∷ ms)
    → ltb 0 (k.queues q).count ≡ true
nonempty k q h = ground (arith, count-length k q h)

-- A queue with messages has an oldest one.
pub oldest :
    (k : Kernel) (q : Ptr) (ms : List (List ℕ))
    → Holds k q ms
    → 0 < (k.queues q).count
    → (m : List ℕ) × (rest : List (List ℕ)) × (ms ≡ m ∷ rest)
oldest k q [] h some_held = absurd (ground (arith, count-length k q h))
oldest k q (m ∷ rest) h some_held = (m, rest, refl)

pub empty_count : (k : Kernel) (q : Ptr) → Holds k q [] → ltb 0 (k.queues q).count ≡ false
empty_count k q h = ground (arith, count-length k q h)

pub msg_queue_send-puts :
    (k : Kernel) (q msg : Ptr) (timeout : ℕ)
    → SideWaits k q receivers []
    → q ≢ null
    → msg ≢ null
    → k.current_tcb ≢ null
    → (k.queues q).count < (k.queues q).depth
    → msg_queue_send k q msg timeout ≡ some (returned ok, put_message k q msg)
unfolding msg_queue_send send_round
msg_queue_send-puts k q msg timeout i q_ne msg_ne self_ne room =
    let free : ltb (k.queues q).count (k.queues q).depth ≡ true = ground arith in
    let woke =
      wake_head-none (put_message k q msg) q receivers
        (put_message-SideWaits k q msg receivers [] i) in
    rw (==-false q_ne, ==-false msg_ne, ==-false self_ne, free) (rw woke refl)

-- msg_queue_send into a queue with a free slot, with tasks waiting to receive, returns RTOS_OK with the
-- message behind those that the queue held, and makes the task that has waited longest READY, at the end
-- of its ready ring; a reschedule is requested.
pub msg_queue_send-wakes :
    (k : Kernel) (q msg : Ptr) (timeout : ℕ) {rq : Queues} {x : Ptr} {xs : List Ptr}
    {ms : List (List ℕ)}
    → Ready k rq
    → Holds k q ms
    → SideWaits k q receivers (x ∷ xs)
    → MayRun k.prio_bucket rq x
    → q ≢ null
    → msg ≢ null
    → k.current_tcb ≢ null
    → (k.queues q).count < (k.queues q).depth
    → (k' : Kernel) × (msg_queue_send k q msg timeout ≡ some (returned ok, k'))
      × Holds k' q (ms ++ read k.bytes msg (k.queues q).msg_size ∷ [])
      × SideWaits k' q receivers xs
      × Ready k' (enqueue rq (k.prio_bucket x) x)
      × (k'.state x ≡ ready)
      × (k'.pendsv ≡ true)
unfolding msg_queue_send send_round put_message
msg_queue_send-wakes k q msg timeout {x} {xs} r h i m q_ne msg_ne self_ne room =
    let free : ltb (k.queues q).count (k.queues q).depth ≡ true = ground arith in
    let (k', e, h', i', r', now, pend, same) =
      wake_head-first (put_message k q msg) q receivers r (put_message-Holds k q msg h room)
        (put_message-SideWaits k q msg receivers (x ∷ xs) i) m in
    (
      k',
      rw (==-false q_ne, ==-false msg_ne, ==-false self_ne, free) (rw e refl),
      h',
      i',
      r',
      now,
      pend,
    )

pub msg_queue_recv-moves :
    (k : Kernel) (q out : Ptr) (timeout : ℕ)
    → SideWaits k q senders []
    → q ≢ null
    → out ≢ null
    → k.current_tcb ≢ null
    → ltb 0 (k.queues q).count ≡ true
    → msg_queue_recv k q out timeout ≡ some (returned ok, take_message k q out)
unfolding msg_queue_recv recv_round
msg_queue_recv-moves k q out timeout i q_ne out_ne self_ne held =
    let woke =
      wake_head-none (take_message k q out) q senders
        (take_message-SideWaits k q out senders [] i) in
    rw (==-false q_ne, ==-false out_ne, ==-false self_ne, held) (rw woke refl)

-- msg_queue_recv from a queue that holds a message, with tasks waiting to send, returns RTOS_OK with the
-- oldest message at `out`, which does not overlap the storage; the queue keeps the others, and the task
-- that has waited longest is made READY, at the end of its ready ring.
pub msg_queue_recv-wakes :
    (k : Kernel) (q out : Ptr) (timeout : ℕ) {rq : Queues} {x : Ptr} {xs : List Ptr} {m : List ℕ}
    {ms : List (List ℕ)}
    → let v = k.queues q in
      Ready k rq
      → Holds k q (m ∷ ms)
      → SideWaits k q senders (x ∷ xs)
      → MayRun k.prio_bucket rq x
      → q ≢ null
      → out ≢ null
      → k.current_tcb ≢ null
      → Apart v.buffer (v.depth * v.msg_size) out v.msg_size
      → (k' : Kernel) × (msg_queue_recv k q out timeout ≡ some (returned ok, k'))
        × Holds k' q ms
        × (read k'.bytes out v.msg_size ≡ m)
        × SideWaits k' q senders xs
        × Ready k' (enqueue rq (k.prio_bucket x) x)
        × (k'.state x ≡ ready)
unfolding msg_queue_recv recv_round take_message
msg_queue_recv-wakes k q out timeout {x} {xs} {m} r h i may q_ne out_ne self_ne apart =
    let held = nonempty k q h in
    let (taken, first) = take_message-Holds k q out h apart in
    let (k', e, h', i', r', now, pend, same) =
      wake_head-first (take_message k q out) q senders r taken
        (take_message-SideWaits k q out senders (x ∷ xs) i) may in
    (
      k',
      rw (==-false q_ne, ==-false out_ne, ==-false self_ne, held) (rw e refl),
      h',
      ap (λ b. read b out (k.queues q).msg_size) same ∙ first,
      i',
      r',
      now,
    )
