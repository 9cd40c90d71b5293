-- ===== src/MsgQueue/Traffic.antt =====
-- Any sequence of calls of msg_queue_send and msg_queue_recv that do not wait, from msg_queue_init
-- on.
use microkernel_rtos.Common.{
  same_result, ℕ, ◌+◌, ◌*◌, ◌≤◌, ◌<◌, ◌≡◌, ◌≢◌, refl, List, [], ◌∷◌, ◌++◌, append_assoc, some, true,
  ltb, length, arith, ap, ◌∙◌, sym, subst,
}
use microkernel_rtos.Links.{Ptr, null}
use microkernel_rtos.Kernel.{Kernel, MsgQueue, ok, uint32_mod}
use microkernel_rtos.Blocking.{returned}
use microkernel_rtos.MsgQueue.{
  senders, receivers, msg_queue_init, put_message, take_message, msg_queue_send, msg_queue_recv,
}
use microkernel_rtos.MsgQueue.Memory.{read, Apart, read-same, slot-below}
use microkernel_rtos.MsgQueue.Fifo.{slot, messages-same}
use microkernel_rtos.MsgQueue.Transfer.{Holds, put_message-Holds, take_message-Holds}
use microkernel_rtos.MsgQueue.Sides.{put_message-SideWaits, take_message-SideWaits}
use microkernel_rtos.MsgQueue.Initial.{Idle, init-Idle}
use microkernel_rtos.MsgQueue.Calls.{
  count-length, msg_queue_send-puts, msg_queue_recv-moves, oldest,
}

-- The address `a` lies in the storage of the queue.
abbrev InStorage : MsgQueue → Ptr → Type 0
InStorage v a = (v.buffer ≤ a) × (a < v.buffer + v.depth * v.msg_size)

-- What happens to the queue at `q` from the state `k0` on, with the messages sent and received, oldest
-- first. Tasks send where a slot is free, receive where a message is held, and write memory outside
-- the storage of the queue.
pub data Traffic (q : Ptr) (k0 : Kernel) : Kernel → List (List ℕ) → List (List ℕ) → Type 0 where
  begins : Traffic q k0 k0 [] []
  writes :
      (k : Kernel) (b : ℕ → ℕ) (sent got : List (List ℕ))
      → Traffic q k0 k sent got
      → ((a : Ptr) → InStorage (k.queues q) a → b a ≡ k.bytes a)
      → Traffic q k0 (record k { bytes = b }) sent got
  sends :
      (k k' : Kernel) (msg : Ptr) (timeout : ℕ) (sent got : List (List ℕ))
      → Traffic q k0 k sent got
      → msg ≢ null
      → k.current_tcb ≢ null
      → (k.queues q).count < (k.queues q).depth
      → msg_queue_send k q msg timeout ≡ some (returned ok, k')
      → Traffic q k0 k' (sent ++ read k.bytes msg (k.queues q).msg_size ∷ []) got
  receives :
      (k k' : Kernel) (out : Ptr) (timeout : ℕ) (sent got : List (List ℕ))
      → Traffic q k0 k sent got
      → out ≢ null
      → k.current_tcb ≢ null
      → 0 < (k.queues q).count
      → Apart
          (k.queues q).buffer
          ((k.queues q).depth * (k.queues q).msg_size)
          out
          (k.queues q).msg_size
      → msg_queue_recv k q out timeout ≡ some (returned ok, k')
      → Traffic q k0 k' sent (got ++ read k'.bytes out (k.queues q).msg_size ∷ [])

-- What was sent and not received is held.
abbrev Balanced : Ptr → Kernel → List (List ℕ) → List (List ℕ) → Type 0
Balanced q k sent got = (ms : List (List ℕ)) × Idle k q ms × (sent ≡ got ++ ms)

-- Writes outside the storage leave the messages.
writes-Holds :
    (k : Kernel) (q : Ptr) (b : ℕ → ℕ) {ms : List (List ℕ)}
    → Holds k q ms
    → ((a : Ptr) → InStorage (k.queues q) a → b a ≡ k.bytes a)
    → Holds (record k { bytes = b }) q ms
writes-Holds k q b h same =
    let v = k.queues q in
    let kept : (j : ℕ) → j < v.depth → slot b v j ≡ slot k.bytes v j = λ j lt.
      read-same b k.bytes (v.buffer + j * v.msg_size) (v.buffer + j * v.msg_size) v.msg_size
        λ i below.
          same (v.buffer + j * v.msg_size + i)
            (omega arith, omega (arith, slot-below v.buffer j v.depth v.msg_size lt)) in
    record {
      ring = h.ring;
      holds = messages-same k.bytes b v v.head v.count kept h.ring.head_in ∙ h.holds;
    }

-- The messages of a queue from its steps.
put-Idle :
    (k : Kernel) (q msg : Ptr) {ms : List (List ℕ)}
    → Idle k q ms
    → (k.queues q).count < (k.queues q).depth
    → Idle (put_message k q msg) q (ms ++ read k.bytes msg (k.queues q).msg_size ∷ [])
put-Idle k q msg i room = record {
  messages_held = put_message-Holds k q msg i.messages_held room;
  no_senders = put_message-SideWaits k q msg senders [] i.no_senders;
  no_receivers = put_message-SideWaits k q msg receivers [] i.no_receivers;
}

take-Idle :
    (k : Kernel) (q out : Ptr) {m : List ℕ} {ms : List (List ℕ)}
    → Idle k q (m ∷ ms)
    → Apart
        (k.queues q).buffer
        ((k.queues q).depth * (k.queues q).msg_size)
        out
        (k.queues q).msg_size
    → Idle (take_message k q out) q ms
take-Idle k q out i apart = record {
  messages_held = (take_message-Holds k q out i.messages_held apart).0;
  no_senders = take_message-SideWaits k q out senders [] i.no_senders;
  no_receivers = take_message-SideWaits k q out receivers [] i.no_receivers;
}

module _ (q : Ptr) (k0 : Kernel) (q_ne : q ≢ null) (starts : Idle k0 q []) where
  Traffic-Balanced :
      (k : Kernel) (sent got : List (List ℕ)) → Traffic q k0 k sent got → Balanced q k sent got
  Traffic-Balanced k sent got begins = ([], starts, refl)
  Traffic-Balanced c0 sent0 got0 (writes k b sent got t same) =
      let (ms, i, e) = Traffic-Balanced k sent got t in
      (
        ms,
        record {
          messages_held = writes-Holds k q b i.messages_held same;
          no_senders = i.no_senders;
          no_receivers = i.no_receivers;
        },
        e,
      )
  Traffic-Balanced c0 sent0 got0 (sends k k' msg timeout sent got t msg_ne self_ne room ran) =
      let (ms, i, e) = Traffic-Balanced k sent got t in
      let m = read k.bytes msg (k.queues q).msg_size in
      let same =
        (same_result (msg_queue_send-puts k q msg timeout i.no_receivers q_ne msg_ne self_ne room)
          ran).1 in
      (
        ms ++ m ∷ [],
        subst (λ c. Idle c q (ms ++ m ∷ [])) same (put-Idle k q msg i room),
        ap (λ xs. xs ++ m ∷ []) e ∙ append_assoc got ms (m ∷ []),
      )
  Traffic-Balanced c0 sent0 got0
        (receives k k' out timeout sent got t out_ne self_ne some_held apart ran) =
      let (ms, i, e) = Traffic-Balanced k sent got t in
      let (m, rest, split) = oldest k q ms i.messages_held some_held in
      let i' = subst (Idle k q) split i in
      let held : ltb 0 (k.queues q).count ≡ true = ground arith in
      let same =
        (same_result (msg_queue_recv-moves k q out timeout i.no_senders q_ne out_ne self_ne held)
          ran).1 in
      let first : read k'.bytes out (k.queues q).msg_size ≡ m =
        subst (λ c. read c.bytes out (k.queues q).msg_size ≡ m) same
          (take_message-Holds k q out i'.messages_held apart).1 in
      (
        rest,
        subst (λ c. Idle c q rest) same (take-Idle k q out i' apart),
        e
            ∙ ap (λ xs. got ++ xs) split
            ∙ sym (append_assoc got (m ∷ []) rest)
            ∙ ap (λ x. (got ++ x ∷ []) ++ rest) (sym first),
      )

-- On a queue that msg_queue_init has set up in storage that ends within the address space: however
-- tasks send where a slot is free and receive, outside the storage, where a message is held, and write
-- memory outside the storage between the calls, the messages received so far, followed by those that the
-- queue holds, are the messages sent, in their order; and the count of the queue, which is at most its
-- depth, is the number of those it holds.
pub Traffic-fifo :
    (k0 k1 k : Kernel) (q storage : Ptr) (size depth : ℕ) (sent got : List (List ℕ))
    → q ≢ null
    → storage ≢ null
    → 0 < size
    → 0 < depth
    → depth < uint32_mod
    → storage + depth * size ≤ uint32_mod
    → msg_queue_init k0 q storage size depth ≡ (ok, k1)
    → Traffic q k1 k sent got
    → (ms : List (List ℕ)) × Holds k q ms
      × (sent ≡ got ++ ms)
      × (length ms ≡ (k.queues q).count)
      × ((k.queues q).count ≤ (k.queues q).depth)
Traffic-fifo k0 k1 k q storage size depth sent got q_ne storage_ne sized deep narrow fits ran t =
    let starts = init-Idle k0 q storage size depth q_ne storage_ne sized deep k1 narrow fits ran in
    let (ms, i, e) = Traffic-Balanced q k1 q_ne starts k sent got t in
    let h = i.messages_held in (ms, h, e, count-length k q h, h.ring.count_in)
