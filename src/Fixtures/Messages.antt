-- ===== src/Fixtures/Messages.antt =====
-- The message queue's theorems on the system of the fixtures.
use microkernel_rtos.Common.{
  ℕ, ◌+◌, ◌%◌, ◌≤◌, ◌≡◌, refl, List, [], ◌∷◌, ◌++◌, length, some, arith, inl,
}
use microkernel_rtos.Kernel.{Kernel, ok, ready, blocked, WaitList, MsgQueue}
use microkernel_rtos.Links.{update}
use microkernel_rtos.Waiting.Chains.{IsWaiting}
use microkernel_rtos.Blocking.{returned, waiting}
use microkernel_rtos.MsgQueue.{
  senders, receivers, msg_queue_send, msg_queue_recv, put_message, take_message, memcpy, slot_of,
}
use microkernel_rtos.MsgQueue.Fifo.{IsRing}
use microkernel_rtos.MsgQueue.Transfer.{Holds}
use microkernel_rtos.MsgQueue.Sides.{SideWaits}
use microkernel_rtos.MsgQueue.Calls.{
  msg_queue_send-puts, msg_queue_recv-moves, msg_queue_send-wakes, msg_queue_recv-wakes,
}
use microkernel_rtos.MsgQueue.Initial.{initial_queue, init-state}
use microkernel_rtos.MsgQueue.Traffic.{Traffic, begins, sends, receives, Traffic-fifo}
use microkernel_rtos.MsgQueue.Blocks.{msg_queue_send-blocks, msg_queue_recv-blocks}
use microkernel_rtos.Fixtures.{demo, demo-Ready, demo-MayRun, nobody}

abbrev only_30 : WaitList
only_30 = record { wait_head = 30; wait_tail = 30 }

-- A queue of two slots of one byte at 2000, with `n` messages from slot 1 on.
abbrev with_queue : ℕ → WaitList → WaitList → Kernel
with_queue n s r = record demo { queues = λ p. queue; bytes = λ a. a % 256 }
  where
    queue : MsgQueue
    queue = record {
      buffer = 2000;
      msg_size = 1;
      depth = 2;
      head = 1;
      tail = (1 + n) % 2;
      count = n;
      send_waiters = s;
      recv_waiters = r;
    }

two_slots-IsRing : (n : ℕ) (s r : WaitList) → n ≤ 2 → IsRing ((with_queue n s r).queues 600)
two_slots-IsRing n s r h = record {
  sized = omega arith;
  fits = omega arith;
  narrow = omega arith;
  head_in = omega arith;
  tail_at = refl;
  count_in = h;
}

holding : (s r : WaitList) → Holds (with_queue 1 s r) 600 ((209 ∷ []) ∷ [])
holding s r = record { ring = two_slots-IsRing 1 s r (omega arith); holds = refl }

full : (s r : WaitList) → Holds (with_queue 2 s r) 600 ((209 ∷ []) ∷ (208 ∷ []) ∷ [])
full s r = record { ring = two_slots-IsRing 2 s r (omega arith); holds = refl }

empty : (s r : WaitList) → Holds (with_queue 0 s r) 600 []
empty s r = record { ring = two_slots-IsRing 0 s r (omega arith); holds = refl }

nobody-IsWaiting : IsWaiting demo.mutex_wait_next nobody []
nobody-IsWaiting = record { chain = refl; tail = refl; distinct = tt; short = omega arith }

only_30-IsWaiting : IsWaiting demo.mutex_wait_next only_30 (30 ∷ [])
only_30-IsWaiting = record {
  chain = ground arith;
  tail = refl;
  distinct = ground arith;
  short = omega arith;
}

msg_queue_send-wakes_example :
    (k' : Kernel) × (msg_queue_send (with_queue 0 nobody only_30) 600 3000 7
      ≡ some (returned ok, k'))
    × Holds k' 600 ((184 ∷ []) ∷ [])
    × (k'.state 30 ≡ ready)
msg_queue_send-wakes_example =
    let (k', e, h, i, r, now, pend) =
      msg_queue_send-wakes (with_queue 0 nobody only_30) 600 3000 7 demo-Ready
        (empty nobody only_30) only_30-IsWaiting demo-MayRun (omega arith) (omega arith)
        (omega arith) (omega arith) in
    (k', e, h, now)

msg_queue_recv-wakes_example :
    (k' : Kernel) × (msg_queue_recv (with_queue 2 only_30 nobody) 600 3000 7
      ≡ some (returned ok, k'))
    × Holds k' 600 ((208 ∷ []) ∷ [])
    × (k'.state 30 ≡ ready)
msg_queue_recv-wakes_example =
    let (k', e, h, first, i, r, now) =
      msg_queue_recv-wakes (with_queue 2 only_30 nobody) 600 3000 7 demo-Ready (full only_30 nobody)
        only_30-IsWaiting demo-MayRun (omega arith) (omega arith) (omega arith)
        (inl (omega arith)) in
    (k', e, h, now)

msg_queue_send-blocks_example :
    (k' : Kernel) × (msg_queue_send (with_queue 2 only_30 nobody) 600 3000 7 ≡ some (waiting, k'))
    × SideWaits k' 600 senders (30 ∷ 10 ∷ [])
    × (k'.state 10 ≡ blocked)
msg_queue_send-blocks_example =
    let (k', e, h, i, r, off, reason, obj) =
      msg_queue_send-blocks (with_queue 2 only_30 nobody) 600 3000 7 demo-Ready
        (full only_30 nobody) only_30-IsWaiting (omega arith) (omega arith) (omega arith)
        (omega arith) (omega arith) refl (omega arith) in
    (k', e, i, off)

msg_queue_recv-blocks_example :
    (k' : Kernel) × (msg_queue_recv (with_queue 0 nobody only_30) 600 3000 7 ≡ some (waiting, k'))
    × SideWaits k' 600 receivers (30 ∷ 10 ∷ [])
    × (k'.state 10 ≡ blocked)
msg_queue_recv-blocks_example =
    let (k', e, h, i, r, off, reason, obj) =
      msg_queue_recv-blocks (with_queue 0 nobody only_30) 600 3000 7 demo-Ready
        (empty nobody only_30) only_30-IsWaiting (omega arith) (omega arith) (omega arith)
        (omega arith) refl (omega arith) in
    (k', e, i, off)

-- Memory as before msg_queue_init, and the states after it, after each of two messages of one byte and
-- after the first was received.
abbrev blank : Kernel
blank = record demo { bytes = λ a. a % 256 }

abbrev opened : Kernel
opened = record blank { queues = update blank.queues 600 (initial_queue 2000 1 2) }

abbrev one_sent : Kernel
one_sent = put_message opened 600 3000

abbrev two_sent : Kernel
two_sent = put_message one_sent 600 3001

abbrev one_got : Kernel
one_got = take_message two_sent 600 3100

exchange : Traffic 600 opened one_got ((184 ∷ []) ∷ (185 ∷ []) ∷ []) ((184 ∷ []) ∷ [])
unfolding put_message take_message memcpy slot_of
exchange =
    receives two_sent one_got 3100 7 _ _
      (sends one_sent two_sent 3001 7 _ _
        (sends opened one_sent 3000 7 _ _ begins (omega arith) (omega arith) (omega arith) (
          msg_queue_send-puts opened 600 3000 7 nobody-IsWaiting (omega arith) (omega arith)
            (omega arith) (omega arith)))
        (omega arith) (omega arith) (omega arith)
        (msg_queue_send-puts one_sent 600 3001 7 nobody-IsWaiting (omega arith) (omega arith)
          (omega arith) (omega arith)))
      (omega arith) (omega arith) (omega arith) (inl (omega arith))
      (msg_queue_recv-moves two_sent 600 3100 7 nobody-IsWaiting (omega arith) (omega arith)
        (omega arith) refl)

Traffic-fifo_example :
    (ms : List (List ℕ)) × Holds one_got 600 ms
    × ((184 ∷ []) ∷ (185 ∷ []) ∷ [] ≡ ((184 ∷ []) ∷ []) ++ ms)
    × (length ms ≡ (one_got.queues 600).count)
    × ((one_got.queues 600).count ≤ (one_got.queues 600).depth)
Traffic-fifo_example =
    Traffic-fifo blank opened one_got 600 2000 1 2 ((184 ∷ []) ∷ (185 ∷ []) ∷ []) ((184 ∷ []) ∷ [])
      (omega arith) (omega arith) (omega arith) (omega arith) (omega arith) (omega arith)
      (init-state blank 600 2000 1 2 (omega arith) (omega arith) (omega arith) (omega arith))
      exchange
