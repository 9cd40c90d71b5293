-- ===== src/MsgQueue/Initial.antt =====
-- The queue that msg_queue_init sets up: it holds no message, and nobody waits for it.
use microkernel_rtos.Common.{
  ℕ, ◌+◌, ◌*◌, ◌≤◌, ◌<◌, ◌≡◌, ◌≢◌, refl, List, [], arith, ap, ◌∙◌, sym, subst, ==-false,
}
use microkernel_rtos.Links.{Ptr, null, update, update-at}
use microkernel_rtos.Kernel.{Kernel, MsgQueue, Status, ok, uint32_mod}
use microkernel_rtos.Waiting.Chains.{IsWaiting}
use microkernel_rtos.MsgQueue.{Side, waiters_of, senders, receivers, msg_queue_init}
use microkernel_rtos.MsgQueue.Fifo.{IsRing}
use microkernel_rtos.MsgQueue.Transfer.{Holds, Holds-at}
use microkernel_rtos.MsgQueue.Sides.{SideWaits}

-- The queue holds `ms`, and nobody waits for it.
pub record Idle (k : Kernel) (q : Ptr) (ms : List (List ℕ)) : Type 0 where
  pub messages_held : Holds k q ms
  pub no_senders : SideWaits k q senders []
  pub no_receivers : SideWaits k q receivers []

-- The queue that msg_queue_init leaves.
abbrev pub initial_queue : Ptr → ℕ → ℕ → MsgQueue
initial_queue storage size depth = record {
  buffer = storage;
  msg_size = size;
  depth = depth;
  head = 0;
  tail = 0;
  count = 0;
  send_waiters = record { wait_head = null; wait_tail = null };
  recv_waiters = record { wait_head = null; wait_tail = null };
}

nobody-IsWaiting :
    (nx : Ptr → Ptr) → IsWaiting nx (record { wait_head = null; wait_tail = null }) []
nobody-IsWaiting nx = record { chain = refl; tail = refl; distinct = tt; short = omega arith }

none_waits :
    {nx : Ptr → Ptr} (storage : Ptr) (size depth : ℕ) (side : Side)
    → IsWaiting nx (waiters_of (initial_queue storage size depth) side) []
none_waits {nx} storage size depth senders = nobody-IsWaiting nx
none_waits {nx} storage size depth receivers = nobody-IsWaiting nx

module _ (k : Kernel) (q storage : Ptr) (size depth : ℕ) (q_ne : q ≢ null)
    (storage_ne : storage ≢ null) (sized : 0 < size) (deep : 0 < depth) where
  pub init-state :
      msg_queue_init k q storage size depth
      ≡ (ok, record k { queues = update k.queues q (initial_queue storage size depth) })
  unfolding msg_queue_init
  init-state =
      let size_ne : size ≢ 0 = omega arith in
      let depth_ne : depth ≢ 0 = omega arith in
      rw (==-false q_ne, ==-false storage_ne, ==-false size_ne, ==-false depth_ne) refl

  pub init-Idle :
      (k' : Kernel)
      → depth < uint32_mod
      → storage + depth * size ≤ uint32_mod
      → msg_queue_init k q storage size depth ≡ (ok, k')
      → Idle k' q []
  init-Idle k' narrow fits ran =
      let v = initial_queue storage size depth in
      let c : Kernel = record k { queues = update k.queues q v } in
      let same : c ≡ k' = ap (λ (r : Status × Kernel). r.1) (sym init-state ∙ ran) in
      let there : c.queues q ≡ v = update-at k.queues q v in
      let ring : IsRing v = record {
        sized = sized;
        fits = fits;
        narrow = narrow;
        head_in = deep;
        tail_at = omega arith;
        count_in = omega arith;
      } in
      let waits : (side : Side) → SideWaits c q side [] = λ side.
        subst (λ v'. IsWaiting k.mutex_wait_next (waiters_of v' side) []) (sym there)
          (none_waits storage size depth side) in
      subst (λ c'. Idle c' q []) same
        (record {
          messages_held = Holds-at c q v there ring refl;
          no_senders = waits senders;
          no_receivers = waits receivers;
        })
