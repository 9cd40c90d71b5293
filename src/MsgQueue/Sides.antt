-- ===== src/MsgQueue/Sides.antt =====
-- The two wait lists of a message queue, and _wake_head on either of them.
use microkernel_rtos.Common.{
  ℕ, zero, suc, ◌%◌, ◌+◌, ◌≡◌, refl, List, [], ◌∷◌, true, some, arith, ap, ◌∙◌, sym, subst,
  ==-false,
}
use microkernel_rtos.Links.{Ptr, update, update-at, update-same}
use microkernel_rtos.Kernel.{Kernel, ready, MsgQueue, WaitList}
use microkernel_rtos.Scheduler.{scheduler_mark_reschedule}
use microkernel_rtos.Scheduler.Invariant.{Queues, Ready}
use microkernel_rtos.Scheduler.Insert.{enqueue}
use microkernel_rtos.Waiting.{tcb_pop_head}
use microkernel_rtos.Waiting.Chains.{IsWaiting, rewait, pop-list, pop-empty}
use microkernel_rtos.Blocking.{clear_block}
use microkernel_rtos.Blocking.Rings.{MayRun, woken, wake_task-Ready}
use microkernel_rtos.MsgQueue.{
  Side, senders, receivers, waiters_of, with_waiters, set_side, wake_popped, wake_head, put_message,
  take_message,
}
use microkernel_rtos.MsgQueue.Fifo.{IsRing, slot, messages, contents}
use microkernel_rtos.MsgQueue.Transfer.{Holds, Holds-at}

-- The tasks `xs` wait on one side of the queue at `q`.
abbrev pub SideWaits : Kernel → Ptr → Side → List Ptr → Type 0
SideWaits k q side xs = IsWaiting k.mutex_wait_next (waiters_of (k.queues q) side) xs

IsRing-with_waiters :
    (v : MsgQueue) (side : Side) (w : WaitList) → IsRing v → IsRing (with_waiters v side w)
IsRing-with_waiters v senders w r = record {
  sized = r.sized;
  fits = r.fits;
  narrow = r.narrow;
  head_in = r.head_in;
  tail_at = r.tail_at;
  count_in = r.count_in;
}
IsRing-with_waiters v receivers w r = record {
  sized = r.sized;
  fits = r.fits;
  narrow = r.narrow;
  head_in = r.head_in;
  tail_at = r.tail_at;
  count_in = r.count_in;
}

messages-with_waiters :
    (b : ℕ → ℕ) (v : MsgQueue) (side : Side) (w : WaitList) (h n : ℕ)
    → messages b (with_waiters v side w) h n ≡ messages b v h n
messages-with_waiters b v side w h zero = refl
messages-with_waiters b v senders w h (suc n) =
    ap (λ ms. slot b v h ∷ ms) (messages-with_waiters b v senders w ((h + 1) % v.depth) n)
messages-with_waiters b v receivers w h (suc n) =
    ap (λ ms. slot b v h ∷ ms) (messages-with_waiters b v receivers w ((h + 1) % v.depth) n)

contents-with_waiters :
    (b : ℕ → ℕ) (v : MsgQueue) (side : Side) (w : WaitList)
    → contents b (with_waiters v side w) ≡ contents b v
contents-with_waiters b v senders w = messages-with_waiters b v senders w v.head v.count
contents-with_waiters b v receivers w = messages-with_waiters b v receivers w v.head v.count

with_waiters-same : (v : MsgQueue) (side : Side) → with_waiters v side (waiters_of v side) ≡ v
with_waiters-same v senders = refl
with_waiters-same v receivers = refl

waiters_of-with_waiters :
    (v : MsgQueue) (side : Side) (w : WaitList) → waiters_of (with_waiters v side w) side ≡ w
waiters_of-with_waiters v senders w = refl
waiters_of-with_waiters v receivers w = refl

-- A wait list that has just been written.
pub SideWaits-at :
    (c : Kernel) (f : Ptr → MsgQueue) (q : Ptr) (side : Side) (w : WaitList) (xs : List Ptr)
    → c.queues ≡ update f q (with_waiters (f q) side w)
    → IsWaiting c.mutex_wait_next w xs
    → SideWaits c q side xs
SideWaits-at c f q side w xs e i =
    let there : c.queues q ≡ with_waiters (f q) side w =
      ap (λ (g : Ptr → MsgQueue). g q) e ∙ update-at f q _ in
    subst (λ v. IsWaiting c.mutex_wait_next v xs)
      (sym (ap (λ v. waiters_of v side) there ∙ waiters_of-with_waiters (f q) side w)) i

-- Writing a wait list leaves the messages alone.
pub set_side-Holds :
    (k c : Kernel) (q : Ptr) (side : Side) (w : WaitList) {ms : List (List ℕ)}
    → Holds k q ms
    → c.bytes ≡ k.bytes
    → c.queues ≡ update k.queues q (with_waiters (k.queues q) side w)
    → Holds c q ms
set_side-Holds k c q side w h same_bytes same_queues =
    Holds-at c q (with_waiters (k.queues q) side w)
      (ap (λ (f : Ptr → MsgQueue). f q) same_queues ∙ update-at k.queues q _)
      (IsRing-with_waiters (k.queues q) side w h.ring)
      (contents-with_waiters c.bytes (k.queues q) side w
        ∙ ap (λ b. contents b (k.queues q)) same_bytes
        ∙ h.holds)

-- _wake_head with nobody waiting.
pub wake_head-none :
    (k : Kernel) (q : Ptr) (side : Side) → SideWaits k q side [] → wake_head k q side ≡ some k
unfolding wake_head wake_popped
wake_head-none k q side i = rw (pop-empty k (waiters_of (k.queues q) side) i) (
    ap (λ f. some (record k { queues = f }))
      (ap (update k.queues q) (with_waiters-same (k.queues q) side) ∙ update-same k.queues q))

-- _wake_head wakes the task that has waited longest.
pub wake_head-first :
    (k : Kernel) (q : Ptr) (side : Side) {rq : Queues} {x : Ptr} {xs : List Ptr}
    {ms : List (List ℕ)}
    → Ready k rq
    → Holds k q ms
    → SideWaits k q side (x ∷ xs)
    → MayRun k.prio_bucket rq x
    → (k' : Kernel) × (wake_head k q side ≡ some k')
      × Holds k' q ms
      × SideWaits k' q side xs
      × Ready k' (enqueue rq (k.prio_bucket x) x)
      × (k'.state x ≡ ready)
      × (k'.pendsv ≡ true)
      × (k'.bytes ≡ k.bytes)
unfolding wake_head wake_popped clear_block scheduler_mark_reschedule
wake_head-first k q side {x} {xs} r h i m =
    let w = waiters_of (k.queues q) side in
    let (first, (nx, e, listed, same)) = pop-list k w x xs i in
    let w2 : WaitList = (tcb_pop_head k w).2 in
    let c = set_side (rewait k nx) q side w2 in
    let (rx, heads, e', r') = wake_task-Ready c x r m in
    let k' = record (woken c x rx heads) { pendsv = true } in
    (
      k',
      rw (e, first) (rw (==-false m.ne_null) (rw e' refl)),
      set_side-Holds k k' q side w2 h refl refl,
      SideWaits-at k' k.queues q side w2 xs refl listed,
      r',
      ground arith,
      refl,
      refl,
    )

-- Putting a message in, or taking one out, leaves the wait lists alone.
pub put_message-SideWaits :
    (k : Kernel) (q msg : Ptr) (side : Side) (xs : List Ptr)
    → SideWaits k q side xs
    → SideWaits (put_message k q msg) q side xs
unfolding put_message
put_message-SideWaits k q msg senders xs i =
    subst (λ (v : MsgQueue). IsWaiting k.mutex_wait_next v.send_waiters xs)
      (sym (update-at k.queues q _)) i
put_message-SideWaits k q msg receivers xs i =
    subst (λ (v : MsgQueue). IsWaiting k.mutex_wait_next v.recv_waiters xs)
      (sym (update-at k.queues q _)) i

pub take_message-SideWaits :
    (k : Kernel) (q out : Ptr) (side : Side) (xs : List Ptr)
    → SideWaits k q side xs
    → SideWaits (take_message k q out) q side xs
unfolding take_message
take_message-SideWaits k q out senders xs i =
    subst (λ (v : MsgQueue). IsWaiting k.mutex_wait_next v.send_waiters xs)
      (sym (update-at k.queues q _)) i
take_message-SideWaits k q out receivers xs i =
    subst (λ (v : MsgQueue). IsWaiting k.mutex_wait_next v.recv_waiters xs)
      (sym (update-at k.queues q _)) i
