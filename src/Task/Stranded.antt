-- ===== src/Task/Stranded.antt =====
-- A task that has inherited a priority while it was READY, gives it back while it runs, and is delayed.
use microkernel_rtos.Common.{
  ℕ, ◌<◌, ◌≡◌, ◌≢◌, refl, List, [], true, false, some, ◌==◌, arith, sym, subst, ◌∙◌, ==-false,
}
use microkernel_rtos.Links.{Ptr, null, update-at}
use microkernel_rtos.Kernel.{Kernel, num_priorities, ok, running, blocked, block_delay}
use microkernel_rtos.Scheduler.{scheduler_get_next}
use microkernel_rtos.Scheduler.Invariant.{Queues, Rings, Ready, relink}
use microkernel_rtos.Scheduler.Remove.{dequeue}
use microkernel_rtos.Scheduler.Dispatch.{Highest, scheduler_get_next-Highest}
use microkernel_rtos.Waiting.Chains.{IsWaiting}
use microkernel_rtos.Blocking.{waiting, mark_blocked, rtos_block_current}
use microkernel_rtos.Blocking.Rings.{rtos_block_current-Ready}
use microkernel_rtos.Mutex.{set_mutex, prio_bucket_of, mutex_unlock}
use microkernel_rtos.Mutex.Priority.{prio_bucket_of-lt}
use microkernel_rtos.Mutex.Unlock.{restored, mutex_unlock-frees}
use microkernel_rtos.Task.{task_delay}

-- Taking a task off another ring leaves the highest ring as it is.
Highest-dequeue :
    (q : Queues) (a b : ℕ) (x : Ptr) (ys : List Ptr)
    → a ≢ b
    → Highest q b x ys
    → Highest (dequeue q a x) b x ys
Highest-dequeue q a b x ys ne h = record {
  in_range = h.in_range;
  holds = ground (arith, h.holds);
  above = λ c lt. ground (arith, h.above c lt);
}

delays :
    (k : Kernel) (ticks : ℕ)
    → 0 < ticks
    → k.current_tcb ≢ null
    → task_delay k ticks ≡ rtos_block_current k ticks block_delay null
unfolding task_delay
delays k ticks some_ticks ne =
    let go : (ticks == 0) ≡ false = ground arith in rw (go, ==-false ne) refl

-- The kernel when the current task has freed the mutex `m`.
abbrev freed : Kernel → Ptr → Kernel
freed k m =
    record (set_mutex (restored k) m (record (k.mutexes m) { locked = false; owner = null })) {
      pendsv = true;
    }

-- The owner of a mutex runs with a priority that it has inherited, at the head of the first ring that
-- is not empty, which is not the ring of its own priority. Where it unlocks the mutex, with nobody
-- waiting, and then calls task_delay, it is BLOCKED and still on that ring: the next
-- scheduler_get_next runs it, although its delay has just begun.
pub mutex_unlock-strands :
    (k : Kernel) (m : Ptr) (ticks : ℕ) {q : Queues} {ys : List Ptr}
    → let self = k.current_tcb in
      Ready k q
      → IsWaiting k.mutex_wait_next (k.mutexes m).waiters []
      → Highest q (k.prio_bucket self) self ys
      → prio_bucket_of (k.base_priority self) ≢ k.prio_bucket self
      → m ≢ null
      → self ≢ null
      → k.state self ≡ running
      → (k.mutexes m).locked ≡ true
      → (k.mutexes m).owner ≡ self
      → 0 < ticks
      → (k1 : Kernel) × (k2 : Kernel) × (k3 : Kernel) × (mutex_unlock k m ≡ some (ok, k1))
        × (task_delay k1 ticks ≡ some (waiting, k2))
        × (k2.state self ≡ blocked)
        × (scheduler_get_next k2 ≡ some (self, k3))
        × (k3.state self ≡ running)
unfolding mark_blocked
mutex_unlock-strands k m ticks {q} {ys} r i h moved m_ne self_ne runs locked own some_ticks =
    let self = k.current_tcb in
    let own_bucket = prio_bucket_of (k.base_priority self) in
    let k1 = freed k m in
    let at_own : k1.prio_bucket self ≡ own_bucket = update-at k.prio_bucket self own_bucket in
    let (rx, heads, delayed, r') =
      rtos_block_current-Ready k1 ticks block_delay null {q = q} r self_ne
        (subst (λ b. b < num_priorities) (sym at_own) (prio_bucket_of-lt (k.base_priority self))) in
    let k2 : Kernel = record (relink (mark_blocked k1 self ticks block_delay null) rx heads) {
      pendsv = true;
    } in
    let r2 : Ready k2 (dequeue q own_bucket self) =
      subst (λ b. Rings rx heads (dequeue q b self)) at_own r' in
    let (k3, ran, r3, current, slice, st, u) =
      scheduler_get_next-Highest k2 r2
        (Highest-dequeue q own_bucket (k.prio_bucket self) self ys moved h) in
    (
      k1,
      k2,
      k3,
      mutex_unlock-frees k m i m_ne self_ne runs locked own,
      delays k1 ticks some_ticks self_ne ∙ delayed,
      update-at k.state self blocked,
      ran,
      st self ∙ ground arith,
    )
