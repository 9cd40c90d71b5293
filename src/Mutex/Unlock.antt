-- ===== src/Mutex/Unlock.antt =====
-- mutex_unlock: who owns the mutex afterwards, and who runs.
use microkernel_rtos.Common.{
  ℕ, arith, ◌==◌, ◌&&◌, ◌≤◌, ◌≡◌, ◌≢◌, refl, List, [], ◌∷◌, true, false, some, has, erase, ap, ◌∙◌,
  sym, subst, ==-false, ==_refl,
}
use microkernel_rtos.Links.{Ptr, null, update-at}
use microkernel_rtos.Kernel.{Kernel, ok, ready, running, Mutex, is_timeout}
use microkernel_rtos.Scheduler.{scheduler_mark_reschedule}
use microkernel_rtos.Scheduler.Invariant.{Queues, Ready}
use microkernel_rtos.Scheduler.Insert.{enqueue}
use microkernel_rtos.Waiting.Chains.{IsWaiting, rewait}
use microkernel_rtos.Blocking.{returned, block_outcome, clear_block}
use microkernel_rtos.Blocking.Rings.{MayRun, woken, wake_task-Ready}
use microkernel_rtos.Mutex.{
  set_mutex, set_waiters, set_blocked_on, restore_owner_priority, wait_pop_highest, hand_over,
  mutex_unlock, lock_round, lock_again, lock_resume,
}
use microkernel_rtos.Mutex.Priority.{prioritised, set_priority-off_ring}
use microkernel_rtos.Mutex.Highest.{best_of, has-best_of, best_of-le}
use microkernel_rtos.Mutex.Pop.{wait_pop_highest-list, wait_pop_highest-empty}

-- `k` with the priority that its current task had before it was boosted.
abbrev pub restored : Kernel → Kernel
restored k = prioritised k k.current_tcb (k.base_priority k.current_tcb)

module _ (k : Kernel) (m : Ptr) where
  restores :
      k.current_tcb ≢ null
      → k.state k.current_tcb ≡ running
      → restore_owner_priority k k.current_tcb ≡ some (restored k)
  unfolding restore_owner_priority
  restores ne runs =
      rw (==-false ne)
        (set_priority-off_ring k k.current_tcb (k.base_priority k.current_tcb) (rw runs refl))

  -- mutex_unlock by the owner does what its three steps do.
  unlocks :
      {t : Ptr} {c c' : Kernel}
      → m ≢ null
      → k.current_tcb ≢ null
      → k.state k.current_tcb ≡ running
      → (k.mutexes m).locked ≡ true
      → (k.mutexes m).owner ≡ k.current_tcb
      → wait_pop_highest (restored k) m ≡ some (t, c)
      → hand_over c m t ≡ some c'
      → mutex_unlock k m ≡ some (ok, record c' { pendsv = true })
  unfolding mutex_unlock scheduler_mark_reschedule
  unlocks m_ne self_ne runs locked own popped handed =
      rw (==-false m_ne, ==-false self_ne, locked, own, ==_refl k.current_tcb)
        (rw (restores self_ne runs) (rw popped (rw handed refl)))

  -- mutex_unlock by the owner, with nobody waiting, frees the mutex; the owner has its own priority again.
  pub mutex_unlock-frees :
      IsWaiting k.mutex_wait_next (k.mutexes m).waiters []
      → m ≢ null
      → k.current_tcb ≢ null
      → k.state k.current_tcb ≡ running
      → (k.mutexes m).locked ≡ true
      → (k.mutexes m).owner ≡ k.current_tcb
      → mutex_unlock k m
        ≡ some (
          ok,
          record (set_mutex
              (restored k)
              m
              (record (k.mutexes m) { locked = false; owner = null })) { pendsv = true },
        )
  unfolding hand_over
  mutex_unlock-frees i m_ne self_ne runs locked own =
      unlocks m_ne self_ne runs locked own (wait_pop_highest-empty (restored k) m i) refl

  -- mutex_unlock by the owner, with tasks waiting: the first of those whose priority value is least
  -- owns the mutex, leaves the wait list, becomes READY and goes to the end of its ready ring; the
  -- others keep their order. The former owner has its own priority again.
  pub mutex_unlock-hands_over :
      {q : Queues} {x : Ptr} {ys : List Ptr} (p : Ptr)
      → let t = best_of (restored k).priority x ys in
        Ready k q
        → IsWaiting k.mutex_wait_next (k.mutexes m).waiters (x ∷ ys)
        → MayRun (restored k).prio_bucket q t
        → m ≢ null
        → k.current_tcb ≢ null
        → k.state k.current_tcb ≡ running
        → (k.mutexes m).locked ≡ true
        → (k.mutexes m).owner ≡ k.current_tcb
        → has p (x ∷ ys) ≡ true
        → (k' : Kernel) × (mutex_unlock k m ≡ some (ok, k'))
          × ((k'.mutexes m).locked ≡ true)
          × ((k'.mutexes m).owner ≡ t)
          × IsWaiting k'.mutex_wait_next (k'.mutexes m).waiters (erase t (x ∷ ys))
          × (has t (x ∷ ys) ≡ true)
          × (k'.priority t ≤ k'.priority p)
          × Ready k' (enqueue q ((restored k).prio_bucket t) t)
          × (k'.state t ≡ ready)
          × (k'.blocked_on_mutex t ≡ null)
          × (k'.priority k.current_tcb ≡ k.base_priority k.current_tcb)
          × (k'.block_wake_status ≡ k.block_wake_status)
          × (k'.pendsv ≡ true)
  unfolding hand_over clear_block
  mutex_unlock-hands_over {q} {x} {ys} p r i may m_ne self_ne runs locked own on =
      let t = best_of (restored k).priority x ys in
      let (kp, w', popped, (nx, e, listed, same)) = wait_pop_highest-list (restored k) m x ys i in
      let f = k.mutexes in
      let v1 : Mutex = record (f m) { waiters = w' } in
      let c1 = set_waiters (rewait (restored k) nx) m w' in
      let c =
        set_blocked_on (set_mutex c1 m (record (c1.mutexes m) { locked = true; owner = t })) t
          null in
      let (rx, heads, woke, r') = wake_task-Ready c t r may in
      let v2 : c.mutexes m ≡ record v1 { locked = true; owner = t } =
        update-at c1.mutexes m _
        ∙ ap (λ (v : Mutex). record v { locked = true; owner = t }) (update-at f m v1) in
      let popped' : wait_pop_highest (restored k) m ≡ some (t, c1) =
        popped ∙ ap (λ z. some (t, set_waiters z m w')) e in
      let handed : hand_over c1 m t ≡ some (woken c t rx heads) = rw (==-false may.ne_null) woke in
      (
        record (woken c t rx heads) { pendsv = true },
        unlocks m_ne self_ne runs locked own popped' handed,
        ap (λ (v : Mutex). v.locked) v2,
        ap (λ (v : Mutex). v.owner) v2,
        subst (λ (v : Mutex). IsWaiting nx v.waiters (erase t (x ∷ ys))) (sym v2) listed,
        has-best_of (restored k).priority x ys,
        best_of-le (restored k).priority x ys p on,
        r',
        update-at k.state t ready,
        update-at k.blocked_on_mutex t null,
        update-at k.priority k.current_tcb (k.base_priority k.current_tcb),
        refl,
        refl,
      )

-- A task that is woken as the owner of the mutex returns from mutex_lock.
lock_resume-owner :
    (k : Kernel) (m t : Ptr) (timeout : ℕ)
    → k.state t ≡ ready
    → is_timeout (k.block_wake_status t) ≡ false
    → (k.mutexes m).locked ≡ true
    → (k.mutexes m).owner ≡ t
    → lock_resume k m t timeout ≡ some (returned ok, k)
unfolding lock_resume lock_again lock_round block_outcome
lock_resume-owner k m t timeout now fresh locked own =
    let here : ((k.mutexes m).locked && ((k.mutexes m).owner == t)) ≡ true = ground arith in
    rw (now, fresh, here) refl

-- What follows an unlock with tasks waiting: when the task `t` that the mutex has been handed to runs
-- again, its mutex_lock returns RTOS_OK and changes nothing, unless its wait had timed out before.
pub mutex_unlock-lock_resume :
    (k : Kernel) (m : Ptr) (timeout : ℕ) {q : Queues} {x : Ptr} {ys : List Ptr}
    → let t = best_of (restored k).priority x ys in
      Ready k q
      → IsWaiting k.mutex_wait_next (k.mutexes m).waiters (x ∷ ys)
      → MayRun (restored k).prio_bucket q t
      → m ≢ null
      → k.current_tcb ≢ null
      → k.state k.current_tcb ≡ running
      → (k.mutexes m).locked ≡ true
      → (k.mutexes m).owner ≡ k.current_tcb
      → is_timeout (k.block_wake_status t) ≡ false
      → (k' : Kernel) × (mutex_unlock k m ≡ some (ok, k'))
        × (lock_resume k' m t timeout ≡ some (returned ok, k'))
mutex_unlock-lock_resume k m timeout {x} {ys} r i may m_ne self_ne runs locked own fresh =
    let t = best_of (restored k).priority x ys in
    let (k', e, l, o, w, among, least, r', now, off, back, wake, pend) =
      mutex_unlock-hands_over k m x r i may m_ne self_ne runs locked own (ground arith) in
    (
      k',
      e,
      lock_resume-owner k' m t timeout now (subst (λ f. is_timeout (f t) ≡ false) (sym wake) fresh)
          l o,
    )
