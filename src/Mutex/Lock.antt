-- ===== src/Mutex/Lock.antt =====
-- mutex_lock on a mutex that another task owns, and _apply_pi for the owner.
use microkernel_rtos.Common.{
  ℕ, suc, ◌≤◌, ◌<◌, ◌≡◌, ◌≢◌, refl, List, [], ◌∷◌, ◌++◌, true, false, some, ◌==◌, ◌||◌, ltb,
  if◌then◌else◌, has, length, arith, ap, ◌∙◌, sym, subst, ==-false,
}
use microkernel_rtos.Links.{Ptr, null, update-at}
use microkernel_rtos.Kernel.{
  Kernel, Mutex, WaitList, blocked, block_mutex, is_ready, num_priorities, walk_fuel,
}
use microkernel_rtos.Scheduler.Invariant.{Queues, Rings, Ready, relink}
use microkernel_rtos.Scheduler.Remove.{dequeue}
use microkernel_rtos.Waiting.{tcb_enqueue_tail}
use microkernel_rtos.Waiting.Chains.{IsWaiting, rewait, enqueue-list}
use microkernel_rtos.Blocking.{Wait, waiting, rtos_block_current, mark_blocked}
use microkernel_rtos.Blocking.Rings.{rtos_block_current-Ready}
use microkernel_rtos.Mutex.{
  prio_bucket_of, set_waiters, set_blocked_on, wait_enqueue_tail, apply_pi, boost, lock_contended,
  lock_round, mutex_lock,
}
use microkernel_rtos.Mutex.Inherit.{
  least_of, least_of-le, min_wait_priority_value-least, boosted, boost-Boosted,
}

-- _apply_pi on a mutex with waiting tasks boosts the owner to the least of their priority values.
apply_pi-boost :
    (k : Kernel) (m x : Ptr) (xs : List Ptr)
    → IsWaiting k.mutex_wait_next (k.mutexes m).waiters (x ∷ xs)
    → (k.mutexes m).owner ≢ null
    → apply_pi k m ≡ boost k (k.mutexes m).owner (least_of k.priority (x ∷ xs))
unfolding apply_pi
apply_pi-boost k m x xs i ne =
    let full : ((k.mutexes m).waiters.wait_head == null) ≡ false =
      ==-false λ z. i.chain.1 (sym (i.chain.0) ∙ z) in
    let go : (((k.mutexes m).owner == null) || ((k.mutexes m).waiters.wait_head == null)) ≡ false =
      rw (==-false ne, full) refl in
    rw go (rw (min_wait_priority_value-least k m (x ∷ xs) i) refl)

-- A list that has got an element at its end is not empty.
apply_pi-snoc :
    (k : Kernel) (m t : Ptr) (xs : List Ptr)
    → IsWaiting k.mutex_wait_next (k.mutexes m).waiters (xs ++ t ∷ [])
    → (k.mutexes m).owner ≢ null
    → apply_pi k m ≡ boost k (k.mutexes m).owner (least_of k.priority (xs ++ t ∷ []))
apply_pi-snoc k m t [] i ne = apply_pi-boost k m t [] i ne
apply_pi-snoc k m t (x ∷ xs) i ne = apply_pi-boost k m x (xs ++ t ∷ []) i ne

contends :
    (k : Kernel) (m : Ptr) (timeout : ℕ)
    → m ≢ null
    → k.current_tcb ≢ null
    → k.current_tcb ≢ (k.mutexes m).owner
    → (k.mutexes m).locked ≡ true
    → mutex_lock k m timeout ≡ lock_contended k m k.current_tcb timeout
unfolding mutex_lock lock_round
contends k m timeout m_ne self_ne other locked =
    let away : ((k.mutexes m).owner == k.current_tcb) ≡ false = ground arith in
    rw (==-false m_ne, ==-false self_ne, locked, away) refl

-- What lock_contended does in its three steps.
contended_steps :
    (k c c' : Kernel) (m self : Ptr) (timeout : ℕ) (r : Wait × Kernel)
    → wait_enqueue_tail (set_blocked_on k self m) m self ≡ c
    → apply_pi c m ≡ some c'
    → rtos_block_current c' timeout block_mutex m ≡ some r
    → lock_contended k m self timeout ≡ some r
unfolding lock_contended
contended_steps k c c' m self timeout r e1 e2 e3 = rw e1 (rw e2 e3)

enqueued :
    (k : Kernel) (m t : Ptr) (nx : Ptr → Ptr)
    → let r = tcb_enqueue_tail k (k.mutexes m).waiters t in
      r.0 ≡ rewait k nx → wait_enqueue_tail k m t ≡ set_waiters (rewait k nx) m (r.1)
unfolding wait_enqueue_tail
enqueued k m t nx e = ap (λ z. set_waiters z m (tcb_enqueue_tail k (k.mutexes m).waiters t).1) e

-- mutex_lock on a mutex that another task owns: the calling task goes to the end of the wait list, off
-- its ready ring and into the state BLOCKED. The owner's priority is raised to the highest of the
-- waiting tasks', and so no waiting task `p` has a higher one than the owner; a READY owner moves to
-- the ring of its new bucket.
pub mutex_lock-waits :
    (k : Kernel) (m : Ptr) (timeout : ℕ) (p : Ptr) {q : Queues} {xs : List Ptr}
    → let self = k.current_tcb in
      let owner = (k.mutexes m).owner in
      let hp = least_of k.priority (xs ++ self ∷ []) in
      Ready k q
      → IsWaiting k.mutex_wait_next (k.mutexes m).waiters xs
      → m ≢ null
      → self ≢ null
      → owner ≢ null
      → self ≢ owner
      → (k.mutexes m).locked ≡ true
      → has self xs ≡ false
      → suc (length xs) < walk_fuel
      → k.prio_bucket self < num_priorities
      → k.prio_bucket owner < num_priorities
      → (is_ready (k.state owner) ≡ true → has owner (q (k.prio_bucket owner)) ≡ true)
      → suc (length (q (prio_bucket_of hp))) < walk_fuel
      → has p (xs ++ self ∷ []) ≡ true
      → (k' : Kernel) × (mutex_lock k m timeout ≡ some (waiting, k'))
        × ((k'.mutexes m).owner ≡ owner)
        × IsWaiting k'.mutex_wait_next (k'.mutexes m).waiters (xs ++ self ∷ [])
        × (k'.priority owner ≡ (if ltb hp (k.priority owner) then hp else k.priority owner))
        × (k'.priority owner ≤ k.priority p)
        × Ready k' (dequeue (boosted k q owner hp) (k.prio_bucket self) self)
        × (k'.state self ≡ blocked)
        × (k'.block_reason self ≡ block_mutex)
        × (k'.block_object self ≡ m)
        × (k'.blocked_on_mutex self ≡ m)
unfolding mark_blocked
mutex_lock-waits k m timeout p {q} {xs} r i m_ne self_ne owner_ne other locked off room self_in
      owner_in on space among =
    let self = k.current_tcb in
    let owner = (k.mutexes m).owner in
    let hp = least_of k.priority (xs ++ self ∷ []) in
    let c0 = set_blocked_on k self m in
    let w2 : WaitList = (tcb_enqueue_tail c0 (k.mutexes m).waiters self).1 in
    let (nx, e, listed, same) = enqueue-list c0 (k.mutexes m).waiters self self_ne xs i off room in
    let c1 = set_waiters (rewait c0 nx) m w2 in
    let v : c1.mutexes m ≡ record (k.mutexes m) { waiters = w2 } = update-at k.mutexes m _ in
    let held : (c1.mutexes m).owner ≡ owner = ap (λ (u : Mutex). u.owner) v in
    let i1 : IsWaiting nx (c1.mutexes m).waiters (xs ++ self ∷ []) =
      subst (λ (u : Mutex). IsWaiting nx u.waiters (xs ++ self ∷ [])) (sym v) listed in
    let (c2, up, (P, B, nx2, heads2, is, r2, pt, bp)) =
      boost-Boosted c1 owner hp self r owner_ne owner_in other on space in
    let c3 = relink (record c1 { priority = P; prio_bucket = B }) nx2 heads2 in
    let pi : apply_pi c1 m ≡ some c3 =
      apply_pi-snoc c1 m self xs i1 (λ z. owner_ne (sym held ∙ z))
      ∙ ap (λ o. boost c1 o hp) held
      ∙ up
      ∙ ap some is in
    let (nx3, heads3, blocks, r3) =
      rtos_block_current-Ready c3 timeout block_mutex m r2 self_ne
        (subst (λ b. b < num_priorities) (sym bp) self_in) in
    let low = least_of-le k.priority (xs ++ self ∷ []) p among in
    (
      record (relink (mark_blocked c3 self timeout block_mutex m) nx3 heads3) { pendsv = true },
      contends k m timeout m_ne self_ne other locked
          ∙ contended_steps k c1 c3 m self timeout _ (enqueued c0 m self nx e) pi blocks,
      held,
      i1,
      pt,
      ground arith,
      subst (λ b. Rings nx3 heads3 (dequeue (boosted k q owner hp) b self)) bp r3,
      update-at k.state self blocked,
      update-at k.block_reason self block_mutex,
      update-at k.block_object self m,
      update-at k.blocked_on_mutex self m,
    )
