-- ===== src/Semaphore/LostWake.antt =====
-- What the gap in semaphore_wait between enabling interrupts and blocking makes possible: the calling task
-- is on the wait list and still on its ready ring when an interrupt posts.
use microkernel_rtos.Common.{
  ℕ, ◌+◌, ◌%◌, ◌<◌, ◌≡◌, ◌≢◌, refl, List, [], ◌∷◌, true, false, some, ◌==◌, leb, has, erase, last,
  length, arith, ap, ◌∙◌, sym, subst, ==-false, has-erase_self, dec_lt,
}
use microkernel_rtos.Links.{Ptr, null, update, update-at, update-same, update-update, Chain}
use microkernel_rtos.Kernel.{
  Kernel, Status, TaskState, Semaphore, WaitList, ok, err_full, ready, blocked, block_semaphore,
  num_priorities, walk_fuel, wait_forever, uint32_mod, uint32_max,
}
use microkernel_rtos.Scheduler.{
  ring_tail, ring_insert, scheduler_add_task, scheduler_mark_reschedule,
}
use microkernel_rtos.Scheduler.Rings.{Ring, ring_tail-last}
use microkernel_rtos.Scheduler.Invariant.{Queues, Ready, relink}
use microkernel_rtos.Scheduler.Insert.{mark_ready_again}
use microkernel_rtos.Scheduler.Remove.{dequeue}
use microkernel_rtos.Waiting.{tcb_enqueue_tail, tcb_pop_head}
use microkernel_rtos.Waiting.Chains.{rewait, enqueue-list, pop-list}
use microkernel_rtos.Blocking.{
  waiting, wake_time_after, mark_blocked, rtos_block_current, clear_block, wake_task,
}
use microkernel_rtos.Blocking.Rings.{rtos_block_current-Ready}
use microkernel_rtos.Semaphore.{set_count, set_waiters, wait_enqueue, wake_if, semaphore_post}
use microkernel_rtos.Semaphore.Shared.{Ring-Distinct}
use microkernel_rtos.Semaphore.Waits.{
  IsValid, IsValid-at, count_of, counted, pop_counted, semaphore_post-full, semaphore_post-counts,
}

Chain-last :
    (nx : Ptr → Ptr) (p x q : Ptr) (xs : List Ptr) → Chain nx p (x ∷ xs) q → nx (last x xs) ≡ q
Chain-last nx p x q [] c = c.2
Chain-last nx p x q (y ∷ ys) c = Chain-last nx (nx x) y q ys c.2

module _ (k : Kernel) (b : ℕ) (x : Ptr) (xs : List Ptr) {q : Queues} (r : Ready k q)
    (is : q b ≡ x ∷ xs) where
  -- Inserting the last block of a ring again changes nothing.
  insert_last : ring_insert k b (last x xs) ≡ some k
  unfolding ring_insert
  insert_last =
      let old = subst (Ring k.next_ready (k.ready_head b)) is (r.rings b) in
      let full : (k.ready_head b == null) ≡ false = ==-false λ z. old.1.1 (sym (old.0) ∙ z) in
      let small : length xs < walk_fuel =
        omega (arith, subst (λ ys. length ys < walk_fuel) is (r.short b)) in
      let walked =
        subst (λ h. ring_tail walk_fuel k.next_ready h h ≡ some (last x xs)) (sym (old.0))
          (ring_tail-last k.next_ready walk_fuel x x xs (old.2.0) (old.1) small) in
      let back : k.next_ready (last x xs) ≡ k.ready_head b =
        Chain-last k.next_ready x x x xs old.1 ∙ sym (old.0) in
      rw (full, walked)
        (ap (λ f. some (record k { next_ready = f }))
          (update-update k.next_ready (last x xs) (last x xs) (k.ready_head b)
            ∙ ap (update k.next_ready (last x xs)) (sym back)
            ∙ update-same k.next_ready (last x xs)))

wake_last :
    (k : Kernel) (t x : Ptr) (xs : List Ptr) {q : Queues}
    → Ready k q
    → q (k.prio_bucket t) ≡ x ∷ xs
    → last x xs ≡ t
    → t ≢ null
    → wake_task k t ≡ some (clear_block k t)
unfolding wake_task clear_block scheduler_add_task
wake_last k t x xs {q} r is at ne =
    let c = clear_block k t in
    let now : c.state t ≡ ready = update-at k.state t ready in
    let same : ring_insert c (k.prio_bucket t) t ≡ some c =
      subst (λ u. ring_insert c (k.prio_bucket t) u ≡ some c) at
        (insert_last c (k.prio_bucket t) x xs r is) in
    rw (==-false ne, now, same) (ap some (mark_ready_again c t now))

-- A post to a semaphore that the last task of its own ready ring waits for, still RUNNING.
post_last :
    (k : Kernel) (sem t x : Ptr) (xs : List Ptr) {q : Queues}
    → Ready k q
    → IsValid k sem (t ∷ [])
    → q (k.prio_bucket t) ≡ x ∷ xs
    → last x xs ≡ t
    → sem ≢ null
    → t ≢ null
    → count_of k sem < (k.semaphores sem).max_count
    → (k' : Kernel) × (semaphore_post k sem ≡ some (ok, k'))
      × IsValid k' sem []
      × (count_of k' sem ≡ count_of k sem + 1)
      × ((k'.semaphores sem).max_count ≡ (k.semaphores sem).max_count)
      × Ready k' q
      × (k'.prio_bucket ≡ k.prio_bucket)
      × (k'.current_tcb ≡ k.current_tcb)
unfolding semaphore_post wake_if scheduler_mark_reschedule clear_block
post_last k sem t x xs r v is at sem_ne ne room =
    let n = (count_of k sem + 1) % uint32_mod in
    let w = (k.semaphores sem).waiters in
    let small : n ≡ count_of k sem + 1 = omega (arith, v.within, v.bounded) in
    let open_ : leb (k.semaphores sem).max_count (count_of k sem) ≡ false = ground arith in
    let (first, (nx, e, listed, same)) = pop-list (set_count k sem n) w t [] v.waits in
    let w2 : WaitList = (tcb_pop_head (set_count k sem n) w).2 in
    let popped = pop_counted k sem n (λ i. (first i, e i, w2)) in
    let c = counted (rewait k nx) sem n w2 in
    (
      record (clear_block c t) { pendsv = true },
      rw (==-false sem_ne, open_)
          (rw (popped, ==-false ne) (rw (wake_last c t x xs r is at ne) refl)),
      IsValid-at _ sem _ (update-at k.semaphores sem _) (omega arith) v.bounded listed,
      ap (λ (s : Semaphore). s.count) (update-at k.semaphores sem _) ∙ small,
      ap (λ (s : Semaphore). s.max_count) (update-at k.semaphores sem _),
      r,
      refl,
      refl,
    )

-- A post with nobody waiting leaves every task as it is.
post_unheard :
    (k : Kernel) (sem : Ptr)
    → IsValid k sem []
    → sem ≢ null
    → (st : Status) × (k' : Kernel) × (semaphore_post k sem ≡ some (st, k')) × (k'.state ≡ k.state)
post_unheard k sem v ne = elim (dec_lt (count_of k sem) ((k.semaphores sem).max_count)) [
  | yes room ↦ (
    ok,
    record (set_count k sem (count_of k sem + 1)) { pendsv = true },
    semaphore_post-counts k sem v ne room,
    refl,
  )
  | no full ↦ (err_full, k, semaphore_post-full k sem ne (omega arith), refl)
]

-- The task `t` of bucket `b` blocks on the semaphore for ever, and the next post leaves it BLOCKED.
abbrev Unheard : Kernel → Queues → Ptr → Ptr → ℕ → Type 0
Unheard k1 q sem t b =
    (k2 : Kernel) × (k3 : Kernel) × (st : Status) × (rtos_block_current k1 wait_forever
        block_semaphore sem
      ≡ some (waiting, k2))
    × (count_of k2 sem ≡ count_of k1 sem)
    × IsValid k2 sem []
    × Ready k2 (dequeue q b t)
    × (k2.wake_time t ≡ uint32_max)
    × (semaphore_post k2 sem ≡ some (st, k3))
    × (k3.state t ≡ blocked)

blocks :
    (k : Kernel) (sem : Ptr) {q : Queues}
    → let self = k.current_tcb in
      Ready k q
      → IsValid k sem []
      → sem ≢ null
      → self ≢ null
      → k.prio_bucket self < num_priorities
      → Unheard k q sem self (k.prio_bucket self)
unfolding mark_blocked wake_time_after
blocks k sem r v sem_ne ne in_range =
    let self = k.current_tcb in
    let (rx, heads, e, r') =
      rtos_block_current-Ready k wait_forever block_semaphore sem r ne in_range in
    let k2 : Kernel =
      record (relink (mark_blocked k self wait_forever block_semaphore sem) rx heads) {
        pendsv = true;
      } in
    let v2 : IsValid k2 sem [] = record {
      within = v.within;
      bounded = v.bounded;
      waits = v.waits;
    } in
    let (st, k3, posted, same) = post_unheard k2 sem v2 sem_ne in
    (
      k2,
      k3,
      st,
      e,
      refl,
      v2,
      r',
      update-at k.wake_time self uint32_max,
      posted,
      ap (λ (f : Ptr → TaskState). f self) same ∙ update-at k.state self blocked,
    )

-- A task that is the last of its ready ring calls semaphore_wait for ever at count 0, with nobody waiting. An
-- interrupt posts where interrupts are enabled behind _wait_enqueue, and semaphore_wait goes on with
-- rtos_block_current: the task is then BLOCKED although the count is 1, nobody is on the wait list, the task
-- is not on its ready ring, its wake-up tick is UINT32_MAX, and the next semaphore_post leaves it
-- BLOCKED.
pub semaphore_post-loses_wake :
    (k : Kernel) (sem x : Ptr) (xs : List Ptr) {q : Queues}
    → let self = k.current_tcb in
      Ready k q
      → IsValid k sem []
      → sem ≢ null
      → self ≢ null
      → k.prio_bucket self < num_priorities
      → q (k.prio_bucket self) ≡ x ∷ xs
      → last x xs ≡ self
      → count_of k sem ≡ 0
      → 0 < (k.semaphores sem).max_count
      → (k1 : Kernel) × (k2 : Kernel) × (k3 : Kernel) × (st : Status) × (semaphore_post
            (wait_enqueue k sem self)
            sem
          ≡ some (ok, k1))
        × (rtos_block_current k1 wait_forever block_semaphore sem ≡ some (waiting, k2))
        × (count_of k2 sem ≡ 1)
        × IsValid k2 sem []
        × Ready k2 (dequeue q (k.prio_bucket self) self)
        × (has self (dequeue q (k.prio_bucket self) self (k.prio_bucket self)) ≡ false)
        × (k2.wake_time self ≡ uint32_max)
        × (semaphore_post k2 sem ≡ some (st, k3))
        × (k3.state self ≡ blocked)
unfolding wait_enqueue mark_blocked wake_time_after
semaphore_post-loses_wake k sem x xs {q} r v sem_ne self_ne in_range is at none_left room =
    let self = k.current_tcb in
    let w = (k.semaphores sem).waiters in
    let (nx, e, listed, same) = enqueue-list k w self self_ne [] v.waits refl (omega arith) in
    let w2 : WaitList = (tcb_enqueue_tail k w self).1 in
    let c = set_waiters (rewait k nx) sem w2 in
    let here = update-at k.semaphores sem (record (k.semaphores sem) { waiters = w2 }) in
    let count : count_of c sem ≡ count_of k sem = ap (λ (s : Semaphore). s.count) here in
    let most : (c.semaphores sem).max_count ≡ (k.semaphores sem).max_count =
      ap (λ (s : Semaphore). s.max_count) here in
    let v1 : IsValid c sem (self ∷ []) = IsValid-at c sem _ here v.within v.bounded listed in
    let (k1, ran, v2, one, most1, r1, bucket, current) =
      post_last c sem self x xs r v1 is at sem_ne self_ne (omega (arith, count, most)) in
    let b = k.prio_bucket self in
    let off : has self (erase self (q b)) ≡ false =
      has-erase_self self (q b) (Ring-Distinct k.next_ready (k.ready_head b) (q b) (r.rings b)) in
    let moved =
      subst (λ t. Unheard k1 q sem t (k1.prio_bucket t)) current
        (blocks k1 sem r1 v2 sem_ne (λ z. self_ne (sym current ∙ z))
          (subst (λ t. k1.prio_bucket t < num_priorities) (sym current)
            (subst (λ (f : Ptr → ℕ). f self < num_priorities) (sym bucket) in_range))) in
    let (k2, k3, st, ran2, count2, v3, r3, wake, posted, still) =
      subst (λ (f : Ptr → ℕ). Unheard k1 q sem self (f self)) bucket moved in
    (
      k1,
      k2,
      k3,
      st,
      ap (λ z. semaphore_post (set_waiters z sem w2) sem) e ∙ ran,
      ran2,
      omega (arith, count2, one, count),
      v3,
      r3,
      ground (arith, off),
      wake,
      posted,
      still,
    )
