-- ===== src/Semaphore/Waits.antt =====
-- semaphore_wait and semaphore_post on a semaphore whose waiting tasks are `xs`, longest first.
use microkernel_rtos.Common.{
  ℕ, suc, ◌+◌, ◌%◌, ◌≤◌, ◌<◌, ◌≡◌, ◌≢◌, refl, List, [], ◌∷◌, ◌++◌, true, false, some, ltb, leb, has,
  length, arith, ==-false, ◌∙◌, sym, subst, ap,
}
use microkernel_rtos.Links.{Ptr, null, update, update-at, update-update}
use microkernel_rtos.Kernel.{
  Kernel, ok, err_full, ready, blocked, block_semaphore, Semaphore, WaitList, num_priorities,
  walk_fuel, uint32_mod,
}
use microkernel_rtos.Scheduler.{scheduler_mark_reschedule}
use microkernel_rtos.Scheduler.Invariant.{Queues, Ready, relink}
use microkernel_rtos.Scheduler.Insert.{enqueue}
use microkernel_rtos.Scheduler.Remove.{dequeue}
use microkernel_rtos.Waiting.{tcb_enqueue_tail, tcb_pop_head}
use microkernel_rtos.Waiting.Chains.{IsWaiting, rewait, enqueue-list, pop-list, pop-empty}
use microkernel_rtos.Blocking.{waiting, mark_blocked, wake_time_after, clear_block}
use microkernel_rtos.Blocking.Rings.{
  MayRun, Moved, woken, wake_task-Ready, rtos_block_current-Ready,
}
use microkernel_rtos.Semaphore.{
  set_count, set_waiters, wait_enqueue, wait_pop_head, wait_round, semaphore_wait, wake_if,
  semaphore_post,
}

-- The count is within its bound, and the tasks `xs` wait.
pub record IsValid (k : Kernel) (sem : Ptr) (xs : List Ptr) : Type 0 where
  pub within : (k.semaphores sem).count ≤ (k.semaphores sem).max_count
  pub bounded : (k.semaphores sem).max_count < uint32_mod
  pub waits : IsWaiting k.mutex_wait_next (k.semaphores sem).waiters xs

abbrev pub count_of : Kernel → Ptr → ℕ
count_of k sem = (k.semaphores sem).count

-- Validity of `k'`, where `s` is what it holds at `sem`.
pub IsValid-at :
    (k' : Kernel) (sem : Ptr) (s : Semaphore) {xs : List Ptr}
    → k'.semaphores sem ≡ s
    → s.count ≤ s.max_count
    → s.max_count < uint32_mod
    → IsWaiting k'.mutex_wait_next s.waiters xs
    → IsValid k' sem xs
IsValid-at k' sem s {xs} e le small waits = record {
  within = omega (arith, ap (λ (v : Semaphore). v.count) e, ap (λ (v : Semaphore). v.max_count) e);
  bounded = omega (arith, ap (λ (v : Semaphore). v.max_count) e);
  waits = subst (λ (v : Semaphore). IsWaiting k'.mutex_wait_next v.waiters xs) (sym e) waits;
}

-- semaphore_wait on a semaphore that is not available: the calling task goes to the end of the wait
-- list, off its ready ring and into the state BLOCKED on that semaphore; the count and the other
-- tasks' states stay.
pub semaphore_wait-blocks :
    (k : Kernel) (sem : Ptr) (timeout : ℕ) {q : Queues} {xs : List Ptr}
    → let self = k.current_tcb in
      Ready k q
      → IsValid k sem xs
      → sem ≢ null
      → self ≢ null
      → k.prio_bucket self < num_priorities
      → count_of k sem ≡ 0
      → has self xs ≡ false
      → suc (length xs) < walk_fuel
      → (k' : Kernel) × (semaphore_wait k sem timeout ≡ some (waiting, k'))
        × IsValid k' sem (xs ++ self ∷ [])
        × (count_of k' sem ≡ 0)
        × Ready k' (dequeue q (k.prio_bucket self) self)
        × (k'.state self ≡ blocked)
        × (k'.block_reason self ≡ block_semaphore)
        × (k'.block_object self ≡ sem)
        × (k'.wake_time self ≡ wake_time_after k timeout)
        × (k'.pendsv ≡ true)
        × Moved k k' self blocked
unfolding semaphore_wait wait_round wait_enqueue mark_blocked wake_time_after
semaphore_wait-blocks k sem timeout {xs} r v sem_ne self_ne in_range none_left off room =
    let self = k.current_tcb in
    let w = (k.semaphores sem).waiters in
    let (nx, e, listed, same) = enqueue-list k w self self_ne xs v.waits off room in
    let c = set_waiters (rewait k nx) sem (tcb_enqueue_tail k w self).1 in
    let (rx, heads, e', r') =
      rtos_block_current-Ready c timeout block_semaphore sem r self_ne in_range in
    let empty : ltb 0 (count_of k sem) ≡ false = ground arith in
    (
      record (relink (mark_blocked c self timeout block_semaphore sem) rx heads) { pendsv = true },
      rw (==-false sem_ne, ==-false self_ne, empty) (rw (e, e') refl),
      IsValid-at _ sem _ (update-at k.semaphores sem _) v.within v.bounded listed,
      ground arith,
      r',
      ground arith,
      ground arith,
      ground arith,
      ground arith,
      refl,
      record { state = refl; bucket = refl; current = refl; idle = refl },
    )

-- The two writes of semaphore_post to the semaphore, as one.
abbrev pub counted : (k : Kernel) (sem : Ptr) → ℕ → WaitList → Kernel
counted k sem n w = record k {
  semaphores = update k.semaphores sem (record (k.semaphores sem) { count = n; waiters = w });
}

set_waiters-set_count :
    (k : Kernel) (sem : Ptr) (n : ℕ) (w : WaitList)
    → set_waiters (set_count k sem n) sem w ≡ counted k sem n w
set_waiters-set_count k sem n w =
    let f = k.semaphores in
    let u : Semaphore = record (f sem) { count = n } in
    ap (λ s. record k { semaphores = s })
      (ap (λ (s : Semaphore). update (update f sem u) sem (record s { waiters = w }))
          (update-at f sem u)
        ∙ update-update f sem u (record u { waiters = w }))

-- _wait_pop_head just after the count has been written.
pub pop_counted :
    (k : Kernel) (sem : Ptr) (n : ℕ) {t : Ptr} {nx : Ptr → Ptr} {w : WaitList}
    → tcb_pop_head (set_count k sem n) (k.semaphores sem).waiters
      ≡ (t, rewait (set_count k sem n) nx, w)
    → wait_pop_head (set_count k sem n) sem ≡ (t, counted (rewait k nx) sem n w)
unfolding wait_pop_head
pop_counted k sem n {t} {nx} {w} e =
    ap
      (λ (s : Semaphore).
        let (t, k', w) = tcb_pop_head (set_count k sem n) s.waiters in (t, set_waiters k' sem w))
      (update-at k.semaphores sem _)
    ∙ ap (λ (r : Ptr × Kernel × WaitList). (r.0, set_waiters r.1 sem r.2)) e
    ∙ ap (λ c. (t, c)) (set_waiters-set_count (rewait k nx) sem n w)

-- A count that is at its bound cannot be posted: semaphore_post reports it and changes nothing.
pub semaphore_post-full :
    (k : Kernel) (sem : Ptr)
    → sem ≢ null
    → (k.semaphores sem).max_count ≤ count_of k sem
    → semaphore_post k sem ≡ some (err_full, k)
unfolding semaphore_post
semaphore_post-full k sem ne full =
    let at_bound : leb (k.semaphores sem).max_count (count_of k sem) ≡ true = ground arith in
    rw (==-false ne, at_bound) refl

-- semaphore_post with nobody waiting: the count goes up by one, and no task is touched.
pub semaphore_post-counts :
    (k : Kernel) (sem : Ptr)
    → IsValid k sem []
    → sem ≢ null
    → count_of k sem < (k.semaphores sem).max_count
    → semaphore_post k sem
      ≡ some (ok, record (set_count k sem (count_of k sem + 1)) { pendsv = true })
unfolding semaphore_post wake_if scheduler_mark_reschedule
semaphore_post-counts k sem v ne room =
    let n = (count_of k sem + 1) % uint32_mod in
    let w = (k.semaphores sem).waiters in
    let small : n ≡ count_of k sem + 1 = omega (arith, v.within, v.bounded) in
    let open_ : leb (k.semaphores sem).max_count (count_of k sem) ≡ false = ground arith in
    let popped = pop_counted k sem n (pop-empty (set_count k sem n) w v.waits) in
    rw (==-false ne, open_)
      (rw popped (ap (λ m. some (ok, record (set_count k sem m) { pendsv = true })) small))

-- semaphore_post with tasks waiting: the one that has waited longest leaves the wait list, becomes
-- READY and goes to the end of its ready ring; the count goes up by one for it to take, and the other
-- tasks' states stay.
pub semaphore_post-wakes :
    (k : Kernel) (sem : Ptr) {q : Queues} {x : Ptr} {xs : List Ptr}
    → Ready k q
    → IsValid k sem (x ∷ xs)
    → MayRun k.prio_bucket q x
    → sem ≢ null
    → count_of k sem < (k.semaphores sem).max_count
    → (k' : Kernel) × (semaphore_post k sem ≡ some (ok, k'))
      × IsValid k' sem xs
      × (count_of k' sem ≡ count_of k sem + 1)
      × Ready k' (enqueue q (k.prio_bucket x) x)
      × (k'.state x ≡ ready)
      × (k'.block_wake_status ≡ k.block_wake_status)
      × (k'.pendsv ≡ true)
      × Moved k k' x ready
unfolding semaphore_post wake_if scheduler_mark_reschedule clear_block
semaphore_post-wakes k sem {q} {x} {xs} r v m ne room =
    let n = (count_of k sem + 1) % uint32_mod in
    let w = (k.semaphores sem).waiters in
    let small : n ≡ count_of k sem + 1 = omega (arith, v.within, v.bounded) in
    let open_ : leb (k.semaphores sem).max_count (count_of k sem) ≡ false = ground arith in
    let (first, (nx, e, listed, same)) = pop-list (set_count k sem n) w x xs v.waits in
    let w2 : WaitList = (tcb_pop_head (set_count k sem n) w).2 in
    let popped = pop_counted k sem n (λ i. (first i, e i, w2)) in
    let c = counted (rewait k nx) sem n w2 in
    let (rx, heads, e', r') = wake_task-Ready c x r m in
    (
      record (woken c x rx heads) { pendsv = true },
      rw (==-false ne, open_) (rw (popped, ==-false m.ne_null) (rw e' refl)),
      IsValid-at _ sem _ (update-at k.semaphores sem _) (omega arith) v.bounded listed,
      ap (λ (s : Semaphore). s.count) (update-at k.semaphores sem _) ∙ small,
      r',
      ground arith,
      refl,
      refl,
      record { state = refl; bucket = refl; current = refl; idle = refl },
    )
