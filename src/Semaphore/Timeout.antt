-- ===== src/Semaphore/Timeout.antt =====
-- The two ways in which semaphore_wait ends for a task that has blocked: a post, or a timeout.
use microkernel_rtos.Common.{ℕ, ◌≡◌, ◌≢◌, refl, List, some, erase, ==-false, ap}
use microkernel_rtos.Links.{Ptr, null, update, update-at}
use microkernel_rtos.Kernel.{Kernel, err_timeout, ready, Semaphore, WaitList}
use microkernel_rtos.Scheduler.Invariant.{Queues, Ready}
use microkernel_rtos.Scheduler.Insert.{enqueue}
use microkernel_rtos.Waiting.Chains.{IsWaiting, rewait}
use microkernel_rtos.Waiting.Unlink.{tcb_unlink-list}
use microkernel_rtos.Blocking.{returned, block_outcome, clear_block, wake_timed_out}
use microkernel_rtos.Blocking.Rings.{MayRun, Moved, woken, wake_task-Ready}
use microkernel_rtos.Semaphore.{set_waiters, wait_unlink, wait_resume, semaphore_wake_timeout}
use microkernel_rtos.Semaphore.Waits.{IsValid, count_of, IsValid-at}

-- _wait_unlink on a valid semaphore.
pub wait_unlink-list :
    (k : Kernel) (sem t : Ptr) (xs : List Ptr)
    → IsWaiting k.mutex_wait_next (k.semaphores sem).waiters xs
    → sem ≢ null
    → t ≢ null
    → (nx : Ptr → Ptr) × (w : WaitList) × (wait_unlink k sem t
        ≡ some (set_waiters (rewait k nx) sem w))
      × IsWaiting nx w (erase t xs)
unfolding wait_unlink
wait_unlink-list k sem t xs i sem_ne t_ne =
    let ((k', w), e, (nx, e', listed, same)) =
      tcb_unlink-list k (k.semaphores sem).waiters t xs t_ne i in
    (nx, w, rw (==-false sem_ne, e) (ap (λ c. some (set_waiters c sem w)) e'), listed)

-- A timeout takes the task off the wait list of the semaphore that it is blocked on, wherever it
-- stands there, and makes it READY; the count and the other tasks' states stay, and semaphore_wait
-- then returns
-- RTOS_ERR_TIMEOUT.
pub semaphore_wake_timeout-returns :
    (k : Kernel) (t : Ptr) (timeout : ℕ) {q : Queues} {xs : List Ptr}
    → let sem = k.block_object t in
      Ready k q
      → IsValid k sem xs
      → MayRun k.prio_bucket q t
      → sem ≢ null
      → (k' : Kernel) × (semaphore_wake_timeout k t ≡ some k')
        × IsValid k' sem (erase t xs)
        × (count_of k' sem ≡ count_of k sem)
        × Ready k' (enqueue q (k.prio_bucket t) t)
        × (k'.state t ≡ ready)
        × (wait_resume k' sem t timeout ≡ some (returned err_timeout, k'))
        × Moved k k' t ready
unfolding semaphore_wake_timeout wake_timed_out clear_block wait_resume block_outcome
semaphore_wake_timeout-returns k t timeout {xs} r v m sem_ne =
    let sem = k.block_object t in
    let (nx, w, e, listed) = wait_unlink-list k sem t xs v.waits sem_ne m.ne_null in
    let c = record (set_waiters (rewait k nx) sem w) {
      block_wake_status = update k.block_wake_status t err_timeout;
    } in
    let (rx, heads, e', r') = wake_task-Ready c t r m in
    let k' = woken c t rx heads in
    let now : k'.state t ≡ ready = update-at k.state t ready in
    let late : k'.block_wake_status t ≡ err_timeout = update-at k.block_wake_status t err_timeout in
    (
      k',
      rw (==-false m.ne_null) (rw (e, e') refl),
      IsValid-at k' sem _ (update-at k.semaphores sem _) v.within v.bounded listed,
      ap (λ (s : Semaphore). s.count) (update-at k.semaphores sem _),
      r',
      now,
      rw (now, late) refl,
      record { state = refl; bucket = refl; current = refl; idle = refl },
    )
