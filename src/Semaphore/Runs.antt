-- ===== src/Semaphore/Runs.antt =====
-- Any sequence of the calls on a semaphore, timeouts and context switches.
use microkernel_rtos.Common.{
  ℕ, ◌<◌, ◌≡◌, ◌≢◌, List, true, false, not, Option, some, has, length, arith, sym, subst, ◌∙◌,
}
use microkernel_rtos.Links.{Ptr, null}
use microkernel_rtos.Kernel.{Kernel, Status, is_blocked, is_running, walk_fuel}
use microkernel_rtos.Scheduler.{scheduler_get_next}
use microkernel_rtos.Scheduler.Invariant.{Queues, Ready}
use microkernel_rtos.Blocking.{Wait}
use microkernel_rtos.Semaphore.{wait_resume, semaphore_wait, semaphore_post, semaphore_wake_timeout}
use microkernel_rtos.Semaphore.Waits.{IsValid}
use microkernel_rtos.Semaphore.Shared.{Shared}
use microkernel_rtos.Semaphore.Calls.{
  Continues, same_call, round-Continues, resume-Continues, timeout-Continues, switch-Continues,
  post-Continues,
}

-- What happens to the tasks `ts` that share the semaphore `sem`. The current task calls
-- semaphore_wait, or goes on with it; anyone posts; the wait of a task ends; the processor is given to
-- another task. The idle task does not wait. Each of these is one step: semaphore_wait is not interrupted
-- between _wait_enqueue and the end of rtos_block_current.
pub data Step (sem : Ptr) (ts : List Ptr) : Kernel → Kernel → Type 0 where
  waits :
      (k k' : Kernel) (timeout : ℕ) (w : Wait)
      → is_running (k.state k.current_tcb) ≡ true
      → k.current_tcb ≢ k.idle_tcb
      → semaphore_wait k sem timeout ≡ some (w, k')
      → Step sem ts k k'
  resumes :
      (k k' : Kernel) (timeout : ℕ) (w : Wait)
      → is_running (k.state k.current_tcb) ≡ true
      → k.current_tcb ≢ k.idle_tcb
      → wait_resume k sem k.current_tcb timeout ≡ some (w, k')
      → Step sem ts k k'
  posts : (k k' : Kernel) (st : Status) → semaphore_post k sem ≡ some (st, k') → Step sem ts k k'
  times_out :
      (k k' : Kernel) (t : Ptr)
      → has t ts ≡ true
      → is_blocked (k.state t) ≡ true
      → k.block_object t ≡ sem
      → semaphore_wake_timeout k t ≡ some k'
      → Step sem ts k k'
  switches : (k k' : Kernel) (t : Ptr) → scheduler_get_next k ≡ some (t, k') → Step sem ts k k'

-- The rings and the wait list that hold all tasks.
abbrev pub Held : Ptr → List Ptr → Kernel → Type 0
Held sem ts k = (q : Queues) × (xs : List Ptr) × Shared sem ts k q xs

same_kernel :
    {A : Type 0} {sem : Ptr} {ts : List Ptr} {o : Option (A × Kernel)} {a : A} {k' : Kernel}
    → Continues sem ts o
    → o ≡ some (a, k')
    → Held sem ts k'
same_kernel {A} {sem} {ts} {o} {a} {k'} (b, k1, q, xs, e, s) e' =
    let both : ◌≡◌ {A = Option (A × Kernel)} (some (b, k1)) (some (a, k')) = sym e ∙ e' in
    let same : k1 ≡ k' = cc in (q, xs, subst (λ c. Shared sem ts c q xs) same s)

same_after :
    {sem : Ptr} {ts : List Ptr} {o : Option Kernel} {k' : Kernel}
    → ((k1 : Kernel) × (q : Queues) × (xs : List Ptr) × (o ≡ some k1) × Shared sem ts k1 q xs)
    → o ≡ some k'
    → Held sem ts k'
same_after {sem} {ts} {o} {k'} (k1, q, xs, e, s) e' =
    let both : ◌≡◌ {A = Option Kernel} (some k1) (some k') = sym e ∙ e' in
    let same : k1 ≡ k' = cc in (q, xs, subst (λ c. Shared sem ts c q xs) same s)

-- The states that steps from `k0` lead to.
pub data Reached (sem : Ptr) (ts : List Ptr) (k0 : Kernel) : Kernel → Type 0 where
  begins : Reached sem ts k0 k0
  goes_on : (k k' : Kernel) → Reached sem ts k0 k → Step sem ts k k' → Reached sem ts k0 k'

module _ (sem : Ptr) (ts : List Ptr) (sem_ne : sem ≢ null) (small : length ts < walk_fuel)
    (no_null : has null ts ≡ false) where
  Step-Held : (k k' : Kernel) → Step sem ts k k' → Held sem ts k → Held sem ts k'
  Step-Held k0 k0' (waits k k' timeout w runs ni ran) (q, xs, s) =
      same_kernel (round-Continues sem ts sem_ne small no_null s timeout runs ni)
        (sym (same_call sem ts sem_ne small no_null s timeout) ∙ ran)
  Step-Held k0 k0' (resumes k k' timeout w runs ni ran) (q, xs, s) =
      same_kernel (resume-Continues sem ts sem_ne small no_null s timeout runs ni) ran
  Step-Held k0 k0' (posts k k' st ran) (q, xs, s) =
      same_kernel (post-Continues sem ts sem_ne small no_null s) ran
  Step-Held k0 k0' (times_out k k' t known stands at ran) (q, xs, s) =
      same_after (timeout-Continues sem ts sem_ne small no_null s t known stands at) ran
  Step-Held k0 k0' (switches k k' t ran) (q, xs, s) =
      same_kernel (switch-Continues sem ts sem_ne small no_null s) ran

  Reached-Held : (k0 k : Kernel) → Held sem ts k0 → Reached sem ts k0 k → Held sem ts k
  Reached-Held k0 k h begins = h
  Reached-Held k0 k h (goes_on c k1 r step) = Step-Held c k1 step (Reached-Held k0 c h r)

  -- Where each call is one step, so that nothing runs between the moment at which semaphore_wait
  -- puts its task on the wait list and the moment at which that task is BLOCKED (LostWake has a
  -- post in that gap), and from a state in which each of fewer than 64 tasks is on its ready ring
  -- or on the wait list: in any sequence of these steps of semaphore_wait and semaphore_post, of
  -- timeouts and of context switches, no task is lost and none is in two places: a task is on the
  -- ready ring of its bucket when it is not BLOCKED, and on the wait list when it is; the count is
  -- within its bound; and the next semaphore_post and the next scheduler_get_next return.
  pub Reached-each_task :
      (k0 k : Kernel) (t : Ptr) {q0 : Queues} {xs0 : List Ptr}
      → Shared sem ts k0 q0 xs0
      → Reached sem ts k0 k
      → has t ts ≡ true
      → (q : Queues) × (xs : List Ptr) × Ready k q
        × IsValid k sem xs
        × (has t (q (k.prio_bucket t)) ≡ not (is_blocked (k.state t)))
        × (has t xs ≡ is_blocked (k.state t))
        × Continues sem ts (semaphore_post k sem)
        × Continues sem ts (scheduler_get_next k)
  Reached-each_task k0 k t {q0} {xs0} s0 r known =
      let (q, xs, s) = Reached-Held k0 k (q0, xs0, s0) r in
      let state = s.state t known in
      (
        q,
        xs,
        s.rings,
        s.valid,
        ground (arith, s.on_ring t (k.prio_bucket t), known, state),
        sym state,
        post-Continues sem ts sem_ne small no_null s,
        switch-Continues sem ts sem_ne small no_null s,
      )
