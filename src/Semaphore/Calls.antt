-- ===== src/Semaphore/Calls.antt =====
-- Every call on a semaphore that all tasks share returns and leaves them shared.
use microkernel_rtos.Common.{
  ℕ, ◌+◌, ◌-◌, ◌≤◌, ◌<◌, ◌≡◌, ◌≢◌, refl, List, [], ◌∷◌, ◌++◌, true, false, Bool, Option, some, ltb,
  has, erase, length, arith, sym, subst, ◌∙◌, ap, ==-false, ==_refl, Bool-cases, inl, inr, dec_lt,
}
use microkernel_rtos.Links.{Ptr, null, update-at}
use microkernel_rtos.Kernel.{
  Kernel, ok, err_full, err_timeout, is_blocked, is_running, is_timeout, num_priorities, walk_fuel,
}
use microkernel_rtos.Scheduler.{scheduler_get_next}
use microkernel_rtos.Scheduler.Invariant.{Queues}
use microkernel_rtos.Scheduler.Dispatch.{scheduler_get_next-Highest}
use microkernel_rtos.Scheduler.Progress.{highest-or-empty}
use microkernel_rtos.Blocking.{returned, waiting, block_outcome}
use microkernel_rtos.Semaphore.{
  set_count, wait_round, wait_again, wait_resume, semaphore_wait, semaphore_post,
  semaphore_wake_timeout,
}
use microkernel_rtos.Semaphore.Waits.{
  IsValid, IsValid-at, count_of, semaphore_wait-blocks, semaphore_post-full, semaphore_post-counts,
  semaphore_post-wakes,
}
use microkernel_rtos.Semaphore.Timeout.{semaphore_wake_timeout-returns}
use microkernel_rtos.Semaphore.Shared.{Shared, may_run, may_wait}
use microkernel_rtos.Semaphore.Moves.{
  Shared-woken, Shared-blocked, Shared-same, Shared-switched, running_unblocked,
}

-- A call returns, with some ready rings and a wait list that all tasks are on.
abbrev pub Continues : {A : Type 0} → Ptr → List Ptr → Option (A × Kernel) → Type 0
Continues {A} sem ts o =
    (a : A) × (k' : Kernel) × (q : Queues) × (xs : List Ptr) × (o ≡ some (a, k'))
    × Shared sem ts k' q xs

module _ (sem : Ptr) (ts : List Ptr) (sem_ne : sem ≢ null) (small : length ts < walk_fuel)
    (no_null : has null ts ≡ false) {k : Kernel} {q : Queues} {xs : List Ptr}
    (s : Shared sem ts k q xs) where
  -- The count is `n` now.
  recounted :
      (n : ℕ) (pend : Bool)
      → n ≤ (k.semaphores sem).max_count
      → Shared sem ts (record (set_count k sem n) { pendsv = pend }) q xs
  recounted n pend le =
      Shared-same s (record (set_count k sem n) { pendsv = pend }) s.rings
        (IsValid-at _ sem _ (update-at k.semaphores sem _) le s.valid.bounded s.valid.waits) refl
        refl refl refl

  post-from :
      (ys : List Ptr)
      → xs ≡ ys
      → count_of k sem < (k.semaphores sem).max_count
      → Continues sem ts (semaphore_post k sem)
  post-from [] e room = (
    ok,
    record (set_count k sem (count_of k sem + 1)) { pendsv = true },
    q,
    xs,
    semaphore_post-counts k sem (subst (IsValid k sem) e s.valid) sem_ne room,
    recounted (count_of k sem + 1) true (omega (arith, room)),
  )
  post-from (x ∷ zs) e room =
      let on : has x xs ≡ true = subst (λ v. has x v ≡ true) (sym e) (ground arith) in
      let rest : erase x xs ≡ zs = ap (erase x) e ∙ rw (==_refl x) refl in
      let (k', ran, v, c, r, now, st, pend, m) =
        semaphore_post-wakes k sem s.rings (subst (IsValid k sem) e s.valid)
          (may_run s small no_null x on) sem_ne room in
      (ok, k', _, erase x xs, ran, Shared-woken s k' x on r (subst (IsValid k' sem) (sym rest) v) m)

  pub post-Continues : Continues sem ts (semaphore_post k sem)
  post-Continues = elim (dec_lt (count_of k sem) ((k.semaphores sem).max_count)) [
    | no full ↦ (err_full, k, q, xs, semaphore_post-full k sem sem_ne (omega arith), s)
    | yes room ↦ post-from xs refl room
  ]

  current_ne : k.current_tcb ≢ null
  current_ne e = absurd (ground (arith, subst (λ v. has v ts ≡ true) e s.current))

  pub same_call :
      (timeout : ℕ) → semaphore_wait k sem timeout ≡ wait_round k sem k.current_tcb timeout
  unfolding semaphore_wait
  same_call timeout = rw (==-false sem_ne, ==-false current_ne) refl

  pub round-Continues :
      (timeout : ℕ)
      → is_running (k.state k.current_tcb) ≡ true
      → k.current_tcb ≢ k.idle_tcb
      → Continues sem ts (wait_round k sem k.current_tcb timeout)
  unfolding wait_round
  round-Continues timeout runs ni = elim (dec_lt 0 (count_of k sem)) [
    | yes left ↦
        let some_left : ltb 0 (count_of k sem) ≡ true = ground arith in
        (
          returned ok,
          set_count k sem (count_of k sem - 1),
          q,
          xs,
          rw some_left refl,
          recounted (count_of k sem - 1) k.pendsv (omega (arith, s.valid.within)),
        )
    | no empty ↦
        let self = k.current_tcb in
        let awake : has self xs ≡ false =
          sym (s.state self s.current) ∙ running_unblocked (k.state self) runs in
        let (k', ran, v, c, r, b, why, obj, wake, pend, m) =
          semaphore_wait-blocks k sem timeout s.rings s.valid sem_ne current_ne
            (s.in_range self s.current) (omega arith) awake
            (may_wait s small no_null self s.current awake) in
        (
          waiting,
          k',
          _,
          xs ++ self ∷ [],
          sym (same_call timeout) ∙ ran,
          Shared-blocked s k' self s.current awake ni r v m,
        )
  ]

  pub resume-Continues :
      (timeout : ℕ)
      → is_running (k.state k.current_tcb) ≡ true
      → k.current_tcb ≢ k.idle_tcb
      → Continues sem ts (wait_resume k sem k.current_tcb timeout)
  unfolding wait_resume block_outcome wait_again
  resume-Continues timeout runs ni =
      let awake = running_unblocked (k.state k.current_tcb) runs in
      elim (Bool-cases (is_timeout (k.block_wake_status k.current_tcb))) [
        | inl late ↦ (returned err_timeout, k, q, xs, rw (awake, late) refl, s)
        | inr in_time ↦
            let (w, k', q', xs', ran, s') = round-Continues timeout runs ni in
            (w, k', q', xs', rw (awake, in_time) ran, s')
      ]

  pub timeout-Continues :
      (t : Ptr)
      → has t ts ≡ true
      → is_blocked (k.state t) ≡ true
      → k.block_object t ≡ sem
      → (k' : Kernel) × (q' : Queues) × (xs' : List Ptr) × (semaphore_wake_timeout k t ≡ some k')
        × Shared sem ts k' q' xs'
  timeout-Continues t known stands at =
      let on : has t xs ≡ true = sym (s.state t known) ∙ stands in
      let (k', ran, v, c, r, now, late, m) =
        semaphore_wake_timeout-returns k t 0 s.rings (subst (λ o. IsValid k o xs) (sym at) s.valid)
          (may_run s small no_null t on) (λ z. sem_ne (sym at ∙ z)) in
      (
        k',
        _,
        erase t xs,
        ran,
        Shared-woken s k' t on r (subst (λ o. IsValid k' o (erase t xs)) at v) m,
      )

  pub switch-Continues : Continues sem ts (scheduler_get_next k)
  switch-Continues = elim (highest-or-empty num_priorities q (omega arith)) [
    | inl empty ↦
        let b = k.prio_bucket k.idle_tcb in
        let gone : q b ≡ [] = empty b (s.in_range k.idle_tcb s.idle) in
        absurd
          (ground (arith, s.on_ring k.idle_tcb b, s.idle, s.idle_runs, ap (has k.idle_tcb) gone))
    | inr (b, x, ys, lt, h) ↦
        let (k', ran, r, current, slice, st, u) = scheduler_get_next-Highest k s.rings h in
        (x, k', _, xs, ran, Shared-switched s k' b x ys h r current st u)
  ]
