-- ===== src/Mutex/Runs.antt =====
-- Any sequence of the calls on a mutex, timeouts and context switches: who is between mutex_lock and
-- mutex_unlock.
use microkernel_rtos.Common.{
  ◌<◌, ◌≡◌, ◌≢◌, refl, sym, ap, ◌∙◌, subst, List, [], Bool, true, false, some, has, length, arith,
  ℕ, Bool-cases, inl, inr, ==-false, Whenever, Whenever-some,
}
use microkernel_rtos.Links.{Ptr, null, update, update-at}
use microkernel_rtos.Kernel.{Kernel, Mutex, Status, ok, is_blocked, is_timeout, walk_fuel}
use microkernel_rtos.Scheduler.{scheduler_get_next}
use microkernel_rtos.Scheduler.Kept.{Selects, scheduler_get_next-Selects}
use microkernel_rtos.Waiting.Chains.{IsWaiting, IsWaiting-frame}
use microkernel_rtos.Blocking.{Wait, block_outcome}
use microkernel_rtos.Mutex.{
  mutex_init, mutex_lock, lock_again, lock_resume, mutex_unlock, mutex_wake_timeout,
}
use microkernel_rtos.Mutex.Guarded.{Guarded, Guarded-Kept, Guarded-at, Held, entered, left}
use microkernel_rtos.Mutex.Exclusion.{Locked, lock_round-Locked}
use microkernel_rtos.Mutex.Release.{mutex_unlock-Unlocked, mutex_wake_timeout-Held}

-- From `k` to `k'` neither the mutex `m` nor a task that waits for it is touched.
pub record Elsewhere (m : Ptr) (k k' : Kernel) : Type 0 where
  pub mutex : k'.mutexes m ≡ k.mutexes m
  pub waiting :
      (t : Ptr)
      → is_blocked (k.state t) ≡ true
      → k.block_object t ≡ m
      → (k'.mutex_wait_next t ≡ k.mutex_wait_next t)
        × (is_blocked (k'.state t) ≡ true)
        × (k'.block_object t ≡ m)

-- What happens around the mutex `m`, which the tasks `ts` use, and who is inside before and after. The
-- current task, which is not BLOCKED, calls mutex_lock, goes on with it when it runs again, or calls
-- mutex_unlock; the wait of a task ends; the processor is given to a task that is not BLOCKED; or
-- something else happens that touches neither the mutex nor those that wait for it.
pub data Step (m : Ptr) (ts : List Ptr)
    : Kernel → (Ptr → Bool) → Kernel → (Ptr → Bool) → Type 0 where
  locks :
      (k k' : Kernel) (inside : Ptr → Bool) (timeout : ℕ) (w : Wait)
      → has k.current_tcb ts ≡ true
      → k.current_tcb ≢ null
      → is_blocked (k.state k.current_tcb) ≡ false
      → mutex_lock k m timeout ≡ some (w, k')
      → Step m ts k inside k' (entered inside k.current_tcb w)
  resumes :
      (k k' : Kernel) (inside : Ptr → Bool) (timeout : ℕ) (w : Wait)
      → has k.current_tcb ts ≡ true
      → k.current_tcb ≢ null
      → is_blocked (k.state k.current_tcb) ≡ false
      → lock_resume k m k.current_tcb timeout ≡ some (w, k')
      → Step m ts k inside k' (entered inside k.current_tcb w)
  unlocks :
      (k k' : Kernel) (inside : Ptr → Bool) (st : Status)
      → mutex_unlock k m ≡ some (st, k')
      → Step m ts k inside k' (left inside k.current_tcb st)
  times_out :
      (k k' : Kernel) (inside : Ptr → Bool) (t : Ptr)
      → t ≢ null
      → k.block_object t ≡ m
      → mutex_wake_timeout k t ≡ some k'
      → Step m ts k inside k' inside
  switches :
      (k k' : Kernel) (inside : Ptr → Bool) (t : Ptr)
      → is_blocked (k.state t) ≡ false
      → scheduler_get_next k ≡ some (t, k')
      → Step m ts k inside k' inside
  other : (k k' : Kernel) (inside : Ptr → Bool) → Elsewhere m k k' → Step m ts k inside k' inside

-- The states that steps from `k0` lead to, with nobody inside at first.
pub data Reached (m : Ptr) (ts : List Ptr) (k0 : Kernel) : Kernel → (Ptr → Bool) → Type 0 where
  begins : Reached m ts k0 k0 (λ t. false)
  goes_on :
      (k k' : Kernel) (inside inside' : Ptr → Bool)
      → Reached m ts k0 k inside
      → Step m ts k inside k' inside'
      → Reached m ts k0 k' inside'

module _ (m : Ptr) (ts : List Ptr) {k : Kernel} {inside : Ptr → Bool} {xs : List Ptr}
    (g : Guarded m ts k inside xs) where
  elsewhere-Guarded : (k' : Kernel) → Elsewhere m k k' → Guarded m ts k' inside xs
  elsewhere-Guarded k' e =
      Guarded-at k' (k.mutexes m) e.mutex
        (IsWaiting-frame k.mutex_wait_next k'.mutex_wait_next g.waits
          (λ t i. (e.waiting t (g.asleep t i) (g.object t i)).0))
        g.known (λ t i. (e.waiting t (g.asleep t i) (g.object t i)).1)
        (λ t i. (e.waiting t (g.asleep t i) (g.object t i)).2) g.owns g.owner_off g.free

  switched-Guarded : (t : Ptr) → Guarded m ts (record k { current_tcb = t }) inside xs
  switched-Guarded t = record {
    waits = g.waits;
    known = g.known;
    asleep = g.asleep;
    object = g.object;
    owns = g.owns;
    owner_off = g.owner_off;
    free = g.free;
  }

module _ (m : Ptr) (ts : List Ptr) (m_ne : m ≢ null) (small : length ts < walk_fuel) where
  lock-Locked :
      {k : Kernel} {inside : Ptr → Bool} {xs : List Ptr} (timeout : ℕ)
      → Guarded m ts k inside xs
      → has k.current_tcb ts ≡ true
      → k.current_tcb ≢ null
      → is_blocked (k.state k.current_tcb) ≡ false
      → Whenever (Locked m ts inside k.current_tcb) (mutex_lock k m timeout)
  unfolding mutex_lock
  lock-Locked timeout g member ne awake =
      rw (==-false m_ne, ==-false ne) (lock_round-Locked m ts small g member ne awake timeout)

  resume-Locked :
      {k : Kernel} {inside : Ptr → Bool} {xs : List Ptr} (timeout : ℕ)
      → Guarded m ts k inside xs
      → has k.current_tcb ts ≡ true
      → k.current_tcb ≢ null
      → is_blocked (k.state k.current_tcb) ≡ false
      → Whenever (Locked m ts inside k.current_tcb) (lock_resume k m k.current_tcb timeout)
  unfolding lock_resume block_outcome lock_again entered
  resume-Locked {k} {inside} {xs} timeout g member ne awake =
      elim (Bool-cases (is_timeout (k.block_wake_status k.current_tcb))) [
        | inl late ↦ rw (awake, late) (xs, g)
        | inr in_time ↦ rw (awake, in_time) (lock_round-Locked m ts small g member ne awake timeout)
      ]

  Step-Held :
      (k k' : Kernel) (inside inside' : Ptr → Bool)
      → Step m ts k inside k' inside'
      → Held m ts k inside
      → Held m ts k' inside'
  Step-Held k0 k0' in0 in1 (locks k k' inside timeout w member ne awake ran) (xs, g) =
      Whenever-some _ (lock-Locked timeout g member ne awake) ran
  Step-Held k0 k0' in0 in1 (resumes k k' inside timeout w member ne awake ran) (xs, g) =
      Whenever-some _ (resume-Locked timeout g member ne awake) ran
  Step-Held k0 k0' in0 in1 (unlocks k k' inside st ran) (xs, g) =
      Whenever-some _ (mutex_unlock-Unlocked m ts m_ne g) ran
  Step-Held k0 k0' in0 in1 (times_out k k' inside t ne at ran) (xs, g) =
      Whenever-some _ (mutex_wake_timeout-Held m ts m_ne g t ne at) ran
  Step-Held k0 k0' in0 in1 (switches k k' inside t awake ran) (xs, g) =
      let kept = Whenever-some (Selects k) (scheduler_get_next-Selects k) ran awake in
      (xs, Guarded-Kept kept (switched-Guarded m ts g t))
  Step-Held k0 k0' in0 in1 (other k k' inside e) (xs, g) = (xs, elsewhere-Guarded m ts g k' e)

  Reached-Held :
      (k0 k : Kernel) (inside : Ptr → Bool)
      → Held m ts k0 (λ t. false)
      → Reached m ts k0 k inside
      → Held m ts k inside
  Reached-Held k0 k inside h begins = h
  Reached-Held k0 k inside h (goes_on c c' in0 in1 r step) =
      Step-Held c c' in0 in1 step (Reached-Held k0 c in0 h r)

init-Held :
    (m : Ptr) (ts : List Ptr) (k k' : Kernel)
    → m ≢ null
    → mutex_init k m ≡ (ok, k')
    → Held m ts k' (λ t. false)
unfolding mutex_init
init-Held m ts k k' m_ne ran =
    let v : Mutex = record {
      locked = false;
      owner = null;
      waiters = record { wait_head = null; wait_tail = null };
    } in
    let c : Kernel = record k { mutexes = update k.mutexes m v } in
    let is : mutex_init k m ≡ (ok, c) = rw (==-false m_ne) refl in
    let same : c ≡ k' = ap (λ (r : Status × Kernel). r.1) (sym is ∙ ran) in
    subst (λ z. Held m ts z (λ t. false)) same
      (
        [],
        Guarded-at c v (update-at k.mutexes m v)
            (record { chain = refl; tail = refl; distinct = tt; short = omega arith })
            (λ t i. absurd (ground arith)) (λ t i. absurd (ground arith))
            (λ t i. absurd (ground arith)) (λ t i. absurd (ground arith)) (λ l. refl) (λ l. refl),
      )

-- From mutex_init on, in any sequence of the calls of fewer than 64 tasks on a mutex, of timeouts, of
-- context switches to tasks that are not BLOCKED, and of what does not touch the mutex or those that
-- wait for it: of two tasks that are between a mutex_lock that has returned RTOS_OK and the next
-- mutex_unlock that does, one is the other; such a task `s` owns the locked mutex and does not wait for
-- it; and every task `u` on the wait list is BLOCKED on the mutex.
pub Reached-exclusive :
    (m : Ptr) (ts : List Ptr) (k k0 k1 : Kernel) (inside : Ptr → Bool) (s t u : Ptr)
    → m ≢ null
    → length ts < walk_fuel
    → mutex_init k m ≡ (ok, k0)
    → Reached m ts k0 k1 inside
    → inside s ≡ true
    → inside t ≡ true
    → (xs : List Ptr) × IsWaiting k1.mutex_wait_next (k1.mutexes m).waiters xs
      × (s ≡ t)
      × ((k1.mutexes m).locked ≡ true)
      × ((k1.mutexes m).owner ≡ s)
      × (has s xs ≡ false)
      × (has u xs ≡ true → (is_blocked (k1.state u) ≡ true) × (k1.block_object u ≡ m))
Reached-exclusive m ts k k0 k1 inside s t u m_ne small made r in_s in_t =
    let (xs, g) = Reached-Held m ts m_ne small k0 k1 inside (init-Held m ts k k0 m_ne made) r in
    let (locked, own) = g.owns s in_s in
    (
      xs,
      g.waits,
      sym own ∙ (g.owns t in_t).1,
      locked,
      own,
      subst (λ o. has o xs ≡ false) own (g.owner_off locked),
      λ i. (g.asleep u i, g.object u i),
    )

-- From mutex_init on, in any such sequence, nobody waits for the mutex when it is free: no unlock and no
-- timeout leaves a task waiting for a mutex that no task will unlock.
pub Reached-nobody_waits :
    (m : Ptr) (ts : List Ptr) (k k0 k1 : Kernel) (inside : Ptr → Bool)
    → m ≢ null
    → length ts < walk_fuel
    → mutex_init k m ≡ (ok, k0)
    → Reached m ts k0 k1 inside
    → (k1.mutexes m).locked ≡ false
    → IsWaiting k1.mutex_wait_next (k1.mutexes m).waiters []
Reached-nobody_waits m ts k k0 k1 inside m_ne small made r unlocked =
    let (xs, g) = Reached-Held m ts m_ne small k0 k1 inside (init-Held m ts k k0 m_ne made) r in
    subst (IsWaiting k1.mutex_wait_next (k1.mutexes m).waiters) (g.free unlocked) g.waits
