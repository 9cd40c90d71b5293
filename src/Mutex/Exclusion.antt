-- ===== src/Mutex/Exclusion.antt =====
-- What each call on a mutex makes of those that hold it and wait for it.
use microkernel_rtos.Common.{
  ℕ, suc, ◌<◌, ◌≡◌, ◌≢◌, refl, sym, ap, subst, ◌∙◌, List, [], ◌∷◌, ◌++◌, Bool, true, false, ◌==◌,
  ◌&&◌, has, has-append, length, length-le, arith, Bool-cases, inl, inr, ==-true, Whenever,
  Whenever-bind, Whenever-map, Distinct,
}
use microkernel_rtos.Links.{Ptr, null, update, update-at}
use microkernel_rtos.Kernel.{Kernel, Mutex, WaitList, block_mutex, is_blocked, walk_fuel}
use microkernel_rtos.Scheduler.Kept.{Kept}
use microkernel_rtos.Waiting.{tcb_enqueue_tail}
use microkernel_rtos.Waiting.Chains.{IsWaiting, rewait, enqueue-list}
use microkernel_rtos.Blocking.{Wait, rtos_block_current, mark_blocked}
use microkernel_rtos.Blocking.Kept.{rtos_block_current-Kept}
use microkernel_rtos.Mutex.{
  set_mutex, set_waiters, set_blocked_on, wait_enqueue_tail, apply_pi, lock_contended, lock_round,
}
use microkernel_rtos.Mutex.Guarded.{Guarded, Guarded-at, Held, entered, apply_pi-Kept}

module _ (m : Ptr) (ts : List Ptr) {k : Kernel} {inside : Ptr → Bool} {xs : List Ptr}
    (g : Guarded m ts k inside xs) where
  -- The owner is inside (again).
  reentered :
      (self : Ptr)
      → (k.mutexes m).locked ≡ true
      → (k.mutexes m).owner ≡ self
      → Guarded m ts k (update inside self true) xs
  reentered self locked own =
      Guarded-at k (k.mutexes m) refl g.waits g.known g.asleep g.object
        (λ t i. elim (Bool-cases (t == self)) [
          | inl here ↦ (locked, own ∙ sym (==-true t self here))
          | inr away ↦ g.owns t (ground arith)
        ])
        g.owner_off g.free

  -- The mutex was free.
  taken :
      (self : Ptr)
      → (k.mutexes m).locked ≡ false
      → Guarded m ts
          (set_blocked_on
            (set_mutex k m (record (k.mutexes m) { locked = true; owner = self }))
            self
            null)
          (update inside self true)
          []
  taken self unlocked =
      let none_wait =
        subst (IsWaiting k.mutex_wait_next (k.mutexes m).waiters) (g.free unlocked) g.waits in
      Guarded-at _ (record (k.mutexes m) { locked = true; owner = self }) (update-at k.mutexes m _)
        none_wait (λ t i. absurd (ground arith)) (λ t i. absurd (ground arith))
        (λ t i. absurd (ground arith))
        (λ t i. elim (Bool-cases (t == self)) [
          | inl here ↦ (refl, sym (==-true t self here))
          | inr away ↦ absurd (ground (arith, g.owns t, unlocked))
        ])
        (λ l. refl) (λ l. refl)

  -- The task `self` has been put on the wait list and is BLOCKED on the mutex.
  joined :
      (self : Ptr) (timeout : ℕ) (nx : Ptr → Ptr) (w : WaitList) (c c' : Kernel)
      → has self ts ≡ true
      → self ≢ (k.mutexes m).owner
      → (k.mutexes m).locked ≡ true
      → IsWaiting nx w (xs ++ self ∷ [])
      → Kept (set_waiters (rewait (set_blocked_on k self m) nx) m w) c
      → Kept (mark_blocked c self timeout block_mutex m) c'
      → Guarded m ts c' inside (xs ++ self ∷ [])
  unfolding mark_blocked
  joined self timeout nx w c c' member other locked listed h h' =
      Guarded-at c' (record (k.mutexes m) { waiters = w })
        (ap (λ (f : Ptr → Mutex). f m) (h'.mutexes ∙ h.mutexes) ∙ update-at k.mutexes m _)
        (subst (λ f. IsWaiting f w (xs ++ self ∷ [])) (sym (h'.links ∙ h.links)) listed)
        (λ t i. elim (Bool-cases (t == self)) [
          | inl here ↦ subst (λ u. has u ts ≡ true) (sym (==-true t self here)) member
          | inr away ↦ g.known t (among t i away)
        ])
        (λ t i. h'.asleep t ∙ elim (Bool-cases (t == self)) [
          | inl here ↦ rw here refl
          | inr away ↦ rw away (h.asleep t ∙ g.asleep t (among t i away))
        ])
        (λ t i. ap (λ (f : Ptr → Ptr). f t) h'.object ∙ elim (Bool-cases (t == self)) [
          | inl here ↦ rw here refl
          | inr away ↦ rw away (ap (λ (f : Ptr → Ptr). f t) h.object ∙ g.object t (among t i away))
        ])
        g.owns (λ l. ground (arith, g.owner_off l, has-append (k.mutexes m).owner xs (self ∷ [])))
        (λ l. absurd (ground arith))
    where
      among : (t : Ptr) → has t (xs ++ self ∷ []) ≡ true → (t == self) ≡ false → has t xs ≡ true
      among t i away = ground (arith, has-append t xs (self ∷ []))

  -- The task `self` is not waiting, so that the list has room for it.
  room :
      (self : Ptr)
      → length ts < walk_fuel
      → has self ts ≡ true
      → has self xs ≡ false
      → suc (length xs) < walk_fuel
  room self small member off =
      let d : Distinct (self ∷ xs) = (off, g.waits.distinct) in
      let fewer = length-le (self ∷ xs) ts d (λ u j. elim (Bool-cases (u == self)) [
        | inl here ↦ rw (==-true u self here) member
        | inr away ↦ g.known u (ground arith)
      ]) in
      omega (arith, fewer, small)

-- What a call of mutex_lock leaves.
abbrev pub Locked : Ptr → List Ptr → (Ptr → Bool) → Ptr → Wait × Kernel → Type 0
Locked m ts inside self r = Held m ts (r.1) (entered inside self (r.0))

module _ (m : Ptr) (ts : List Ptr) (small : length ts < walk_fuel) {k : Kernel}
    {inside : Ptr → Bool} {xs : List Ptr} (g : Guarded m ts k inside xs)
    (member : has k.current_tcb ts ≡ true) (self_ne : k.current_tcb ≢ null)
    (awake : is_blocked (k.state k.current_tcb) ≡ false) where
  off_list : has k.current_tcb xs ≡ false
  off_list = elim (Bool-cases (has k.current_tcb xs)) [
    | inl on ↦ absurd (ground (arith, g.asleep k.current_tcb on))
    | inr off ↦ off
  ]

  contended :
      (timeout : ℕ)
      → (k.mutexes m).locked ≡ true
      → k.current_tcb ≢ (k.mutexes m).owner
      → Whenever (Locked m ts inside k.current_tcb) (lock_contended k m k.current_tcb timeout)
  unfolding lock_contended wait_enqueue_tail entered
  contended timeout locked other =
      let self = k.current_tcb in
      let c0 = set_blocked_on k self m in
      let w2 : WaitList = (tcb_enqueue_tail c0 (k.mutexes m).waiters self).1 in
      let (nx, e, listed, same) =
        enqueue-list c0 (k.mutexes m).waiters self self_ne xs g.waits off_list
          (room m ts g self small member off_list) in
      let c1 = set_waiters (rewait c0 nx) m w2 in
      let e' : wait_enqueue_tail c0 m self ≡ c1 = ap (λ z. set_waiters z m w2) e in
      rw e' (
        Whenever-bind (Kept c1) _ (apply_pi c1 m) _ (apply_pi-Kept c1 m) (λ c h.
          Whenever-map _ _ (rtos_block_current c timeout block_mutex m)
            (rtos_block_current-Kept c timeout block_mutex m (λ z. self_ne (sym h.current ∙ z)))
            (λ r p. (
              xs ++ self ∷ [],
              subst (λ w. Guarded m ts (r.1) (entered inside self w) (xs ++ self ∷ [])) (sym p.0)
                  (joined m ts g self timeout nx w2 c (r.1) member other locked listed h (
                    subst (λ t. Kept (mark_blocked c t timeout block_mutex m) (r.1)) h.current
                      p.1)),
            ))))

  pub lock_round-Locked :
      (timeout : ℕ)
      → Whenever (Locked m ts inside k.current_tcb) (lock_round k m k.current_tcb timeout)
  unfolding lock_round entered
  lock_round-Locked timeout =
      let self = k.current_tcb in
      let v = k.mutexes m in
      elim (Bool-cases (v.locked && (v.owner == self))) [
        | inl mine ↦ rw mine (xs, reentered m ts g self (ground arith) (ground arith))
        | inr away ↦ elim (Bool-cases v.locked) [
          | inl locked ↦
              let apart : (v.owner == self) ≡ false = ground arith in
              rw (locked, apart) (contended timeout locked (ground arith))
          | inr unlocked ↦ rw unlocked ([], taken m ts g self unlocked)
        ]
      ]
