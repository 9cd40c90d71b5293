-- ===== src/Mutex/Release.antt =====
-- What mutex_unlock and the end of a wait make of those that hold a mutex and wait for it.
use microkernel_rtos.Common.{
  ◌≡◌, ◌≢◌, refl, sym, ap, subst, ◌∙◌, List, [], ◌∷◌, Bool, true, false, not, ◌==◌, ◌||◌, ◌&&◌,
  ◌>>=◌, has, has-erase, has-of_erase, has-erase_self, erase, arith, Bool-cases, inl, inr, ==-false,
  some, Whenever, Whenever-bind, Whenever-map,
}
use microkernel_rtos.Links.{Ptr, null, update, update-at, Chain-ne_null}
use microkernel_rtos.Kernel.{Kernel, Mutex, Status, ok, err_timeout}
use microkernel_rtos.Scheduler.{scheduler_mark_reschedule}
use microkernel_rtos.Scheduler.Kept.{Kept}
use microkernel_rtos.Waiting.Chains.{IsWaiting, rewait}
use microkernel_rtos.Waiting.Unlink.{tcb_unlink-list}
use microkernel_rtos.Blocking.{wake_task, clear_block, wake_timed_out}
use microkernel_rtos.Blocking.Kept.{wake_task-Kept, rescheduled-Kept}
use microkernel_rtos.Mutex.{
  set_mutex, set_waiters, set_blocked_on, restore_owner_priority, wait_pop_highest, hand_over,
  mutex_unlock, wait_unlink, mutex_wake_timeout,
}
use microkernel_rtos.Mutex.Highest.{has-best_of}
use microkernel_rtos.Mutex.Pop.{top, wait_pop_highest-list, wait_pop_highest-empty}
use microkernel_rtos.Mutex.Guarded.{
  Guarded, Guarded-Kept, Guarded-at, Held, left, restore_owner_priority-Kept,
}

module _ (m : Ptr) (ts : List Ptr) {k : Kernel} {inside : Ptr → Bool} {xs : List Ptr}
    (g : Guarded m ts k inside xs) where
  waiting_ne_null : (t : Ptr) → has t xs ≡ true → t ≢ null
  waiting_ne_null t on =
      Chain-ne_null k.mutex_wait_next (k.mutexes m).waiters.wait_head null t xs on g.waits.chain

  -- The waiting task `t` has left the list and is READY; the mutex is `v`.
  woken :
      (t : Ptr) (v : Mutex) (nx : Ptr → Ptr) (c c' : Kernel) (inside' : Ptr → Bool)
      → IsWaiting nx v.waiters (erase t xs)
      → c.mutexes m ≡ v
      → c.mutex_wait_next ≡ nx
      → c.state ≡ k.state
      → c.block_object ≡ k.block_object
      → ((p : Ptr) → inside' p ≡ true → (v.locked ≡ true) × (v.owner ≡ p))
      → (v.locked ≡ true → has v.owner (erase t xs) ≡ false)
      → (v.locked ≡ false → erase t xs ≡ [])
      → Kept (clear_block c t) c'
      → Guarded m ts c' inside' (erase t xs)
  unfolding clear_block
  woken t v nx c c' inside' listed is links state object owns off free h =
      Guarded-at c' v (ap (λ (f : Ptr → Mutex). f m) h.mutexes ∙ is)
        (subst (λ f. IsWaiting f v.waiters (erase t xs)) (sym (h.links ∙ links)) listed)
        (λ p i. g.known p (ground (arith, gone p)))
        (λ p i. h.asleep p ∙ rw (apart p i, state) (g.asleep p (ground (arith, gone p))))
        (λ p i.
          ap (λ (f : Ptr → Ptr). f p) h.object
          ∙ rw (apart p i, object) (g.object p (ground (arith, gone p))))
        owns off free
    where
      gone : (p : Ptr) → has p (erase t xs) ≡ (has p xs && not (p == t))
      gone p = has-of_erase p t xs g.waits.distinct

      apart : (p : Ptr) → has p (erase t xs) ≡ true → (p == t) ≡ false
      apart p i = ground (arith, gone p)

-- What a call of mutex_unlock leaves.
abbrev pub Unlocked : Ptr → List Ptr → (Ptr → Bool) → Ptr → Status × Kernel → Type 0
Unlocked m ts inside self r = Held m ts (r.1) (left inside self (r.0))

-- _wait_pop_highest and the branches on its result, where nobody is inside afterwards.
passes_on :
    (m : Ptr) (ts : List Ptr) {k : Kernel} {inside : Ptr → Bool} (self : Ptr) (xs : List Ptr)
    → ((t : Ptr) → update inside self false t ≡ false)
    → Guarded m ts k inside xs
    → Whenever (Unlocked m ts inside self) (do
      (next, c) ← wait_pop_highest k m
      c ← hand_over c m next
      some (ok, record c { pendsv = true }))
unfolding hand_over left
passes_on m ts {k} {inside} self [] out g =
    let v : Mutex = record (k.mutexes m) { locked = false; owner = null } in
    rw (wait_pop_highest-empty k m g.waits) (
      [],
      Guarded-at (record (set_mutex k m v) { pendsv = true }) v (update-at k.mutexes m v) g.waits
          g.known g.asleep g.object (λ t i. absurd (ground (arith, out t))) (λ l. refl) (λ l. refl),
    )
passes_on m ts {k} {inside} self (x ∷ ys) out g =
    let t = top k x ys in
    let (kp, w', popped, (nx, e, listed, same)) = wait_pop_highest-list k m x ys g.waits in
    let c1 = set_waiters (rewait k nx) m w' in
    let v : Mutex = record (c1.mutexes m) { locked = true; owner = t } in
    let c = set_blocked_on (set_mutex c1 m v) t null in
    let popped' : wait_pop_highest k m ≡ some (t, c1) =
      popped ∙ ap (λ z. some (t, set_waiters z m w')) e in
    let on = has-best_of k.priority x ys in
    let ne = waiting_ne_null m ts g t on in
    let lists : v.waiters ≡ w' = ap (λ (u : Mutex). u.waiters) (update-at k.mutexes m _) in
    rw (popped', ==-false ne)
      (Whenever-bind _ _ (wake_task c t) _ (wake_task-Kept c t) (λ c' h. (
        erase t (x ∷ ys),
        woken m ts g t v nx c (record c' { pendsv = true }) (update inside self false)
            (subst (λ u. IsWaiting nx u (erase t (x ∷ ys))) (sym lists) listed)
            (update-at c1.mutexes m v) refl refl refl (λ p i. absurd (ground (arith, out p)))
            (λ l. has-erase_self t (x ∷ ys) g.waits.distinct) (λ l. absurd (ground arith))
            (rescheduled-Kept h),
      )))

module _ (m : Ptr) (ts : List Ptr) (m_ne : m ≢ null) {k : Kernel} {inside : Ptr → Bool}
    {xs : List Ptr} (g : Guarded m ts k inside xs) where
  pub mutex_unlock-Unlocked : Whenever (Unlocked m ts inside k.current_tcb) (mutex_unlock k m)
  unfolding mutex_unlock left scheduler_mark_reschedule
  mutex_unlock-Unlocked =
      let self = k.current_tcb in
      let v = k.mutexes m in
      rw (==-false m_ne)
        (elim (Bool-cases ((self == null) || not v.locked || not (v.owner == self))) [
          | inl refused ↦ rw refused (xs, g)
          | inr owns ↦
              let nobody : (t : Ptr) → update inside self false t ≡ false = (λ t.
                elim (Bool-cases (inside t)) [
                  | inl there ↦ ground (arith, g.owns t there)
                  | inr not_there ↦ ground arith
                ]) in
              rw owns (
                Whenever-bind (Kept k) _ (restore_owner_priority k self) _
                  (restore_owner_priority-Kept k self)
                  (λ c h. passes_on m ts self xs nobody (Guarded-Kept h g)))
        ])

  pub mutex_wake_timeout-Held :
      (t : Ptr)
      → t ≢ null
      → k.block_object t ≡ m
      → Whenever (λ c. Held m ts c inside) (mutex_wake_timeout k t)
  unfolding mutex_wake_timeout wait_unlink wake_timed_out
  mutex_wake_timeout-Held t t_ne at =
      let ((k', w), e, (nx, e', listed, same)) =
        tcb_unlink-list k (k.mutexes m).waiters t xs t_ne g.waits in
      let v : Mutex = record (k.mutexes m) { waiters = w } in
      let c = record (set_blocked_on (set_waiters (rewait k nx) m w) t null) {
        block_wake_status = update k.block_wake_status t err_timeout;
      } in
      rw (==-false t_ne, at, ==-false m_ne, e, e')
        (Whenever-map _ _ (wake_task c t) (wake_task-Kept c t) (λ c' h. (
          erase t xs,
          woken m ts g t v nx c c' inside listed (update-at k.mutexes m v) refl refl refl g.owns
              (λ l. has-erase (k.mutexes m).owner t xs (g.owner_off l))
              (λ l. ap (erase t) (g.free l)) h,
        )))
