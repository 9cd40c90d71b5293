-- ===== src/Mutex/Guarded.antt =====
-- A mutex and the tasks that hold it and wait for it, whatever the ready rings are.
use microkernel_rtos.Common.{
  ℕ, ◌≡◌, refl, ◌∙◌, List, [], Bool, true, false, ◌==◌, ◌||◌, ltb, some, has, if◌then◌else◌,
  Whenever, Whenever-bind, Whenever-if, Whenever-any,
}
use microkernel_rtos.Links.{Ptr, null, update}
use microkernel_rtos.Kernel.{Kernel, Mutex, Status, is_blocked, is_ok}
use microkernel_rtos.Scheduler.Kept.{Kept, Kept-refl, Whenever-Kept, scheduler_rebucket_task-Kept}
use microkernel_rtos.Waiting.Chains.{IsWaiting}
use microkernel_rtos.Blocking.{Wait, returned, waiting}
use microkernel_rtos.Mutex.{
  prio_bucket_of, min_wait_priority_value, set_priority, boost, apply_pi, restore_owner_priority,
}

-- The tasks `xs` wait for the mutex `m`; `inside` tells of each task whether it has locked the mutex
-- and not unlocked it since.
pub record Guarded (m : Ptr) (ts : List Ptr) (k : Kernel) (inside : Ptr → Bool) (xs : List Ptr)
    : Type 0 where
  pub waits : IsWaiting k.mutex_wait_next (k.mutexes m).waiters xs
  pub known : (t : Ptr) → has t xs ≡ true → has t ts ≡ true
  pub asleep : (t : Ptr) → has t xs ≡ true → is_blocked (k.state t) ≡ true
  pub object : (t : Ptr) → has t xs ≡ true → k.block_object t ≡ m
  pub owns : (t : Ptr) → inside t ≡ true → ((k.mutexes m).locked ≡ true) × ((k.mutexes m).owner ≡ t)
  pub owner_off : (k.mutexes m).locked ≡ true → has (k.mutexes m).owner xs ≡ false
  pub free : (k.mutexes m).locked ≡ false → xs ≡ []

pub Guarded-Kept :
    {m : Ptr} {ts : List Ptr} {k k' : Kernel} {inside : Ptr → Bool} {xs : List Ptr}
    → Kept k k'
    → Guarded m ts k inside xs
    → Guarded m ts k' inside xs
Guarded-Kept h g = record {
  waits = rw (h.mutexes, h.links) g.waits;
  known = g.known;
  asleep = λ t i. h.asleep t ∙ g.asleep t i;
  object = λ t i. rw h.object (g.object t i);
  owns = λ t i. rw h.mutexes (g.owns t i);
  owner_off = rw h.mutexes g.owner_off;
  free = rw h.mutexes g.free;
}

-- `Kept` for the parts of the calls on a mutex that change priorities.
pub set_priority-Kept : (k : Kernel) (t : Ptr) (p : ℕ) → Whenever (Kept k) (set_priority k t p)
unfolding set_priority
set_priority-Kept k t p =
    Whenever-Kept _
      (record { mutexes = refl; links = refl; object = refl; current = refl; asleep = λ u. refl })
      (scheduler_rebucket_task-Kept _ t (k.prio_bucket t) (prio_bucket_of p))

pub restore_owner_priority-Kept :
    (k : Kernel) (t : Ptr) → Whenever (Kept k) (restore_owner_priority k t)
unfolding restore_owner_priority
restore_owner_priority-Kept k t =
    Whenever-if (Kept k) (t == null) _ _ (Kept-refl k) (set_priority-Kept k t (k.base_priority t))

boost-Kept : (k : Kernel) (t : Ptr) (hp : ℕ) → Whenever (Kept k) (boost k t hp)
unfolding boost
boost-Kept k t hp =
    Whenever-if (Kept k) (ltb hp (k.priority t)) _ (some k) (set_priority-Kept k t hp) (Kept-refl k)

pub apply_pi-Kept : (k : Kernel) (m : Ptr) → Whenever (Kept k) (apply_pi k m)
unfolding apply_pi
apply_pi-Kept k m =
    let owner = (k.mutexes m).owner in
    Whenever-if (Kept k) ((owner == null) || ((k.mutexes m).waiters.wait_head == null)) (some k) _
      (Kept-refl k)
      (Whenever-bind _ (Kept k) (min_wait_priority_value k m) (boost k owner) (Whenever-any _)
        (λ hp u. boost-Kept k owner hp))

-- A state with the mutex `v` at `m`.
pub Guarded-at :
    {m : Ptr} {ts : List Ptr} {inside : Ptr → Bool} {xs : List Ptr} (k : Kernel) (v : Mutex)
    → k.mutexes m ≡ v
    → IsWaiting k.mutex_wait_next v.waiters xs
    → ((t : Ptr) → has t xs ≡ true → has t ts ≡ true)
    → ((t : Ptr) → has t xs ≡ true → is_blocked (k.state t) ≡ true)
    → ((t : Ptr) → has t xs ≡ true → k.block_object t ≡ m)
    → ((t : Ptr) → inside t ≡ true → (v.locked ≡ true) × (v.owner ≡ t))
    → (v.locked ≡ true → has v.owner xs ≡ false)
    → (v.locked ≡ false → xs ≡ [])
    → Guarded m ts k inside xs
Guarded-at k v e waits known asleep object owns off free = record {
  waits = rw e waits;
  known = known;
  asleep = asleep;
  object = object;
  owns = rw e owns;
  owner_off = rw e off;
  free = rw e free;
}

abbrev pub Held : Ptr → List Ptr → Kernel → (Ptr → Bool) → Type 0
Held m ts k inside = (xs : List Ptr) × Guarded m ts k inside xs

-- Who is inside after a mutex_lock of the task `t`, and after its mutex_unlock.
unfoldable pub entered : (Ptr → Bool) → Ptr → Wait → Ptr → Bool
entered inside t waiting = inside
entered inside t (returned st) = if is_ok st then update inside t true else inside

unfoldable pub left : (Ptr → Bool) → Ptr → Status → Ptr → Bool
left inside t st = if is_ok st then update inside t false else inside
