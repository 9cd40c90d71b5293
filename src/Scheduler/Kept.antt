-- ===== src/Scheduler/Kept.antt =====
-- What the operations on the ready rings leave alone whenever they return, whatever the rings are.
use microkernel_rtos.Common.{
  ℕ, zero, suc, ◌+◌, ◌≡◌, refl, ◌∙◌, ap, true, false, not, ◌&&◌, ◌||◌, Option, none, some, ◌==◌,
  arith, Bool-cases, inl, inr, ==-true, Whenever, Whenever-bind, Whenever-if, Whenever-any,
}
use microkernel_rtos.Links.{Ptr, null, update}
use microkernel_rtos.Kernel.{
  Kernel, Status, TaskState, ready, running, blocked, suspended, terminated, is_blocked,
  is_suspended, is_terminated, is_ready, is_running, num_priorities, walk_fuel, set_bucket,
  set_ready_head, set_next_ready,
}
use microkernel_rtos.Scheduler.{
  ring_tail, ring_insert, mark_ready, scheduler_add_task, ring_find, ring_unlink, unlink_found,
  scheduler_remove_task, scheduler_rebucket_task, dispatch_head, dispatch_idle, scan_buckets,
  requeue_current, scheduler_get_next,
}

-- The mutexes, the wait links, the objects of the waits, the current task and which tasks are BLOCKED.
pub record Kept (k k' : Kernel) : Type 0 where
  pub mutexes : k'.mutexes ≡ k.mutexes
  pub links : k'.mutex_wait_next ≡ k.mutex_wait_next
  pub object : k'.block_object ≡ k.block_object
  pub current : k'.current_tcb ≡ k.current_tcb
  pub asleep : (t : Ptr) → is_blocked (k'.state t) ≡ is_blocked (k.state t)

pub Kept-refl : (k : Kernel) → Kept k k
Kept-refl k = record {
  mutexes = refl;
  links = refl;
  object = refl;
  current = refl;
  asleep = λ t. refl;
}

pub Kept-trans : {k k' k'' : Kernel} → Kept k k' → Kept k' k'' → Kept k k''
Kept-trans a b = record {
  mutexes = b.mutexes ∙ a.mutexes;
  links = b.links ∙ a.links;
  object = b.object ∙ a.object;
  current = b.current ∙ a.current;
  asleep = λ t. b.asleep t ∙ a.asleep t;
}

-- The ready links and heads and the buckets are other fields.
same :
    (k k' : Kernel)
    → k'.mutexes ≡ k.mutexes
    → k'.mutex_wait_next ≡ k.mutex_wait_next
    → k'.block_object ≡ k.block_object
    → k'.current_tcb ≡ k.current_tcb
    → k'.state ≡ k.state
    → Kept k k'
same k k' m l o c s = record {
  mutexes = m;
  links = l;
  object = o;
  current = c;
  asleep = λ t. ap (λ (f : Ptr → TaskState). is_blocked (f t)) s;
}

ring_insert-Kept : (k : Kernel) (b : ℕ) (t : Ptr) → Whenever (Kept k) (ring_insert k b t)
unfolding ring_insert
ring_insert-Kept k b t =
    let head = k.ready_head b in
    Whenever-if (Kept k) (head == null) _ _
      (same k (set_ready_head (set_next_ready k t t) b t) refl refl refl refl refl)
      (Whenever-bind _ (Kept k) (ring_tail walk_fuel k.next_ready head head) _ (Whenever-any _)
        (λ tail u. same k _ refl refl refl refl refl))

ready_asleep :
    (s : TaskState) → (not (is_blocked s) && not (is_suspended s)) ≡ true → is_blocked s ≡ false
ready_asleep s e = ground arith

mark_ready-Kept : (k : Kernel) (t : Ptr) → Kept k (mark_ready k t)
unfolding mark_ready
mark_ready-Kept k t =
    elim (Bool-cases (not (is_blocked (k.state t)) && not (is_suspended (k.state t)))) [
      | inr stays ↦ rw stays (Kept-refl k)
      | inl goes ↦ rw goes (record {
        mutexes = refl;
        links = refl;
        object = refl;
        current = refl;
        asleep = λ p. elim (Bool-cases (p == t)) [
          | inl here ↦ let e : p ≡ t = ==-true p t here in rw e (ground arith)
          | inr away ↦ rw away refl
        ];
      })
    ]

pub scheduler_add_task-Kept :
    (k : Kernel) (t : Ptr)
    → Whenever (λ (r : Status × Kernel). Kept k (r.1)) (scheduler_add_task k t)
unfolding scheduler_add_task
scheduler_add_task-Kept k t = Whenever-if _ (t == null) _ _ (Kept-refl k) (
    Whenever-if _ (is_terminated (k.state t)) _ _ (Kept-refl k) (
      Whenever-bind (Kept k) _ (ring_insert k (k.prio_bucket t) t) _
        (ring_insert-Kept k (k.prio_bucket t) t) (λ c h. Kept-trans h (mark_ready-Kept c t))))

ring_unlink-Kept :
    (k : Kernel) (b : ℕ) (head t prev : Ptr) → Whenever (Kept k) (ring_unlink k b head t prev)
unfolding ring_unlink
ring_unlink-Kept k b head t prev =
    Whenever-if (Kept k) (k.next_ready t == t) _ _ (same k _ refl refl refl refl refl) (
      Whenever-if (Kept k) (prev == null) _ _
        (Whenever-bind _ (Kept k) (ring_tail walk_fuel k.next_ready head head) _ (Whenever-any _)
          (λ tail u. same k _ refl refl refl refl refl))
        (same k _ refl refl refl refl refl))

unlink_found-Kept :
    (k : Kernel) (b : ℕ) (head t : Ptr) (found : Option Ptr)
    → Whenever (Kept k) (unlink_found k b head t found)
unfolding unlink_found
unlink_found-Kept k b head t none = Kept-refl k
unlink_found-Kept k b head t (some prev) = ring_unlink-Kept k b head t prev

pub scheduler_remove_task-Kept :
    (k : Kernel) (t : Ptr) → Whenever (Kept k) (scheduler_remove_task k t)
unfolding scheduler_remove_task
scheduler_remove_task-Kept k t =
    let head = k.ready_head (k.prio_bucket t) in
    Whenever-if (Kept k) (t == null) _ _ (Kept-refl k) (
      Whenever-if (Kept k) (head == null) _ _ (Kept-refl k) (
        Whenever-bind _ (Kept k) (ring_find walk_fuel k.next_ready head t null head) _
          (Whenever-any _) (λ found u. unlink_found-Kept k (k.prio_bucket t) head t found)))

bucket-Kept : (k : Kernel) (t : Ptr) (b : ℕ) → Kept k (set_bucket k t b)
bucket-Kept k t b = same k _ refl refl refl refl refl

pub Whenever-Kept :
    {k c : Kernel} (o : Option Kernel) → Kept k c → Whenever (Kept c) o → Whenever (Kept k) o
Whenever-Kept none h w = tt
Whenever-Kept (some a) h w = Kept-trans h w

pub scheduler_rebucket_task-Kept :
    (k : Kernel) (t : Ptr) (u v : ℕ) → Whenever (Kept k) (scheduler_rebucket_task k t u v)
unfolding scheduler_rebucket_task
scheduler_rebucket_task-Kept k t u v =
    Whenever-if (Kept k) ((t == null) || (u == v)) _ _ (Kept-refl k) (
      Whenever-if (Kept k) (is_ready (k.state t)) _ _
        (Whenever-bind (Kept k) (Kept k) (scheduler_remove_task (set_bucket k t u) t) _
          (Whenever-Kept _ (bucket-Kept k t u) (scheduler_remove_task-Kept (set_bucket k t u) t))
          (λ c h.
            Whenever-bind (λ (r : Status × Kernel). Kept (set_bucket c t v) (r.1)) (Kept k)
              (scheduler_add_task (set_bucket c t v) t) _
              (scheduler_add_task-Kept (set_bucket c t v) t)
              (λ r h'. Kept-trans h (Kept-trans (bucket-Kept c t v) h'))))
        (bucket-Kept k t v))

-- A task becomes RUNNING that was not BLOCKED.
runs-Kept :
    (k k' : Kernel) (x : Ptr)
    → is_blocked (k.state x) ≡ false
    → k'.mutexes ≡ k.mutexes
    → k'.mutex_wait_next ≡ k.mutex_wait_next
    → k'.block_object ≡ k.block_object
    → k'.state ≡ update k.state x running
    → k'.current_tcb ≡ x
    → Kept (record k { current_tcb = x }) k'
runs-Kept k k' x awake mu l o s c = record {
  mutexes = mu;
  links = l;
  object = o;
  current = c;
  asleep = λ t. ap (λ (f : Ptr → TaskState). is_blocked (f t)) s ∙ (elim (Bool-cases (t == x)) [
    | inl here ↦ let e : t ≡ x = ==-true t x here in rw e (ground arith)
    | inr away ↦ rw away refl
  ]);
}

-- What scheduler_get_next makes of `k`, if the task that it selects is not BLOCKED.
abbrev pub Selects : Kernel → Ptr × Kernel → Type 0
Selects k r = is_blocked (k.state (r.0)) ≡ false → Kept (record k { current_tcb = r.0 }) (r.1)

scan_buckets-Selects : (n p : ℕ) (k : Kernel) → Whenever (Selects k) (scan_buckets n p k)
unfolding scan_buckets dispatch_idle dispatch_head
scan_buckets-Selects zero p k =
    Whenever-if (Selects k) (k.idle_tcb == null) _ _ tt
      (λ awake. runs-Kept k _ k.idle_tcb awake refl refl refl refl refl)
scan_buckets-Selects (suc n) p k =
    Whenever-if (Selects k) (k.ready_head p == null) _ _ (scan_buckets-Selects n (p + 1) k)
      (λ awake. runs-Kept k _ (k.ready_head p) awake refl refl refl refl refl)

awake_if_running : (s : TaskState) → is_running s ≡ true → is_blocked s ≡ false
awake_if_running ready e = refl
awake_if_running running e = refl
awake_if_running blocked e = absurd (ground arith)
awake_if_running suspended e = refl
awake_if_running terminated e = refl

requeue_current-Kept : (k : Kernel) → Kept k (requeue_current k)
unfolding requeue_current
requeue_current-Kept k =
    elim (Bool-cases (not (k.current_tcb == null) && is_running (k.state k.current_tcb))) [
      | inr stays ↦ rw stays (Kept-refl k)
      | inl back ↦ rw back (record {
        mutexes = refl;
        links = refl;
        object = refl;
        current = refl;
        asleep = λ t. elim (Bool-cases (t == k.current_tcb)) [
          | inl here ↦
              let e : t ≡ k.current_tcb = ==-true t k.current_tcb here in
              rw e (ground (arith, awake_if_running (k.state k.current_tcb)))
          | inr away ↦ rw away refl
        ];
      })
    ]

pub scheduler_get_next-Selects : (k : Kernel) → Whenever (Selects k) (scheduler_get_next k)
unfolding scheduler_get_next
scheduler_get_next-Selects k =
    weaken (scan_buckets num_priorities 0 (requeue_current k))
      (scan_buckets-Selects num_priorities 0 (requeue_current k))
  where
    h : Kept k (requeue_current k)
    h = requeue_current-Kept k

    weaken :
        (o : Option (Ptr × Kernel))
        → Whenever (Selects (requeue_current k)) o
        → Whenever (Selects k) o
    weaken none w = tt
    weaken (some r) w = λ awake.
        let next = w (h.asleep (r.0) ∙ awake) in
        record {
          mutexes = next.mutexes ∙ h.mutexes;
          links = next.links ∙ h.links;
          object = next.object ∙ h.object;
          current = next.current;
          asleep = λ t. next.asleep t ∙ h.asleep t;
        }
