-- ===== src/Semaphore/Moves.antt =====
-- What waking, blocking and switching a task make of the tasks that share a semaphore.
use microkernel_rtos.Common.{
  ℕ, ◌<◌, ◌≡◌, ◌≢◌, refl, List, [], ◌∷◌, ◌++◌, true, false, ◌||◌, ◌&&◌, not, ◌==◌, has, has-append,
  has-erase, has-of_erase, Distinct, erase, arith, sym, subst, ◌∙◌, ap, ==-true, Bool-cases, inl,
  inr,
}
use microkernel_rtos.Links.{Ptr, null, update}
use microkernel_rtos.Kernel.{
  Kernel, TaskState, ready, running, blocked, suspended, terminated, is_blocked, is_running,
  num_priorities,
}
use microkernel_rtos.Scheduler.Invariant.{Queues, Ready}
use microkernel_rtos.Scheduler.Insert.{enqueue}
use microkernel_rtos.Scheduler.Remove.{dequeue}
use microkernel_rtos.Scheduler.Dispatch.{Highest, Undisturbed, switched}
use microkernel_rtos.Blocking.Rings.{Moved}
use microkernel_rtos.Semaphore.Waits.{IsValid}
use microkernel_rtos.Semaphore.Shared.{Shared, Ring-Distinct}

pub running_unblocked : (st : TaskState) → is_running st ≡ true → is_blocked st ≡ false
running_unblocked ready e = refl
running_unblocked running e = refl
running_unblocked blocked e = absurd (ground arith)
running_unblocked suspended e = refl
running_unblocked terminated e = refl

module _ {sem : Ptr} {ts : List Ptr} {k : Kernel} {q : Queues} {xs : List Ptr}
    (s : Shared sem ts k q xs) where
  -- The waiting task `x` has been woken.
  pub Shared-woken :
      (k' : Kernel) (x : Ptr)
      → has x xs ≡ true
      → Ready k' (enqueue q (k.prio_bucket x) x)
      → IsValid k' sem (erase x xs)
      → Moved k k' x ready
      → Shared sem ts k' (enqueue q (k.prio_bucket x) x) (erase x xs)
  Shared-woken k' x on r v m = record {
    rings = r;
    valid = v;
    waits_known = λ t i. s.waits_known t (ground (arith, gone t));
    on_ring = λ t a.
        subst
          (λ f.
            has t (enqueue q (k.prio_bucket x) x a)
            ≡ (has t ts && not (has t (erase x xs)) && (a == f t)))
          (sym m.bucket) (moved t a);
    state = λ t i.
        subst (λ f. is_blocked (f t) ≡ has t (erase x xs)) (sym m.state)
          (ground (arith, gone t, s.state t i));
    in_range = λ t i. subst (λ f. f t < num_priorities) (sym m.bucket) (s.in_range t i);
    current = rw m.current s.current;
    idle = rw m.idle s.idle;
    idle_runs = rw m.idle (has-erase k.idle_tcb x xs s.idle_runs);
  }
    where
      gone : (t : Ptr) → has t (erase x xs) ≡ (has t xs && not (t == x))
      gone t = has-of_erase t x xs s.valid.waits.distinct

      known : has x ts ≡ true
      known = s.waits_known x on

      moved :
          (t : Ptr) (a : ℕ)
          → has t (enqueue q (k.prio_bucket x) x a)
            ≡ (has t ts && not (has t (erase x xs)) && (a == k.prio_bucket t))
      moved t a = elim (Bool-cases (t == x)) [
        | inl here ↦
            let e : t ≡ x = ==-true t x here in
            rw e (
              ground
                (arith, gone x, known, s.on_ring x a, has-append x (q (k.prio_bucket x)) (x ∷ [])))
        | inr away ↦ elim (Bool-cases (a == k.prio_bucket x)) [
          | inl own ↦
              let e : a ≡ k.prio_bucket x = ==-true a (k.prio_bucket x) own in
              rw e (
                ground (
                  arith,
                  gone t,
                  s.on_ring t (k.prio_bucket x),
                  has-append t (q (k.prio_bucket x)) (x ∷ []),
                ))
          | inr other ↦ ground (arith, gone t, s.on_ring t a)
        ]
      ]

  -- The current task, which is not the idle task, has blocked.
  pub Shared-blocked :
      (k' : Kernel) (x : Ptr)
      → has x ts ≡ true
      → has x xs ≡ false
      → x ≢ k.idle_tcb
      → Ready k' (dequeue q (k.prio_bucket x) x)
      → IsValid k' sem (xs ++ x ∷ [])
      → Moved k k' x blocked
      → Shared sem ts k' (dequeue q (k.prio_bucket x) x) (xs ++ x ∷ [])
  Shared-blocked k' x known off ni r v m = record {
    rings = r;
    valid = v;
    waits_known = λ t i. elim (Bool-cases (t == x)) [
      | inl here ↦ subst (λ u. has u ts ≡ true) (sym (==-true t x here)) known
      | inr away ↦ s.waits_known t (ground (arith, joined t))
    ];
    on_ring = λ t a.
        subst
          (λ f.
            has t (dequeue q (k.prio_bucket x) x a)
            ≡ (has t ts && not (has t (xs ++ x ∷ [])) && (a == f t)))
          (sym m.bucket) (moved t a);
    state = λ t i.
        subst (λ f. is_blocked (f t) ≡ has t (xs ++ x ∷ [])) (sym m.state)
          (ground (arith, joined t, s.state t i));
    in_range = λ t i. subst (λ f. f t < num_priorities) (sym m.bucket) (s.in_range t i);
    current = rw m.current s.current;
    idle = rw m.idle s.idle;
    idle_runs = rw m.idle (ground (arith, joined k.idle_tcb, s.idle_runs));
  }
    where
      joined : (t : Ptr) → has t (xs ++ x ∷ []) ≡ (has t xs || (t == x))
      joined t = has-append t xs (x ∷ []) ∙ ground arith

      ring_distinct : (b : ℕ) → Distinct (q b)
      ring_distinct b = Ring-Distinct k.next_ready (k.ready_head b) (q b) (s.rings.rings b)

      moved :
          (t : Ptr) (a : ℕ)
          → has t (dequeue q (k.prio_bucket x) x a)
            ≡ (has t ts && not (has t (xs ++ x ∷ [])) && (a == k.prio_bucket t))
      moved t a = elim (Bool-cases (a == k.prio_bucket x)) [
        | inl own ↦
            let e : a ≡ k.prio_bucket x = ==-true a (k.prio_bucket x) own in
            rw e (
              ground (
                arith,
                joined t,
                s.on_ring t (k.prio_bucket x),
                has-of_erase t x (q (k.prio_bucket x)) (ring_distinct (k.prio_bucket x)),
              ))
        | inr other ↦ elim (Bool-cases (t == x)) [
          | inl here ↦
              let e : t ≡ x = ==-true t x here in
              rw e (ground (arith, joined x, s.on_ring x a, other))
          | inr away ↦ ground (arith, joined t, s.on_ring t a, other, away)
        ]
      ]

  -- Only the count has changed, or nothing.
  pub Shared-same :
      (k' : Kernel)
      → Ready k' q
      → IsValid k' sem xs
      → k'.state ≡ k.state
      → k'.prio_bucket ≡ k.prio_bucket
      → k'.current_tcb ≡ k.current_tcb
      → k'.idle_tcb ≡ k.idle_tcb
      → Shared sem ts k' q xs
  Shared-same k' r v st bucket current idle = record {
    rings = r;
    valid = v;
    waits_known = s.waits_known;
    on_ring = λ t a. rw bucket (s.on_ring t a);
    state = λ t i. rw st (s.state t i);
    in_range = λ t i. rw bucket (s.in_range t i);
    current = rw current s.current;
    idle = rw idle s.idle;
    idle_runs = rw idle s.idle_runs;
  }

  -- The processor has been given to the task `x`.
  pub Shared-switched :
      (k' : Kernel) (b : ℕ) (x : Ptr) (ys : List Ptr)
      → Highest q b x ys
      → Ready k' (update q b (ys ++ x ∷ []))
      → k'.current_tcb ≡ x
      → ((t : Ptr) → k'.state t ≡ switched k x t)
      → Undisturbed k k'
      → Shared sem ts k' (update q b (ys ++ x ∷ [])) xs
  Shared-switched k' b x ys h r current st u = record {
    rings = r;
    valid = record {
      within = rw u.semaphores s.valid.within;
      bounded = rw u.semaphores s.valid.bounded;
      waits = rw (u.semaphores, u.wait_next) s.valid.waits;
    };
    waits_known = s.waits_known;
    on_ring = λ t a. rw u.bucket (turned t a);
    state = λ t i. rw (st t) (unblocked t ∙ s.state t i);
    in_range = λ t i. rw u.bucket (s.in_range t i);
    current = rw current (ground (arith, first, s.on_ring x b));
    idle = rw u.idle s.idle;
    idle_runs = rw u.idle s.idle_runs;
  }
    where
      first : has x (q b) ≡ true
      first = rw h.holds (ground arith)

      turned :
          (t : Ptr) (a : ℕ)
          → has t (update q b (ys ++ x ∷ []) a)
            ≡ (has t ts && not (has t xs) && (a == k.prio_bucket t))
      turned t a = elim (Bool-cases (a == b)) [
        | inl own ↦
            let e : a ≡ b = ==-true a b own in
            let same : has t (ys ++ x ∷ []) ≡ has t (q b) =
              has-append t ys (x ∷ []) ∙ ground arith ∙ ap (has t) (sym h.holds) in
            rw e (ground (arith, same, s.on_ring t b))
        | inr other ↦ ground (arith, s.on_ring t a)
      ]

      x_runs : is_blocked (k.state x) ≡ false
      x_runs = ground (arith, first, s.on_ring x b, s.state x)

      unblocked : (t : Ptr) → is_blocked (switched k x t) ≡ is_blocked (k.state t)
      unblocked t = elim (Bool-cases (t == x)) [
        | inl here ↦ let e : t ≡ x = ==-true t x here in rw e (ground (arith, x_runs))
        | inr away ↦
            elim (Bool-cases (not (t == null) && (t == k.current_tcb) && is_running (k.state t))) [
              | inl back ↦ rw (away, back) (sym (running_unblocked (k.state t) (ground arith)))
              | inr stays ↦ rw (away, stays) refl
            ]
      ]
