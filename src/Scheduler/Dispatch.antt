-- ===== src/Scheduler/Dispatch.antt =====
-- scheduler_get_next: which task it selects, what becomes of the rings, and the order in which the
-- tasks of a ring get the processor.
use microkernel_rtos.Common.{
  ℕ, zero, suc, ◌+◌, ◌≤◌, ◌<◌, ◌≡◌, ◌≢◌, refl, List, [], ◌∷◌, ◌++◌, false, true, some, ◌==◌,
  if◌then◌else◌, ◌&&◌, not, has, length, arith, Bool-cases, inl, inr, subst, sym, ◌∙◌, ap,
  has-append, length-append, ==-false,
}
use microkernel_rtos.Links.{Ptr, null, update}
use microkernel_rtos.Kernel.{
  Kernel, TaskState, ready, running, is_running, set_state, set_slice, num_priorities,
}
use microkernel_rtos.Scheduler.{
  requeue_current, dispatch_head, dispatch_idle, scan_buckets, scheduler_get_next,
}
use microkernel_rtos.Scheduler.Rings.{Ring, rotate-Ring}
use microkernel_rtos.Scheduler.Invariant.{Queues, Ready, elsewhere, Rings-replace}

-- `b` is the first bucket whose ring is not empty, and `x` is its head.
pub record Highest (q : Queues) (b : ℕ) (x : Ptr) (xs : List Ptr) : Type 0 where
  pub in_range : b < num_priorities
  pub holds : q b ≡ x ∷ xs
  pub above : (a : ℕ) → a < b → q a ≡ []

requeue_current_lem :
    (k : Kernel) → requeue_current k ≡ record k { state = (requeue_current k).state }
unfolding requeue_current
requeue_current_lem k = ground arith

requeue_current-Ready : (k : Kernel) {q : Queues} → Ready k q → Ready (requeue_current k) q
requeue_current-Ready k {q} r = subst (λ k'. Ready k' q) (sym (requeue_current_lem k)) r

scan_buckets-found :
    (n p b : ℕ) (k : Kernel)
    → p ≤ b
    → b < p + n
    → k.ready_head b ≢ null
    → ((a : ℕ) → a < b → k.ready_head a ≡ null)
    → scan_buckets n p k ≡ some (k.ready_head b, dispatch_head k b (k.ready_head b))
unfolding scan_buckets
scan_buckets-found zero p b k lo hi full above = absurd (omega arith)
scan_buckets-found (suc n) p b k lo hi full above = elim (Bool-cases (p == b)) [
  | inl here ↦
      let e : b ≡ p = ground arith in
      subst
        (λ c. scan_buckets (suc n) p k ≡ some (k.ready_head c, dispatch_head k c (k.ready_head c)))
        (sym e) (rw (==-false (λ z. full (ap k.ready_head e ∙ z))) refl)
  | inr below ↦
      rw (above p (ground arith))
        (scan_buckets-found n (p + 1) b k (ground arith) (omega arith) full above)
]

scan_buckets-idle :
    (n p : ℕ) (k : Kernel)
    → ((a : ℕ) → a < p + n → k.ready_head a ≡ null)
    → scan_buckets n p k ≡ dispatch_idle k
unfolding scan_buckets
scan_buckets-idle zero p k empty = refl
scan_buckets-idle (suc n) p k empty =
    rw (empty p (omega arith)) (scan_buckets-idle n (p + 1) k (λ a h. empty a (omega arith)))

module _ (k : Kernel) {q : Queues} (r : Ready k q) where
  head_of :
      (b : ℕ) (x : Ptr) (xs : List Ptr) → q b ≡ x ∷ xs → Ring k.next_ready (k.ready_head b) (x ∷ xs)
  head_of b x xs e = subst (Ring k.next_ready (k.ready_head b)) e (r.rings b)

  head_of_empty : (b : ℕ) → q b ≡ [] → k.ready_head b ≡ null
  head_of_empty b e = subst (Ring k.next_ready (k.ready_head b)) e (r.rings b)

  scan-Highest :
      {b : ℕ} {x : Ptr} {xs : List Ptr}
      → Highest q b x xs
      → scan_buckets num_priorities 0 k ≡ some (x, dispatch_head k b x)
  scan-Highest {b} {x} {xs} h =
      let ring = head_of b x xs h.holds in
      subst (λ p. scan_buckets num_priorities 0 k ≡ some (p, dispatch_head k b p)) (ring.0)
        (scan_buckets-found num_priorities 0 b k (omega arith) h.in_range
          (λ z. ring.1.1 (sym (ring.0) ∙ z)) (λ a lt. head_of_empty a (h.above a lt)))

  dispatch_head-Ready :
      {b : ℕ} {x : Ptr} {xs : List Ptr}
      → Highest q b x xs
      → Ready (dispatch_head k b x) (update q b (xs ++ x ∷ []))
  unfolding dispatch_head
  dispatch_head-Ready {b} {x} {xs} h =
      Rings-replace r k.next_ready (update k.ready_head b (k.next_ready x)) b (xs ++ x ∷ [])
        h.in_range ring (omega (arith, length-append xs (x ∷ []), ap length h.holds, r.short b))
        (λ a away. ground arith) (λ a p away i. refl) fresh
    where
      ring : Ring k.next_ready (update k.ready_head b (k.next_ready x) b) (xs ++ x ∷ [])
      ring =
          let now : update k.ready_head b (k.next_ready x) b ≡ k.next_ready x = ground arith in
          let old = head_of b x xs h.holds in
          subst (λ c. Ring k.next_ready c (xs ++ x ∷ [])) (sym now)
            (rotate-Ring k.next_ready x xs (refl, old.1, old.2))

      fresh : (a : ℕ) (p : Ptr) → a ≢ b → has p (q a) ≡ true → has p (xs ++ x ∷ []) ≡ false
      fresh a p away i =
          let off =
            subst (λ ys. has p ys ≡ false) h.holds (elsewhere r b a p (λ z. away (sym z)) i) in
          ground (arith, has-append p xs (x ∷ []))

-- The states after scheduler_get_next has selected `x`: the task that was running is READY again.
abbrev pub switched : Kernel → Ptr → Ptr → TaskState
switched k x t =
    if t == x
    then running
    else if not (t == null) && (t == k.current_tcb) && is_running (k.state t)
    then ready
    else k.state t

-- What scheduler_get_next leaves alone.
pub record Undisturbed (k k' : Kernel) : Type 0 where
  pub bucket : k'.prio_bucket ≡ k.prio_bucket
  pub idle : k'.idle_tcb ≡ k.idle_tcb
  pub wait_next : k'.mutex_wait_next ≡ k.mutex_wait_next
  pub semaphores : k'.semaphores ≡ k.semaphores
  pub mutexes : k'.mutexes ≡ k.mutexes
  pub queues : k'.queues ≡ k.queues

-- scheduler_get_next returns the head of the first ring that is not empty, makes it the RUNNING
-- task with a fresh time slice, and moves it to the end of its ring. A task that was running goes
-- back to READY; no other task's state changes, and every other ring stays, as do the buckets, the
-- semaphores, mutexes and message queues and the lists of waiting tasks.
pub scheduler_get_next-Highest :
    (k : Kernel) {q : Queues} {b : ℕ} {x : Ptr} {xs : List Ptr}
    → Ready k q
    → Highest q b x xs
    → (k' : Kernel) × (scheduler_get_next k ≡ some (x, k'))
      × Ready k' (update q b (xs ++ x ∷ []))
      × (k'.current_tcb ≡ x)
      × (k'.time_slice_counter x ≡ 0)
      × ((t : Ptr) → k'.state t ≡ switched k x t)
      × Undisturbed k k'
unfolding scheduler_get_next dispatch_head requeue_current
scheduler_get_next-Highest k {b} {x} r h =
    let r' = requeue_current-Ready k r in
    let same = requeue_current_lem k in
    (
      dispatch_head (requeue_current k) b x,
      scan-Highest (requeue_current k) r' h,
      dispatch_head-Ready (requeue_current k) r' h,
      refl,
      ground arith,
      λ t. ground arith,
      record {
        bucket = ap (λ (c : Kernel). c.prio_bucket) same;
        idle = ap (λ (c : Kernel). c.idle_tcb) same;
        wait_next = ap (λ (c : Kernel). c.mutex_wait_next) same;
        semaphores = ap (λ (c : Kernel). c.semaphores) same;
        mutexes = ap (λ (c : Kernel). c.mutexes) same;
        queues = ap (λ (c : Kernel). c.queues) same;
      },
    )

-- With every ring empty scheduler_get_next falls back on the idle task.
pub scheduler_get_next-idle :
    (k : Kernel) {q : Queues}
    → Ready k q
    → ((b : ℕ) → q b ≡ [])
    → k.idle_tcb ≢ null
    → (k' : Kernel) × (scheduler_get_next k ≡ some (k.idle_tcb, k'))
      × Ready k' q
      × (k'.current_tcb ≡ k.idle_tcb)
      × ((t : Ptr) → k'.state t ≡ switched k k.idle_tcb t)
unfolding scheduler_get_next dispatch_idle requeue_current
scheduler_get_next-idle k {q} r empty n =
    let k0 = requeue_current k in
    let r' = requeue_current-Ready k r in
    let scan = scan_buckets-idle num_priorities 0 k0 (λ a h. head_of_empty k0 r' a (empty a)) in
    let same : k0.idle_tcb ≡ k.idle_tcb = ap (λ c. c.idle_tcb) (requeue_current_lem k) in
    let idle = k.idle_tcb in
    (
      record (set_slice (set_state k0 idle running) idle 0) { current_tcb = idle },
      scan ∙ chosen k0 idle same n,
      r',
      refl,
      λ t. ground arith,
    )
  where
    chosen :
        (c : Kernel) (i : Ptr)
        → c.idle_tcb ≡ i
        → i ≢ null
        → dispatch_idle c
          ≡ some (i, record (set_slice (set_state c i running) i 0) { current_tcb = i })
    chosen c i e ne =
        subst
          (λ j.
            dispatch_idle c
            ≡ some (j, record (set_slice (set_state c j running) j 0) { current_tcb = j }))
          e (rw (==-false (λ z. ne (sym e ∙ z))) refl)
