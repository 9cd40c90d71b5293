-- ===== src/Task/Ticks.antt =====
-- rtos_wake_delayed: the tasks whose delay is over run again.
use microkernel_rtos.Common.{
  ℕ, ◌+◌, ◌<◌, ◌≡◌, ◌≢◌, refl, List, [], ◌∷◌, Bool, true, false, ◌&&◌, some, ◌==◌, if◌then◌else◌,
  has, Distinct, length, arith, sym, subst, ◌∙◌, ap, ==-true, Bool-cases, inl, inr, has-append,
  length-append, ◌≤◌, ◌-◌, ◌||◌, not, ltb, leb, Option, none, ==-false,
}
use microkernel_rtos.Links.{Ptr, null}
use microkernel_rtos.Kernel.{
  Kernel, ready, is_blocked, uint32_max, block_delay, num_priorities, walk_fuel,
}
use microkernel_rtos.Scheduler.Invariant.{Queues, Ready}
use microkernel_rtos.Scheduler.Insert.{enqueue}
use microkernel_rtos.Blocking.{clear_block, wake_task}
use microkernel_rtos.Blocking.Rings.{MayRun, woken, wake_task-Ready}
use microkernel_rtos.Task.{is_due, wake_by_reason, wake_all, rtos_wake_delayed}

-- The ready queues when the tasks of `ts` that are due have joined them, in that order.
abbrev pub released : (Ptr → Bool) → (Ptr → ℕ) → Queues → List Ptr → Queues
released due bucket q [] = q
released due bucket q (t ∷ ts) =
    released due bucket (if due t then enqueue q (bucket t) t else q) ts

-- A woken task changes nothing for the others.
is_due-woken :
    (k : Kernel) (t u : Ptr) (nx : Ptr → Ptr) (heads : ℕ → Ptr)
    → (u == t) ≡ false
    → is_due (woken k t nx heads) u ≡ is_due k u
unfolding is_due clear_block
is_due-woken k t u nx heads away = rw away refl

is_due-ne_null : (k : Kernel) (t : Ptr) → is_due k t ≡ true → t ≢ null
unfolding is_due
is_due-ne_null k t e z =
    let no : is_due k null ≡ false = refl in
    absurd (ground (arith, subst (λ v. is_due k v ≡ true) z e))

wakes :
    (k c k' : Kernel) (t : Ptr) (ts : List Ptr)
    → is_due k t ≡ true
    → k.block_reason t ≡ block_delay
    → wake_task k t ≡ some c
    → wake_all ts c ≡ some k'
    → wake_all (t ∷ ts) k ≡ some k'
unfolding wake_all wake_by_reason
wakes k c k' t ts now delayed woke e = rw (now, delayed) (rw woke e)

released-now :
    (due : Ptr → Bool) (bucket : Ptr → ℕ) (q : Queues) (t : Ptr) (ts : List Ptr)
    → due t ≡ true
    → released due bucket (enqueue q (bucket t) t) ts ≡ released due bucket q (t ∷ ts)
released-now due bucket q t ts now = rw now refl

-- What waking tasks leaves alone.
pub record Unmoved (k k' : Kernel) : Type 0 where
  pub bytes : k'.bytes ≡ k.bytes
  pub stack_base : k'.stack_base ≡ k.stack_base
  pub task_registry : k'.task_registry ≡ k.task_registry
  pub tick_count : k'.tick_count ≡ k.tick_count

wake_all-Ready :
    (due : Ptr → Bool) (k : Kernel) (ts : List Ptr) (p : Ptr) {q : Queues}
    → Ready k q
    → Distinct ts
    → ((t : Ptr) → has t ts ≡ true → is_due k t ≡ due t)
    → ((t : Ptr) → has t ts ≡ true → due t ≡ true → k.block_reason t ≡ block_delay)
    → ((t : Ptr) (a : ℕ) → has t ts ≡ true → due t ≡ true → has t (q a) ≡ false)
    → ((t : Ptr) → has t ts ≡ true → k.prio_bucket t < num_priorities)
    → ((b : ℕ) → length (q b) + length ts < walk_fuel)
    → (k' : Kernel) × (wake_all ts k ≡ some k')
      × Ready k' (released due k.prio_bucket q ts)
      × (k'.state p ≡ (if has p ts && due p then ready else k.state p))
      × Unmoved k k'
unfolding wake_all clear_block
wake_all-Ready due k [] p r d same reason off in_range room = (
  k,
  refl,
  r,
  refl,
  record { bytes = refl; stack_base = refl; task_registry = refl; tick_count = refl },
)
wake_all-Ready due k (t ∷ ts) p {q} r d same reason off in_range room = elim (Bool-cases (due t)) [
  | inl now ↦
      let due_now : is_due k t ≡ true = same t (ground arith) ∙ now in
      let delayed = reason t (ground arith) now in
      let may : MayRun k.prio_bucket q t = record {
        ne_null = is_due-ne_null k t due_now;
        in_range = in_range t (ground arith);
        absent = λ a. off t a (ground arith) now;
        room = omega (arith, room (k.prio_bucket t));
      } in
      let (nx, heads, woke, r1) = wake_task-Ready k t r may in
      let c = woken k t nx heads in
      let q1 = enqueue q (k.prio_bucket t) t in
      let (k', e, r', st, u') =
        wake_all-Ready due c ts p r1 d.1
          (λ u i. is_due-woken k t u nx heads (ground arith) ∙ same u (ground arith))
          (λ u i j. ground (arith, reason u))
          (λ u a i j.
            let here = off u a (ground arith) j in
            let there = off u (k.prio_bucket t) (ground arith) j in
            ground (arith, has-append u (q (k.prio_bucket t)) (t ∷ [])))
          (λ u i. in_range u (ground arith))
          (λ b. ground (arith, room b, length-append (q (k.prio_bucket t)) (t ∷ []))) in
      (
        k',
        wakes k c k' t ts due_now delayed woke e,
        subst (Ready k') (released-now due k.prio_bucket q t ts now) r',
        (elim (Bool-cases (t == p)) [
          | inl here ↦
              let h : t ≡ p = ==-true t p here in
              let m : due p ≡ true = ap due (sym h) ∙ now in ground arith
          | inr away ↦ ground arith
        ]),
        record {
          bytes = u'.bytes;
          stack_base = u'.stack_base;
          task_registry = u'.task_registry;
          tick_count = u'.tick_count;
        },
      )
  | inr later ↦
      let (k', e, r', st, u') =
        wake_all-Ready due k ts p r d.1 (λ u i. same u (ground arith))
          (λ u i. reason u (ground arith)) (λ u a i. off u a (ground arith))
          (λ u i. in_range u (ground arith)) (λ b. omega (arith, room b)) in
      let not_due : is_due k t ≡ false = same t (ground arith) ∙ later in
      (
        k',
        rw not_due e,
        rw later r',
        (elim (Bool-cases (t == p)) [
          | inl here ↦
              let h : t ≡ p = ==-true t p here in
              let m : due p ≡ false = ap due (sym h) ∙ later in ground arith
          | inr away ↦ ground arith
        ]),
        u',
      )
]

-- A wait that began at tick `b` and lasts `d` ticks, or for ever, is over at the tick `now`.
abbrev pub passed : ℕ → Option ℕ → ℕ → Bool
passed b none now = false
passed b (some d) now = leb d (now - b)

-- `w` is the wake-up tick of such a wait: it began at `now` at the latest, and its end neither wraps nor
-- is UINT32_MAX.
abbrev pub EndsAt : ℕ → Option ℕ → ℕ → ℕ → Type 0
EndsAt b none now w = w ≡ uint32_max
EndsAt b (some d) now w = (b ≤ now) × (b + d < uint32_max) × (w ≡ b + d)

-- A task is BLOCKED and its wait is over.
abbrev pub over : (Ptr → ℕ) → (Ptr → Option ℕ) → Kernel → Ptr → Bool
over began lasts k t = is_blocked (k.state t) && passed (began t) (lasts t) k.tick_count

-- Each BLOCKED task of the registry waits since the tick `began` and for as long as `lasts` says; the
-- idle task is not BLOCKED.
pub record Timely (k : Kernel) (began : Ptr → ℕ) (lasts : Ptr → Option ℕ) : Type 0 where
  pub no_null : has null k.task_registry ≡ false
  pub idle_runs : is_blocked (k.state k.idle_tcb) ≡ false
  pub ends :
      (t : Ptr)
      → has t k.task_registry ≡ true
      → is_blocked (k.state t) ≡ true
      → EndsAt (began t) (lasts t) k.tick_count (k.wake_time t)

-- The comparison with which rtos_wake_delayed passes over a task that waits.
reached :
    (b w now : ℕ) (o : Option ℕ)
    → EndsAt b o now w
    → not ((w == uint32_max) || ltb now w) ≡ passed b o now
reached b w now none e = ground arith
reached b w now (some d) (began, fits, e) = ground arith

is_due-over :
    (k : Kernel) (began : Ptr → ℕ) (lasts : Ptr → Option ℕ) (t : Ptr)
    → Timely k began lasts
    → has t k.task_registry ≡ true
    → is_due k t ≡ over began lasts k t
unfolding is_due
is_due-over k began lasts t time on = elim (Bool-cases (is_blocked (k.state t))) [
  | inr runs ↦ rw runs (ground arith)
  | inl blocks ↦
      let ne : (t == null) ≡ false = ==-false λ (z : t ≡ null).
        absurd (ground (arith, time.no_null, subst (λ v. has v k.task_registry ≡ true) z on)) in
      let not_idle : (t == k.idle_tcb) ≡ false = ==-false λ (z : t ≡ k.idle_tcb).
        absurd
          (ground (arith, time.idle_runs, subst (λ v. is_blocked (k.state v) ≡ true) z blocks)) in
      rw (blocks, ne, not_idle)
        (reached (began t) (k.wake_time t) k.tick_count (lasts t) (time.ends t on blocks))
]

module _ (k : Kernel) (began : Ptr → ℕ) (lasts : Ptr → Option ℕ) (p : Ptr) {q : Queues}
    (r : Ready k q) (d : Distinct k.task_registry) (time : Timely k began lasts)
    (reason : (t : Ptr)
      → has t k.task_registry ≡ true
      → over began lasts k t ≡ true
      → k.block_reason t ≡ block_delay)
    (off : (t : Ptr) (a : ℕ)
      → has t k.task_registry ≡ true
      → over began lasts k t ≡ true
      → has t (q a) ≡ false)
    (in_range : (t : Ptr) → has t k.task_registry ≡ true → k.prio_bucket t < num_priorities)
    (room : (b : ℕ) → length (q b) + length k.task_registry < walk_fuel) where
  pub rtos_wake_delayed-Unmoved :
      (k' : Kernel) × (rtos_wake_delayed k ≡ some k')
      × Ready k' (released (over began lasts k) k.prio_bucket q k.task_registry)
      × (k'.state p ≡ (if has p k.task_registry && over began lasts k p then ready else k.state p))
      × Unmoved k k'
  unfolding rtos_wake_delayed
  rtos_wake_delayed-Unmoved =
      wake_all-Ready (over began lasts k) k k.task_registry p r d
        (λ t i. is_due-over k began lasts t time i) reason off in_range room

  -- Where no wait other than a delay ends at the tick, and each BLOCKED task of the registry has
  -- waited since a tick `began` and waits for ever or for a number of ticks whose end is below
  -- UINT32_MAX, rtos_wake_delayed makes exactly the tasks that have waited for at least as many
  -- ticks READY, each at the end of its ready ring in the order of the registry; the state of
  -- every other task `p` is the same.
  pub rtos_wake_delayed-released :
      (k' : Kernel) × (rtos_wake_delayed k ≡ some k')
      × Ready k' (released (over began lasts k) k.prio_bucket q k.task_registry)
      × (k'.state p ≡ (if has p k.task_registry && over began lasts k p then ready else k.state p))
  rtos_wake_delayed-released = let (k', e, r', st, u) = rtos_wake_delayed-Unmoved in (k', e, r', st)
