-- ===== src/Platform/Tick.antt =====
-- SysTick_Handler: one tick of the kernel, part after part.
use microkernel_rtos.Common.{
  ℕ, suc, ◌+◌, ◌%◌, ◌<◌, ◌≡◌, inl, inr, refl, List, [], ◌∷◌, ◌++◌, true, false, ◌&&◌, Option, some,
  ◌==◌, if◌then◌else◌, arith, has, has-append, Distinct, length, Bool-cases, ap, sym, subst, ◌∙◌,
}
use microkernel_rtos.Links.{Ptr, null}
use microkernel_rtos.Kernel.{Kernel, ready, block_delay, num_priorities, uint32_mod, walk_fuel}
use microkernel_rtos.Scheduler.Slice.{scheduler_time_slice_tick-shape}
use microkernel_rtos.Scheduler.{scheduler_mark_reschedule}
use microkernel_rtos.Scheduler.Invariant.{Queues, Ready}
use microkernel_rtos.Timer.{Timers, sw_timer_tick_process}
use microkernel_rtos.Timer.Sorted.{AtLeast, Running}
use microkernel_rtos.Timer.Due.{AtMost}
use microkernel_rtos.Timer.Expiry.{run_all, sw_timer_tick_process-fires}
use microkernel_rtos.Task.{rtos_tick_increment}
use microkernel_rtos.Task.Ticks.{over, Timely, released, Unmoved, rtos_wake_delayed-Unmoved}
use microkernel_rtos.Stack.{StackCheck, intact, rtos_stack_check_all}
use microkernel_rtos.Stack.Check.{is_whole, rtos_stack_check_all-cases}
use microkernel_rtos.Lifecycle.{System}
use microkernel_rtos.Platform.{after_check, systick_handler}

-- The kernel when the handler is done: the time slice is counted, and a context switch is asked for.
after_intact :
    (k : Kernel) (c : StackCheck)
    → c ≡ intact
    → (counter : Ptr → ℕ) × (after_check k c
        ≡ some (record k { time_slice_counter = counter; pendsv = true }))
unfolding after_check scheduler_mark_reschedule
after_intact k c e =
    let (counter, pend, shape) = scheduler_time_slice_tick-shape k in
    (counter, rw e (rw shape refl))

-- The stack check looks at the registry, the stacks and the memory only.
stays_whole :
    (k k' : Kernel)
    → Unmoved k k'
    → ((p : Ptr) → has p k.task_registry ≡ true → is_whole k p ≡ true)
    → rtos_stack_check_all k' ≡ intact
stays_whole k k' u whole = elim (rtos_stack_check_all-cases k') [
  | inl (e, all) ↦ e
  | inr (t, e, o) ↦
      let on : has t k'.task_registry ≡ true =
        subst (λ l. has t l ≡ true) (sym o.split)
          (ground (arith, has-append t o.before (t ∷ o.behind))) in
      let before : is_whole k t ≡ true = whole t (subst (λ l. has t l ≡ true) u.task_registry on) in
      let same : is_whole k' t ≡ is_whole k t = rw (u.bytes, u.stack_base) refl in
      absurd (ground (arith, before, same, o.lost))
]

-- The callbacks change the application's state only.
run_all-app :
    {A : Type 0} (act : Ptr → Ptr → A → A) (cb arg : Ptr → Ptr) (ds : List Ptr) (k : Kernel)
    (app : A)
    → run_all {W = Kernel × A} (λ c a w. (w.0, act c a w.1)) cb arg ds (k, app)
      ≡ (k, run_all act cb arg ds app)
run_all-app act cb arg [] k app = refl
run_all-app act cb arg (d ∷ ds) k app = elim (Bool-cases (cb d == null)) [
  | inl unset ↦ rw unset (run_all-app act cb arg ds k app)
  | inr set ↦ rw set (run_all-app act cb arg ds k (act (cb d) (arg d) app))
]

module _ {A : Type 0} (call : Ptr → Ptr → Kernel × A → Timers → (Kernel × A) × Timers)
    (act : Ptr → Ptr → A → A)
    (quiet : (c a : Ptr) (w : Kernel × A) (t : Timers)
      → call c a w t ≡ ((w.0, act c a w.1), t)) where
  -- SysTick_Handler on well-formed ready rings and a sorted list of timers whose periods are
  -- positive and whose new expiries do not wrap, where the callbacks change the state of the
  -- application only, the loop has more rounds than there are timers that expire, no wait other
  -- than a delay ends, every stack has its canary, and each BLOCKED task of the registry has
  -- waited since a tick `began` and waits for ever or for a number of ticks whose end is below
  -- UINT32_MAX: it returns with the tick counted and a context switch asked for; the tasks that
  -- have waited for at least as many ticks are READY at the end of their rings, in the order of
  -- the registry; the callbacks of the timers `ds`, whose expiry is this tick or an earlier one,
  -- have run in list order, and every timer left on the list expires later.
  pub systick_handler-ticks :
      (fuel : ℕ) (app : A) (s : System) (p : Ptr) (ds ls : List Ptr) (began : Ptr → ℕ)
      (lasts : Ptr → Option ℕ) {q : Queues}
      → let k = rtos_tick_increment s.kernel in
        let now = (s.kernel.tick_count + 1) % uint32_mod in
        Ready s.kernel q
        → Distinct s.kernel.task_registry
        → Timely k began lasts
        → ((t : Ptr)
            → has t s.kernel.task_registry ≡ true
            → over began lasts k t ≡ true
            → k.block_reason t ≡ block_delay)
        → ((t : Ptr) (a : ℕ)
            → has t s.kernel.task_registry ≡ true
            → over began lasts k t ≡ true
            → has t (q a) ≡ false)
        → ((t : Ptr)
            → has t s.kernel.task_registry ≡ true
            → s.kernel.prio_bucket t < num_priorities)
        → ((b : ℕ) → length (q b) + length s.kernel.task_registry < walk_fuel)
        → ((t : Ptr) → has t s.kernel.task_registry ≡ true → is_whole s.kernel t ≡ true)
        → Running s.timers (ds ++ ls)
        → AtMost s.timers.expiry_tick now ds
        → AtLeast s.timers.expiry_tick (suc now) ls
        → ((t : Ptr) → has t ds ≡ true → s.timers.periodic t ≡ true → 0 < s.timers.period_ticks t)
        → ((t : Ptr) → has t ds ≡ true → now + s.timers.period_ticks t < uint32_mod)
        → length ds < fuel
        → (s' : System) × (ls' : List Ptr) × (systick_handler call fuel app s
            ≡ some (run_all act s.timers.callback s.timers.callback_arg ds app, s'))
          × Ready s'.kernel
              (released (over began lasts k) s.kernel.prio_bucket q s.kernel.task_registry)
          × (s'.kernel.state p ≡ (
              if has p s.kernel.task_registry && over began lasts k p
              then ready
              else s.kernel.state p))
          × (s'.kernel.tick_count ≡ now)
          × (s'.kernel.pendsv ≡ true)
          × Running s'.timers ls'
          × AtLeast s'.timers.expiry_tick (suc now) ls'
  unfolding systick_handler rtos_tick_increment
  systick_handler-ticks fuel app s p ds ls began lasts {q} r d time reason off in_range room whole
        run due late per fit enough =
      let k = rtos_tick_increment s.kernel in
      let now = (s.kernel.tick_count + 1) % uint32_mod in
      let (k1, woke, r1, st, u) =
        rtos_wake_delayed-Unmoved k began lasts p r d time reason off in_range room in
      let (t', ls', fired, run', late', after) =
        sw_timer_tick_process-fires call (λ c a w. (w.0, act c a w.1)) quiet fuel now (k1, app)
          s.timers ds ls p run due late per fit enough in
      let apps = run_all-app act s.timers.callback s.timers.callback_arg ds k1 app in
      let fired' =
        ap (λ n. sw_timer_tick_process call fuel n (k1, app) s.timers) u.tick_count
        ∙ fired
        ∙ ap (λ w. some (w, t')) apps in
      let (counter, ends) = after_intact k1 (rtos_stack_check_all k1) (stays_whole k k1 u whole) in
      (
        record s {
          kernel = record k1 { time_slice_counter = counter; pendsv = true };
          timers = t';
        },
        ls',
        rw woke (rw fired' (rw ends refl)),
        r1,
        st,
        u.tick_count,
        refl,
        run',
        late',
      )
