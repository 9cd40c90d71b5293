-- ===== src/Timer/Expiry.antt =====
-- sw_timer_tick_process: which callbacks run at a tick, and which timers run on.
use native.Mathlib.Nat.{mod-eq_of_lt}
use microkernel_rtos.Common.{
  ℕ, zero, suc, ◌+◌, ◌%◌, ◌<◌, ◌≡◌, refl, List, [], ◌∷◌, ◌++◌, true, false, ◌&&◌, ◌||◌, not, some,
  ◌==◌, if◌then◌else◌, ◌>>=◌, has, length, arith, sym, subst, ◌∙◌, ap, ==-true, Bool-cases, inl,
  inr, has-append,
}
use microkernel_rtos.Links.{Ptr, null, update-at}
use microkernel_rtos.Kernel.{uint32_mod}
use microkernel_rtos.Timer.{Timers, run_callback, rearm, expire, sw_timer_tick_process}
use microkernel_rtos.Timer.Sorted.{
  AtLeast, AtLeast-insert, Running, insert_at, has-insert_at, listed,
}
use microkernel_rtos.Timer.Calls.{AtLeast-frame}
use microkernel_rtos.Timer.Due.{
  AtMost, AtMost-frame, insert_behind, popped, ended, again, ended-Running, rearm-Running, not_due,
  due_now,
}

-- What the callbacks of the timers `ds` do, one after the other.
abbrev pub run_all :
    {W : Type 0} → (Ptr → Ptr → W → W) → (Ptr → Ptr) → (Ptr → Ptr) → List Ptr → W → W
run_all act cb arg [] w = w
run_all act cb arg (d ∷ ds) w =
    run_all act cb arg ds (if cb d == null then w else act (cb d) (arg d) w)

module _ {W : Type 0} (call : Ptr → Ptr → W → Timers → W × Timers) (act : Ptr → Ptr → W → W)
    (quiet : (c a : Ptr) (w : W) (s : Timers) → call c a w s ≡ (act c a w, s)) where
  run_callback-quiet :
      (w : W) (s : Timers) (d : Ptr)
      → run_callback call w s d
        ≡ (if s.callback d == null then w else act (s.callback d) (s.callback_arg d) w, s)
  unfolding run_callback
  run_callback-quiet w s d = elim (Bool-cases (s.callback d == null)) [
    | inl none_set ↦ rw none_set refl
    | inr set ↦ rw set (quiet (s.callback d) (s.callback_arg d) w s)
  ]

  expire-quiet :
      (w : W) (s : Timers) (now : ℕ) (d : Ptr)
      → s.timer_list ≡ d
      → expire call w s now ≡ (
          rearm (popped s d) now d >>= (λ s'.
            some (if s.callback d == null then w else act (s.callback d) (s.callback_arg d) w, s')))
  unfolding expire
  expire-quiet w s now d e = rw e (rw (run_callback-quiet w (popped s d) d) refl)

-- How the timer `p` stands after a tick at which the timers `ds` were due, with `ls` left to run and
-- `ls'` running now.
pub record AfterTick (s s' : Timers) (now : ℕ) (ds ls ls' : List Ptr) (p : Ptr) : Type 0 where
  pub on : has p ls' ≡ ((has p ds && s.periodic p) || has p ls)
  pub expiry :
      s'.expiry_tick p
      ≡ (if has p ds && s.periodic p then now + s.period_ticks p else s.expiry_tick p)
  pub live : s'.active p ≡ (if has p ds && not (s.periodic p) then false else s.active p)

after_once :
    (s s' : Timers) (now : ℕ) (d : Ptr) (ds ls ls' : List Ptr) (p : Ptr)
    → s.periodic d ≡ false
    → has d ds ≡ false
    → AfterTick (ended s d) s' now ds ls ls' p
    → AfterTick s s' now (d ∷ ds) ls ls' p
after_once s s' now d ds ls ls' p once out after = elim (Bool-cases (d == p)) [
  | inl here ↦
      let e : d ≡ p = ==-true d p here in
      let off : s.periodic p ≡ false = ap s.periodic (sym e) ∙ once in
      record {
        on = ground (arith, after.on);
        expiry = ground (arith, after.expiry);
        live = ground (arith, after.live);
      }
  | inr away ↦ record {
    on = ground (arith, after.on);
    expiry = ground (arith, after.expiry);
    live = ground (arith, after.live);
  }
]

after_again :
    (s s' : Timers) (now : ℕ) (d : Ptr) (ds ls ls2 ls' : List Ptr) (p : Ptr) (nx : Ptr → Ptr)
    (h : Ptr)
    → s.periodic d ≡ true
    → has d ds ≡ false
    → now + s.period_ticks d < uint32_mod
    → has p ls2 ≡ ((d == p) || has p ls)
    → AfterTick (listed (again s now d) nx h) s' now ds ls2 ls' p
    → AfterTick s s' now (d ∷ ds) ls ls' p
after_again s s' now d ds ls ls2 ls' p nx h per out fit split after = elim (Bool-cases (d == p)) [
  | inl here ↦
      let e : d ≡ p = ==-true d p here in
      let on_ : s.periodic p ≡ true = ap s.periodic (sym e) ∙ per in
      let off : has p ds ≡ false = subst (λ v. has v ds ≡ false) e out in
      let small : (now + s.period_ticks d) % uint32_mod ≡ now + s.period_ticks d =
        mod-eq_of_lt fit in
      let same : s.period_ticks d ≡ s.period_ticks p = ap s.period_ticks e in
      record {
        on = ground (arith, after.on);
        expiry = ground (arith, after.expiry);
        live = ground (arith, after.live);
      }
  | inr away ↦ record {
    on = ground (arith, after.on);
    expiry = ground (arith, after.expiry);
    live = ground (arith, after.live);
  }
]

module _ {W : Type 0} (call : Ptr → Ptr → W → Timers → W × Timers) (act : Ptr → Ptr → W → W)
    (quiet : (c a : Ptr) (w : W) (s : Timers) → call c a w s ≡ (act c a w, s)) where
  -- With callbacks that leave the timers alone, periods that are positive, expiries one period
  -- after this tick that are below 2 ^ 32, and more rounds of the loop than there are timers due,
  -- sw_timer_tick_process runs the callbacks of exactly the timers that are due, in list order,
  -- and returns; a periodic timer runs on one period later, a one-shot timer is inactive, and the
  -- list is sorted with nothing due on it.
  pub sw_timer_tick_process-fires :
      (fuel now : ℕ) (w : W) (s : Timers) (ds ls : List Ptr) (p : Ptr)
      → Running s (ds ++ ls)
      → AtMost s.expiry_tick now ds
      → AtLeast s.expiry_tick (suc now) ls
      → ((t : Ptr) → has t ds ≡ true → s.periodic t ≡ true → 0 < s.period_ticks t)
      → ((t : Ptr) → has t ds ≡ true → now + s.period_ticks t < uint32_mod)
      → length ds < fuel
      → (s' : Timers) × (ls' : List Ptr) × (sw_timer_tick_process call fuel now w s
          ≡ some (run_all act s.callback s.callback_arg ds w, s'))
        × Running s' ls'
        × AtLeast s'.expiry_tick (suc now) ls'
        × AfterTick s s' now ds ls ls' p
  unfolding sw_timer_tick_process rearm
  sw_timer_tick_process-fires zero now w s ds ls p r due late per fit f = absurd (omega arith)
  sw_timer_tick_process-fires (suc fuel) now w s [] ls p r due late per fit f = (
    s,
    ls,
    rw (not_due s now ls r late) refl,
    r,
    late,
    record { on = refl; expiry = refl; live = refl },
  )
  sw_timer_tick_process-fires (suc fuel) now w s (d ∷ ds) ls p r due late per fit f =
      elim (Bool-cases (s.periodic d)) [
        | inl periodic ↦
            let w1 = if s.callback d == null then w else act (s.callback d) (s.callback_arg d) w in
            let a = again s now d in
            let g = a.expiry_tick in
            let out : has d ds ≡ false = ground (arith, has-append d ds ls, r.distinct.0) in
            let out' : has d ls ≡ false = ground (arith, has-append d ds ls, r.distinct.0) in
            let wide = fit d (ground arith) in
            let long = per d (ground arith) periodic in
            let next : g d ≡ now + s.period_ticks d =
              update-at s.expiry_tick d _ ∙ mod-eq_of_lt wide in
            let ls2 = insert_at g d ls in
            let due' = AtMost-frame s.expiry_tick g now ds (λ t i. ground arith) due.1 in
            let late2 =
              AtLeast-insert g (suc now) (g d) d ls (omega arith)
                (AtLeast-frame s.expiry_tick g (suc now) ls (λ t i. ground arith) late) in
            let (nx, h, armed, r1) = rearm-Running s now d (ds ++ ls) r periodic in
            let r2 =
              subst (Running (listed a nx h)) (insert_behind g now d ds ls due' (omega arith)) r1 in
            let (s', ls', e, r', late', after) =
              sw_timer_tick_process-fires fuel now w1 (listed a nx h) ds ls2 p r2 due' late2
                (λ t i. per t (ground arith)) (λ t i. fit t (ground arith)) (omega arith) in
            (
              s',
              ls',
              rw
                  (
                    due_now s now d (ds ++ ls) r due.0,
                    expire-quiet call act quiet w s now d r.chain.0,
                  )
                  (rw armed e),
              r',
              late',
              after_again s s' now d ds ls ls2 ls' p nx h periodic out wide
                  (has-insert_at g (g d) p d ls) after,
            )
        | inr once ↦
            let w1 = if s.callback d == null then w else act (s.callback d) (s.callback_arg d) w in
            let (s', ls', e, r', late', after) =
              sw_timer_tick_process-fires fuel now w1 (ended s d) ds ls p
                (ended-Running s d (ds ++ ls) r) due.1 late (λ t i. per t (ground arith))
                (λ t i. fit t (ground arith)) (omega arith) in
            (
              s',
              ls',
              rw
                  (
                    due_now s now d (ds ++ ls) r due.0,
                    expire-quiet call act quiet w s now d r.chain.0,
                  )
                  (rw once e),
              r',
              late',
              after_once s s' now d ds ls ls' p once (ground (arith, has-append d ds ls)) after,
            )
      ]
