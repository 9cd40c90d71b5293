-- ===== src/Timer/Calls.antt =====
-- The calls that start and stop a timer.
use microkernel_rtos.Common.{
  ℕ, suc, ◌+◌, ◌%◌, ◌<◌, ◌≡◌, ◌≢◌, refl, List, [], ◌∷◌, Bool, true, false, some, has, length, arith,
  sym, subst, ==-false,
}
use microkernel_rtos.Links.{Ptr, null, update, update-at, Chain-update}
use microkernel_rtos.Kernel.{ok, uint32_mod, walk_fuel}
use microkernel_rtos.Timer.{
  Timers, arm, insert_sorted, sw_timer_start_once, sw_timer_start_periodic,
}
use microkernel_rtos.Timer.Sorted.{
  AtLeast, InOrder, Running, insert_at, listed, insert_sorted-Running,
}

pub AtLeast-frame :
    (f g : Ptr → ℕ) (n : ℕ) (xs : List Ptr)
    → ((p : Ptr) → has p xs ≡ true → g p ≡ f p)
    → AtLeast f n xs
    → AtLeast g n xs
AtLeast-frame f g n [] same a = tt
AtLeast-frame f g n (x ∷ xs) same a = (
  omega (arith, a.0, same x (ground arith)),
  AtLeast-frame f g n xs (λ p i. same p (ground arith)) a.1,
)

InOrder-frame :
    (f g : Ptr → ℕ) (xs : List Ptr)
    → ((p : Ptr) → has p xs ≡ true → g p ≡ f p)
    → InOrder f xs
    → InOrder g xs
InOrder-frame f g [] same o = tt
InOrder-frame f g (x ∷ xs) same o = (
  subst (λ n. AtLeast g n xs) (sym (same x (ground arith)))
      (AtLeast-frame f g (f x) xs (λ p i. same p (ground arith)) o.0),
  InOrder-frame f g xs (λ p i. same p (ground arith)) o.1,
)

-- The expiry of a timer that is not running may change.
pub Running-expiry :
    (s : Timers) (t : Ptr) (e : ℕ) {ts : List Ptr}
    → Running s ts
    → has t ts ≡ false
    → Running (record s { expiry_tick = update s.expiry_tick t e; next = update s.next t null }) ts
Running-expiry s t e {ts} r out = record {
  chain = Chain-update s.next s.timer_list null t null ts out r.chain;
  distinct = r.distinct;
  short = r.short;
  ordered =
      InOrder-frame s.expiry_tick (update s.expiry_tick t e) ts (λ p i. ground arith) r.ordered;
  live = r.live;
}

arm-Running :
    (s : Timers) (now : ℕ) (t : Ptr) (delay period : ℕ) (cb arg : Ptr) (again : Bool)
    {ts : List Ptr}
    → Running s ts
    → has t ts ≡ false
    → Running (arm s now t delay period cb arg again) ts
unfolding arm
arm-Running s now t delay period cb arg again {ts} r out =
    let r' = Running-expiry s t ((now + delay) % uint32_mod) r out in
    record {
      chain = r'.chain;
      distinct = r.distinct;
      short = r.short;
      ordered = r'.ordered;
      live = λ p i. ground (arith, r.live p);
    }

-- What starting a timer leaves behind.
pub record Started (s' : Timers) (ts : List Ptr) (t : Ptr) (expiry period : ℕ) (cb arg : Ptr)
    (again : Bool) : Type 0 where
  pub running : Running s' (insert_at s'.expiry_tick t ts)
  pub expiry_is : s'.expiry_tick t ≡ expiry
  pub period_is : s'.period_ticks t ≡ period
  pub callback_is : s'.callback t ≡ cb
  pub argument_is : s'.callback_arg t ≡ arg
  pub periodic_is : s'.periodic t ≡ again

module _ (s : Timers) (now : ℕ) (t : Ptr) (delay : ℕ) (cb arg : Ptr) {ts : List Ptr}
    (r : Running s ts) (t_ne : t ≢ null) (cb_ne : cb ≢ null) (later : delay ≢ 0)
    (out : has t ts ≡ false) (room : suc (length ts) < walk_fuel) where
  started :
      (period : ℕ) (again : Bool)
      → (nx : Ptr → Ptr) × (h : Ptr) × (insert_sorted (arm s now t delay period cb arg again) t
          ≡ some (listed (arm s now t delay period cb arg again) nx h))
        × Started
            (listed (arm s now t delay period cb arg again) nx h)
            ts
            t
            ((now + delay) % uint32_mod)
            period
            cb
            arg
            again
  unfolding arm
  started period again =
      let a = arm s now t delay period cb arg again in
      let (nx, h, e, r') =
        insert_sorted-Running a t (arm-Running s now t delay period cb arg again r out) t_ne out
          (update-at s.active t true) room in
      (
        nx,
        h,
        e,
        record {
          running = r';
          expiry_is = update-at s.expiry_tick t _;
          period_is = update-at s.period_ticks t _;
          callback_is = update-at s.callback t _;
          argument_is = update-at s.callback_arg t _;
          periodic_is = update-at s.periodic t _;
        },
      )

  start_once-Started :
      (s' : Timers) × (sw_timer_start_once s now t delay cb arg ≡ some (ok, s'))
      × Started s' ts t ((now + delay) % uint32_mod) 0 cb arg false
  unfolding sw_timer_start_once
  start_once-Started =
      let (nx, h, e, st) = started 0 false in
      (_, rw (==-false t_ne, ==-false cb_ne, ==-false later) (rw e refl), st)

  start_periodic-Started :
      (s' : Timers) × (sw_timer_start_periodic s now t delay cb arg ≡ some (ok, s'))
      × Started s' ts t ((now + delay) % uint32_mod) delay cb arg true
  unfolding sw_timer_start_periodic
  start_periodic-Started =
      let (nx, h, e, st) = started delay true in
      (_, rw (==-false t_ne, ==-false cb_ne, ==-false later) (rw e refl), st)

  -- sw_timer_start_once and sw_timer_start_periodic, with a callback and a delay that is not 0, for a
  -- timer that is not running: it runs, behind the timers that expire no later than `delay` ticks from
  -- now, with the callback and its argument, and returns RTOS_OK; its period is 0 or the delay.
  pub sw_timer_start-Started :
      (s1 : Timers) × (s2 : Timers) × (sw_timer_start_once s now t delay cb arg ≡ some (ok, s1))
      × Started s1 ts t ((now + delay) % uint32_mod) 0 cb arg false
      × (sw_timer_start_periodic s now t delay cb arg ≡ some (ok, s2))
      × Started s2 ts t ((now + delay) % uint32_mod) delay cb arg true
  sw_timer_start-Started =
      let (s1, e1, st1) = start_once-Started in
      let (s2, e2, st2) = start_periodic-Started in (s1, s2, e1, st1, e2, st2)
