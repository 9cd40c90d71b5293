-- ===== src/Fixtures/Timing.antt =====
-- The software timers' theorems on three timers: 800 and 810 expire at tick 1000, 820 at 1005; 810 is
-- periodic.
use microkernel_rtos.Common.{
  ◌≡◌, refl, List, [], ◌∷◌, ◌+◌, true, false, some, ◌==◌, if◌then◌else◌, arith,
}
use microkernel_rtos.Links.{Ptr, null}
use microkernel_rtos.Kernel.{ok}
use microkernel_rtos.Timer.{
  Timers, sw_timer_stop, sw_timer_start_once, sw_timer_start_periodic, sw_timer_tick_process,
}
use microkernel_rtos.Timer.Sorted.{Running}
use microkernel_rtos.Timer.Calls.{Started, sw_timer_start-Started}
use microkernel_rtos.Timer.Stop.{stopped, sw_timer_stop-Running}
use microkernel_rtos.Timer.Expiry.{sw_timer_tick_process-fires}

abbrev pub three : Timers
three = record {
  expiry_tick = λ p. if p == 820 then 1005 else 1000;
  period_ticks = λ p. if p == 810 then 50 else 0;
  callback = λ p. p + 1;
  callback_arg = λ p. null;
  periodic = λ p. p == 810;
  active = λ p. true;
  next = λ p. if p == 800 then 810 else if p == 810 then 820 else null;
  timer_list = 800;
}

pub three-Running : Running three (800 ∷ 810 ∷ 820 ∷ [])
three-Running = record {
  chain = ground arith;
  distinct = ground arith;
  short = omega arith;
  ordered = ground arith;
  live = λ p i. refl;
}

sw_timer_start-Started_example :
    (s1 : Timers) × (s2 : Timers) × (sw_timer_start_once three 1000 830 3 7 9 ≡ some (ok, s1))
    × Started s1 (800 ∷ 810 ∷ 820 ∷ []) 830 1003 0 7 9 false
    × (sw_timer_start_periodic three 1000 830 3 7 9 ≡ some (ok, s2))
    × Started s2 (800 ∷ 810 ∷ 820 ∷ []) 830 1003 3 7 9 true
sw_timer_start-Started_example =
    sw_timer_start-Started three 1000 830 3 7 9 three-Running (omega arith) (omega arith)
      (omega arith) refl (omega arith)

-- The callbacks that have run, latest first.
abbrev pub log : Ptr → Ptr → List Ptr → List Ptr
log c a w = c ∷ w

abbrev logged : Ptr → Ptr → List Ptr → Timers → List Ptr × Timers
logged c a w s = (c ∷ w, s)

sw_timer_tick_process-fires_example :
    (s' : Timers) × (ls : List Ptr) × (sw_timer_tick_process logged 5 1000 [] three
      ≡ some (811 ∷ 801 ∷ [], s'))
    × Running s' ls
    × (s'.expiry_tick 810 ≡ 1050)
sw_timer_tick_process-fires_example =
    let (s', ls, e, r, late, after) =
      sw_timer_tick_process-fires logged log (λ c a w s. refl) 5 1000 [] three (800 ∷ 810 ∷ [])
        (820 ∷ []) 810 three-Running (ground arith) (ground arith) (λ t i p. ground arith)
        (λ t i. ground arith) (omega arith) in
    (s', ls, e, r, after.expiry)

sw_timer_stop-Running_example :
    (nx : Ptr → Ptr) × (head : Ptr) × (sw_timer_stop three 810 ≡ some (stopped three 810 nx head))
    × Running (stopped three 810 nx head) (800 ∷ 820 ∷ [])
sw_timer_stop-Running_example =
    sw_timer_stop-Running three 810 (800 ∷ 810 ∷ 820 ∷ []) (omega arith) three-Running
