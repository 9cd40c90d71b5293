-- ===== src/Timer.antt =====
-- src/timer/sw_timer.c: software timers in a list sorted by the tick at which they expire. The tick
-- counter, which is src/core/task.c's, is an argument; a callback and its argument are numbers.
pub mod Sorted
pub mod Calls
pub mod Stop
pub mod Due
pub mod Expiry
use microkernel_rtos.Common.{
  ℕ, zero, suc, ◌+◌, ◌%◌, Bool, true, false, ◌&&◌, ◌||◌, not, Option, none, some, ◌==◌, leb,
  if◌then◌else◌, ◌>>=◌,
}
use microkernel_rtos.Links.{Ptr, null, update}
use microkernel_rtos.Kernel.{Status, ok, err_param, uint32_mod, walk_fuel}
use microkernel_rtos.Waiting.{list_find}

-- The fields of sw_timer_t, and the variable timer_list.
pub record Timers : Type 0 where
  pub expiry_tick : Ptr → ℕ
  pub period_ticks : Ptr → ℕ
  pub callback : Ptr → Ptr
  pub callback_arg : Ptr → Ptr
  pub periodic : Ptr → Bool
  pub active : Ptr → Bool
  pub next : Ptr → Ptr
  pub timer_list : Ptr

abbrev pub set_next : Timers → Ptr → Ptr → Timers
set_next s t p = record s { next = update s.next t p }

-- sw_timer_init
unfoldable pub sw_timer_init : Timers → Timers
sw_timer_init s = record s { timer_list = null }

-- The loop of _insert_sorted: where it leaves `prev` and `curr`.
pub insert_walk : ℕ → (Ptr → Ptr) → (Ptr → ℕ) → ℕ → Ptr → Ptr → Option (Ptr × Ptr)
insert_walk zero nx expiry e prev curr = none
insert_walk (suc fuel) nx expiry e prev curr =
    let rest = insert_walk fuel nx expiry e curr (nx curr) in
    if not (curr == null) && leb (expiry curr) e then rest else some (prev, curr)

-- What follows that loop.
pub link_in : Timers → Ptr → Ptr → Ptr → Timers
link_in s t prev curr =
    if prev == null
    then record (set_next s t s.timer_list) { timer_list = t }
    else set_next (set_next s t curr) prev t

-- _insert_sorted
pub insert_sorted : Timers → Ptr → Option Timers
insert_sorted s t = do
  (prev, curr) ← insert_walk walk_fuel s.next s.expiry_tick (s.expiry_tick t) null s.timer_list
  some (link_in s t prev curr)

-- The writes of the two calls that start a timer, memset included.
pub arm : Timers → ℕ → Ptr → ℕ → ℕ → Ptr → Ptr → Bool → Timers
arm s now t delay period cb arg again = record s {
  expiry_tick = update s.expiry_tick t ((now + delay) % uint32_mod);
  period_ticks = update s.period_ticks t period;
  callback = update s.callback t cb;
  callback_arg = update s.callback_arg t arg;
  periodic = update s.periodic t again;
  active = update s.active t true;
  next = update s.next t null;
}

-- sw_timer_start_once
pub sw_timer_start_once : Timers → ℕ → Ptr → ℕ → Ptr → Ptr → Option (Status × Timers)
sw_timer_start_once s now t delay cb arg =
    if (t == null) || (cb == null) || (delay == 0)
    then some (err_param, s)
    else do s ← insert_sorted (arm s now t delay 0 cb arg false) t; some (ok, s)

-- sw_timer_start_periodic
pub sw_timer_start_periodic : Timers → ℕ → Ptr → ℕ → Ptr → Ptr → Option (Status × Timers)
sw_timer_start_periodic s now t period cb arg =
    if (t == null) || (cb == null) || (period == 0)
    then some (err_param, s)
    else do s ← insert_sorted (arm s now t period period cb arg true) t; some (ok, s)

-- The loop body of sw_timer_stop at `curr == t`.
pub unlink_timer : Timers → Ptr → Option Ptr → Timers
unlink_timer s t none = s
unlink_timer s t (some prev) =
    let skipped =
      if prev == null then record s { timer_list = s.next t } else set_next s prev (s.next t) in
    record (set_next skipped t null) { active = update skipped.active t false }

-- sw_timer_stop; its loop is that of _tcb_unlink in src/ipc/msgqueue.c, on the field `next`.
pub sw_timer_stop : Timers → Ptr → Option Timers
sw_timer_stop s t =
    if t == null
    then some s
    else do found ← list_find walk_fuel s.next t null s.timer_list; some (unlink_timer s t found)

-- The branches on `due->periodic`.
pub rearm : Timers → ℕ → Ptr → Option Timers
rearm s now due =
    if s.periodic due
    then insert_sorted
        (record (set_next s due null) {
          expiry_tick = update s.expiry_tick due ((now + s.period_ticks due) % uint32_mod);
        })
        due
    else some (record s { active = update s.active due false })

-- The condition of the loop of sw_timer_tick_process.
abbrev pub is_due : Timers → ℕ → Bool
is_due s now =
    not (s.timer_list == null) && (s.active s.timer_list && leb (s.expiry_tick s.timer_list) now)

-- The rest of the system: its state, and what a callback does to it and to the timers.
module _ {W : Type 0} (call : Ptr → Ptr → W → Timers → W × Timers) where
  -- `if (due->callback != NULL) { due->callback(due->callback_arg); }`
  pub run_callback : W → Timers → Ptr → W × Timers
  run_callback w s due =
      if s.callback due == null then (w, s) else call (s.callback due) (s.callback_arg due) w s

  -- The body of the loop of sw_timer_tick_process.
  pub expire : W → Timers → ℕ → Option (W × Timers)
  expire w s now =
      let due = s.timer_list in
      let (w, s) = run_callback w (record (set_next s due null) { timer_list = s.next due }) due in
      (do s ← rearm s now due; some (w, s))

  -- sw_timer_tick_process at the tick `now`, with `fuel` rounds.
  pub sw_timer_tick_process : ℕ → ℕ → W → Timers → Option (W × Timers)
  sw_timer_tick_process zero now w s = none
  sw_timer_tick_process (suc fuel) now w s =
      let rest = expire w s now >>= (λ r. sw_timer_tick_process fuel now (r.0) (r.1)) in
      if is_due s now then rest else some (w, s)
