-- ===== src/Timer/Due.antt =====
-- One round of sw_timer_tick_process: whether a timer is due, and the list when it has been handled.
use microkernel_rtos.Common.{
  ℕ, suc, ◌+◌, ◌%◌, ◌≤◌, ◌≡◌, refl, List, [], ◌∷◌, ◌++◌, true, false, some, leb, has, arith, ap,
  ==-false,
}
use microkernel_rtos.Links.{Ptr, null, update, Chain-update}
use microkernel_rtos.Kernel.{uint32_mod}
use microkernel_rtos.Timer.{Timers, set_next, rearm, is_due}
use microkernel_rtos.Timer.Sorted.{AtLeast, Running, insert_at, listed, insert_sorted-Running}
use microkernel_rtos.Timer.Calls.{Running-expiry}

abbrev pub AtMost : (Ptr → ℕ) → ℕ → List Ptr → Type 0
AtMost f n [] = Unit {0}
AtMost f n (x ∷ xs) = (f x ≤ n) × AtMost f n xs

pub AtMost-frame :
    (f g : Ptr → ℕ) (n : ℕ) (xs : List Ptr)
    → ((p : Ptr) → has p xs ≡ true → g p ≡ f p)
    → AtMost f n xs
    → AtMost g n xs
AtMost-frame f g n [] same a = tt
AtMost-frame f g n (x ∷ xs) same a = (
  omega (arith, a.0, same x (ground arith)),
  AtMost-frame f g n xs (λ p i. same p (ground arith)) a.1,
)

-- A timer that expires later than all of `ds` is inserted behind them.
pub insert_behind :
    (f : Ptr → ℕ) (n : ℕ) (t : Ptr) (ds ls : List Ptr)
    → AtMost f n ds
    → n ≤ f t
    → insert_at f t (ds ++ ls) ≡ ds ++ insert_at f t ls
insert_behind f n t [] ls a h = refl
insert_behind f n t (x ∷ xs) ls a h =
    let early : leb (f x) (f t) ≡ true = ground arith in
    rw early (ap (λ ys. x ∷ ys) (insert_behind f n t xs ls a.1 h))

-- The timer `d` at the head of the list is taken off it.
abbrev pub popped : Timers → Ptr → Timers
popped s d = record (set_next s d null) { timer_list = s.next d }

pub popped-Running :
    (s : Timers) (d : Ptr) (ts : List Ptr) → Running s (d ∷ ts) → Running (popped s d) ts
popped-Running s d ts r = record {
  chain = Chain-update s.next (s.next d) null d null ts r.distinct.0 r.chain.2;
  distinct = r.distinct.1;
  short = omega (arith, r.short);
  ordered = r.ordered.1;
  live = λ p i. r.live p (ground arith);
}

-- A one-shot timer that was due is off the list, and no longer active.
abbrev pub ended : Timers → Ptr → Timers
ended s d = record (popped s d) { active = update s.active d false }

-- A periodic one goes back behind those that expire no later.
abbrev pub again : Timers → ℕ → Ptr → Timers
again s now d = record (set_next (popped s d) d null) {
  expiry_tick = update s.expiry_tick d ((now + s.period_ticks d) % uint32_mod);
}

pub ended-Running :
    (s : Timers) (d : Ptr) (ts : List Ptr) → Running s (d ∷ ts) → Running (ended s d) ts
ended-Running s d ts r =
    let r' = popped-Running s d ts r in
    let out : has d ts ≡ false = r.distinct.0 in
    record {
      chain = r'.chain;
      distinct = r'.distinct;
      short = r'.short;
      ordered = r'.ordered;
      live = λ p i. ground (arith, r'.live p);
    }

pub rearm-Running :
    (s : Timers) (now : ℕ) (d : Ptr) (ts : List Ptr)
    → Running s (d ∷ ts)
    → s.periodic d ≡ true
    → let a = again s now d in
      (nx : Ptr → Ptr) × (h : Ptr) × (rearm (popped s d) now d ≡ some (listed a nx h))
      × Running (listed a nx h) (insert_at a.expiry_tick d ts)
unfolding rearm
rearm-Running s now d ts r per =
    let out : has d ts ≡ false = r.distinct.0 in
    let (nx, h, e, r') =
      insert_sorted-Running (again s now d) d
        (Running-expiry (popped s d) d _ (popped-Running s d ts r) out) r.chain.1 out
        (r.live d (ground arith)) r.short in
    (nx, h, rw per e, r')

pub not_due :
    (s : Timers) (now : ℕ) (ls : List Ptr)
    → Running s ls
    → AtLeast s.expiry_tick (suc now) ls
    → is_due s now ≡ false
not_due s now [] r late = let e : s.timer_list ≡ null = r.chain in rw e refl
not_due s now (x ∷ xs) r late = let e : s.timer_list ≡ x = r.chain.0 in rw e (ground arith)

pub due_now :
    (s : Timers) (now : ℕ) (d : Ptr) (ts : List Ptr)
    → Running s (d ∷ ts)
    → s.expiry_tick d ≤ now
    → is_due s now ≡ true
due_now s now d ts r le =
    let e : s.timer_list ≡ d = r.chain.0 in
    let on : s.active d ≡ true = r.live d (ground arith) in
    rw (e, ==-false r.chain.1, on) (ground arith)
