-- ===== src/Scheduler/Slice.antt =====
-- scheduler_time_slice_tick: the running task's time slice at a tick.
use microkernel_rtos.Common.{
  ℕ, ◌+◌, ◌%◌, ◌<◌, ◌≡◌, ◌≢◌, refl, List, [], ◌∷◌, Bool, true, false, ◌||◌, not, ◌==◌, ltb, arith,
  length, Bool-cases, inl, inr, ==-false,
}
use microkernel_rtos.Links.{Ptr, null, update, update-update}
use microkernel_rtos.Kernel.{Kernel, is_running, time_slice_ticks, uint32_mod, set_slice}
use microkernel_rtos.Scheduler.{
  no_peer, slice_expired, scheduler_mark_reschedule, scheduler_time_slice_tick,
}
use microkernel_rtos.Scheduler.Rings.{Ring}
use microkernel_rtos.Scheduler.Invariant.{Queues, Ready}

-- Whatever the state, only the counter and the request for a context switch change.
pub scheduler_time_slice_tick-shape :
    (k : Kernel)
    → (counter : Ptr → ℕ) × (pend : Bool) × (scheduler_time_slice_tick k
        ≡ record k { time_slice_counter = counter; pendsv = pend })
unfolding scheduler_time_slice_tick slice_expired scheduler_mark_reschedule
scheduler_time_slice_tick-shape k =
    let cur = k.current_tcb in
    let stepped = update k.time_slice_counter cur ((k.time_slice_counter cur + 1) % uint32_mod) in
    elim (Bool-cases ((cur == null) || (cur == k.idle_tcb) || not (is_running (k.state cur)))) [
      | inl stops ↦ (k.time_slice_counter, k.pendsv, rw stops refl)
      | inr runs ↦ elim (Bool-cases (ltb (stepped cur) time_slice_ticks)) [
        | inl short ↦ (stepped, k.pendsv, rw (runs, short) refl)
        | inr over ↦
            elim (Bool-cases (
              no_peer (set_slice k cur ((k.time_slice_counter cur + 1) % uint32_mod))
                (k.prio_bucket cur))) [
                  | inl alone ↦ (update stepped cur 0, k.pendsv, rw (runs, over, alone) refl)
                  | inr peers ↦ (update stepped cur 0, true, rw (runs, over, peers) refl)
                ]
      ]
    ]

-- The ring of a bucket has one task at most.
no_peer-alone :
    (k : Kernel) (b : ℕ) (xs : List Ptr)
    → Ring k.next_ready (k.ready_head b) xs
    → no_peer k b ≡ not (ltb 1 (length xs))
unfolding no_peer
no_peer-alone k b [] r = rw r refl
no_peer-alone k b (x ∷ []) (e, (_, n, c), d) = rw e (ground (arith, c))
no_peer-alone k b (x ∷ y ∷ ys) (e, (_, n, c), d) =
    let next : k.next_ready x ≡ y = c.0 in rw e (ground (arith, next, d.0))

-- At a tick the slice of a running task ends: its counter is 0 again, and a context switch is asked
-- for if the ring of its bucket has another task.
scheduler_time_slice_tick-ends :
    (k : Kernel) {q : Queues}
    → let cur = k.current_tcb in
      Ready k q
      → cur ≢ null
      → cur ≢ k.idle_tcb
      → is_running (k.state cur) ≡ true
      → k.time_slice_counter cur + 1 < uint32_mod
      → scheduler_time_slice_tick k ≡ record k {
        time_slice_counter = update k.time_slice_counter cur 0;
        pendsv = k.pendsv || ltb 1 (length (q (k.prio_bucket cur)));
      }
unfolding scheduler_time_slice_tick slice_expired scheduler_mark_reschedule
scheduler_time_slice_tick-ends k {q} r ne ni running small =
    let cur = k.current_tcb in
    let v = (k.time_slice_counter cur + 1) % uint32_mod in
    let stepped = set_slice k cur v in
    let over : ltb (update k.time_slice_counter cur v cur) time_slice_ticks ≡ false =
      ground arith in
    let zeroed = update-update k.time_slice_counter cur v 0 in
    let peers =
      no_peer-alone stepped (k.prio_bucket cur) (q (k.prio_bucket cur))
        (r.rings (k.prio_bucket cur)) in
    rw (==-false ne, ==-false ni, running)
      (rw over (
        rw peers (elim (Bool-cases (ltb 1 (length (q (k.prio_bucket cur))))) [
          | inl many ↦
              let set : (k.pendsv || true) ≡ true = ground arith in rw many (rw (zeroed, set) refl)
          | inr one ↦
              let kept : (k.pendsv || false) ≡ k.pendsv = ground arith in
              rw one (rw (zeroed, kept) refl)
        ])))
