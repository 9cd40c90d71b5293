-- ===== src/Scheduler/Rebucket.antt =====
-- scheduler_rebucket_task: a task whose priority has changed moves to the ring of its new bucket.
use microkernel_rtos.Common.{
  ℕ, suc, ◌<◌, ◌≡◌, ◌≢◌, refl, List, [], ◌∷◌, true, false, some, ◌==◌, ◌||◌, has, Distinct, length,
  arith, ap, ◌∙◌, sym, subst, ==-false, Bool-cases, inl, inr, has-erase_self,
}
use microkernel_rtos.Links.{Ptr, null, update, update-at, update-same, update-update}
use microkernel_rtos.Kernel.{Kernel, ready, is_ready, num_priorities, walk_fuel, set_bucket}
use microkernel_rtos.Scheduler.{scheduler_rebucket_task}
use microkernel_rtos.Scheduler.Rings.{Ring}
use microkernel_rtos.Scheduler.Invariant.{Queues, Rings, Ready, relink, elsewhere}
use microkernel_rtos.Scheduler.Insert.{enqueue, mark_ready_again, scheduler_add_task-Ready}
use microkernel_rtos.Scheduler.Remove.{dequeue, scheduler_remove_task-Ready}

bucket_again : (k : Kernel) (t : Ptr) (v : ℕ) → k.prio_bucket t ≡ v → set_bucket k t v ≡ k
bucket_again k t v e =
    ap (λ f. record k { prio_bucket = f })
      (subst (λ w. update k.prio_bucket t w ≡ k.prio_bucket) e (update-same k.prio_bucket t))

-- The old bucket is written and overwritten.
rewritten :
    (k : Kernel) (t : Ptr) (u v : ℕ) → k.prio_bucket t ≡ v → set_bucket (set_bucket k t u) t v ≡ k
rewritten k t u v e =
    ap (λ f. record k { prio_bucket = f }) (update-update k.prio_bucket t u v)
    ∙ bucket_again k t v e

Ring-Distinct : (nx : Ptr → Ptr) (h : Ptr) (xs : List Ptr) → Ring nx h xs → Distinct xs
Ring-Distinct nx h [] r = tt
Ring-Distinct nx h (x ∷ xs) (e, c, d) = d

pub scheduler_rebucket_task-same :
    (k : Kernel) (t : Ptr) (u v : ℕ) → (u == v) ≡ true → scheduler_rebucket_task k t u v ≡ some k
unfolding scheduler_rebucket_task
scheduler_rebucket_task-same k t u v same =
    let stop : ((t == null) || (u == v)) ≡ true = ground arith in rw stop refl

-- A task that is not READY keeps its links: only its bucket is new.
pub scheduler_rebucket_task-off_ring :
    (k : Kernel) (t : Ptr) (u v : ℕ)
    → is_ready (k.state t) ≡ false
    → k.prio_bucket t ≡ v
    → scheduler_rebucket_task k t u v ≡ some k
unfolding scheduler_rebucket_task
scheduler_rebucket_task-off_ring k t u v off e = elim (Bool-cases ((t == null) || (u == v))) [
  | inl same ↦ rw same refl
  | inr moved ↦ rw (moved, off) (ap some (bucket_again k t v e))
]

-- A READY task leaves the ring of its old bucket and goes to the end of that of its new bucket.
pub scheduler_rebucket_task-Ready :
    (k : Kernel) (t : Ptr) (u v : ℕ) {q : Queues}
    → Ready k q
    → t ≢ null
    → k.state t ≡ ready
    → k.prio_bucket t ≡ v
    → u ≢ v
    → u < num_priorities
    → v < num_priorities
    → has t (q u) ≡ true
    → suc (length (q v)) < walk_fuel
    → (nx : Ptr → Ptr) × (heads : ℕ → Ptr) × (scheduler_rebucket_task k t u v
        ≡ some (relink k nx heads))
      × Rings nx heads (enqueue (dequeue q u t) v t)
unfolding scheduler_rebucket_task
scheduler_rebucket_task-Ready k t u v {q} r ne now e moved u_in v_in on room =
    let c = set_bucket k t u in
    let at : c.prio_bucket t ≡ u = update-at k.prio_bucket t u in
    let (nx, heads, removed, r1) =
      scheduler_remove_task-Ready c t r ne (subst (λ b. b < num_priorities) (sym at) u_in) in
    let q' = dequeue q u t in
    let r2 : Rings nx heads q' = subst (λ b. Rings nx heads (dequeue q b t)) at r1 in
    let c2 = set_bucket (relink c nx heads) t v in
    let at2 : c2.prio_bucket t ≡ v = update-at (relink c nx heads).prio_bucket t v in
    let gone : (a : ℕ) → has t (q' a) ≡ false = (λ a. ground (
      arith,
      elsewhere r a u t,
      has-erase_self t (q u) (Ring-Distinct k.next_ready (k.ready_head u) (q u) (r.rings u)),
    )) in
    let (nx2, heads2, added, r3) =
      scheduler_add_task-Ready c2 t r2 ne (rw now refl)
        (subst (λ b. b < num_priorities) (sym at2) v_in) gone
        (subst (λ b. suc (length (q' b)) < walk_fuel) (sym at2) (ground arith)) in
    (
      nx2,
      heads2,
      rw (==-false ne, ==-false moved, now)
          (rw (removed, added)
            (ap some (
              mark_ready_again (relink c2 nx2 heads2) t now
              ∙ ap (λ x. relink x nx2 heads2) (rewritten k t u v e)))),
      subst (λ b. Rings nx2 heads2 (enqueue q' b t)) at2 r3,
    )
