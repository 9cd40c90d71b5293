-- ===== src/Scheduler/Insert.antt =====
-- scheduler_add_task and _ring_insert: a block goes to the end of its ring.
use mathlib.Core.Path.{fun_ext}
use microkernel_rtos.Common.{
  ℕ, suc, ◌<◌, ◌≡◌, ◌≢◌, refl, List, [], ◌∷◌, ◌++◌, false, true, some, ◌==◌, has, last, length,
  arith, subst, sym, ◌∙◌, has-append, length-append, has-last, ==-false, ==_refl, ap, ℕ_discrete,
}
use microkernel_rtos.Links.{Ptr, null, update}
use microkernel_rtos.Kernel.{Kernel, ready, ok, num_priorities, walk_fuel, is_terminated}
use microkernel_rtos.Scheduler.{ring_tail, ring_insert, mark_ready, scheduler_add_task}
use microkernel_rtos.Scheduler.Rings.{Ring, ring_tail-last, insert-Ring}
use microkernel_rtos.Scheduler.Invariant.{Queues, Rings, Ready, relink, elsewhere, Rings-replace}

-- The queues with `t` at the end of ring `b`.
abbrev pub enqueue : Queues → ℕ → Ptr → Queues
enqueue q b t = update q b (q b ++ t ∷ [])

-- What a call that links `t` in at the end of ring `b` returns.
abbrev Inserted : Kernel → Queues → ℕ → Ptr → Type 0
Inserted k q b t =
    (nx : Ptr → Ptr) × (heads : ℕ → Ptr) × (ring_insert k b t ≡ some (relink k nx heads))
    × Rings nx heads (enqueue q b t)

module _ (k : Kernel) (b : ℕ) (t : Ptr) {q : Queues} (r : Ready k q) (in_range : b < num_priorities)
    (ne : t ≢ null) (absent : (a : ℕ) → has t (q a) ≡ false)
    (room : suc (length (q b)) < walk_fuel) where
  -- The ring is empty: `t` becomes a ring of its own.
  insert-empty : q b ≡ [] → Inserted k q b t
  unfolding ring_insert
  insert-empty e = (
    nx,
    heads,
    rw empty refl,
    Rings-replace r nx heads b (q b ++ t ∷ []) in_range ring
        (omega (arith, length-append (q b) (t ∷ []))) (λ a away. ground arith)
        (λ a p away i. ground (arith, absent a))
        (λ a p away i. ground (arith, absent a, has-append p (q b) (t ∷ []), r.apart a b p)),
  )
    where
      empty : k.ready_head b ≡ null
      empty = subst (Ring k.next_ready (k.ready_head b)) e (r.rings b)

      nx : Ptr → Ptr
      nx = update k.next_ready t t

      heads : ℕ → Ptr
      heads = update k.ready_head b t

      ring : Ring nx (heads b) (q b ++ t ∷ [])
      ring = rw e (ground arith)

  -- The ring `x ∷ xs` is walked to its last block, and `t` is linked in there.
  insert-behind : (x : Ptr) (xs : List Ptr) → q b ≡ x ∷ xs → Inserted k q b t
  unfolding ring_insert
  insert-behind x xs e = (
    nx,
    k.ready_head,
    rw (full, walked) refl,
    Rings-replace r nx k.ready_head b (q b ++ t ∷ []) in_range ring
        (omega (arith, length-append (q b) (t ∷ []))) (λ a away. refl)
        (λ a p away i. ground (arith, absent a, elsewhere r a b (last x xs) away, on_ring))
        (λ a p away i. ground (arith, absent a, has-append p (q b) (t ∷ []), r.apart a b p)),
  )
    where
      old : Ring k.next_ready (k.ready_head b) (x ∷ xs)
      old = subst (Ring k.next_ready (k.ready_head b)) e (r.rings b)

      full : (k.ready_head b == null) ≡ false
      full = ==-false λ z. old.1.1 (sym (old.0) ∙ z)

      small : length xs < walk_fuel
      small = omega (arith, subst (λ ys. length ys < walk_fuel) e (r.short b))

      new : has t (x ∷ xs) ≡ false
      new = subst (λ ys. has t ys ≡ false) e (absent b)

      on_ring : has (last x xs) (q b) ≡ true
      on_ring = rw e (has-last x xs)

      nx : Ptr → Ptr
      nx = update (update k.next_ready (last x xs) t) t (k.ready_head b)

      walked : ring_tail walk_fuel k.next_ready (k.ready_head b) (k.ready_head b) ≡ some (last x xs)
      walked =
          subst (λ h. ring_tail walk_fuel k.next_ready h h ≡ some (last x xs)) (sym (old.0))
            (ring_tail-last k.next_ready walk_fuel x x xs (old.2.0) (old.1) small)

      ring : Ring nx (k.ready_head b) (q b ++ t ∷ [])
      ring = rw e (insert-Ring k.next_ready (k.ready_head b) t x xs ne new old)

  pub ring_insert-Rings : Inserted k q b t
  ring_insert-Rings = go (q b) refl
    where
      go : (xs : List Ptr) → q b ≡ xs → Inserted k q b t
      go [] e = insert-empty e
      go (x ∷ xs) e = insert-behind x xs e

-- A task that is not on any ring goes to the end of the ring of its bucket, and becomes READY unless
-- it is BLOCKED or SUSPENDED. No other ring changes.
pub scheduler_add_task-Ready :
    (k : Kernel) (t : Ptr) {q : Queues}
    → Ready k q
    → t ≢ null
    → is_terminated (k.state t) ≡ false
    → k.prio_bucket t < num_priorities
    → ((a : ℕ) → has t (q a) ≡ false)
    → suc (length (q (k.prio_bucket t))) < walk_fuel
    → (nx : Ptr → Ptr) × (heads : ℕ → Ptr) × (scheduler_add_task k t
        ≡ some (ok, mark_ready (relink k nx heads) t))
      × Rings nx heads (enqueue q (k.prio_bucket t) t)
unfolding scheduler_add_task
scheduler_add_task-Ready k t {q} r ne live in_range absent room =
    let (nx, heads, e, r') = ring_insert-Rings k (k.prio_bucket t) t r in_range ne absent room in
    (nx, heads, rw (==-false ne, live, e) refl, r')

-- Marking a READY task again changes nothing.
pub mark_ready_again : (k : Kernel) (t : Ptr) → k.state t ≡ ready → mark_ready k t ≡ k
unfolding mark_ready
mark_ready_again k t e = rw e (ap (λ s. record k { state = s }) (fun_ext same))
  where
    same : (p : Ptr) → update k.state t ready p ≡ k.state p
    same p = elim (ℕ_discrete p t) [
      | yes here ↦ rw here (rw (==_refl t) (sym e))
      | no away ↦ rw (==-false away) refl
    ]
