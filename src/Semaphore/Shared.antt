-- ===== src/Semaphore/Shared.antt =====
-- The tasks that share a semaphore: each is on the ready ring of its bucket or on the wait list.
use microkernel_rtos.Common.{
  ℕ, suc, ◌<◌, ◌≡◌, ◌≢◌, List, [], ◌∷◌, true, false, ◌&&◌, not, ◌==◌, has, Distinct, length-le,
  length, arith, subst, ==-true, Bool-cases, inl, inr,
}
use microkernel_rtos.Links.{Ptr, null}
use microkernel_rtos.Kernel.{Kernel, is_blocked, num_priorities, walk_fuel}
use microkernel_rtos.Scheduler.Rings.{Ring}
use microkernel_rtos.Scheduler.Invariant.{Queues, Ready}
use microkernel_rtos.Blocking.Rings.{MayRun}
use microkernel_rtos.Semaphore.Waits.{IsValid}

-- The tasks `ts` are all tasks, the idle task among them; `xs` wait for the semaphore, and the ready
-- rings hold the others.
pub record Shared (sem : Ptr) (ts : List Ptr) (k : Kernel) (q : Queues) (xs : List Ptr)
    : Type 0 where
  pub rings : Ready k q
  pub valid : IsValid k sem xs
  pub waits_known : (t : Ptr) → has t xs ≡ true → has t ts ≡ true
  pub on_ring :
      (t : Ptr) (a : ℕ) → has t (q a) ≡ (has t ts && not (has t xs) && (a == k.prio_bucket t))
  pub state : (t : Ptr) → has t ts ≡ true → is_blocked (k.state t) ≡ has t xs
  pub in_range : (t : Ptr) → has t ts ≡ true → k.prio_bucket t < num_priorities
  pub current : has k.current_tcb ts ≡ true
  pub idle : has k.idle_tcb ts ≡ true
  pub idle_runs : has k.idle_tcb xs ≡ false

pub Ring-Distinct : (nx : Ptr → Ptr) (h : Ptr) (xs : List Ptr) → Ring nx h xs → Distinct xs
Ring-Distinct nx h [] r = tt
Ring-Distinct nx h (x ∷ xs) (e, c, d) = d

module _ {sem : Ptr} {ts : List Ptr} {k : Kernel} {q : Queues} {xs : List Ptr}
    (s : Shared sem ts k q xs) (small : length ts < walk_fuel) (no_null : has null ts ≡ false) where
  known_ne_null : (t : Ptr) → has t ts ≡ true → t ≢ null
  known_ne_null t i e = absurd (ground (arith, subst (λ v. has v ts ≡ true) e i))

  -- A waiting task is on no ring, …
  pub off_rings : (t a : ℕ) → has t xs ≡ true → has t (q a) ≡ false
  off_rings t a i = ground (arith, s.on_ring t a)

  -- and may be put on its own.
  pub may_run : (t : Ptr) → has t xs ≡ true → MayRun k.prio_bucket q t
  may_run t i =
      let b = k.prio_bucket t in
      let off = off_rings t b i in
      let d : Distinct (t ∷ q b) =
        (off, Ring-Distinct k.next_ready (k.ready_head b) (q b) (s.rings.rings b)) in
      let fewer = length-le (t ∷ q b) ts d (λ u j. elim (Bool-cases (u == t)) [
        | inl here ↦ rw (==-true u t here) (s.waits_known t i)
        | inr away ↦ ground (arith, s.on_ring u b)
      ]) in
      record {
        ne_null = known_ne_null t (s.waits_known t i);
        in_range = s.in_range t (s.waits_known t i);
        absent = λ a. off_rings t a i;
        room = omega (arith, fewer, small);
      }

  -- There is room for one more on the wait list.
  pub may_wait : (t : Ptr) → has t ts ≡ true → has t xs ≡ false → suc (length xs) < walk_fuel
  may_wait t known off =
      let d : Distinct (t ∷ xs) = (off, s.valid.waits.distinct) in
      let fewer = length-le (t ∷ xs) ts d (λ u j. elim (Bool-cases (u == t)) [
        | inl here ↦ rw (==-true u t here) known
        | inr away ↦ s.waits_known u (ground arith)
      ]) in
      omega (arith, fewer, small)
