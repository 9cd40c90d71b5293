-- ===== src/Mutex/Pop.antt =====
-- _wait_pop_highest as a whole: the walk, and the writes that unlink the task it settles on.
use microkernel_rtos.Common.{
  ◌≡◌, ◌≢◌, refl, List, [], ◌∷◌, true, false, some, ◌==◌, if◌then◌else◌, has, erase, last, arith,
  ap, ◌∙◌, sym, subst, ==-false, ==-true, Bool-cases, inl, inr, has-last,
}
use microkernel_rtos.Links.{Ptr, null, pred_of, Chain-ne_null, has-pred_of}
use microkernel_rtos.Kernel.{Kernel, WaitList, walk_fuel}
use microkernel_rtos.Waiting.{settle_tail, unlink_at, skip_over}
use microkernel_rtos.Waiting.Chains.{IsWaiting, Relisted}
use microkernel_rtos.Waiting.Unlink.{unlink-found}
use microkernel_rtos.Mutex.{best_walk, unlink_best, wait_pop_highest, set_waiters}
use microkernel_rtos.Mutex.Highest.{best_of, has-best_of, best_walk-all}

-- _wait_pop_highest unlinks as _tcb_unlink does.
unlink_best-unlink_at :
    (k : Kernel) (w : WaitList) (t prev : Ptr)
    → w.wait_head ≢ null
    → ((prev == null) ≡ true → (t == w.wait_tail) ≡ true → k.mutex_wait_next t ≡ null)
    → unlink_best k w t prev ≡ unlink_at k w t prev
unfolding unlink_best unlink_at skip_over settle_tail
unlink_best-unlink_at k w t prev full alone = elim (Bool-cases (prev == null)) [
  | inl front ↦ elim (Bool-cases (t == w.wait_tail)) [
    | inl at ↦ rw (front, at) (rw (alone front at) refl)
    | inr before ↦ rw (front, before) refl
  ]
  | inr inner ↦ elim (Bool-cases (t == w.wait_tail)) [
    | inl at ↦ rw (inner, at, ==-false full) refl
    | inr before ↦ rw (inner, before, ==-false full) refl
  ]
]

module _ (k : Kernel) (w : WaitList) (x : Ptr) (ys : List Ptr) where
  -- A head that is also the tail waits alone.
  head_alone :
      IsWaiting k.mutex_wait_next w (x ∷ ys)
      → (x == w.wait_tail) ≡ true
      → k.mutex_wait_next x ≡ null
  head_alone i at = alone ys refl i
    where
      alone :
          (zs : List Ptr)
          → ys ≡ zs
          → IsWaiting k.mutex_wait_next w (x ∷ zs)
          → k.mutex_wait_next x ≡ null
      alone [] e i = i.chain.2
      alone (z ∷ zs) e i =
          let t : x ≡ w.wait_tail = ==-true x w.wait_tail at in
          let t' : w.wait_tail ≡ last z zs = i.tail in
          absurd (ground (arith, has-last z zs, i.distinct.0))

  pub unlink_best-list :
      (t : Ptr)
      → IsWaiting k.mutex_wait_next w (x ∷ ys)
      → has t (x ∷ ys) ≡ true
      → Relisted k
          (x ∷ ys)
          (erase t (x ∷ ys))
          (unlink_best k w t (if has t ys then pred_of t x ys else null))
  unlink_best-list t i on =
      subst (Relisted k (x ∷ ys) (erase t (x ∷ ys))) (sym same) (unlink-found k w t x ys i on)
    where
      prev : Ptr
      prev = if has t ys then pred_of t x ys else null

      prev_is : prev ≡ (if x == t then null else pred_of t x ys)
      prev_is = elim (Bool-cases (x == t)) [
        | inl here ↦ let e : x ≡ t = ==-true x t here in let d = i.distinct.0 in ground arith
        | inr away ↦ ground arith
      ]

      first : (prev == null) ≡ true → (x == t) ≡ true
      first h = elim (Bool-cases (x == t)) [
        | inl here ↦ here
        | inr away ↦
            let ne =
              Chain-ne_null k.mutex_wait_next w.wait_head null (pred_of t x ys) (x ∷ ys)
                (has-pred_of t x ys) i.chain in
            absurd (ground arith)
      ]

      full : w.wait_head ≢ null
      full z = i.chain.1 (sym (i.chain.0) ∙ z)

      same : unlink_best k w t prev ≡ unlink_at k w t (if x == t then null else pred_of t x ys)
      same =
          unlink_best-unlink_at k w t prev full (λ front at.
            let e : x ≡ t = ==-true x t (first front) in
            subst (λ v. k.mutex_wait_next v ≡ null) e
              (head_alone i (subst (λ v. (v == w.wait_tail) ≡ true) (sym e) at)))
          ∙ ap (unlink_at k w t) prev_is

-- The first of the tasks `x ∷ ys` whose priority value is least.
abbrev pub top : Kernel → Ptr → List Ptr → Ptr
top k x ys = best_of k.priority x ys

-- The waiting task of the highest priority leaves the list, the one that waits longest if several
-- have it; the others keep their order.
pub wait_pop_highest-list :
    (k : Kernel) (m x : Ptr) (ys : List Ptr)
    → IsWaiting k.mutex_wait_next (k.mutexes m).waiters (x ∷ ys)
    → (k' : Kernel) × (w' : WaitList) × (wait_pop_highest k m
        ≡ some (top k x ys, set_waiters k' m w'))
      × Relisted k (x ∷ ys) (erase (top k x ys) (x ∷ ys)) (k', w')
unfolding wait_pop_highest
wait_pop_highest-list k m x ys i = (r.0, r.1, rw (full, walk) refl, listed)
  where
    w : WaitList
    w = (k.mutexes m).waiters

    t : Ptr
    t = top k x ys

    prev : Ptr
    prev = if has t ys then pred_of t x ys else null

    r : Kernel × WaitList
    r = unlink_best k w t prev

    full : (w.wait_head == null) ≡ false
    full = ==-false λ z. i.chain.1 (sym (i.chain.0) ∙ z)

    walk :
        best_walk walk_fuel k.mutex_wait_next k.priority w.wait_head null null w.wait_head
        ≡ some (t, prev)
    walk =
        subst (λ h. best_walk walk_fuel k.mutex_wait_next k.priority h null null h ≡ some (t, prev))
          (sym (i.chain.0))
          (best_walk-all k.priority k.mutex_wait_next 63 x ys i.chain.1 i.chain.2 i.distinct
            (omega (arith, i.short)))

    listed : Relisted k (x ∷ ys) (erase t (x ∷ ys)) r
    listed = unlink_best-list k w x ys t i (has-best_of k.priority x ys)

pub wait_pop_highest-empty :
    (k : Kernel) (m : Ptr)
    → IsWaiting k.mutex_wait_next (k.mutexes m).waiters []
    → wait_pop_highest k m ≡ some (null, k)
unfolding wait_pop_highest
wait_pop_highest-empty k m i =
    let empty : ((k.mutexes m).waiters.wait_head == null) ≡ true =
      subst (λ h. (h == null) ≡ true) (sym i.chain) refl in
    rw empty refl
