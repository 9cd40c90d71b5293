-- ===== src/Waiting/Unlink.antt =====
-- _tcb_unlink: a task leaves a wait list, wherever it stands on it.
use microkernel_rtos.Common.{
  ◌≡◌, ◌≢◌, refl, List, [], ◌∷◌, false, true, some, ◌==◌, if◌then◌else◌, has, Distinct, last, erase,
  arith, Bool-cases, inl, inr, subst, sym, ◌∙◌, ap, has-last, has-erase, has-erase_self,
  erase-Distinct, length-erase-le, erase_of_not_has, ==-false, ==-true,
}
use microkernel_rtos.Links.{
  Ptr, null, update, pred_of, has-pred_of, Chain, Chain-ne_null, Chain-update, Chain-unlink,
}
use microkernel_rtos.Kernel.{Kernel, WaitList, walk_fuel}
use microkernel_rtos.Waiting.{settle_tail, skip_over, unlink_at, unlink_waiter, tcb_unlink}
use microkernel_rtos.Waiting.Chains.{
  back, IsWaiting, Relisted, settle_tail-back, list_find-found, list_find-missing,
}

last-erase :
    (x t : Ptr) (ys : List Ptr)
    → Distinct (x ∷ ys)
    → has t ys ≡ true
    → last x (erase t ys) ≡ (if t == last x ys then pred_of t x ys else last x ys)
last-erase x t [] d i = absurd (ground arith)
last-erase x t (y ∷ []) d i = ground arith
last-erase x t (y ∷ z ∷ zs) d i = elim (Bool-cases (y == t)) [
  | inl hit ↦ ground (arith, has-last z zs)
  | inr miss ↦ ground (arith, last-erase y t (z ∷ zs) d.1 (ground arith))
]

module _ (k : Kernel) (w : WaitList) (t : Ptr) where
  -- The task waits longest.
  unlink-head :
      (ys : List Ptr)
      → IsWaiting k.mutex_wait_next w (t ∷ ys)
      → Relisted k (t ∷ ys) ys (unlink_at k w t null)
  unfolding unlink_at skip_over
  unlink-head ys i = (nx, refl, listed, λ p off. ground arith)
    where
      nx : Ptr → Ptr
      nx = update k.mutex_wait_next t null

      rest : WaitList
      rest =
          if t == w.wait_tail
          then record w { wait_head = k.mutex_wait_next t; wait_tail = null }
          else record w { wait_head = k.mutex_wait_next t }

      moved : rest.wait_head ≡ k.mutex_wait_next t
      moved = ground arith

      chain : Chain nx rest.wait_head ys null
      chain =
          subst (λ h. Chain nx h ys null) (sym moved)
            (Chain-update k.mutex_wait_next (k.mutex_wait_next t) null t null ys (i.distinct.0)
              (i.chain.2))

      tails : (x : Ptr) (zs : List Ptr) → ys ≡ x ∷ zs → rest.wait_tail ≡ last x zs
      tails x zs e =
          let tail : w.wait_tail ≡ last x zs = i.tail ∙ ap (last t) e in
          let apart : has t (x ∷ zs) ≡ false = subst (λ v. has t v ≡ false) e (i.distinct.0) in
          ground (arith, has-last x zs)

      settled :
          ((settle_tail rest).wait_head ≡ rest.wait_head) × ((settle_tail rest).wait_tail ≡ back ys)
      settled = settle_tail-back k w nx rest ys chain tails

      listed : IsWaiting nx (settle_tail rest) ys
      listed = record {
        chain = subst (λ h. Chain nx h ys null) (sym (settled.0)) chain;
        tail = settled.1;
        distinct = i.distinct.1;
        short = omega (arith, i.short);
      }

  -- Others wait longer.
  unlink-inner :
      (x : Ptr) (ys : List Ptr)
      → (x == t) ≡ false
      → has t ys ≡ true
      → IsWaiting k.mutex_wait_next w (x ∷ ys)
      → Relisted k (x ∷ ys) (x ∷ erase t ys) (unlink_at k w t (pred_of t x ys))
  unfolding unlink_at skip_over
  unlink-inner x ys miss on i =
      rw inner (nx, refl, listed, λ p off. ground (arith, has-pred_of t x ys))
    where
      prev : Ptr
      prev = pred_of t x ys

      inner : (prev == null) ≡ false
      inner = ==-false (
          Chain-ne_null k.mutex_wait_next w.wait_head null prev (x ∷ ys) (has-pred_of t x ys)
            i.chain)

      nx : Ptr → Ptr
      nx = update (update k.mutex_wait_next prev (k.mutex_wait_next t)) t null

      rest : WaitList
      rest = if t == w.wait_tail then record w { wait_tail = prev } else w

      moved : rest.wait_head ≡ x
      moved = ground (arith, i.chain.0)

      out : has t (x ∷ erase t ys) ≡ false
      out = ground (arith, has-erase_self t ys i.distinct.1)

      chain : Chain nx x (x ∷ erase t ys) null
      chain =
          Chain-update (update k.mutex_wait_next prev (k.mutex_wait_next t)) x null t null
            (x ∷ erase t ys) out
            (Chain-unlink k.mutex_wait_next x t null ys on i.distinct (refl, i.chain.1, i.chain.2))

      tail : rest.wait_tail ≡ last x (erase t ys)
      tail = ground (arith, i.tail, last-erase x t ys i.distinct on)

      full : (rest.wait_head == null) ≡ false
      full = ==-false λ z. i.chain.1 (sym moved ∙ z)

      same : settle_tail rest ≡ rest
      same = unfold settle_tail in rw full refl

      listed : IsWaiting nx (settle_tail rest) (x ∷ erase t ys)
      listed =
          subst (λ v. IsWaiting nx v (x ∷ erase t ys)) (sym same)
            (record {
              chain = (moved, chain.1, chain.2);
              tail = tail;
              distinct = (has-erase x t ys i.distinct.0, erase-Distinct t ys i.distinct.1);
              short = omega (arith, i.short, length-erase-le t ys);
            })

  -- The walk finds a task of the list, and unlinking it leaves the others in their order.
  pub unlink-found :
      (x : Ptr) (ys : List Ptr)
      → IsWaiting k.mutex_wait_next w (x ∷ ys)
      → has t (x ∷ ys) ≡ true
      → Relisted k
          (x ∷ ys)
          (erase t (x ∷ ys))
          (unlink_at k w t (if x == t then null else pred_of t x ys))
  unlink-found x ys i on = elim (Bool-cases (x == t)) [
    | inl hit ↦
        let same : x ≡ t = ==-true x t hit in
        rw hit (
          subst (λ v. Relisted k (v ∷ ys) ys (unlink_at k w t null)) (sym same)
            (unlink-head ys (subst (λ v. IsWaiting k.mutex_wait_next w (v ∷ ys)) same i)))
    | inr miss ↦ rw miss (unlink-inner x ys miss (ground arith) i)
  ]

  -- A task leaves a wait list, wherever it stands on it; those behind it keep their order. A task
  -- that is not on the list changes nothing.
  pub tcb_unlink-list :
      (xs : List Ptr)
      → t ≢ null
      → IsWaiting k.mutex_wait_next w xs
      → (r : Kernel × WaitList) × (tcb_unlink k w t ≡ some r) × Relisted k xs (erase t xs) r
  unfolding tcb_unlink unlink_waiter
  tcb_unlink-list [] ne i =
      let e : w.wait_head ≡ null = i.chain in
      ((k, w), rw e refl, (k.mutex_wait_next, refl, i, λ p off. refl))
  tcb_unlink-list (x ∷ ys) ne i = elim (Bool-cases (has t (x ∷ ys))) [
    | inl on ↦
        let prev = if x == t then null else pred_of t x ys in
        let walk =
          list_find-found k.mutex_wait_next walk_fuel t null w.wait_head x ys on i.chain i.short in
        (unlink_at k w t prev, rw (full, ==-false ne, walk) refl, unlink-found x ys i on)
    | inr off ↦
        let walk =
          list_find-missing k.mutex_wait_next walk_fuel t null w.wait_head (x ∷ ys) off i.chain
            i.short in
        let rest : erase t (x ∷ ys) ≡ x ∷ ys = erase_of_not_has t (x ∷ ys) off in
        (
          (k, w),
          rw (full, ==-false ne, walk) refl,
          (
            k.mutex_wait_next,
            refl,
            subst (IsWaiting k.mutex_wait_next w) (sym rest) i,
            λ p o. refl,
          ),
        )
  ]
    where
      full : (w.wait_head == null) ≡ false
      full = ==-false λ z. i.chain.1 (sym (i.chain.0) ∙ z)
