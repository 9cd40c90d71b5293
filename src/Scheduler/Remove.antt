-- ===== src/Scheduler/Remove.antt =====
-- scheduler_remove_task: a block leaves its ring.
use microkernel_rtos.Common.{
  ℕ, ◌<◌, ◌≡◌, ◌≢◌, refl, List, [], ◌∷◌, false, true, none, some, ◌==◌, if◌then◌else◌, has, last,
  length, erase, arith, Bool-cases, inl, inr, subst, sym, ◌∙◌, has-last, has-erase, ==-false,
  ==_refl, ==-true, ap, erase_of_not_has, length-erase-le,
}
use microkernel_rtos.Links.{Ptr, null, update, pred_of, has-pred_of, Chain-ne_null, Chain-next_ne}
use microkernel_rtos.Kernel.{Kernel, num_priorities, walk_fuel}
use microkernel_rtos.Scheduler.{
  ring_tail, ring_find, ring_unlink, unlink_found, scheduler_remove_task,
}
use microkernel_rtos.Scheduler.Rings.{
  Ring, ring_tail-last, ring_find-found, ring_find-missing, behead-Ring, unlink-Ring,
}
use microkernel_rtos.Scheduler.Invariant.{Queues, Rings, Ready, relink, elsewhere, Rings-replace}

-- The queues without `t` on ring `b`.
abbrev pub dequeue : Queues → ℕ → Ptr → Queues
dequeue q b t = update q b (erase t (q b))

-- What a call that takes `t` off ring `b` returns.
abbrev Removed : Kernel → Queues → ℕ → Ptr → Type 0
Removed k q b t =
    (nx : Ptr → Ptr) × (heads : ℕ → Ptr) × (scheduler_remove_task k t ≡ some (relink k nx heads))
    × Rings nx heads (dequeue q b t)

module _ (k : Kernel) (t : Ptr) {q : Queues} (r : Ready k q) (ne : t ≢ null)
    (in_range : k.prio_bucket t < num_priorities) where
  abbrev bucket : ℕ
  bucket = k.prio_bucket t

  abbrev head : Ptr
  head = k.ready_head bucket

  -- The new links of a ring that `t` was on, and the other rings.
  replaced :
      (nx : Ptr → Ptr) (heads : ℕ → Ptr) (l : Ptr) (xs : List Ptr)
      → xs ≡ erase t (q bucket)
      → Ring nx (heads bucket) xs
      → ((a : ℕ) → a ≢ bucket → heads a ≡ k.ready_head a)
      → has t (q bucket) ≡ true
      → has l (q bucket) ≡ true
      → ((p : Ptr) → p ≢ t → p ≢ l → nx p ≡ k.next_ready p)
      → Rings nx heads (dequeue q bucket t)
  replaced nx heads l xs e ring same_heads on on' same =
      Rings-replace r nx heads bucket (erase t (q bucket)) in_range
        (subst (Ring nx (heads bucket)) e ring)
        (omega (arith, r.short bucket, length-erase-le t (q bucket))) same_heads
        (λ a p away i.
          same p (ground (arith, elsewhere r a bucket t away on))
            (ground (arith, elsewhere r a bucket l away on')))
        (λ a p away i. has-erase p t (q bucket) (elsewhere' a p away i))
    where
      elsewhere' : (a : ℕ) (p : Ptr) → a ≢ bucket → has p (q a) ≡ true → has p (q bucket) ≡ false
      elsewhere' a p away i = elsewhere r bucket a p (λ z. away (sym z)) i

  -- `t` is not on its ring: nothing happens.
  unchanged : has t (q bucket) ≡ false → scheduler_remove_task k t ≡ some k → Removed k q bucket t
  unchanged out e = (
    k.next_ready,
    k.ready_head,
    e,
    Rings-replace r k.next_ready k.ready_head bucket (erase t (q bucket)) in_range
        (rw (erase_of_not_has t (q bucket) out) (r.rings bucket))
        (omega (arith, r.short bucket, length-erase-le t (q bucket))) (λ a away. refl)
        (λ a p away i. refl)
        (λ a p away i. has-erase p t (q bucket) (elsewhere r bucket a p (λ z. away (sym z)) i)),
  )

  remove-empty : q bucket ≡ [] → Removed k q bucket t
  unfolding scheduler_remove_task
  remove-empty e = unchanged (rw e refl) (rw (==-false ne, empty) refl)
    where
      empty : head ≡ null
      empty = subst (Ring k.next_ready head) e (r.rings bucket)

  module _ (x : Ptr) (xs : List Ptr) (e : q bucket ≡ x ∷ xs) where
    old : Ring k.next_ready head (x ∷ xs)
    old = subst (Ring k.next_ready head) e (r.rings bucket)

    full : (head == null) ≡ false
    full = ==-false λ z. old.1.1 (sym (old.0) ∙ z)

    small : length xs < walk_fuel
    small = omega (arith, subst (λ ys. length ys < walk_fuel) e (r.short bucket))

    remove-missing : has t (x ∷ xs) ≡ false → Removed k q bucket t
    unfolding scheduler_remove_task unlink_found
    remove-missing out = unchanged (rw e out) (rw (==-false ne, full, search) refl)
      where
        search : ring_find walk_fuel k.next_ready head t null head ≡ some none
        search =
            subst (λ h. ring_find walk_fuel k.next_ready h t null h ≡ some none) (sym (old.0))
              (ring_find-missing k.next_ready walk_fuel x t null x xs (old.2.0) out (old.1) small)

    -- The call finds `t` with the block `prev` before it.
    remove-found :
        (prev : Ptr)
        → has t (x ∷ xs) ≡ true
        → prev ≡ (if x == t then null else pred_of t x xs)
        → scheduler_remove_task k t ≡ ring_unlink k bucket head t prev
    unfolding scheduler_remove_task unlink_found
    remove-found prev i ep = rw (==-false ne, full, search) refl
      where
        search : ring_find walk_fuel k.next_ready head t null head ≡ some (some prev)
        search = rw ep (
            subst
              (λ h.
                ring_find walk_fuel k.next_ready h t null h
                ≡ some (some (if x == t then null else pred_of t x xs)))
              (sym (old.0))
              (ring_find-found k.next_ready walk_fuel x t null x xs (old.2.0) i (old.1) small))

    -- `t` is behind the head.
    remove-inner : (x == t) ≡ false → has t xs ≡ true → Removed k q bucket t
    unfolding ring_unlink
    remove-inner miss i = (
      nx,
      k.ready_head,
      remove-found prev on (rw miss refl) ∙ rw (more, inner) refl,
      replaced nx k.ready_head prev (x ∷ erase t xs) (rw e (rw miss refl))
          (
            old.0,
            (unlink-Ring k.next_ready x t xs i (refl, old.1, old.2)).1,
            (unlink-Ring k.next_ready x t xs i (refl, old.1, old.2)).2,
          )
          (λ a away. refl) (rw e on) (rw e (has-pred_of t x xs)) (λ p n m. ground arith),
    )
      where
        on : has t (x ∷ xs) ≡ true
        on = ground arith

        prev : Ptr
        prev = pred_of t x xs

        more : (k.next_ready t == t) ≡ false
        more =
            ==-false
              (Chain-next_ne k.next_ready x x t xs on (old.2) (old.1) (λ z. absurd (ground arith)))

        inner : (prev == null) ≡ false
        inner = ==-false (Chain-ne_null k.next_ready x x prev (x ∷ xs) (has-pred_of t x xs) (old.1))

        nx : Ptr → Ptr
        nx = update (update k.next_ready prev (k.next_ready t)) t null

  -- `t` is alone on its ring.
  remove-only : q bucket ≡ t ∷ [] → Removed k q bucket t
  unfolding ring_unlink
  remove-only e = (
    nx,
    heads,
    remove-found t [] e null on (rw is_head refl) ∙ rw alone refl,
    replaced nx heads t [] (rw e (rw is_head refl)) (ground arith) (λ a away. ground arith)
        (rw e on) (rw e on) (λ p n m. ground arith),
  )
    where
      is_head : (t == t) ≡ true
      is_head = ==_refl t

      on : has t (t ∷ []) ≡ true
      on = ground arith

      alone : (k.next_ready t == t) ≡ true
      alone = rw ((old t [] e).1.2) is_head

      nx : Ptr → Ptr
      nx = update k.next_ready t null

      heads : ℕ → Ptr
      heads = update k.ready_head bucket null

  -- `t` is the head, and other blocks follow.
  remove-head : (y : Ptr) (ys : List Ptr) → q bucket ≡ t ∷ y ∷ ys → Removed k q bucket t
  unfolding ring_unlink
  remove-head y ys e = (
    nx,
    heads,
    remove-found t (y ∷ ys) e null on (rw is_head refl) ∙ rw (more, tail) refl,
    replaced nx heads (last y ys) (y ∷ ys) (rw e (rw is_head refl)) ring (λ a away. ground arith)
        (rw e on) (rw e (ground (arith, has-last y ys))) (λ p n m. ground arith),
  )
    where
      was : Ring k.next_ready head (t ∷ y ∷ ys)
      was = old t (y ∷ ys) e

      is_head : (t == t) ≡ true
      is_head = ==_refl t

      on : has t (t ∷ y ∷ ys) ≡ true
      on = ground arith

      more : (k.next_ready t == t) ≡ false
      more =
          let next : k.next_ready t ≡ y = was.1.2.0 in
          let apart : has t (y ∷ ys) ≡ false = was.2.0 in ground arith

      tail : ring_tail walk_fuel k.next_ready head head ≡ some (last y ys)
      tail =
          subst (λ h. ring_tail walk_fuel k.next_ready h h ≡ some (last y ys)) (sym (was.0))
            (ring_tail-last k.next_ready walk_fuel t t (y ∷ ys) (was.2.0) (was.1)
              (small t (y ∷ ys) e))

      nx : Ptr → Ptr
      nx = update (update k.next_ready (last y ys) (k.next_ready t)) t null

      heads : ℕ → Ptr
      heads = update k.ready_head bucket (k.next_ready t)

      ring : Ring nx (heads bucket) (y ∷ ys)
      ring =
          let now : heads bucket ≡ k.next_ready t = ground arith in
          subst (λ h. Ring nx h (y ∷ ys)) (sym now)
            (behead-Ring k.next_ready t y ys (refl, was.1, was.2))

  remove-first : (xs : List Ptr) → q bucket ≡ t ∷ xs → Removed k q bucket t
  remove-first [] e = remove-only e
  remove-first (y ∷ ys) e = remove-head y ys e

  remove-any : (xs : List Ptr) → q bucket ≡ xs → Removed k q bucket t
  remove-any [] e = remove-empty e
  remove-any (x ∷ xs) e = elim (Bool-cases (x == t)) [
    | inl hit ↦ remove-first xs (e ∙ ap (λ y. y ∷ xs) (==-true x t hit))
    | inr miss ↦ elim (Bool-cases (has t xs)) [
      | inl on ↦ remove-inner x xs e miss on
      | inr off ↦ remove-missing x xs e (ground arith)
    ]
  ]

  -- A task leaves the ring of its bucket, wherever it stands on it; the blocks behind it keep their
  -- order, and the other rings do not change. A task that is not on that ring changes nothing.
  pub scheduler_remove_task-Ready : Removed k q bucket t
  scheduler_remove_task-Ready = remove-any (q bucket) refl
