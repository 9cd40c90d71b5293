-- ===== src/Waiting/Chains.antt =====
-- A wait list as a list of tasks, longest waiting first, and what the operations make of it.
use microkernel_rtos.Common.{
  ℕ, zero, suc, ◌<◌, ◌≡◌, ◌≢◌, refl, List, [], ◌∷◌, ◌++◌, false, true, none, some, ◌==◌,
  if◌then◌else◌, has, Distinct, last, length, arith, subst, sym, ◌∙◌, ap, has-last, snoc-Distinct,
  length-append, ==-false,
}
use microkernel_rtos.Links.{
  Ptr, null, update, pred_of, Chain, Chain-frame, Chain-update, Chain-snoc,
}
use microkernel_rtos.Kernel.{Kernel, WaitList, walk_fuel}
use microkernel_rtos.Waiting.{tcb_enqueue_tail, settle_tail, tcb_pop_head, list_find}

-- The last of `xs`, or NULL.
abbrev pub back : List Ptr → Ptr
back [] = null
back (x ∷ xs) = last x xs

-- The two pointers `w` span the tasks `xs`.
pub record IsWaiting (nx : Ptr → Ptr) (w : WaitList) (xs : List Ptr) : Type 0 where
  pub chain : Chain nx w.wait_head xs null
  pub tail : w.wait_tail ≡ back xs
  pub distinct : Distinct xs
  pub short : length xs < walk_fuel

-- `nx'` is `nx` but for the tasks `ts`.
abbrev pub SameOff : List Ptr → (Ptr → Ptr) → (Ptr → Ptr) → Type 0
SameOff ts nx nx' = (p : Ptr) → has p ts ≡ false → nx' p ≡ nx p

-- `k` with its wait links anew.
abbrev pub rewait : Kernel → (Ptr → Ptr) → Kernel
rewait k nx = record k { mutex_wait_next = nx }

pub IsWaiting-frame :
    (nx nx' : Ptr → Ptr) {w : WaitList} {xs : List Ptr}
    → IsWaiting nx w xs
    → ((p : Ptr) → has p xs ≡ true → nx' p ≡ nx p)
    → IsWaiting nx' w xs
IsWaiting-frame nx nx' {w} {xs} i same = record {
  chain = Chain-frame nx nx' w.wait_head null xs same i.chain;
  tail = i.tail;
  distinct = i.distinct;
  short = i.short;
}

last-snoc : (x t : Ptr) (xs : List Ptr) → last x (xs ++ t ∷ []) ≡ t
last-snoc x t [] = refl
last-snoc x t (y ∷ ys) = last-snoc y t ys

-- What an operation on the list of `xs` leaves behind: the list of `ys`, other links untouched.
abbrev pub Relisted : Kernel → List Ptr → List Ptr → Kernel × WaitList → Type 0
Relisted k ts ys (k', w') =
    (nx : Ptr → Ptr) × (k' ≡ rewait k nx) × IsWaiting nx w' ys × SameOff ts k.mutex_wait_next nx

module _ (k : Kernel) (w : WaitList) (t : Ptr) (ne : t ≢ null) where
  pub enqueue-list :
      (xs : List Ptr)
      → IsWaiting k.mutex_wait_next w xs
      → has t xs ≡ false
      → suc (length xs) < walk_fuel
      → Relisted k (t ∷ xs) (xs ++ t ∷ []) (tcb_enqueue_tail k w t)
  unfolding tcb_enqueue_tail
  enqueue-list [] i out room =
      let e : w.wait_head ≡ null = i.chain in
      rw e (
        update k.mutex_wait_next t null,
        refl,
        record {
          chain = (refl, ne, ground arith);
          tail = refl;
          distinct = ground arith;
          short = omega arith;
        },
        λ p off. ground arith,
      )
  enqueue-list (x ∷ xs) i out room = rw full (
    nx,
    refl,
    record {
      chain = (i.chain.0, appended.1, appended.2);
      tail = sym (last-snoc x t xs);
      distinct = snoc-Distinct t (x ∷ xs) i.distinct out;
      short = omega (arith, length-append xs (t ∷ []));
    },
    λ p off. ground (arith, has-last x xs, i.tail),
  )
    where
      full : (w.wait_head == null) ≡ false
      full = ==-false λ z. i.chain.1 (sym (i.chain.0) ∙ z)

      nx : Ptr → Ptr
      nx = update (update k.mutex_wait_next t null) w.wait_tail t

      -- The code clears the link of `t` before it sets the one that leads to it.
      snoc : Ptr → Ptr
      snoc = update (update k.mutex_wait_next (last x xs) t) t null

      same : (p : Ptr) → nx p ≡ snoc p
      same p = ground (arith, has-last x xs, i.tail)

      appended : Chain nx x (x ∷ xs ++ t ∷ []) null
      appended =
          Chain-frame snoc nx x null (x ∷ xs ++ t ∷ []) (λ p h. same p)
            (Chain-snoc k.mutex_wait_next x t null xs ne out i.distinct
              (refl, i.chain.1, i.chain.2))

module _ (k : Kernel) (w : WaitList) where
  pub settle_tail-back :
      (nx : Ptr → Ptr) (v : WaitList) (xs : List Ptr)
      → Chain nx v.wait_head xs null
      → ((x : Ptr) → (ys : List Ptr) → xs ≡ x ∷ ys → v.wait_tail ≡ last x ys)
      → ((settle_tail v).wait_head ≡ v.wait_head) × ((settle_tail v).wait_tail ≡ back xs)
  unfolding settle_tail
  settle_tail-back nx v [] c tails = ground arith
  settle_tail-back nx v (x ∷ xs) c tails = ground (arith, tails x xs)

  -- The longest waiting task is taken off.
  pub pop-list :
      (x : Ptr) (xs : List Ptr)
      → IsWaiting k.mutex_wait_next w (x ∷ xs)
      → ((tcb_pop_head k w).0 ≡ x)
        × Relisted k (x ∷ xs) xs ((tcb_pop_head k w).1, (tcb_pop_head k w).2)
  unfolding tcb_pop_head
  pop-list x xs i = rw full (
    i.chain.0,
    (
      nx,
      refl,
      record {
        chain = subst (λ h. Chain nx h xs null) (sym (settled.0)) chain;
        tail = settled.1;
        distinct = i.distinct.1;
        short = omega (arith, i.short);
      },
      λ p off. ground (arith, i.chain.0),
    ),
  )
    where
      full : (w.wait_head == null) ≡ false
      full = ==-false λ z. i.chain.1 (sym (i.chain.0) ∙ z)

      nx : Ptr → Ptr
      nx = update k.mutex_wait_next w.wait_head null

      next : k.mutex_wait_next w.wait_head ≡ k.mutex_wait_next x
      next = ap k.mutex_wait_next i.chain.0

      rest : WaitList
      rest = record w { wait_head = k.mutex_wait_next w.wait_head }

      chain : Chain nx rest.wait_head xs null
      chain =
          subst (λ h. Chain nx h xs null) (sym next)
            (Chain-update k.mutex_wait_next (k.mutex_wait_next x) null w.wait_head null xs
              (ground (arith, i.chain.0)) i.chain.2)

      settled :
          ((settle_tail rest).wait_head ≡ rest.wait_head) × ((settle_tail rest).wait_tail ≡ back xs)
      settled = settle_tail-back nx rest xs chain λ y ys e. i.tail ∙ ap (last x) e

  pub pop-empty : IsWaiting k.mutex_wait_next w [] → tcb_pop_head k w ≡ (null, k, w)
  unfolding tcb_pop_head
  pop-empty i = let e : w.wait_head ≡ null = i.chain in rw e refl

module _ (nx : Ptr → Ptr) where
  pub list_find-found :
      (fuel : ℕ) (t prev p x : Ptr) (ys : List Ptr)
      → has t (x ∷ ys) ≡ true
      → Chain nx p (x ∷ ys) null
      → length (x ∷ ys) < fuel
      → list_find fuel nx t prev p ≡ some (some (if x == t then prev else pred_of t x ys))
  unfolding list_find
  list_find-found zero t prev p x ys on c f = absurd (omega arith)
  list_find-found (suc fuel) t prev p x [] on c f = ground arith
  list_find-found (suc fuel) t prev p x (y ∷ ys) on (e, n, c) f =
      rw e (ground (arith, c, list_find-found fuel t x (nx x) y ys))

  pub list_find-missing :
      (fuel : ℕ) (t prev p : Ptr) (xs : List Ptr)
      → has t xs ≡ false
      → Chain nx p xs null
      → length xs < fuel
      → list_find fuel nx t prev p ≡ some none
  unfolding list_find
  list_find-missing zero t prev p xs off c f = absurd (omega arith)
  list_find-missing (suc fuel) t prev p [] off c f = ground arith
  list_find-missing (suc fuel) t prev p (x ∷ xs) off (e, n, c) f =
      rw e (ground (arith, c, list_find-missing fuel t x (nx x) xs))
