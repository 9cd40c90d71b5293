-- ===== src/Scheduler/Progress.antt =====
-- Successive calls of scheduler_get_next: one is always answered, and the tasks of the highest ring
-- that is not empty take turns.
use mathlib.Core.Path.{fun_ext}
use microkernel_rtos.Common.{
  ℕ, zero, suc, ◌≤◌, ◌<◌, ◌≡◌, ◌≢◌, refl, List, [], ◌∷◌, ◌++◌, Option, some, ◌>>=◌, length, arith,
  inl, inr, ◌⊎◌, subst, sym, ◌∙◌, ap, append-nil, append_assoc, dec_lt, ℕ_discrete, ==-false,
}
use microkernel_rtos.Links.{Ptr, null, update, update-update}
use microkernel_rtos.Kernel.{Kernel, num_priorities}
use microkernel_rtos.Scheduler.{scheduler_get_next}
use microkernel_rtos.Scheduler.Invariant.{Queues, Ready}
use microkernel_rtos.Scheduler.Dispatch.{
  Highest, scheduler_get_next-Highest, scheduler_get_next-idle,
}

-- The first ring below `n` that is not empty, if there is one.
abbrev pub Found : ℕ → Queues → Type 0
Found n q = (b : ℕ) × (x : Ptr) × (xs : List Ptr) × (b < n) × Highest q b x xs

pub highest-or-empty :
    (n : ℕ) (q : Queues) → n ≤ num_priorities → ((a : ℕ) → a < n → q a ≡ []) ⊎ Found n q
highest-or-empty zero q le = inl λ a h. absurd (omega arith)
highest-or-empty (suc n) q le = elim (highest-or-empty n q (omega arith)) [
  | inr (b, x, xs, lt, h) ↦ inr (b, x, xs, omega arith, h)
  | inl above ↦ go (q n) refl above
]
  where
    go :
        (ys : List Ptr)
        → q n ≡ ys
        → ((a : ℕ) → a < n → q a ≡ [])
        → ((a : ℕ) → a < suc n → q a ≡ []) ⊎ Found (suc n) q
    go [] e above =
        inl λ a h. elim (ℕ_discrete a n) [
          | yes here ↦ ap q here ∙ e
          | no away ↦ above a (omega arith)
        ]
    go (x ∷ xs) e above =
        inr (n, x, xs, omega arith, record { in_range = omega arith; holds = e; above = above })

-- Once the idle task exists, scheduler_get_next returns: it never reaches its last loop.
pub scheduler_get_next-total :
    (k : Kernel) {q : Queues}
    → Ready k q
    → k.idle_tcb ≢ null
    → (x : Ptr) × (k' : Kernel) × (q' : Queues) × (scheduler_get_next k ≡ some (x, k'))
      × (k'.current_tcb ≡ x)
      × Ready k' q'
scheduler_get_next-total k {q} r n = elim (highest-or-empty num_priorities q (omega arith)) [
  | inl empty ↦
      let all : (b : ℕ) → q b ≡ [] = λ b. elim (dec_lt b num_priorities) [
        | yes h ↦ empty b h
        | no h ↦ r.bounded b (omega arith)
      ] in
      let (k', e, r', c, s) = scheduler_get_next-idle k r all n in (k.idle_tcb, k', q, e, c, r')
  | inr (b, x, xs, lt, h) ↦
      let (k', e, r', c, z, s, u) = scheduler_get_next-Highest k r h in
      (x, k', update q b (xs ++ x ∷ []), e, c, r')
]

-- `n` context switches, and the tasks that they select.
pub dispatches : ℕ → Kernel → Option (List Ptr × Kernel)
dispatches zero k = some ([], k)
dispatches (suc n) k = do (x, k) ← scheduler_get_next k; (xs, k) ← dispatches n k; some (x ∷ xs, k)

update_self : (q : Queues) (b : ℕ) (xs : List Ptr) → q b ≡ xs → q ≡ update q b xs
update_self q b xs e = fun_ext λ a. elim (ℕ_discrete a b) [
  | yes here ↦ ap q here ∙ e ∙ same here
  | no away ↦ rw (==-false away) refl
]
  where
    same : {c : ℕ} → c ≡ b → xs ≡ update q b xs c
    same here = ground arith

rounds :
    (ys zs : List Ptr) (k : Kernel) (q : Queues) (b : ℕ)
    → Ready k q
    → b < num_priorities
    → q b ≡ ys ++ zs
    → ((a : ℕ) → a < b → q a ≡ [])
    → (k' : Kernel) × (dispatches (length ys) k ≡ some (ys, k')) × Ready k' (update q b (zs ++ ys))
unfolding dispatches
rounds [] zs k q b r lt e above =
    (k, refl, subst (Ready k) (update_self q b (zs ++ []) (e ∙ sym (append-nil zs))) r)
rounds (y ∷ ys) zs k q b r lt e above =
    let (k1, e1, r1, c, z, s, u) =
      scheduler_get_next-Highest k r (record { in_range = lt; holds = e; above = above }) in
    let q1 : Queues = update q b ((ys ++ zs) ++ y ∷ []) in
    let now : q1 b ≡ ys ++ (zs ++ y ∷ []) = ground (arith, append_assoc ys zs (y ∷ [])) in
    let (k', e', r') =
      rounds ys (zs ++ y ∷ []) k1 q1 b r1 lt now (λ a h. ground (arith, above a h)) in
    let same = update-update q b ((ys ++ zs) ++ y ∷ []) ((zs ++ y ∷ []) ++ ys) in
    let regroup = ap (update q b) (append_assoc zs (y ∷ []) ys) in
    (k', rw (e1, e') refl, subst (Ready k') (same ∙ regroup) r')

-- Round robin: over as many context switches as the highest ring has tasks, with no other event in
-- between, every task of the ring is selected exactly once, in the ring's order, and the ring is
-- then as it was.
pub dispatches-round_robin :
    (k : Kernel) {q : Queues} {b : ℕ} {x : Ptr} {xs : List Ptr}
    → Ready k q
    → Highest q b x xs
    → (k' : Kernel) × (dispatches (length (x ∷ xs)) k ≡ some (x ∷ xs, k')) × Ready k' q
dispatches-round_robin k {q} {b} {x} {xs} r h =
    let (k', e, r') =
      rounds (x ∷ xs) [] k q b r h.in_range (h.holds ∙ sym (append-nil (x ∷ xs))) h.above in
    (k', e, subst (Ready k') (sym (update_self q b (x ∷ xs) h.holds)) r')
