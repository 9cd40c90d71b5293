-- ===== src/Demos/Urgency.antt =====
-- Which of the created tasks is at the head of its ring.
use microkernel_rtos.Common.{
  ℕ, zero, suc, ◌-◌, ◌<◌, ◌≡◌, ◌⊎◌, inl, inr, refl, true, false, List, [], ◌∷◌, ◌++◌, Option, none,
  some, ◌==◌, arith, sym, subst, ==-true, ==_refl, ◌∙◌, ap, Bool-cases, if◌then◌else◌,
}
use microkernel_rtos.Links.{Ptr}
use microkernel_rtos.Kernel.{Kernel, num_priorities}
use microkernel_rtos.Scheduler.Invariant.{Queues}
use microkernel_rtos.Scheduler.Insert.{enqueue}
use microkernel_rtos.Scheduler.Dispatch.{Highest}
use microkernel_rtos.Mutex.{prio_bucket_of}
use microkernel_rtos.Demos.{TaskSpec}
use microkernel_rtos.Demos.Tasks.{Made, described, filled, Settled, AllSettled}

-- The first of the tasks whose priority is in bucket `b`.
abbrev pub first_in : ℕ → List TaskSpec → Option TaskSpec
first_in b [] = none
first_in b (t ∷ ts) = if prio_bucket_of t.priority == b then some t else first_in b ts

first_in-found :
    (b : ℕ) (ts us : List TaskSpec) {t : TaskSpec}
    → first_in b ts ≡ some t
    → first_in b (ts ++ us) ≡ some t
first_in-found b [] us e = absurd (ground arith)
first_in-found b (u ∷ ts) us {t} e = ground (arith, first_in-found b ts us {t = t})

first_in-none :
    (b : ℕ) (ts us : List TaskSpec) → first_in b ts ≡ none → first_in b (ts ++ us) ≡ first_in b us
first_in-none b [] us e = refl
first_in-none b (u ∷ ts) us e = ground (arith, first_in-none b ts us)

-- The ring of bucket `b`, above the lowest one: it is empty, or its head is the first of the tasks of
-- that bucket.
abbrev pub Front : Ptr → ℕ → Made → Type 0
Front idle b made =
    ((filled idle made b ≡ []) × (first_in b (described made) ≡ none))
    ⊎ ((x : Ptr) × (xs : List Ptr) × (t : TaskSpec) × (filled idle made b ≡ x ∷ xs)
        × (first_in b (described made) ≡ some t)
        × ((k : Kernel) → AllSettled k made → Settled k x t))

enqueue-here : (q : Queues) (c b : ℕ) (p : Ptr) → (c == b) ≡ true → enqueue q c p b ≡ q b ++ p ∷ []
enqueue-here q c b p here =
    let e : c ≡ b = ==-true c b here in
    subst (λ d. enqueue q d p b ≡ q b ++ p ∷ []) (sym e) (rw (==_refl b) refl)

enqueue-away : (q : Queues) (c b : ℕ) (p : Ptr) → (c == b) ≡ false → enqueue q c p b ≡ q b
enqueue-away q c b p away = ground arith

pub front : (idle : Ptr) (b : ℕ) (made : Made) → b < num_priorities - 1 → Front idle b made
front idle b [] lt = inl (ground arith, refl)
front idle b (y ∷ made) lt =
    let c = prio_bucket_of y.1.priority in
    let q = filled idle made in
    elim (front idle b made lt) [
      | inl (empty, unused) ↦
          let first = first_in-none b (described made) (y.1 ∷ []) unused in
          elim (Bool-cases (c == b)) [
            | inl here ↦ inr (
              y.0,
              [],
              y.1,
              enqueue-here q c b (y.0) here ∙ ap (λ l. l ++ y.0 ∷ []) empty,
              first ∙ rw here refl,
              λ k a. a.0,
            )
            | inr away ↦ inl (enqueue-away q c b (y.0) away ∙ empty, first ∙ rw away refl)
          ]
      | inr (x, xs, t, e, first, settled) ↦ elim (Bool-cases (c == b)) [
        | inl here ↦ inr (
          x,
          xs ++ y.0 ∷ [],
          t,
          enqueue-here q c b (y.0) here ∙ ap (λ l. l ++ y.0 ∷ []) e,
          first_in-found b (described made) (y.1 ∷ []) first,
          λ k a. settled k a.1,
        )
        | inr away ↦ inr (
          x,
          xs,
          t,
          enqueue-away q c b (y.0) away ∙ e,
          first_in-found b (described made) (y.1 ∷ []) first,
          λ k a. settled k a.1,
        )
      ]
    ]

-- No task of a bucket below `n`.
abbrev pub NoneBelow : ℕ → List TaskSpec → Type 0
NoneBelow n ts = (a : ℕ) → a < n → first_in a ts ≡ none

none_below :
    (idle : Ptr) (made : Made) (n : ℕ)
    → n < num_priorities
    → ((a : ℕ) → a < n → filled idle made a ≡ [])
    → NoneBelow n (described made)
none_below idle made n in_range empty a lt = elim (front idle a made (omega arith)) [
  | inl (e, unused) ↦ unused
  | inr (x, xs, t, e, first, settled) ↦ absurd (ground (arith, e, empty a lt))
]

pub idle_leads :
    (idle : Ptr) (made : Made)
    → (xs : List Ptr) × (filled idle made (num_priorities - 1) ≡ idle ∷ xs)
idle_leads idle [] = ([], refl)
idle_leads idle (y ∷ made) =
    let (xs, e) = idle_leads idle made in
    let c = prio_bucket_of y.1.priority in
    let q = filled idle made in
    elim (Bool-cases (c == num_priorities - 1)) [
      | inl here ↦ (
        xs ++ y.0 ∷ [],
        enqueue-here q c (num_priorities - 1) (y.0) here ∙ ap (λ l. l ++ y.0 ∷ []) e,
      )
      | inr away ↦ (xs, enqueue-away q c (num_priorities - 1) (y.0) away ∙ e)
    ]

-- `p` is the first of the tasks of the lowest bucket number that `ts` has, or the idle task where every
-- task of `ts` shares its bucket.
abbrev pub MostUrgent : Kernel → Ptr → List TaskSpec → Ptr → Type 0
MostUrgent k idle ts p =
    ((b : ℕ) × (t : TaskSpec) × (b < num_priorities - 1)
      × (first_in b ts ≡ some t)
      × NoneBelow b ts
      × Settled k p t)
    ⊎ ((p ≡ idle) × NoneBelow (num_priorities - 1) ts)

-- The head of the first ring that is not empty.
pub Highest-MostUrgent :
    (k : Kernel) (idle : Ptr) (made : Made) {b : ℕ} {x : Ptr} {xs : List Ptr}
    → AllSettled k made
    → Highest (filled idle made) b x xs
    → MostUrgent k idle (described made) x
Highest-MostUrgent k idle made {b} {x} {xs} a h =
    let below = none_below idle made b h.in_range h.above in
    elim (Bool-cases (b == num_priorities - 1)) [
      | inl lowest ↦
          let e : b ≡ num_priorities - 1 = ==-true b (num_priorities - 1) lowest in
          let (ys, leads) = idle_leads idle made in
          let there : filled idle made b ≡ idle ∷ ys = ap (filled idle made) e ∙ leads in
          inr (heads (sym h.holds ∙ there), subst (λ n. NoneBelow n (described made)) e below)
      | inr above ↦
          let lt : b < num_priorities - 1 = ground (arith, h.in_range) in
          elim (front idle b made lt) [
            | inl (empty, unused) ↦ absurd (ground (arith, empty, h.holds))
            | inr (y, ys, t, e, first, settled) ↦
                let same : x ≡ y = heads (sym h.holds ∙ e) in
                inl (b, t, lt, first, below, subst (λ p. Settled k p t) (sym same) (settled k a))
          ]
    ]
  where
    heads : {p r : Ptr} {ps rs : List Ptr} → ◌≡◌ {A = List Ptr} (p ∷ ps) (r ∷ rs) → p ≡ r
    heads e = cc

-- Where bucket 0 is not used and `t` is the first task of bucket 1, the most urgent task is one that was
-- created from `t`.
pub MostUrgent-first :
    (k : Kernel) (idle p : Ptr) (ts : List TaskSpec) (t : TaskSpec)
    → first_in 0 ts ≡ none
    → first_in 1 ts ≡ some t
    → MostUrgent k idle ts p
    → k.task_func p ≡ t.func
MostUrgent-first k idle p ts t unused first (inr (e, below)) =
    absurd (ground (arith, first, below 1 (omega arith)))
MostUrgent-first k idle p ts t unused first (inl (zero, u, lt, found, below, z)) =
    absurd (ground (arith, unused, found))
MostUrgent-first k idle p ts t unused first (inl (suc zero, u, lt, found, below, z)) =
    let both : ◌≡◌ {A = Option TaskSpec} (some u) (some t) = sym found ∙ first in z.func ∙ (cc)
MostUrgent-first k idle p ts t unused first (inl (suc (suc b), u, lt, found, below, z)) =
    absurd (ground (arith, first, below 1 (omega arith)))
