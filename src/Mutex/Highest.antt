-- ===== src/Mutex/Highest.antt =====
-- _wait_pop_highest: the task that it takes off the wait list, and the list that it leaves.
use microkernel_rtos.Common.{
  Bool, ℕ, zero, suc, ◌≤◌, ◌<◌, ◌≡◌, ◌≢◌, refl, List, [], ◌∷◌, true, false, some, ◌==◌, ltb,
  if◌then◌else◌, has, Distinct, length, arith, ap, ◌∙◌, ==-false, ==-true, Bool-cases, inl, inr,
}
use microkernel_rtos.Links.{Ptr, null, pred_of, Chain}
use microkernel_rtos.Mutex.{best_walk}

-- Of two tasks, the one of the higher priority; `b` if neither is higher.
abbrev higher : (Ptr → ℕ) → Ptr → Ptr → Ptr
higher prio b x = if ltb (prio x) (prio b) then x else b

-- Of `b` and the tasks behind it, the first whose priority value is least.
unfoldable pub best_of : (Ptr → ℕ) → Ptr → List Ptr → Ptr
best_of prio b [] = b
best_of prio b (x ∷ xs) = best_of prio (higher prio b x) xs

-- The predecessor of the task `t` that the walk holds, one task further on: it was found at or
-- behind `y`, …
behind :
    (prev bp y : Ptr) (ys : List Ptr) (t : Ptr)
    → has y ys ≡ false
    → has t (y ∷ ys) ≡ true
    → (if has t ys then pred_of t y ys else prev)
      ≡ (if has t (y ∷ ys) then pred_of t prev (y ∷ ys) else bp)
behind prev bp y ys t off i = elim (Bool-cases (y == t)) [
  | inl here ↦ let e : y ≡ t = ==-true y t here in ground arith
  | inr away ↦ ground arith
]

-- … or before it.
kept :
    (prev bp b y : Ptr) (ys : List Ptr) (t : Ptr)
    → has b (y ∷ ys) ≡ false
    → has y ys ≡ false
    → has t (b ∷ ys) ≡ true
    → (if has t ys then pred_of t y ys else bp)
      ≡ (if has t (y ∷ ys) then pred_of t prev (y ∷ ys) else bp)
kept prev bp b y ys t off fresh i = elim (Bool-cases (y == t)) [
  | inl here ↦ let e : y ≡ t = ==-true y t here in absurd (ground arith)
  | inr away ↦ ground arith
]

module _ (prio : Ptr → ℕ) where
  -- What holds with each of the two that a comparison may choose, holds with its choice.
  by_choice :
      (P : Ptr → Type 0) (b x : Ptr)
      → (ltb (prio x) (prio b) ≡ true → P x)
      → (ltb (prio x) (prio b) ≡ false → P b)
      → P (higher prio b x)
  by_choice P b x l r = elim (Bool-cases (ltb (prio x) (prio b))) [
    | inl h ↦ rw h (l h)
    | inr h ↦ rw h (r h)
  ]

  pub has-best_of : (b : Ptr) (xs : List Ptr) → has (best_of prio b xs) (b ∷ xs) ≡ true
  unfolding best_of
  has-best_of b [] = ground arith
  has-best_of b (x ∷ xs) =
      by_choice (λ v. has (best_of prio v xs) (b ∷ x ∷ xs) ≡ true) b x
        (λ h. ground (arith, has-best_of x xs)) (λ h. ground (arith, has-best_of b xs))

  pub best_of-le_first : (b : Ptr) (xs : List Ptr) → prio (best_of prio b xs) ≤ prio b
  unfolding best_of
  best_of-le_first b [] = omega arith
  best_of-le_first b (x ∷ xs) =
      by_choice (λ v. prio (best_of prio v xs) ≤ prio b) b x
        (λ h. let r = best_of-le_first x xs in ground arith) (λ h. best_of-le_first b xs)

  -- Its priority value is at most that of every task.
  pub best_of-le :
      (b : Ptr) (xs : List Ptr) (p : Ptr)
      → has p (b ∷ xs) ≡ true
      → prio (best_of prio b xs) ≤ prio p
  unfolding best_of
  best_of-le b [] p i = let e : p ≡ b = ground arith in rw e (omega arith)
  best_of-le b (x ∷ xs) p i =
      by_choice (λ v. prio (best_of prio v xs) ≤ prio p) b x
        (λ h. elim (Bool-cases (p == b)) [
          | inl here ↦
              let e : p ≡ b = ==-true p b here in
              let r = best_of-le_first x xs in rw e (ground arith)
          | inr away ↦ best_of-le x xs p (ground arith)
        ])
        (λ h. elim (Bool-cases (p == x)) [
          | inl here ↦
              let e : p ≡ x = ==-true p x here in
              let r = best_of-le_first b xs in rw e (ground arith)
          | inr away ↦ best_of-le b xs p (ground arith)
        ])

  -- Where the walk stops: the best task, and the one before it.
  abbrev found : Ptr → Ptr → Ptr → List Ptr → Ptr → Ptr × Ptr
  found b bp prev ys t = (t, if has t ys then pred_of t prev ys else bp)

  -- One step of the walk, whichever way its comparison goes.
  walk_step :
      (nx : Ptr → Ptr) (fuel : ℕ) (b bp prev y : Ptr) (ys : List Ptr) (c : Bool)
      → best_walk fuel nx prio y prev y (nx y) ≡ some (found b bp prev (y ∷ ys) (best_of prio y ys))
      → best_walk fuel nx prio b bp y (nx y) ≡ some (found b bp prev (y ∷ ys) (best_of prio b ys))
      → best_walk fuel nx prio (if c then y else b) (if c then prev else bp) y (nx y)
        ≡ some (found b bp prev (y ∷ ys) (best_of prio (if c then y else b) ys))
  walk_step nx fuel b bp prev y ys true l r = l
  walk_step nx fuel b bp prev y ys false l r = r

  pub best_walk-best_of :
      (nx : Ptr → Ptr) (fuel : ℕ) (b bp prev p : Ptr) (ys : List Ptr)
      → Chain nx p ys null
      → has b ys ≡ false
      → Distinct ys
      → length ys < fuel
      → best_walk fuel nx prio b bp prev p ≡ some (found b bp prev ys (best_of prio b ys))
  unfolding best_walk best_of
  best_walk-best_of nx zero b bp prev p ys c off d f = absurd (omega arith)
  best_walk-best_of nx (suc fuel) b bp prev p [] c off d f = rw c refl
  best_walk-best_of nx (suc fuel) b bp prev p (y ∷ ys) (e, n, c) off d f =
      rw (e, ==-false n)
        (walk_step nx fuel b bp prev y ys (ltb (prio y) (prio b))
          (best_walk-best_of nx fuel y prev y (nx y) ys c d.0 d.1 (omega arith)
            ∙ ap (λ r. some (best_of prio y ys, r))
                (behind prev bp y ys (best_of prio y ys) d.0 (has-best_of y ys)))
          (best_walk-best_of nx fuel b bp y (nx y) ys c (ground arith) d.1 (omega arith)
            ∙ ap (λ r. some (best_of prio b ys, r))
                (kept prev bp b y ys (best_of prio b ys) off d.0 (has-best_of b ys))))

  -- The walk over a whole wait list, from its head `x`.
  pub best_walk-all :
      (nx : Ptr → Ptr) (fuel : ℕ) (x : Ptr) (ys : List Ptr)
      → x ≢ null
      → Chain nx (nx x) ys null
      → Distinct (x ∷ ys)
      → length ys < fuel
      → best_walk (suc fuel) nx prio x null null x ≡ some (found x null x ys (best_of prio x ys))
  unfolding best_walk
  best_walk-all nx fuel x ys n c d f =
      let level : ltb (prio x) (prio x) ≡ false = ground arith in
      rw (==-false n, level) (best_walk-best_of nx fuel x null x (nx x) ys c d.0 d.1 f)
