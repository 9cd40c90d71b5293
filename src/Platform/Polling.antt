-- ===== src/Platform/Polling.antt =====
-- Loops that read a hardware register until some bits of it have the value that they wait for. What the
-- successive reads return is up to the hardware.
use microkernel_rtos.Common.{
  ℕ, zero, suc, ◌+◌, ◌<◌, ◌≡◌, refl, Bool, true, Option, none, some, if◌then◌else◌, arith, subst,
  Bool-cases, inl, inr,
}

-- `while (!passes(*REG)) {}` from the read number `i` on; the number of the read behind the one that
-- passes.
unfoldable pub poll : ℕ → (ℕ → Bool) → ℕ → Option ℕ
poll zero passes i = none
poll (suc fuel) passes i =
    let rest = poll fuel passes (i + 1) in if passes i then some (i + 1) else rest

-- Of any `n` successive reads one passes.
abbrev pub Answers : ℕ → (ℕ → Bool) → Type 0
Answers n passes = (i : ℕ) → (j : ℕ) × (j < n) × (passes (i + j) ≡ true)

-- The loop ends with the read `p`, which passes.
abbrev pub Passed : (ℕ → Bool) → Option ℕ → Type 0
Passed passes o = (p : ℕ) × (o ≡ some (p + 1)) × (passes p ≡ true)

poll-within :
    (fuel : ℕ) (passes : ℕ → Bool) (i j : ℕ)
    → j < fuel
    → passes (i + j) ≡ true
    → Passed passes (poll fuel passes i)
unfolding poll
poll-within zero passes i j lt ok = absurd (omega arith)
poll-within (suc fuel) passes i zero lt ok =
    let here : passes i ≡ true = subst (λ n. passes n ≡ true) (omega arith) ok in
    (i, rw here refl, here)
poll-within (suc fuel) passes i (suc j) lt ok = elim (Bool-cases (passes i)) [
  | inl here ↦ (i, rw here refl, here)
  | inr not_yet ↦
      let (p, e, passed) =
        poll-within fuel passes (i + 1) j (omega arith)
          (subst (λ n. passes n ≡ true) (omega arith) ok) in
      (p, rw not_yet e, passed)
]

pub poll-Passed :
    (n : ℕ) (passes : ℕ → Bool) (i : ℕ) → Answers n passes → Passed passes (poll n passes i)
poll-Passed n passes i answers = let (j, lt, ok) = answers i in poll-within n passes i j lt ok
