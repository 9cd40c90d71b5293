-- ===== src/Stack/Check.antt =====
-- rtos_stack_check_all: it returns where every canary stands, and stops at the first one that does not.
use microkernel_rtos.Common.{
  ℕ, ◌≡◌, ◌⊎◌, inl, inr, refl, List, [], ◌∷◌, ◌++◌, true, false, ◌||◌, ◌==◌, arith, has, Bool,
  Bool-cases, ==-true, ap, ◌∙◌,
}
use microkernel_rtos.Links.{Ptr, null}
use microkernel_rtos.Kernel.{Kernel, stack_canary}
use microkernel_rtos.Stack.{get_word, intact, overflowed, check_stacks, rtos_stack_check_all}

-- The word at the low end of the stack of `t`.
abbrev pub canary_of : Kernel → Ptr → ℕ
canary_of k t = get_word k.bytes (k.stack_base t)

-- The check passes over `t`, or finds the canary there.
abbrev pub is_whole : Kernel → Ptr → Bool
is_whole k t = ((t == null) || (k.stack_base t == null)) || (canary_of k t == stack_canary)

-- The check ends at `t`, which has lost its canary, behind tasks that have theirs.
pub record Overflow (k : Kernel) (ts : List Ptr) (t : Ptr) : Type 0 where
  pub before : List Ptr
  pub behind : List Ptr
  pub split : ts ≡ before ++ t ∷ behind
  pub whole : (p : Ptr) → has p before ≡ true → is_whole k p ≡ true
  pub lost : is_whole k t ≡ false

check_stacks-passes :
    (k : Kernel) (t : Ptr) (ts : List Ptr)
    → is_whole k t ≡ true
    → check_stacks k (t ∷ ts) ≡ check_stacks k ts
unfolding check_stacks
check_stacks-passes k t ts w = ground arith

check_stacks-stops :
    (k : Kernel) (t : Ptr) (ts : List Ptr)
    → is_whole k t ≡ false
    → check_stacks k (t ∷ ts) ≡ overflowed t (canary_of k t)
unfolding check_stacks
check_stacks-stops k t ts w = ground arith

check_stacks-cases :
    (k : Kernel) (ts : List Ptr)
    → ((check_stacks k ts ≡ intact) × ((p : Ptr) → has p ts ≡ true → is_whole k p ≡ true))
      ⊎ ((t : Ptr) × (check_stacks k ts ≡ overflowed t (canary_of k t)) × Overflow k ts t)
check_stacks-cases k [] = inl (unfold check_stacks in refl, λ p i. absurd (ground arith))
check_stacks-cases k (t ∷ ts) = elim (Bool-cases (is_whole k t)) [
  | inl stands ↦ elim (check_stacks-cases k ts) [
    | inl (e, all) ↦ inl (
      check_stacks-passes k t ts stands ∙ e,
      λ p i. elim (Bool-cases (p == t)) [
        | inl here ↦ ap (is_whole k) (==-true p t here) ∙ stands
        | inr away ↦ all p (ground arith)
      ],
    )
    | inr (u, e, o) ↦ inr (
      u,
      check_stacks-passes k t ts stands ∙ e,
      record {
        before = t ∷ o.before;
        behind = o.behind;
        split = ap (λ us. t ∷ us) o.split;
        whole = λ p i. elim (Bool-cases (p == t)) [
          | inl here ↦ ap (is_whole k) (==-true p t here) ∙ stands
          | inr away ↦ o.whole p (ground arith)
        ];
        lost = o.lost;
      },
    )
  ]
  | inr gone ↦ inr (
    t,
    check_stacks-stops k t ts gone,
    record {
      before = [];
      behind = ts;
      split = refl;
      whole = λ p i. absurd (ground arith);
      lost = gone;
    },
  )
]

-- rtos_stack_check_all returns where every task of the registry that has a stack has its canary; or it
-- stops at the first task that has not, and leaves that task and the word that it has found.
pub rtos_stack_check_all-cases :
    (k : Kernel)
    → ((rtos_stack_check_all k ≡ intact)
        × ((p : Ptr) → has p k.task_registry ≡ true → is_whole k p ≡ true))
      ⊎ ((t : Ptr) × (rtos_stack_check_all k ≡ overflowed t (canary_of k t))
          × Overflow k k.task_registry t)
unfolding rtos_stack_check_all
rtos_stack_check_all-cases k = check_stacks-cases k k.task_registry
