-- ===== src/Stack/Frame.antt =====
-- The first frame of a task and its canary, on the task's stack.
use microkernel_rtos.Common.{ℕ, ◌+◌, ◌-◌, ◌*◌, ◌/◌, ◌%◌, ◌≤◌, ◌<◌, ◌≡◌, arith, ◌∙◌}
use microkernel_rtos.Links.{Ptr}
use microkernel_rtos.Kernel.{Kernel, stack_canary, min_stack_size, uint32_mod}
use microkernel_rtos.Stack.{get_word, set_word, Image, stack_high, first_frame, exception_frame}
use microkernel_rtos.Stack.Words.{nth, build_initial_stack-Frame, get_word-set_word}

-- The first frame and the canary lie on the stack, and not on each other.
pub record OnStack (img : Image) (f : Ptr → ℕ) (base size sp func : Ptr) : Type 0 where
  pub canary : get_word f base ≡ stack_canary
  pub low : base + 4 ≤ sp
  pub high : sp + 64 ≤ base + size
  pub registers : (i : ℕ) → i < 8 → get_word f (sp + 4 * i) ≡ 0
  pub exception : (i : ℕ) → i < 8 → get_word f (sp + 32 + 4 * i) ≡ nth (exception_frame img func) i

pub first_frame-OnStack :
    (img : Image) (k : Kernel) (t func : Ptr)
    → min_stack_size ≤ k.stack_size t
    → k.stack_base t + k.stack_size t < uint32_mod
    → img.task_exit_trap < uint32_mod
    → func < uint32_mod
    → OnStack img
        (first_frame img k t func).1
        (k.stack_base t)
        (k.stack_size t)
        (first_frame img k t func).0
        func
unfolding first_frame stack_high
first_frame-OnStack img k t func large fits trap entry =
    let base = k.stack_base t in
    let size = k.stack_size t in
    let top = (base + size) % uint32_mod / 8 * 8 in
    let near : (top ≤ base + size) × (base + size < top + 8) = omega arith in
    let f =
      build_initial_stack-Frame img (set_word k.bytes base stack_canary) top func (omega arith)
        (omega arith) trap entry in
    let up : (i : ℕ) → (first_frame img k t func).0 + 32 + 4 * i ≡ top - 32 + 4 * i =
      λ i. omega (arith, f.top) in
    record {
      canary =
          f.below base (omega arith) ∙ get_word-set_word k.bytes base stack_canary (omega arith);
      low = omega (arith, f.top);
      high = omega (arith, f.top);
      registers = λ i within. rw f.top (f.registers i within);
      exception = λ i within. rw (up i) (f.exception i within);
    }
