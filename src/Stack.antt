-- ===== src/Stack.antt =====
-- src/core/task.c: the words of memory, the frame that a task starts from, the canary at the low end
-- of its stack, and the check of all canaries.
pub mod Words
pub mod Frame
pub mod Check
use microkernel_rtos.Common.{ℕ, ◌+◌, ◌-◌, ◌*◌, ◌/◌, ◌%◌, ◌||◌, List, [], ◌∷◌, ◌==◌, if◌then◌else◌}
use microkernel_rtos.Links.{Ptr, null, update}
use microkernel_rtos.Kernel.{
  Kernel, Status, ok, err_param, block_none, stack_canary, uint32_max, uint32_mod,
}

-- `*(uint32_t *)a = w`
unfoldable pub set_word : (Ptr → ℕ) → Ptr → ℕ → Ptr → ℕ
set_word f a w =
    let low = update (update f a (w % 256)) (a + 1) (w / 0x100 % 256) in
    update (update low (a + 2) (w / 0x1_0000 % 256)) (a + 3) (w / 0x100_0000 % 256)

-- `*(uint32_t *)a`
unfoldable pub get_word : (Ptr → ℕ) → Ptr → ℕ
get_word f a = f a + f (a + 1) * 0x100 + f (a + 2) * 0x1_0000 + f (a + 3) * 0x100_0000

-- `a[0] = …; a[1] = …;` for the words of a list.
unfoldable pub set_words : (Ptr → ℕ) → Ptr → List ℕ → Ptr → ℕ
set_words f a [] = f
set_words f a (w ∷ ws) = set_words (set_word f a w) (a + 4) ws

-- What the compiler and the linker choose: sizeof(TCB_t), and the addresses of _task_exit_trap,
-- _idle_task_fn and idle_stack_words.
pub record Image : Type 0 where
  pub sizeof_tcb : ℕ
  pub task_exit_trap : Ptr
  pub idle_task_fn : Ptr
  pub idle_stack_words : Ptr

-- `sp -= 8` on a pointer to words.
abbrev pub eight_down : Ptr → Ptr
eight_down sp = (sp + uint32_mod - 32) % uint32_mod

-- The words that the processor takes from the stack when the task starts, and those that the context
-- switch takes before.
abbrev pub exception_frame : Image → Ptr → List ℕ
exception_frame img func = 0 ∷ 0 ∷ 0 ∷ 0 ∷ 0 ∷ img.task_exit_trap ∷ func ∷ 0x0100_0000 ∷ []

abbrev pub saved_registers : List ℕ
saved_registers = 0 ∷ 0 ∷ 0 ∷ 0 ∷ 0 ∷ 0 ∷ 0 ∷ 0 ∷ []

-- _build_initial_stack; the stack pointer that it returns comes first.
unfoldable pub build_initial_stack : Image → (Ptr → ℕ) → Ptr → Ptr → Ptr × (Ptr → ℕ)
build_initial_stack img f high func =
    let sp = eight_down high in
    let framed = set_words f sp (exception_frame img func) in
    let sp' = eight_down sp in (sp', set_words framed sp' saved_registers)

-- `base_u8 + tcb->stack_size`, rounded down to 8 bytes.
unfoldable pub stack_high : Kernel → Ptr → Ptr
stack_high k tcb = (k.stack_base tcb + k.stack_size tcb) % uint32_mod / 8 * 8

-- The canary, and the frame above it.
unfoldable pub first_frame : Image → Kernel → Ptr → Ptr → Ptr × (Ptr → ℕ)
first_frame img k tcb func =
    build_initial_stack img (set_word k.bytes (k.stack_base tcb) stack_canary) (stack_high k tcb)
      func

-- The writes of _task_build_common.
unfoldable pub prepared : Image → Kernel → Ptr → Ptr → Kernel
prepared img k tcb func = record k {
  bytes = (first_frame img k tcb func).1;
  stack_ptr = update k.stack_ptr tcb (first_frame img k tcb func).0;
  task_func = update k.task_func tcb func;
  next_ready = update k.next_ready tcb null;
  base_priority = update k.base_priority tcb (k.priority tcb);
  blocked_on_mutex = update k.blocked_on_mutex tcb null;
  mutex_wait_next = update k.mutex_wait_next tcb null;
  time_slice_counter = update k.time_slice_counter tcb 0;
  block_reason = update k.block_reason tcb block_none;
  block_object = update k.block_object tcb null;
  block_wake_status = update k.block_wake_status tcb ok;
  wake_time = update k.wake_time tcb uint32_max;
}

-- _task_build_common
unfoldable pub task_build_common : Image → Kernel → Ptr → Ptr → Status × Kernel
task_build_common img k tcb func =
    if (tcb == null) || (func == null) then (err_param, k) else (ok, prepared img k tcb func)

-- How rtos_stack_check_all ends: it returns, or it runs for ever with the task and the word that it
-- has found in g_rtos_stack_overflow_task_name and g_rtos_stack_overflow_canary.
pub data StackCheck : Type 0 where
  intact : StackCheck
  overflowed : Ptr → ℕ → StackCheck

-- The loop of rtos_stack_check_all over the tasks that are left.
pub check_stacks : Kernel → List Ptr → StackCheck
check_stacks k [] = intact
check_stacks k (t ∷ ts) =
    let rest = check_stacks k ts in
    let word = get_word k.bytes (k.stack_base t) in
    if (t == null) || (k.stack_base t == null)
    then rest
    else if word == stack_canary
    then rest
    else overflowed t word

-- rtos_stack_check_all
pub rtos_stack_check_all : Kernel → StackCheck
rtos_stack_check_all k = check_stacks k k.task_registry
