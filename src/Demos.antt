-- ===== src/Demos.antt =====
-- src/examples: how the example programs start. `none` is a program that goes round for ever without
-- starting a task.
pub mod Tasks
pub mod Creation
pub mod Supply
pub mod Urgency
pub mod Startup
pub mod Programs
use microkernel_rtos.Common.{
  ℕ, zero, suc, Option, none, some, List, [], ◌∷◌, ◌==◌, if◌then◌else◌, ◌>>=◌,
}
use microkernel_rtos.Links.{Ptr, null, update}
use microkernel_rtos.Kernel.{Kernel, Status, is_ok}
use microkernel_rtos.Mutex.{mutex_init}
use microkernel_rtos.Stack.{Image}
use microkernel_rtos.Lifecycle.{System, task_init, task_create}
use microkernel_rtos.Platform.{Device, rtos_start}

-- The arguments of a call of task_create: the function, the priority, the stack size and the name.
pub record TaskSpec : Type 0 where
  pub func : Ptr
  pub priority : ℕ
  pub stack_bytes : ℕ
  pub text : Ptr

-- `if (task_init() != RTOS_OK) { while (1) {} }`
pub init_or_stop : Image → System → Option System
init_or_stop img s = do (st, s) ← task_init img s; if is_ok st then some s else none

-- `(void)mutex_init(…);` for each of the program's mutexes.
pub init_mutexes : List Ptr → Kernel → Kernel
init_mutexes [] k = k
init_mutexes (m ∷ ms) k = init_mutexes ms (mutex_init k m).1

-- `if (task_create(…) == NULL) { while (1) {} }`
pub create_or_stop : Image → System → TaskSpec → Option System
create_or_stop img s t = do
  (p, s) ← task_create img s t.func t.priority t.stack_bytes t.text
  if p == null then none else some s

-- These statements, one behind the other.
pub create_each : Image → System → List TaskSpec → Option System
create_each img s [] = some s
create_each img s (t ∷ ts) = do s ← create_or_stop img s t; create_each img s ts

-- `for (;;) { (void)rtos_start(); }`: the first task starts where rtos_start does not return; a call that
-- returns is made again, `fuel` times.
pub start_loop : ℕ → System → Device → Option (System × Device)
start_loop zero s d = none
start_loop (suc fuel) s d =
    let (returned, d) = rtos_start s.kernel d in
    unless_started returned (s, d) (start_loop fuel s d)
  where
    unless_started :
        Option Status → System × Device → Option (System × Device) → Option (System × Device)
    unless_started none started again = some started
    unless_started (some st) started again = again

-- The common shape of the programs' main: what SVC_Handler finds when the first task starts.
pub boot : Image → List Ptr → List TaskSpec → ℕ → System → Device → Option (System × Device)
boot img ms ts fuel s d = do
  s ← init_or_stop img s
  s ← create_each img (record s { kernel = init_mutexes ms s.kernel }) ts
  start_loop fuel s d

-- The task of sched_demo; `worker` and `text` are the addresses of its function and of its name.
abbrev pub sched_demo_tasks : (worker text : Ptr) → List TaskSpec
sched_demo_tasks worker text =
    record { func = worker; priority = 32; stack_bytes = 512; text = text } ∷ []

-- main of sched_demo
abbrev pub sched_demo_main :
    Image → (worker text : Ptr) → ℕ → System → Device → Option (System × Device)
sched_demo_main img worker text = boot img [] (sched_demo_tasks worker text)

-- The tasks of stress_test: the function of task `i` is at `entry i`, and its name at `text i`.
abbrev pub stress_tasks : (entry text : ℕ → Ptr) → List TaskSpec
stress_tasks entry text =
    task 0 32
    ∷ task 1 32
    ∷ task 2 64
    ∷ task 3 64
    ∷ task 4 64
    ∷ task 5 96
    ∷ task 6 96
    ∷ task 7 128
    ∷ task 8 128
    ∷ task 9 160
    ∷ []
  where
    task : ℕ → ℕ → TaskSpec
    task i priority = record {
      func = entry i;
      priority = priority;
      stack_bytes = 768;
      text = text i;
    }

-- main of stress_test; the mutex is at `m`.
abbrev pub stress_test_main :
    Image → (m : Ptr) → (entry text : ℕ → Ptr) → ℕ → System → Device → Option (System × Device)
stress_test_main img m entry text = boot img (m ∷ []) (stress_tasks entry text)

-- g_demo_phase and g_last_event of mutex_demo
pub record Shown : Type 0 where
  pub demo_phase : ℕ
  pub last_event : ℕ → ℕ

-- The tasks L, M and H of mutex_demo; their functions are at `low`, `medium` and `high`, and their names
-- at `text 0`, `text 1` and `text 2`.
abbrev pub mutex_demo_tasks : (low medium high : Ptr) → (text : ℕ → Ptr) → List TaskSpec
mutex_demo_tasks low medium high text = task low 200 0 ∷ task medium 96 1 ∷ task high 32 2 ∷ []
  where
    task : Ptr → ℕ → ℕ → TaskSpec
    task func priority i = record {
      func = func;
      priority = priority;
      stack_bytes = 1024;
      text = text i;
    }

-- main of mutex_demo; the mutex is at `m`. The two writes to the variables that are shown come before the
-- calls of task_create, which do not use them.
abbrev pub mutex_demo_main :
    Image
    → (m low medium high : Ptr) → (text : ℕ → Ptr) → ℕ
    → Shown
    → System
    → Device
    → Option (Shown × System × Device)
mutex_demo_main img m low medium high text fuel shown s d = do
  (s, d) ← boot img (m ∷ []) (mutex_demo_tasks low medium high text) fuel s d
  some (record { demo_phase = 0; last_event = update shown.last_event 0 0 }, s, d)
