-- ===== src/Kernel.antt =====
-- include/rtos_config.h, include/rtos_types.h and the static variables of src/core: the state that
-- the kernel's functions share. Each field of a task control block is a map of its own from the
-- block's address to the field's value, so a write through one pointer is seen through every alias.
use microkernel_rtos.Common.{ℕ, Bool, true, false, List}
use microkernel_rtos.Links.{Ptr, update}

-- RTOS_NUM_PRIORITIES
abbrev pub num_priorities : ℕ
num_priorities = 8

-- RTOS_MAX_TASKS
abbrev pub max_tasks : ℕ
max_tasks = 32

-- RTOS_WAIT_FOREVER
abbrev pub wait_forever : ℕ
wait_forever = 0

-- RTOS_PRIORITY_MAX
abbrev pub priority_max : ℕ
priority_max = 255

-- RTOS_TIME_SLICE_TICKS
abbrev pub time_slice_ticks : ℕ
time_slice_ticks = 1

-- RTOS_MIN_STACK_SIZE
abbrev pub min_stack_size : ℕ
min_stack_size = 256

-- RTOS_IDLE_STACK_SIZE
abbrev pub idle_stack_size : ℕ
idle_stack_size = 4096

-- RTOS_TASK_NAME_MAX
abbrev pub task_name_max : ℕ
task_name_max = 16

-- RTOS_STACK_CANARY
abbrev pub stack_canary : ℕ
stack_canary = 0xdead_beef

-- RTOS_TICK_RATE_HZ
abbrev pub tick_rate_hz : ℕ
tick_rate_hz = 1000

-- UINT32_MAX, and the modulus of uint32_t.
abbrev pub uint32_max : ℕ
uint32_max = 0xffff_ffff

abbrev pub uint32_mod : ℕ
uint32_mod = 0x1_0000_0000

-- The rounds that a walk along a ring or a wait list is given. The task registry holds at most
-- 33 blocks, and every walk visits a block at most once.
abbrev pub walk_fuel : ℕ
walk_fuel = 64

-- rtos_status_t
pub data Status : Type 0 where
  ok err_param err_no_mem err_state err_timeout err_full err_empty err_owner err_busy : Status

-- task_state_t
pub data TaskState : Type 0 where
  ready running blocked suspended terminated : TaskState

-- block_reason_t
pub data BlockReason : Type 0 where
  block_none block_delay block_mutex block_semaphore block_msg_send block_msg_recv : BlockReason

-- The two pointers of a list of waiting tasks, which are linked by `mutex_wait_next`.
pub record WaitList : Type 0 where
  pub wait_head : Ptr
  pub wait_tail : Ptr

-- mutex_t
pub record Mutex : Type 0 where
  pub locked : Bool
  pub owner : Ptr
  pub waiters : WaitList

-- semaphore_t
pub record Semaphore : Type 0 where
  pub count : ℕ
  pub max_count : ℕ
  pub waiters : WaitList

-- msg_queue_t
pub record MsgQueue : Type 0 where
  pub buffer : Ptr
  pub msg_size : ℕ
  pub depth : ℕ
  pub head : ℕ
  pub tail : ℕ
  pub count : ℕ
  pub send_waiters : WaitList
  pub recv_waiters : WaitList

pub record Kernel : Type 0 where
  -- the fields of TCB_t but `next`, which no code uses; `name` gives the characters by index
  pub stack_ptr : Ptr → Ptr
  pub prio_bucket : Ptr → ℕ
  pub priority : Ptr → ℕ
  pub state : Ptr → TaskState
  pub stack_base : Ptr → Ptr
  pub stack_size : Ptr → ℕ
  pub name : Ptr → ℕ → ℕ
  pub wake_time : Ptr → ℕ
  pub base_priority : Ptr → ℕ
  pub blocked_on_mutex : Ptr → Ptr
  pub mutex_wait_next : Ptr → Ptr
  pub task_func : Ptr → Ptr
  pub next_ready : Ptr → Ptr
  pub time_slice_counter : Ptr → ℕ
  pub block_reason : Ptr → BlockReason
  pub block_object : Ptr → Ptr
  pub block_wake_status : Ptr → Status
  -- scheduler.c
  pub ready_head : ℕ → Ptr
  pub current_tcb : Ptr
  pub idle_tcb : Ptr
  -- the PENDSVSET bit of the interrupt control register
  pub pendsv : Bool
  -- task.c
  pub task_registry : List Ptr
  pub tick_count : ℕ
  -- the objects that tasks wait on, by address, and the bytes of memory
  pub mutexes : Ptr → Mutex
  pub semaphores : Ptr → Semaphore
  pub queues : Ptr → MsgQueue
  pub bytes : Ptr → ℕ

-- `state == TASK_STATE_…`
abbrev pub is_ready : TaskState → Bool
is_ready ready = true
is_ready _ = false

abbrev pub is_running : TaskState → Bool
is_running running = true
is_running _ = false

abbrev pub is_blocked : TaskState → Bool
is_blocked blocked = true
is_blocked _ = false

abbrev pub is_suspended : TaskState → Bool
is_suspended suspended = true
is_suspended _ = false

abbrev pub is_terminated : TaskState → Bool
is_terminated terminated = true
is_terminated _ = false

-- `status == RTOS_OK`
abbrev pub is_ok : Status → Bool
is_ok ok = true
is_ok _ = false

-- `status == RTOS_ERR_TIMEOUT`
abbrev pub is_timeout : Status → Bool
is_timeout err_timeout = true
is_timeout _ = false

-- Writes of one field.
abbrev pub set_state : Kernel → Ptr → TaskState → Kernel
set_state k t s = record k { state = update k.state t s }

abbrev pub set_next_ready : Kernel → Ptr → Ptr → Kernel
set_next_ready k t p = record k { next_ready = update k.next_ready t p }

abbrev pub set_ready_head : Kernel → ℕ → Ptr → Kernel
set_ready_head k b p = record k { ready_head = update k.ready_head b p }

abbrev pub set_bucket : Kernel → Ptr → ℕ → Kernel
set_bucket k t b = record k { prio_bucket = update k.prio_bucket t b }

abbrev pub set_slice : Kernel → Ptr → ℕ → Kernel
set_slice k t n = record k { time_slice_counter = update k.time_slice_counter t n }

abbrev pub set_wait_next : Kernel → Ptr → Ptr → Kernel
set_wait_next k t p = record k { mutex_wait_next = update k.mutex_wait_next t p }
