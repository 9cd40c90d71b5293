-- ===== src/Fixtures.antt =====
-- A small system for the examples: tasks 10 and 20 are ready in bucket 1, idle task 90 in bucket 7;
-- task 30 of bucket 1 waits for semaphore 500, and task 10 is running.
mod Scheduling
mod Semaphores
mod Messages
mod Mutexes
mod Locking
mod Board
mod Timing
mod Ticking
mod Heaps
mod Interrupts
mod Lifetimes
mod Programs
use microkernel_rtos.Common.{
  ℕ, ◌*◌, ◌+◌, ◌≡◌, ◌≢◌, refl, List, [], ◌∷◌, true, false, ◌==◌, if◌then◌else◌, arith, has, length,
}
use microkernel_rtos.Links.{Ptr, null}
use microkernel_rtos.Kernel.{
  Kernel, Status, ok, TaskState, ready, running, blocked, block_none, block_semaphore, WaitList,
  Mutex, Semaphore, MsgQueue,
}
use microkernel_rtos.Blocking.Rings.{MayRun}
use microkernel_rtos.Scheduler.Invariant.{Queues, Rings, Ready}

abbrev pub nobody : WaitList
nobody = record { wait_head = null; wait_tail = null }

abbrev pub free_mutex : Mutex
free_mutex = record { locked = false; owner = null; waiters = nobody }

abbrev pub no_queue : MsgQueue
no_queue = record {
  buffer = null;
  msg_size = 0;
  depth = 0;
  head = 0;
  tail = 0;
  count = 0;
  send_waiters = nobody;
  recv_waiters = nobody;
}

-- Task 30 waits; at most three units are counted.
abbrev pub contended : Semaphore
contended = record { count = 0; max_count = 3; waiters = record { wait_head = 30; wait_tail = 30 } }

abbrev pub demo : Kernel
demo = record {
  stack_ptr = λ p. null;
  prio_bucket = λ p. if p == 90 then 7 else 1;
  priority = λ p. if p == 90 then 255 else 40;
  state = λ p. if p == 10 then running else if p == 30 then blocked else ready;
  stack_base = λ p. p * 100;
  stack_size = λ p. 512;
  name = λ p i. 0;
  wake_time = λ p. 0xffff_ffff;
  base_priority = λ p. if p == 90 then 255 else 40;
  blocked_on_mutex = λ p. null;
  mutex_wait_next = λ p. null;
  task_func = λ p. p + 1;
  next_ready = λ p. if p == 10 then 20 else if p == 20 then 10 else if p == 90 then 90 else null;
  time_slice_counter = λ p. 0;
  block_reason = λ p. if p == 30 then block_semaphore else block_none;
  block_object = λ p. if p == 30 then 500 else null;
  block_wake_status = λ p. ok;
  ready_head = λ b. if b == 1 then 10 else if b == 7 then 90 else null;
  current_tcb = 10;
  idle_tcb = 90;
  pendsv = false;
  task_registry = 90 ∷ 10 ∷ 20 ∷ 30 ∷ [];
  tick_count = 1000;
  mutexes = λ p. free_mutex;
  semaphores = λ p. contended;
  queues = λ p. no_queue;
  bytes = λ a. 0;
}

abbrev pub demo_queues : Queues
demo_queues b = if b == 1 then 10 ∷ 20 ∷ [] else if b == 7 then 90 ∷ [] else []

pub demo-Ready : Ready demo demo_queues
demo-Ready = record {
  rings = λ b. ground arith;
  apart = λ a b p i j. ground arith;
  short = λ b. ground arith;
  bounded = λ b h. ground arith;
}

-- Task 30 is blocked, on no ready ring.
pub demo-MayRun : MayRun demo.prio_bucket demo_queues 30
demo-MayRun = record {
  ne_null = omega arith;
  in_range = omega arith;
  absent = λ a. ground arith;
  room = omega arith;
}
