-- ===== src/Lib.antt =====
-- The kernel of microkernel-rtos, a preemptive RTOS for ARM Cortex-M: src/core, src/sync, src/ipc,
-- src/timer, src/memory and src/platform, with the programs in examples.
--
-- State. Kernel.antt has the record Kernel: the static variables of src/core/scheduler.c and
-- src/core/task.c, the objects that tasks wait on by address, and one map for each field of TCB_t
-- (include/rtos_types.h) that this code uses, from the address of a block to the field's value. A
-- pointer is a number, and NULL is 0. Links.antt has what the files share on linked blocks: a
-- chain of links as the list of its addresses, and what writing one link makes of it. A function
-- of the source is a function from the state to the new state, with the value that it returns
-- first; Option is used where a call may not return, and `none` is a call that runs for ever or
-- out of fuel. A uint32_t keeps its wrap-around.
--
-- Parts. The scheduler keeps a circular ready ring for each of 8 buckets; every other part makes
-- tasks ready or takes them off their rings through it. Semaphores, mutexes and message queues
-- keep lists of waiting tasks, and block the calling task through rtos_block_current; a post, an
-- unlock, a transfer or a timeout wakes one. The tick wakes the tasks whose time has come.
--   Scheduler        src/core/scheduler.c; Rings has the rings as lists, Invariant the invariant of all
--                    eight, Insert, Remove, Dispatch, Progress, Rebucket and Slice the operations.
--   Waiting          the wait lists, as src/ipc/msgqueue.c's _tcb_enqueue_tail, _tcb_unlink and
--                    _tcb_pop_head handle them; semaphore.c and mutex.c repeat that code.
--   Blocking         src/core/block.c, and the statements that make a woken task ready.
--   Semaphore        src/sync/semaphore.c; Waits has the calls, Timeout what ends a wait; Shared, Moves and
--                    Runs follow all tasks through any sequence of these, of timeouts and of context
--                    switches; LostWake has a post in the gap before the task blocks.
--   Mutex            src/sync/mutex.c; Highest and Pop have the choice of the task that is handed the
--                    mutex, Priority and Inherit the change of a task's priority, Lock and Unlock the
--                    calls; Guarded, Exclusion, Release and Runs follow the mutex through any sequence of
--                    these, whatever the ready rings are (Scheduler.Kept, Blocking.Kept).
--   MsgQueue         src/ipc/msgqueue.c; Memory and Fifo have the ring buffer in the bytes of memory as
--                    a list of messages, Transfer the copies, Sides the two wait lists, Calls and
--                    Blocks the calls, Initial the queue that msg_queue_init sets up, Traffic any sequence of
--                    the calls that do not wait.
--   Timer            src/timer/sw_timer.c; Sorted has the list, Calls and Stop its
--                    users, Due and Expiry the tick.
--   Heap             src/memory/heap.c; Tiles has the pool as free and used blocks that tile it, Walks
--                    the two loops, Blocks the invariant, Returns the merge on any list, Sizes, Calls, Roundtrip and Reached the calls,
--                    Single a heap whose free memory is one block.
--   Task             src/core/task.c: the registry, delays, and (Ticks) the delayed wake-ups; Stranded
--                    follows a task from mutex_unlock to task_delay and the next context switch.
--   Stack            src/core/task.c: the words of memory, the frame that a task starts from and the
--                    canary (Words), and the check of all canaries (Check).
--   Lifecycle        src/core/task.c: task_init, task_create and task_delete on the kernel with its heap;
--                    Memory has the two allocations, Build the task that gets them, Create, Delete, Init
--                    and Roundtrip the calls.
--   Platform         src/platform: Tick has the interrupt of the system timer, which calls the other parts
--                    in order, Registers and Clock rtos_start for the emulator and for the hardware; Syscalls
--                    is syscalls.c, with Console on _write and Memory on _sbrk; Polling has the loops that
--                    wait for the hardware.
--   Demos            main of the programs in examples, up to the first task: Tasks has what their calls of
--                    task_create leave, Creation and Supply these calls, Urgency the task that is first,
--                    Startup and Programs the whole.
--   Fixtures         a small system on which the theorems are applied.
--
-- Blocking calls. A call that blocks is cut where its task gives up the processor, in the loop of
-- rtos_block_current: `waiting` is where it stands then, and the functions whose names end in
-- _resume go on from there when the task runs again. Between those points interrupts are taken to
-- be disabled: each call is one step, also in the runs of Semaphore and Mutex. The gap that the code
-- leaves between enabling interrupts and blocking is modelled in Semaphore.LostWake only, and what is
-- said of the runs does not hold for a post in that gap.
--
-- Fuel. Walks over a list take walk_fuel = 64 steps at most. A ring or a wait list has at most
-- RTOS_MAX_TASKS + 1 = 33 tasks, and RTOS_MAX_SW_TIMERS foresees 16 timers, so that this is
-- enough; the invariants say that the lists are shorter, and the theorems that the calls return.
-- The walks of heap.c take heap_fuel = 2049 steps: a block has at least 16 bytes, so that the pool
-- of 32768 bytes has at most 2048. The loop of sw_timer_tick_process has its own fuel, one round
-- more than there are timers due. A loop that waits for the hardware has as many rounds as the
-- hardware takes to answer; the loop around rtos_start in main needs one round.
--
-- What the compiler, the linker and the application choose is a parameter: sizeof(TCB_t), the
-- addresses of the idle task, its stack and the exit trap (the record Image of Stack.antt), the
-- address of the heap's pool, the ends of the image and of RAM, and what a timer's callback does; what
-- the registers of the clock and of the USART return, and what the host of the emulator does, is a
-- parameter too. The fields of the control blocks,
-- the headers of the heap's blocks and the bytes of memory are maps of their own, so that heap_init
-- clears the headers and not the bytes; that the memory
-- of two tasks does not overlap is what the theorems on the heap say.
--
-- Not modelled. context_switch.s and the start-up code are assembly; the idle task and the exit trap
-- are loops without state. The bodies of the tasks in examples call the kernel in a loop, and the
-- files of tests compare what the kernel does with what they expect.
pub mod Common
pub mod Links
pub mod Kernel
pub mod Scheduler
pub mod Waiting
pub mod Blocking
pub mod Semaphore
pub mod MsgQueue
pub mod Mutex
pub mod Timer
pub mod Heap
pub mod Task
pub mod Stack
pub mod Lifecycle
pub mod Platform
pub mod Demos
mod Fixtures
