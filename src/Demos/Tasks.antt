-- ===== src/Demos/Tasks.antt =====
-- The tasks that the example programs create one after the other, on the ready rings and in the heap.
use microkernel_rtos.Common.{
  ℕ, ◌+◌, ◌-◌, ◌≤◌, ◌<◌, ◌≡◌, true, ◌&&◌, Bool, List, [], ◌∷◌, ◌++◌, arith, has, length, ltb,
  has-append, length-append,
}
use microkernel_rtos.Links.{Ptr}
use microkernel_rtos.Kernel.{Kernel, ready, num_priorities, uint32_mod}
use microkernel_rtos.Scheduler.Invariant.{Queues, Ready}
use microkernel_rtos.Scheduler.Insert.{enqueue}
use microkernel_rtos.Mutex.{prio_bucket_of}
use microkernel_rtos.Heap.{header_size, heap_pool_size}
use microkernel_rtos.Heap.Blocks.{IsHeap}
use microkernel_rtos.Lifecycle.{System}
use microkernel_rtos.Lifecycle.Init.{no_tasks}
use microkernel_rtos.Demos.{TaskSpec}

-- The tasks that have been created, the last one first.
abbrev pub Made : Type 0
Made = List (Ptr × TaskSpec)

-- What they were created from, in the order of their creation.
abbrev pub described : Made → List TaskSpec
described [] = []
described (x ∷ made) = described made ++ x.1 ∷ []

-- Every task, behind the idle task.
abbrev pub tasks : Ptr → Made → List Ptr
tasks idle [] = idle ∷ []
tasks idle (x ∷ made) = tasks idle made ++ x.0 ∷ []

-- The ready queues: the idle task has the lowest bucket, and each task follows those of its bucket that
-- were created before it.
abbrev pub filled : Ptr → Made → Queues
filled idle [] = enqueue no_tasks (num_priorities - 1) idle
filled idle (x ∷ made) = enqueue (filled idle made) (prio_bucket_of x.1.priority) x.0

-- The task `p` was created from `t` and has not run.
pub record Settled (k : Kernel) (p : Ptr) (t : TaskSpec) : Type 0 where
  pub state : k.state p ≡ ready
  pub func : k.task_func p ≡ t.func
  pub priority : k.priority p ≡ t.priority
  pub bucket : k.prio_bucket p ≡ prio_bucket_of t.priority

abbrev pub AllSettled : Kernel → Made → Type 0
AllSettled k [] = Unit {0}
AllSettled k (x ∷ made) = Settled k (x.0) (x.1) × AllSettled k made

-- The system in which the idle task and the tasks `made` have been created.
pub record Populated (s : System) (idle : Ptr) (made : Made) : Type 0 where
  pub rings : Ready s.kernel (filled idle made)
  pub registry : s.kernel.task_registry ≡ tasks idle made
  pub settled : AllSettled s.kernel made
  pub is_idle : s.kernel.idle_tcb ≡ idle
  pub fits : s.heap.heap_pool + heap_pool_size < uint32_mod
  pub free : List Ptr
  pub used : List Ptr
  pub heap : IsHeap s.heap free used
  pub owned : (p : Ptr) → has p (tasks idle made) ≡ true → has (p - header_size) used ≡ true

-- The function and the size are those of a program in the address space.
abbrev pub within : List TaskSpec → Bool
within [] = true
within (t ∷ ts) = ltb t.func uint32_mod && ltb (t.stack_bytes + 22) uint32_mod && within ts

pub filled-has :
    (idle : Ptr) (made : Made) (b : ℕ) (p : Ptr)
    → has p (filled idle made b) ≡ true
    → has p (tasks idle made) ≡ true
filled-has idle [] b p i = ground arith
filled-has idle (x ∷ made) b p i =
    let c = prio_bucket_of x.1.priority in
    ground (
      arith,
      filled-has idle made b p,
      filled-has idle made c p,
      has-append p (filled idle made c) (x.0 ∷ []),
      has-append p (tasks idle made) (x.0 ∷ []),
    )

pub filled-length :
    (idle : Ptr) (made : Made) (b : ℕ) → length (filled idle made b) ≤ length (tasks idle made)
filled-length idle [] b = ground arith
filled-length idle (x ∷ made) b =
    let c = prio_bucket_of x.1.priority in
    ground (
      arith,
      filled-length idle made b,
      filled-length idle made c,
      length-append (filled idle made c) (x.0 ∷ []),
      length-append (tasks idle made) (x.0 ∷ []),
    )

pub AllSettled-frame :
    (k k' : Kernel) (idle : Ptr) (made : Made)
    → ((p : Ptr) (t : TaskSpec) → has p (tasks idle made) ≡ true → Settled k p t → Settled k' p t)
    → AllSettled k made
    → AllSettled k' made
AllSettled-frame k k' idle [] same a = tt
AllSettled-frame k k' idle (x ∷ made) same a = (
  same (x.0) (x.1) (ground (arith, has-append (x.0) (tasks idle made) (x.0 ∷ []))) a.0,
  AllSettled-frame k k' idle made
      (λ p t i. same p t (ground (arith, has-append p (tasks idle made) (x.0 ∷ [])))) a.1,
)
