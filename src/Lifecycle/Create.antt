-- ===== src/Lifecycle/Create.antt =====
-- task_create, on every branch.
use microkernel_rtos.Common.{
  ℕ, suc, ◌+◌, ◌≤◌, ◌<◌, ◌≡◌, ◌≢◌, ◌⊎◌, inl, inr, refl, List, true, false, ◌||◌, some, ◌==◌, arith,
  has, length, ◌∙◌, ==-true, Bool-cases, ltb, leb,
}
use microkernel_rtos.Links.{Ptr, null}
use microkernel_rtos.Kernel.{min_stack_size, max_tasks, uint32_mod, walk_fuel}
use microkernel_rtos.Scheduler.Invariant.{Queues, Ready}
use microkernel_rtos.Heap.{header_size, heap_pool_size}
use microkernel_rtos.Heap.Blocks.{IsHeap}
use microkernel_rtos.Stack.{Image}
use microkernel_rtos.Mutex.{prio_bucket_of}
use microkernel_rtos.Lifecycle.{System, rounded, give_up, allocate_task, task_create}
use microkernel_rtos.Lifecycle.Memory.{Refused, Granted, two_allocations}
use microkernel_rtos.Lifecycle.Build.{Created, place_task-Created}

-- Nothing is created: the reason, and what is left of the system.
pub record NotCreated (img : Image) (s s' : System) (us : List Ptr) (p func size : ℕ) : Type 0 where
  pub why :
      (func ≡ null)
      ⊎ ((size < min_stack_size)
          ⊎ ((max_tasks ≤ length s.kernel.task_registry)
              ⊎ Refused s.heap us img.sizeof_tcb (rounded size)))
  pub returns : p ≡ null
  pub same_kernel : s'.kernel ≡ s.kernel
  pub free : List Ptr
  pub heap : IsHeap s'.heap free us

-- The task at `p` is created, with its block and its stack among the used blocks of the heap.
pub record NowCreated (img : Image) (s s' : System) (q : Queues) (fs us : List Ptr)
    (p func priority size : ℕ) : Type 0 where
  pub given : func ≢ null
  pub large : min_stack_size ≤ size
  pub left : length s.kernel.task_registry < max_tasks
  pub memory : Granted s.heap fs us img.sizeof_tcb (rounded size)
  pub returns : p ≡ memory.one.c + header_size
  pub task :
      Created img s.kernel s'.kernel q p
        (memory.two.c + header_size)
        func
        priority
        (prio_bucket_of priority)
        (rounded size)
  pub same_heap : s'.heap ≡ memory.two.h'

-- The two ways in which task_create returns.
abbrev pub Outcome :
    Image → System → System → Queues → List Ptr → List Ptr → (p func priority size : ℕ) → Type 0
Outcome img s s' q fs us p func priority size =
    NotCreated img s s' us p func size ⊎ NowCreated img s s' q fs us p func priority size

module _ (img : Image) (s : System) (func priority size text : ℕ) {q : Queues} {fs us : List Ptr}
    (r : Ready s.kernel q) (i : IsHeap s.heap fs us) (some_bytes : 0 < img.sizeof_tcb)
    (tcb_fits : img.sizeof_tcb + 15 < uint32_mod) (size_fits : size + 22 < uint32_mod)
    (pool_fits : s.heap.heap_pool + heap_pool_size < uint32_mod)
    (trap : img.task_exit_trap < uint32_mod) (entry : func < uint32_mod)
    (apart : (c a : ℕ) → has c fs ≡ true → has (c + header_size) (q a) ≡ false)
    (room : (b : ℕ) → suc (length (q b)) < walk_fuel) where
  -- An allocation fails.
  refused :
      (f : Refused s.heap us img.sizeof_tcb (rounded size))
      → allocate_task img s func priority (rounded size) text
        ≡ some (null, record s { heap = f.h4 })
  unfolding allocate_task give_up
  refused f = rw f.first (rw f.second (rw f.failed (rw f.free_first (rw f.free_second refl))))

  -- Both are granted.
  granted :
      func ≢ null
      → min_stack_size ≤ size
      → length s.kernel.task_registry < max_tasks
      → (g : Granted s.heap fs us img.sizeof_tcb (rounded size))
      → (s' : System) × (allocate_task img s func priority (rounded size) text
          ≡ some (g.one.c + header_size, s'))
        × NowCreated img s s' q fs us (g.one.c + header_size) func priority size
  unfolding allocate_task
  granted ne large left g =
      let t = g.one.c + header_size in
      let stk = g.two.c + header_size in
      let whole = g.two.whole in
      let below = whole.tiles.below g.two.c (ground arith) in
      let pool : g.two.h'.heap_pool ≡ s.heap.heap_pool =
        g.two.kept.same_pool ∙ g.one.kept.same_pool in
      let fits : stk + rounded size < uint32_mod =
        omega (arith, below, pool, pool_fits, g.two.room) in
      let (k', ran, c) =
        place_task-Created img (record s { heap = g.two.h' }) t stk func priority (rounded size)
          text r (omega arith) ne (λ a. apart g.one.c a g.one.listed)
          (room (prio_bucket_of priority)) left (omega (arith, large)) fits trap entry in
      let go : ((t == null) || (stk == null)) ≡ false = ground arith in
      (
        record { kernel = k'; heap = g.two.h'; timers = s.timers },
        rw g.one.ran (rw g.two.ran (rw go ran)),
        record {
          given = ne;
          large = large;
          left = left;
          memory = g;
          returns = refl;
          task = c;
          same_heap = refl;
        },
      )

  -- On well-formed ready rings of fewer than 63 tasks and a well-formed heap, no free block of
  -- which is a task on a ring, with the pool, the function and the exit trap in the address space,
  -- and for a stack size below 0xffffffea and a control block whose size does not wrap,
  -- task_create returns. Where there is no function, the stack has fewer than RTOS_MIN_STACK_SIZE
  -- bytes, the registry has RTOS_MAX_TASKS tasks or more, or an allocation fails, it returns NULL,
  -- the kernel is as it was and no more of the heap is used. Where there is a function, the stack
  -- is large enough, the registry has fewer than RTOS_MAX_TASKS tasks and both allocations
  -- succeed, the new task is READY at the end of the ring of its bucket and last in the registry,
  -- its block and its stack are two used blocks of the heap, and its first frame and its canary
  -- lie on its stack and not on each other.
  pub task_create-Outcome :
      (p : Ptr) × (s' : System) × (task_create img s func priority size text ≡ some (p, s'))
      × Outcome img s s' q fs us p func priority size
  unfolding task_create
  task_create-Outcome = elim (Bool-cases ((func == null) || ltb size min_stack_size)) [
    | inl bad ↦ (
      null,
      s,
      rw bad refl,
      inl (record {
        why = (elim (Bool-cases (func == null)) [
          | inl z ↦ inl (==-true func null z)
          | inr nz ↦ inr (inl (ground arith))
        ]);
        returns = refl;
        same_kernel = refl;
        free = fs;
        heap = i;
      }),
    )
    | inr good ↦ elim (Bool-cases (leb max_tasks (length s.kernel.task_registry))) [
      | inl full ↦ (
        null,
        s,
        rw (good, full) refl,
        inl (record {
          why = inr (inr (inl (ground arith)));
          returns = refl;
          same_kernel = refl;
          free = fs;
          heap = i;
        }),
      )
      | inr left ↦
          let large : min_stack_size ≤ size = ground arith in
          elim (two_allocations s.heap img.sizeof_tcb (rounded size) i some_bytes tcb_fits
            (omega (arith, large)) (omega arith)) [
              | inl f ↦ (
                null,
                record s { heap = f.h4 },
                rw (good, left) (refused f),
                inl (record {
                  why = inr (inr (inr f));
                  returns = refl;
                  same_kernel = refl;
                  free = f.fs4;
                  heap = f.whole;
                }),
              )
              | inr g ↦
                  let (s', ran, c) =
                    granted (λ (z : func ≡ null). absurd (ground arith)) large (ground arith) g in
                  (g.one.c + header_size, s', rw (good, left) ran, inr c)
            ]
    ]
  ]
