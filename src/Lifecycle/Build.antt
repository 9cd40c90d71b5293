-- ===== src/Lifecycle/Build.antt =====
-- A task that has been given its memory: its stack, its control block, its place on a ready ring.
use microkernel_rtos.Common.{
  ℕ, suc, ◌+◌, ◌≤◌, ◌<◌, ◌≡◌, ◌≢◌, inl, inr, refl, [], ◌∷◌, ◌++◌, true, false, ◌&&◌, not, some,
  ◌==◌, arith, has, length, sym, subst, ◌∙◌, ap, ==-false, Bool-cases, ltb,
}
use microkernel_rtos.Links.{Ptr, null, update, update-at}
use microkernel_rtos.Kernel.{
  Kernel, ok, ready, min_stack_size, max_tasks, num_priorities, uint32_mod, walk_fuel, set_state,
}
use microkernel_rtos.Scheduler.{scheduler_add_task}
use microkernel_rtos.Scheduler.Rings.{Ring-frame}
use microkernel_rtos.Scheduler.Invariant.{Queues, Rings, Ready, relink}
use microkernel_rtos.Scheduler.Insert.{enqueue, mark_ready_again, scheduler_add_task-Ready}
use microkernel_rtos.Mutex.{prio_bucket_of}
use microkernel_rtos.Mutex.Priority.{prio_bucket_of-lt}
use microkernel_rtos.Task.{registry_add}
use microkernel_rtos.Stack.{Image, first_frame, prepared, task_build_common}
use microkernel_rtos.Lifecycle.{System, cleared, furnished, named, place_task}
use microkernel_rtos.Stack.Frame.{OnStack, first_frame-OnStack}

-- The links of a block that is on no ring may change.
pub Rings-off :
    {nx : Ptr → Ptr} {heads : ℕ → Ptr} {q : Queues} (t v : Ptr)
    → Rings nx heads q
    → ((a : ℕ) → has t (q a) ≡ false)
    → Rings (update nx t v) heads q
Rings-off {nx} {heads} {q} t v r out = record {
  rings =
      λ b. Ring-frame nx (update nx t v) (heads b) (q b) (λ p i. ground (arith, out b)) (r.rings b);
  apart = r.apart;
  short = r.short;
  bounded = r.bounded;
}

-- Naming a task changes its name only.
named_only :
    (k : Kernel) (t text : Ptr) → named k t text ≡ record k { name = (named k t text).name }
unfolding named
named_only k t text = elim (Bool-cases (text == null)) [
  | inl unnamed ↦ rw unnamed refl
  | inr given ↦ rw given refl
]

pub task_build_common-prepared :
    (img : Image) (k : Kernel) (t func : Ptr)
    → t ≢ null
    → func ≢ null
    → task_build_common img k t func ≡ (ok, prepared img k t func)
unfolding task_build_common
task_build_common-prepared img k t func ne ne' = rw (==-false ne, ==-false ne') refl

pub registry_add-snoc :
    (k : Kernel) (t : Ptr)
    → t ≢ null
    → length k.task_registry < max_tasks + 1
    → registry_add k t ≡ record k { task_registry = k.task_registry ++ t ∷ [] }
unfolding registry_add
registry_add-snoc k t ne room =
    let go : (ltb (length k.task_registry) (max_tasks + 1) && not (t == null)) ≡ true =
      ground arith in
    rw go refl

-- What the creation of the task `t` leaves, of the kernel `k` with the ready queues `q`.
pub record Created (img : Image) (k k' : Kernel) (q : Queues) (t stk func priority bucket size : ℕ)
    : Type 0 where
  pub rings : Ready k' (enqueue q bucket t)
  pub state : k'.state t ≡ ready
  pub registry : k'.task_registry ≡ k.task_registry ++ t ∷ []
  pub priority_set : (k'.priority t ≡ priority) × (k'.base_priority t ≡ priority)
  pub bucket_set : k'.prio_bucket t ≡ bucket
  pub entry : k'.task_func t ≡ func
  pub base : k'.stack_base t ≡ stk
  pub stack : OnStack img k'.bytes stk size (k'.stack_ptr t) func
  pub others : (p : Ptr) → p ≢ t → (k'.state p ≡ k.state p) × (k'.prio_bucket p ≡ k.prio_bucket p)
  pub entries :
      (p : Ptr) → p ≢ t → (k'.task_func p ≡ k.task_func p) × (k'.priority p ≡ k.priority p)
  pub current : (k'.current_tcb ≡ k.current_tcb) × (k'.idle_tcb ≡ k.idle_tcb)

module _ (img : Image) (s : System) (t stk func priority bucket size : ℕ) (text : Ptr → ℕ → ℕ)
    {q : Queues} (r : Ready s.kernel q) (ne : t ≢ null) (ne' : func ≢ null)
    (absent : (a : ℕ) → has t (q a) ≡ false) (in_range : bucket < num_priorities)
    (room : suc (length (q bucket)) < walk_fuel)
    (registry_room : length s.kernel.task_registry < max_tasks) (large : min_stack_size ≤ size)
    (fits : stk + size < uint32_mod) (trap : img.task_exit_trap < uint32_mod)
    (entry : func < uint32_mod) where
  abbrev labelled : Kernel
  labelled = record (furnished (cleared s.kernel t) t stk size priority bucket) { name = text }

  abbrev built : Kernel
  built = set_state (prepared img labelled t func) t ready

  abbrev placed_at : (Ptr → Ptr) → (ℕ → Ptr) → Kernel
  placed_at nx heads = record (relink built nx heads) {
    task_registry = s.kernel.task_registry ++ t ∷ [];
  }

  built-Ready : Ready built q
  unfolding prepared furnished cleared
  built-Ready = Rings-off t null (Rings-off t null r absent) absent

  built_fields :
      (built.state t ≡ ready)
      × (built.prio_bucket t ≡ bucket)
      × (built.task_registry ≡ s.kernel.task_registry)
  unfolding prepared furnished cleared
  built_fields = (ground arith, ground arith, refl)

  abbrev framed : Ptr × (Ptr → ℕ)
  framed = first_frame img labelled t func

  built_stack : OnStack img framed.1 stk size framed.0 func
  unfolding furnished cleared
  built_stack =
      let at_base : labelled.stack_base t ≡ stk = ground arith in
      let of_size : labelled.stack_size t ≡ size = ground arith in
      subst (λ b. OnStack img framed.1 b size framed.0 func) at_base
        (subst (λ n. OnStack img framed.1 (labelled.stack_base t) n framed.0 func) of_size
          (first_frame-OnStack img labelled t func (omega (arith, of_size, large))
            (omega (arith, at_base, of_size, fits)) trap entry))

  placed-Created :
      (nx : Ptr → Ptr) (heads : ℕ → Ptr)
      → Rings nx heads (enqueue q (bucket) t)
      → Created img s.kernel (placed_at nx heads) q t stk func priority bucket size
  unfolding prepared furnished cleared
  placed-Created nx heads r' = record {
    rings = r';
    state = ground arith;
    registry = refl;
    priority_set = (ground arith, ground arith);
    bucket_set = ground arith;
    entry = ground arith;
    base = ground arith;
    stack =
        subst (λ sp. OnStack img framed.1 stk size sp func)
          (sym (update-at (update s.kernel.stack_ptr t null) t framed.0)) built_stack;
    others = λ p off. (ground arith, ground arith);
    entries = λ p off. (ground arith, ground arith);
    current = (refl, refl);
  }

  registered :
      (nx : Ptr → Ptr) (heads : ℕ → Ptr)
      → registry_add (relink built nx heads) t ≡ placed_at nx heads
  registered nx heads =
      registry_add-snoc (relink built nx heads) t ne
        (omega (arith, ap (length {A = Ptr}) (built_fields.2), registry_room))
      ∙ ap (λ l. record (relink built nx heads) { task_registry = l ++ t ∷ [] }) (built_fields.2)

  -- The two calls that put a task that has been built on its ring and into the registry.
  pub built-Created :
      (k1 : Kernel) × (k2 : Kernel) × (scheduler_add_task built t ≡ some (ok, k1))
      × (registry_add k1 t ≡ k2)
      × Created img s.kernel k2 q t stk func priority bucket size
  built-Created =
      let (nx, heads, ran, r') =
        scheduler_add_task-Ready built t built-Ready ne (rw (built_fields.0) refl)
          (subst (λ b. b < num_priorities) (sym (built_fields.1)) in_range) absent
          (subst (λ b. suc (length (q b)) < walk_fuel) (sym (built_fields.1)) room) in
      (
        relink built nx heads,
        placed_at nx heads,
        rw (sym (mark_ready_again (relink built nx heads) t (built_fields.0))) ran,
        registered nx heads,
        placed-Created nx heads (subst (λ b. Rings nx heads (enqueue q b t)) (built_fields.1) r'),
      )

module _ (img : Image) (s : System) (t stk func priority size text : ℕ) where
  abbrev furnished_block : Kernel
  furnished_block = furnished (cleared s.kernel t) t stk size priority (prio_bucket_of priority)

  pub place_task-Created :
      {q : Queues}
      → Ready s.kernel q
      → t ≢ null
      → func ≢ null
      → ((a : ℕ) → has t (q a) ≡ false)
      → suc (length (q (prio_bucket_of priority))) < walk_fuel
      → length s.kernel.task_registry < max_tasks
      → min_stack_size ≤ size
      → stk + size < uint32_mod
      → img.task_exit_trap < uint32_mod
      → func < uint32_mod
      → (k' : Kernel) × (place_task img s t stk func priority size text
          ≡ some (t, record s { kernel = k' }))
        × Created img s.kernel k' q t stk func priority (prio_bucket_of priority) size
  unfolding place_task
  place_task-Created {q} r ne ne' absent room left large fits trap entry =
      let labels = (named furnished_block t text).name in
      let built_up =
        ap (λ k. task_build_common img k t func) (named_only furnished_block t text)
        ∙ task_build_common-prepared img (record furnished_block { name = labels }) t func ne ne' in
      let (k1, k2, added, listed, c) =
        built-Created img s t stk func priority (prio_bucket_of priority) size labels r ne ne'
          absent (prio_bucket_of-lt priority) room left large fits trap entry in
      (k2, rw built_up (rw added (rw listed refl)), c)
