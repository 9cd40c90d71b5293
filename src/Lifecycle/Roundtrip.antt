-- ===== src/Lifecycle/Roundtrip.antt =====
-- A task that is created and deleted.
use mathlib.Core.Path.{fun_ext}
use microkernel_rtos.Common.{
  same_result, ℕ, suc, ◌+◌, ◌<◌, ◌≡◌, ◌≢◌, inl, inr, refl, List, ◌∷◌, true, false, some, ◌==◌,
  arith, has, erase, erase-snoc, length, sym, subst, ◌∙◌, ap, ==_refl, ==-true, Bool-cases,
}
use microkernel_rtos.Links.{Ptr, null}
use microkernel_rtos.Kernel.{ok, uint32_mod, walk_fuel, num_priorities}
use microkernel_rtos.Scheduler.Invariant.{Queues, Ready}
use microkernel_rtos.Scheduler.Insert.{enqueue}
use microkernel_rtos.Scheduler.Remove.{dequeue}
use microkernel_rtos.Mutex.{prio_bucket_of}
use microkernel_rtos.Heap.{header_size, heap_pool_size}
use microkernel_rtos.Heap.Blocks.{IsHeap}
use microkernel_rtos.Stack.{Image}
use microkernel_rtos.Lifecycle.{System, task_create, task_delete}
use microkernel_rtos.Mutex.Priority.{prio_bucket_of-lt}
use microkernel_rtos.Lifecycle.Create.{NowCreated, task_create-Outcome}
use microkernel_rtos.Lifecycle.Delete.{task_delete-Deleted}

-- Taking the last task off a ring undoes putting it there.
dequeue-enqueue :
    (q : Queues) (b : ℕ) (t : Ptr) → has t (q b) ≡ false → dequeue (enqueue q b t) b t ≡ q
dequeue-enqueue q b t out = fun_ext λ a. elim (Bool-cases (a == b)) [
  | inl here ↦
      let e : a ≡ b = ==-true a b here in
      rw (here, ==_refl b) (erase-snoc t (q b) out ∙ ap q (sym e))
  | inr away ↦ rw away refl
]

-- The heap's two blocks are given back in the order in which task_delete frees them.
both_erased : (b c : Ptr) (us : List Ptr) → erase b (erase c (c ∷ b ∷ us)) ≡ us
both_erased b c us = rw (==_refl c) (rw (==_refl b) refl)

module _ (img : Image) (s s' : System) (p func priority size text : ℕ) {q : Queues}
    {fs us : List Ptr} (r : Ready s.kernel q) (i : IsHeap s.heap fs us)
    (some_bytes : 0 < img.sizeof_tcb) (tcb_fits : img.sizeof_tcb + 15 < uint32_mod)
    (size_fits : size + 22 < uint32_mod)
    (pool_fits : s.heap.heap_pool + heap_pool_size < uint32_mod)
    (trap : img.task_exit_trap < uint32_mod) (entry : func < uint32_mod)
    (apart : (c a : ℕ) → has c fs ≡ true → has (c + header_size) (q a) ≡ false)
    (room : (b : ℕ) → suc (length (q b)) < walk_fuel)
    (ran : task_create img s func priority size text ≡ some (p, s')) (ne : p ≢ null) where
  created : NowCreated img s s' q fs us p func priority size
  created =
      let (t, u, ran', out) =
        task_create-Outcome img s func priority size text r i some_bytes tcb_fits size_fits
          pool_fits trap entry apart room in
      let (e, e') = same_result ran ran' in
      elim out [
        | inl not_created ↦ absurd (ne (e ∙ not_created.returns))
        | inr yes_ ↦
            subst (λ v. NowCreated img s v q fs us p func priority size) (sym e')
              (subst (λ v. NowCreated img s u q fs us v func priority size) (sym e) yes_)
      ]

  -- On well-formed ready rings of fewer than 63 tasks and a well-formed heap, no free block of
  -- which is a task on a ring, with the pool, the function and the exit trap in the address space,
  -- and for a stack size below 0xffffffea and a control block whose size does not wrap: a task
  -- that task_create has created, that is neither the current one nor the idle task nor in the
  -- registry before, and that task_delete deletes at once, leaves the ready rings, the registry
  -- and the used blocks of the heap as they were.
  pub task_delete-task_create :
      p ≢ s.kernel.idle_tcb
      → p ≢ s.kernel.current_tcb
      → has p s.kernel.task_registry ≡ false
      → (s2 : System) × (fs2 : List Ptr) × (task_delete s' p ≡ some (ok, s2))
        × Ready s2.kernel q
        × (s2.kernel.task_registry ≡ s.kernel.task_registry)
        × IsHeap s2.heap fs2 us
  task_delete-task_create ni nc new =
      let g = created.memory in
      let k = created.task in
      let blocks = g.one.c ∷ us in
      let whole : IsHeap s'.heap g.two.fs' (g.two.c ∷ blocks) =
        subst (λ h. IsHeap h g.two.fs' (g.two.c ∷ blocks)) (sym created.same_heap) g.two.whole in
      let off : g.one.c ≢ g.two.c =
        λ z. absurd (ground (arith, ap (λ c. has c blocks) z, whole.tiles.used_distinct.0)) in
      let off_ring : (a : ℕ) → has p (q a) ≡ false = λ a.
        subst (λ t. has t (q a) ≡ false) (sym created.returns) (apart g.one.c a g.one.listed) in
      let (s2, ran2, d) =
        task_delete-Deleted s' p g.one.c g.two.c k.rings whole (λ z. ni (z ∙ k.current.1))
          (λ z. nc (z ∙ k.current.0)) (inl (rw k.state refl))
          (subst (λ b. b < num_priorities) (sym k.bucket_set) (prio_bucket_of-lt priority))
          created.returns k.base (ground arith) (ground arith) off in
      (
        s2,
        d.free,
        ran2,
        subst (Ready s2.kernel)
            (dequeue-enqueue q (prio_bucket_of priority) p (off_ring (prio_bucket_of priority)))
            (subst (λ b. Ready s2.kernel (dequeue (enqueue q (prio_bucket_of priority) p) b p))
              k.bucket_set d.rings),
        d.registry ∙ ap (erase p) k.registry ∙ erase-snoc p s.kernel.task_registry new,
        subst (λ v. IsHeap s2.heap d.free v) (both_erased g.one.c g.two.c us) d.heap,
      )
