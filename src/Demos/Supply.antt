-- ===== src/Demos/Supply.antt =====
-- Creating the tasks with enough memory for all of them.
use microkernel_rtos.Common.{
  ℕ, ◌+◌, ◌-◌, ◌≤◌, ◌<◌, ◌≡◌, ◌≢◌, inl, inr, refl, true, not, ◌&&◌, Bool, List, [], ◌∷◌, ◌++◌, some,
  ◌==◌, arith, length, sym, subst, ◌∙◌, ap, leb, length-append, append_assoc, append-nil,
}
use microkernel_rtos.Links.{Ptr, null}
use microkernel_rtos.Kernel.{max_tasks, min_stack_size, uint32_mod}
use microkernel_rtos.Heap.{Heap, header_size, total_of, heap_alloc}
use microkernel_rtos.Heap.Single.{Single, heap_alloc-granted}
use microkernel_rtos.Stack.{Image}
use microkernel_rtos.Lifecycle.{System, rounded}
use microkernel_rtos.Demos.{TaskSpec, create_or_stop, create_each}
use microkernel_rtos.Demos.Tasks.{Made, described, tasks, Populated, within}
use microkernel_rtos.Demos.Creation.{step}

-- The bytes that a task takes from the heap.
abbrev pub cost : Image → TaskSpec → ℕ
cost img t = total_of img.sizeof_tcb + total_of (rounded t.stack_bytes)

abbrev pub costs : Image → List TaskSpec → ℕ
costs img [] = 0
costs img (t ∷ ts) = cost img t + costs img ts

-- Every task has a function and a stack that is large enough.
abbrev pub proper : List TaskSpec → Bool
proper [] = true
proper (t ∷ ts) = not (t.func == null) && leb min_stack_size t.stack_bytes && proper ts

module _ (img : Image) (idle : Ptr) (some_bytes : 0 < img.sizeof_tcb)
    (tcb_fits : img.sizeof_tcb + 15 < uint32_mod) (trap : img.task_exit_trap < uint32_mod) where
  module _ (s : System) (made : Made) (t : TaskSpec) (c : Ptr) {room : ℕ}
      (one : Single s.heap c room) (large : cost img t + (header_size + 8) ≤ room)
      (enough : min_stack_size ≤ t.stack_bytes) (size : t.stack_bytes + 22 < uint32_mod) where
    -- The two allocations for the task succeed.
    both_granted :
        {h1 h2 : Heap} {p q : Ptr}
        → heap_alloc s.heap img.sizeof_tcb ≡ some (p, h1)
        → heap_alloc h1 (rounded t.stack_bytes) ≡ some (q, h2)
        → (p ≢ null)
          × (q ≢ null)
          × Single h2
              (c + total_of img.sizeof_tcb + total_of (rounded t.stack_bytes))
              (room - total_of img.sizeof_tcb - total_of (rounded t.stack_bytes))
    both_granted {h1} {h2} {p} {q} first second =
        let (ne, s1) =
          heap_alloc-granted s.heap h1 img.sizeof_tcb c p one some_bytes tcb_fits
            (omega (arith, large)) first in
        let (ne', s2) =
          heap_alloc-granted h1 h2 (rounded t.stack_bytes) (c + total_of img.sizeof_tcb) q s1
            (omega (arith, enough, size)) (omega (arith, size)) (omega (arith, large)) second in
        (ne, ne', s2)

    abbrev left : ℕ
    left = room - total_of img.sizeof_tcb - total_of (rounded t.stack_bytes)

    abbrev behind : Ptr
    behind = c + total_of img.sizeof_tcb + total_of (rounded t.stack_bytes)

    -- The task is created.
    supplied :
        Populated s idle made
        → t.func ≢ null
        → t.func < uint32_mod
        → length (tasks idle made) < max_tasks
        → (a : Ptr) × (s' : System) × (create_or_stop img s t ≡ some s')
          × Populated s' idle ((a, t) ∷ made)
          × Single s'.heap behind left
    supplied p ne entry fewer =
        elim (step img idle some_bytes tcb_fits trap s made t p entry size) [
          | inl (s', ran, failed) ↦ elim failed.why [
            | inl no_function ↦ absurd (ne no_function)
            | inr (inl small) ↦ absurd (omega (arith, small, enough))
            | inr (inr (inl full)) ↦
                absurd (omega (arith, full, fewer, ap (length {A = Ptr}) p.registry))
            | inr (inr (inr f)) ↦
                let g = both_granted f.first f.second in absurd (ground (arith, f.failed, g.0, g.1))
          ]
          | inr (a, s', ran, n, p') ↦ (
            a,
            s',
            ran,
            p',
            subst (λ h. Single h behind left) (sym n.same_heap)
                (both_granted n.memory.one.ran n.memory.two.ran).2,
          )
        ]

  -- Every task of the list is created.
  abbrev pub AllCreated : System → Made → List TaskSpec → Type 0
  AllCreated s made ts =
      (made' : Made) × (s' : System) × (create_each img s ts ≡ some s')
      × (described made' ≡ described made ++ ts)
      × Populated s' idle made'

  one_first :
      (s s' : System) (made : Made) (a : Ptr) (t : TaskSpec) (ts : List TaskSpec)
      → create_or_stop img s t ≡ some s'
      → AllCreated s' ((a, t) ∷ made) ts
      → AllCreated s made (t ∷ ts)
  unfolding create_each
  one_first s s' made a t ts ran (made', u, ran', all, p) =
      (made', u, rw ran ran', all ∙ append_assoc (described made) (t ∷ []) ts, p)

  -- There is memory for all of them.
  pub create_each-Supplied :
      (ts : List TaskSpec) (s : System) (made : Made) (c : Ptr) {room : ℕ}
      → Populated s idle made
      → Single s.heap c room
      → costs img ts + (header_size + 8) ≤ room
      → length (tasks idle made) + length ts ≤ max_tasks
      → within ts ≡ true
      → proper ts ≡ true
      → AllCreated s made ts
  unfolding create_each
  create_each-Supplied [] s made c p one large few w pr =
      (made, s, refl, sym (append-nil (described made)), p)
  create_each-Supplied (t ∷ ts) s made c p one large few w pr =
      let (a, s', ran, p', one') =
        supplied s made t c one (omega (arith, large)) (ground arith) (ground arith) p
          (ground arith) (ground arith) (omega (arith, few)) in
      one_first s s' made a t ts ran (
        create_each-Supplied ts s' ((a, t) ∷ made) _ p' one' (omega (arith, large))
          (omega (arith, few, length-append (tasks idle made) (a ∷ []))) (ground arith)
          (ground arith))
