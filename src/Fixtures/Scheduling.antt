-- ===== src/Fixtures/Scheduling.antt =====
-- The scheduler's theorems on the system of the fixtures.
use microkernel_rtos.Common.{ℕ, ◌≡◌, refl, [], ◌∷◌, some, arith}
use microkernel_rtos.Links.{Ptr}
use microkernel_rtos.Kernel.{Kernel, ok}
use microkernel_rtos.Scheduler.{
  scheduler_add_task, scheduler_remove_task, scheduler_get_next, mark_ready,
}
use microkernel_rtos.Scheduler.Invariant.{Rings, Ready, relink}
use microkernel_rtos.Scheduler.Insert.{enqueue, scheduler_add_task-Ready}
use microkernel_rtos.Scheduler.Remove.{dequeue, scheduler_remove_task-Ready}
use microkernel_rtos.Scheduler.Dispatch.{Highest, scheduler_get_next-Highest}
use microkernel_rtos.Scheduler.Progress.{
  scheduler_get_next-total, dispatches, dispatches-round_robin,
}
use microkernel_rtos.Fixtures.{demo, demo_queues, demo-Ready}

demo_top : Highest demo_queues 1 10 (20 ∷ [])
demo_top = record { in_range = omega arith; holds = refl; above = λ a h. ground arith }

scheduler_add_task-Ready_example :
    (nx : Ptr → Ptr) × (heads : ℕ → Ptr) × (scheduler_add_task demo 40
      ≡ some (ok, mark_ready (relink demo nx heads) 40))
    × Rings nx heads (enqueue demo_queues 1 40)
scheduler_add_task-Ready_example =
    scheduler_add_task-Ready demo 40 demo-Ready (omega arith) refl (omega arith) (λ a. ground arith)
      (omega arith)

scheduler_remove_task-Ready_example :
    (nx : Ptr → Ptr) × (heads : ℕ → Ptr) × (scheduler_remove_task demo 10
      ≡ some (relink demo nx heads))
    × Rings nx heads (dequeue demo_queues 1 10)
scheduler_remove_task-Ready_example =
    scheduler_remove_task-Ready demo 10 demo-Ready (omega arith) (omega arith)

scheduler_get_next-Highest_example :
    (k' : Kernel) × (scheduler_get_next demo ≡ some (10, k')) × (k'.current_tcb ≡ 10)
scheduler_get_next-Highest_example =
    let (k', e, r, c, z, s, u) = scheduler_get_next-Highest demo demo-Ready demo_top in (k', e, c)

scheduler_get_next-total_example :
    (x : Ptr) × (k' : Kernel) × (scheduler_get_next demo ≡ some (x, k')) × (k'.current_tcb ≡ x)
scheduler_get_next-total_example =
    let (x, k', q', e, c, r) = scheduler_get_next-total demo demo-Ready (omega arith) in
    (x, k', e, c)

dispatches-round_robin_example :
    (k' : Kernel) × (dispatches 2 demo ≡ some (10 ∷ 20 ∷ [], k')) × Ready k' demo_queues
dispatches-round_robin_example = dispatches-round_robin demo demo-Ready demo_top
