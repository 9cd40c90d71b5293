-- ===== src/Fixtures/Semaphores.antt =====
-- The semaphore's theorems on the system of the fixtures.
use microkernel_rtos.Common.{◌≡◌, refl, [], ◌∷◌, some, arith}
use microkernel_rtos.Kernel.{Kernel, ok, ready}
use microkernel_rtos.Semaphore.{semaphore_post}
use microkernel_rtos.Semaphore.Waits.{IsValid, semaphore_post-wakes}
use microkernel_rtos.Kernel.{wait_forever, block_semaphore, blocked}
use microkernel_rtos.Blocking.{rtos_block_current, waiting}
use microkernel_rtos.Semaphore.{wait_enqueue}
use microkernel_rtos.Semaphore.Waits.{count_of}
use microkernel_rtos.Semaphore.LostWake.{semaphore_post-loses_wake}
use microkernel_rtos.Fixtures.{nobody}
use microkernel_rtos.Common.{List, Option, none, not, has}
use microkernel_rtos.Links.{Ptr}
use microkernel_rtos.Kernel.{Status, is_blocked}
use microkernel_rtos.Scheduler.{
  scheduler_add_task, ring_insert, ring_tail, mark_ready, scheduler_mark_reschedule,
  scheduler_get_next,
}
use microkernel_rtos.Scheduler.Invariant.{Queues, Ready}
use microkernel_rtos.Waiting.{tcb_pop_head, settle_tail}
use microkernel_rtos.Blocking.{clear_block, wake_task}
use microkernel_rtos.Semaphore.{wait_pop_head, wake_if}
use microkernel_rtos.Semaphore.Shared.{Shared}
use microkernel_rtos.Semaphore.Calls.{Continues}
use microkernel_rtos.Semaphore.Runs.{Reached, begins, goes_on, posts, Reached-each_task}
use microkernel_rtos.Fixtures.{demo, demo_queues, demo-Ready, demo-MayRun, contended, nobody}

demo-IsValid : IsValid demo 500 (30 ∷ [])
demo-IsValid = record {
  within = omega arith;
  bounded = omega arith;
  waits = record {
    chain = ground arith;
    tail = refl;
    distinct = ground arith;
    short = omega arith;
  };
}

-- Two units, and nobody waits.
abbrev available : Kernel
available = record demo { semaphores = λ p. record contended { count = 2; waiters = nobody } }

available-IsValid : IsValid available 500 []
available-IsValid = record {
  within = omega arith;
  bounded = omega arith;
  waits = record { chain = refl; tail = refl; distinct = tt; short = omega arith };
}

semaphore_post-wakes_example :
    (k' : Kernel) × (semaphore_post demo 500 ≡ some (ok, k'))
    × IsValid k' 500 []
    × (k'.state 30 ≡ ready)
semaphore_post-wakes_example =
    let (k', e, v, c, r, now, st, pend, moved) =
      semaphore_post-wakes demo 500 demo-Ready demo-IsValid demo-MayRun (omega arith)
        (omega arith) in
    (k', e, v, now)

-- Task 30 waits, the others are on their rings.
demo-Shared : Shared 500 (90 ∷ 10 ∷ 20 ∷ 30 ∷ []) demo demo_queues (30 ∷ [])
demo-Shared = record {
  rings = demo-Ready;
  valid = demo-IsValid;
  waits_known = λ t i. ground arith;
  on_ring = λ t a. ground arith;
  state = λ t i. ground arith;
  in_range = λ t i. ground arith;
  current = refl;
  idle = refl;
  idle_runs = refl;
}

abbrev kernel_of : Option (Status × Kernel) → Kernel
kernel_of none = demo
kernel_of (some (st, k)) = k

-- The kernel when task 10 has posted.
abbrev posted : Kernel
posted = kernel_of (semaphore_post demo 500)

one_post : Reached 500 (90 ∷ 10 ∷ 20 ∷ 30 ∷ []) demo posted
unfolding semaphore_post wait_pop_head tcb_pop_head settle_tail wake_if wake_task clear_block
    scheduler_add_task ring_insert ring_tail mark_ready scheduler_mark_reschedule
one_post = goes_on demo posted begins (posts demo posted ok refl)

Reached-each_task_example :
    (q : Queues) × (xs : List Ptr) × Ready posted q
    × IsValid posted 500 xs
    × (has 30 (q (posted.prio_bucket 30)) ≡ not (is_blocked (posted.state 30)))
    × (has 30 xs ≡ is_blocked (posted.state 30))
    × Continues 500 (90 ∷ 10 ∷ 20 ∷ 30 ∷ []) (semaphore_post posted 500)
    × Continues 500 (90 ∷ 10 ∷ 20 ∷ 30 ∷ []) (scheduler_get_next posted)
Reached-each_task_example =
    Reached-each_task 500 (90 ∷ 10 ∷ 20 ∷ 30 ∷ []) (omega arith) (omega arith) refl demo posted 30
      demo-Shared one_post refl

-- Task 20, the last of its ring, has the processor; nobody waits for a semaphore.
abbrev unnoticed : Kernel
unnoticed = record demo {
  current_tcb = 20;
  semaphores = λ p. record { count = 0; max_count = 3; waiters = nobody };
}

semaphore_post-loses_wake_example :
    (k1 : Kernel) × (k2 : Kernel) × (k3 : Kernel) × (st : Status) × (semaphore_post
        (wait_enqueue unnoticed 500 20)
        500
      ≡ some (ok, k1))
    × (rtos_block_current k1 wait_forever block_semaphore 500 ≡ some (waiting, k2))
    × (count_of k2 500 ≡ 1)
    × (semaphore_post k2 500 ≡ some (st, k3))
    × (k3.state 20 ≡ blocked)
semaphore_post-loses_wake_example =
    let (k1, k2, k3, st, ran, ran2, count, v, r, off, wake, posted, still) =
      semaphore_post-loses_wake unnoticed 500 10 (20 ∷ []) demo-Ready
        (record {
          within = omega arith;
          bounded = omega arith;
          waits = record { chain = refl; tail = refl; distinct = tt; short = omega arith };
        })
        (omega arith) (omega arith) (omega arith) refl refl refl (omega arith) in
    (k1, k2, k3, st, ran, ran2, count, posted, still)
