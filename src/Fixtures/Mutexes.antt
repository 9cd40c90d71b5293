-- ===== src/Fixtures/Mutexes.antt =====
-- The mutex's theorems on the system of the fixtures.
use microkernel_rtos.Common.{◌≡◌, refl, [], ◌∷◌, true, some, ◌==◌, if◌then◌else◌, arith}
use microkernel_rtos.Links.{null}
use microkernel_rtos.Kernel.{Kernel, ok, ready, blocked}
use microkernel_rtos.Waiting.Chains.{IsWaiting}
use microkernel_rtos.Blocking.Rings.{MayRun}
use microkernel_rtos.Blocking.{returned, waiting}
use microkernel_rtos.Scheduler.Invariant.{Queues, Ready}
use microkernel_rtos.Scheduler.Remove.{dequeue}
use microkernel_rtos.Mutex.Inherit.{boosted}
use microkernel_rtos.Mutex.Lock.{mutex_lock-waits}
use microkernel_rtos.Mutex.{set_mutex, mutex_lock, mutex_unlock, lock_resume}
use microkernel_rtos.Mutex.Unlock.{restored, mutex_unlock-hands_over, mutex_unlock-lock_resume}
use microkernel_rtos.Kernel.{running}
use microkernel_rtos.Scheduler.{scheduler_get_next}
use microkernel_rtos.Mutex.{prio_bucket_of}
use microkernel_rtos.Task.{task_delay}
use microkernel_rtos.Task.Stranded.{mutex_unlock-strands}
use microkernel_rtos.Fixtures.{demo, demo_queues, demo-Ready, nobody}

-- Task 10 owns every mutex, at the priority 16 of task 40; tasks 30 and 40 wait, 40 after 30.
abbrev held : Kernel
held = record demo {
  priority = λ p. if p == 10 then 16 else if p == 40 then 16 else demo.priority p;
  state = λ p. if p == 40 then blocked else demo.state p;
  blocked_on_mutex = λ p. 700;
  mutex_wait_next = λ p. if p == 30 then 40 else null;
  mutexes = λ p. record {
    locked = true;
    owner = 10;
    waiters = record { wait_head = 30; wait_tail = 40 };
  };
}

held-IsWaiting : IsWaiting held.mutex_wait_next (held.mutexes 700).waiters (30 ∷ 40 ∷ [])
held-IsWaiting = record {
  chain = ground arith;
  tail = refl;
  distinct = ground arith;
  short = omega arith;
}

held-MayRun : MayRun (restored held).prio_bucket demo_queues 40
held-MayRun = record {
  ne_null = omega arith;
  in_range = omega arith;
  absent = λ a. ground arith;
  room = omega arith;
}

mutex_unlock-lock_resume_example :
    (k' : Kernel) × (mutex_unlock held 700 ≡ some (ok, k'))
    × (lock_resume k' 700 40 7 ≡ some (returned ok, k'))
unfolding microkernel_rtos.Mutex.Highest.best_of
mutex_unlock-lock_resume_example =
    mutex_unlock-lock_resume held 700 7 demo-Ready held-IsWaiting held-MayRun (omega arith)
      (omega arith) refl refl refl refl

-- Nobody waits for the mutex that task 10 owns.
abbrev uncontended : Kernel
uncontended = record held { mutexes = λ p. record { locked = true; owner = 10; waiters = nobody } }

mutex_unlock-hands_over_example :
    (k' : Kernel) × (mutex_unlock held 700 ≡ some (ok, k'))
    × ((k'.mutexes 700).owner ≡ 40)
    × IsWaiting k'.mutex_wait_next (k'.mutexes 700).waiters (30 ∷ [])
    × (k'.state 40 ≡ ready)
    × (k'.priority 10 ≡ 40)
unfolding microkernel_rtos.Mutex.Highest.best_of
mutex_unlock-hands_over_example =
    let (k', e, locked, owner, waits, among, least, r, now, off, own, wake, pend) =
      mutex_unlock-hands_over held 700 30 demo-Ready held-IsWaiting held-MayRun (omega arith)
        (omega arith) refl refl refl refl in
    (k', e, owner, waits, now, own)

-- Task 20 of bucket 2 and priority 70 owns every mutex; task 10 of bucket 1 runs.
abbrev inverted : Kernel
inverted = record demo {
  prio_bucket = λ p. if p == 90 then 7 else if p == 20 then 2 else 1;
  priority = λ p. if p == 90 then 255 else if p == 20 then 70 else 40;
  next_ready = λ p. p;
  ready_head = λ b. if b == 1 then 10 else if b == 2 then 20 else if b == 7 then 90 else null;
  mutexes = λ p. record { locked = true; owner = 20; waiters = nobody };
}

abbrev inverted_queues : Queues
inverted_queues b =
    if b == 1 then 10 ∷ [] else if b == 2 then 20 ∷ [] else if b == 7 then 90 ∷ [] else []

inverted-Ready : Ready inverted inverted_queues
inverted-Ready = record {
  rings = λ b. ground arith;
  apart = λ a b p i j. ground arith;
  short = λ b. ground arith;
  bounded = λ b h. ground arith;
}

mutex_lock-waits_example :
    (k' : Kernel) × (mutex_lock inverted 700 7 ≡ some (waiting, k'))
    × (k'.priority 20 ≡ 40)
    × Ready k' (dequeue (boosted inverted inverted_queues 20 40) 1 10)
    × (k'.state 10 ≡ blocked)
unfolding microkernel_rtos.Mutex.prio_bucket_of
mutex_lock-waits_example =
    let (k', e, held, waits, inherits, least, r, off, reason, obj, on) =
      mutex_lock-waits inverted 700 7 10 {xs = []} inverted-Ready
        (record { chain = refl; tail = refl; distinct = tt; short = omega arith }) (omega arith)
        (omega arith) (omega arith) (omega arith) refl refl (omega arith) (omega arith)
        (omega arith) (λ i. refl) (omega arith) refl in
    (k', e, inherits, r, off)

-- Task 10 owns mutex 700 and has been moved to bucket 0 while it was READY; its own bucket is 1.
abbrev inherited : Kernel
inherited = record demo {
  prio_bucket = λ p. if p == 90 then 7 else if p == 10 then 0 else 1;
  priority = λ p. if p == 10 then 16 else demo.priority p;
  next_ready = λ p. p;
  ready_head = λ b. if b == 0 then 10 else if b == 1 then 20 else if b == 7 then 90 else null;
  mutexes = λ p. record { locked = true; owner = 10; waiters = nobody };
}

abbrev three_rings : Queues
three_rings b =
    if b == 0 then 10 ∷ [] else if b == 1 then 20 ∷ [] else if b == 7 then 90 ∷ [] else []

inherited-Ready : Ready inherited three_rings
inherited-Ready = record {
  rings = λ b. ground arith;
  apart = λ a b p i j. ground arith;
  short = λ b. ground arith;
  bounded = λ b h. ground arith;
}

mutex_unlock-strands_example :
    (k1 : Kernel) × (k2 : Kernel) × (k3 : Kernel) × (mutex_unlock inherited 700 ≡ some (ok, k1))
    × (task_delay k1 5 ≡ some (waiting, k2))
    × (k2.state 10 ≡ blocked)
    × (scheduler_get_next k2 ≡ some (10, k3))
    × (k3.state 10 ≡ running)
unfolding prio_bucket_of
mutex_unlock-strands_example =
    mutex_unlock-strands inherited 700 5 inherited-Ready
      (record { chain = refl; tail = refl; distinct = tt; short = omega arith })
      (record { in_range = omega arith; holds = refl; above = λ a lt. absurd (omega arith) })
      (omega arith) (omega arith) (omega arith) refl refl refl (omega arith)
