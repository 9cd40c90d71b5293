-- ===== src/Fixtures/Locking.antt =====
-- The theorems on runs of a mutex: task 10 locks mutex 700, and task 20 waits for it; or task 10 unlocks
-- it again.
use microkernel_rtos.Common.{
  ◌≡◌, refl, List, [], ◌∷◌, true, false, some, ◌==◌, if◌then◌else◌, has, arith,
}
use microkernel_rtos.Links.{Ptr, update}
use microkernel_rtos.Kernel.{Kernel, ok, ready, running, is_blocked}
use microkernel_rtos.Waiting.Chains.{IsWaiting}
use microkernel_rtos.Blocking.{returned, waiting}
use microkernel_rtos.Mutex.{
  set_mutex, set_blocked_on, mutex_init, mutex_lock, lock_round, mutex_unlock,
}
use microkernel_rtos.Mutex.Lock.{mutex_lock-waits}
use microkernel_rtos.Mutex.Unlock.{restored, mutex_unlock-frees}
use microkernel_rtos.Mutex.Guarded.{entered}
use microkernel_rtos.Mutex.Runs.{
  Reached, begins, goes_on, locks, unlocks, other, Reached-exclusive, Reached-nobody_waits,
}
use microkernel_rtos.Fixtures.{demo, demo-Ready, free_mutex}

abbrev made : Kernel
made = record demo { mutexes = update demo.mutexes 700 free_mutex }

made-mutex_init : mutex_init demo 700 ≡ (ok, made)
unfolding mutex_init
made-mutex_init = refl

abbrev locked_once : Kernel
locked_once =
    set_blocked_on (set_mutex made 700 (record free_mutex { locked = true; owner = 10 })) 10 0

locks_10 : mutex_lock made 700 0 ≡ some (returned ok, locked_once)
unfolding mutex_lock lock_round
locks_10 = refl

-- Task 20 has the processor.
abbrev switched : Kernel
switched = record locked_once {
  current_tcb = 20;
  state = λ p. if p == 10 then ready else if p == 20 then running else demo.state p;
}

abbrev tasks : List Ptr
tasks = 10 ∷ 20 ∷ 30 ∷ 90 ∷ []

inside_10 : Reached 700 tasks made switched (entered (λ t. false) 10 (returned ok))
inside_10 =
    goes_on locked_once switched _ _
      (goes_on made locked_once _ _ begins
        (locks made locked_once _ 0 (returned ok) refl (omega arith) refl locks_10))
      (other locked_once switched _
        (record { mutex = refl; waiting = λ t b o. absurd (ground arith) }))

Reached-exclusive_example :
    (k : Kernel) × (xs : List Ptr) × (mutex_lock switched 700 7 ≡ some (waiting, k))
    × IsWaiting k.mutex_wait_next (k.mutexes 700).waiters xs
    × ((k.mutexes 700).owner ≡ 10)
    × (has 20 xs ≡ true → (is_blocked (k.state 20) ≡ true) × (k.block_object 20 ≡ 700))
unfolding microkernel_rtos.Mutex.prio_bucket_of entered
Reached-exclusive_example =
    let (k', e, held, waits, inherits, least, r, off, reason, obj, on) =
      mutex_lock-waits switched 700 7 20 {xs = []} demo-Ready
        (record { chain = refl; tail = refl; distinct = tt; short = omega arith }) (omega arith)
        (omega arith) (omega arith) (omega arith) refl refl (omega arith) (omega arith)
        (omega arith) (λ i. refl) (omega arith) refl in
    let reached = goes_on switched k' _ _ inside_10 (
      locks switched k' (entered (λ t. false) 10 (returned ok)) 7 waiting refl (omega arith) refl
        e) in
    let (xs, listed, same, locked, own, out, among) =
      Reached-exclusive 700 tasks demo made k' _ 10 10 20 (omega arith) (omega arith)
        made-mutex_init reached refl refl in
    (k', xs, e, listed, own, among)

abbrev unlocked_again : Kernel
unlocked_again = record (set_mutex (restored locked_once) 700 free_mutex) { pendsv = true }

unlocks_10 : mutex_unlock locked_once 700 ≡ some (ok, unlocked_again)
unlocks_10 =
    mutex_unlock-frees locked_once 700
      (record { chain = refl; tail = refl; distinct = tt; short = omega arith }) (omega arith)
      (omega arith) refl refl refl

Reached-nobody_waits_example :
    IsWaiting unlocked_again.mutex_wait_next (unlocked_again.mutexes 700).waiters []
unfolding microkernel_rtos.Mutex.prio_bucket_of
Reached-nobody_waits_example =
    Reached-nobody_waits 700 tasks demo made unlocked_again _ (omega arith) (omega arith)
      made-mutex_init
      (goes_on locked_once unlocked_again _ _
        (goes_on made locked_once _ _ begins
          (locks made locked_once _ 0 (returned ok) refl (omega arith) refl locks_10))
        (unlocks locked_once unlocked_again _ ok unlocks_10))
      refl
