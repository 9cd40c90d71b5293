-- ===== src/Mutex/Inherit.antt =====
-- _min_wait_priority_value and _apply_pi: the owner of a mutex inherits the priority of its waiters.
use microkernel_rtos.Common.{
  ℕ, zero, suc, ◌≤◌, ◌<◌, ◌≡◌, ◌≢◌, refl, List, [], ◌∷◌, Bool, true, false, ◌&&◌, not, some, ◌==◌,
  ltb, if◌then◌else◌, has, length, arith, subst, ==-false, ==-true, Bool-cases, inl, inr,
}
use microkernel_rtos.Links.{Ptr, null, update, update-at, Chain}
use microkernel_rtos.Kernel.{
  Kernel, TaskState, ready, running, blocked, suspended, terminated, is_ready, num_priorities,
  walk_fuel,
}
use microkernel_rtos.Scheduler.Invariant.{Queues, Rings, Ready, relink}
use microkernel_rtos.Scheduler.Insert.{enqueue}
use microkernel_rtos.Scheduler.Remove.{dequeue}
use microkernel_rtos.Waiting.Chains.{IsWaiting}
use microkernel_rtos.Mutex.{prio_bucket_of, min_walk, min_wait_priority_value, boost}
use microkernel_rtos.Mutex.Priority.{
  prioritised, set_priority-off_ring, set_priority-same_bucket, set_priority-Ready,
}

-- The least of `n` and the priority values of `ts`.
abbrev pub least : (Ptr → ℕ) → ℕ → List Ptr → ℕ
least prio n [] = n
least prio n (x ∷ xs) = least prio (if ltb (prio x) n then prio x else n) xs

pub least-le_first : (prio : Ptr → ℕ) (n : ℕ) (xs : List Ptr) → least prio n xs ≤ n
least-le_first prio n [] = omega arith
least-le_first prio n (x ∷ xs) =
    let r = least-le_first prio (if ltb (prio x) n then prio x else n) xs in ground arith

pub least-le :
    (prio : Ptr → ℕ) (n : ℕ) (xs : List Ptr) (p : Ptr) → has p xs ≡ true → least prio n xs ≤ prio p
least-le prio n [] p i = absurd (ground arith)
least-le prio n (x ∷ xs) p i = elim (Bool-cases (p == x)) [
  | inl here ↦
      let e : p ≡ x = ==-true p x here in
      let r = least-le_first prio (if ltb (prio x) n then prio x else n) xs in rw e (ground arith)
  | inr away ↦ least-le prio (if ltb (prio x) n then prio x else n) xs p (ground arith)
]

min_walk-least :
    (nx : Ptr → Ptr) (prio : Ptr → ℕ) (fuel n : ℕ) (w : Ptr) (xs : List Ptr)
    → Chain nx w xs null
    → length xs < fuel
    → min_walk fuel nx prio w n ≡ some (least prio n xs)
unfolding min_walk
min_walk-least nx prio zero n w xs c h = absurd (omega arith)
min_walk-least nx prio (suc fuel) n w [] c h = rw c refl
min_walk-least nx prio (suc fuel) n w (x ∷ xs) (e, ne, c) h =
    rw (e, ==-false ne)
      (min_walk-least nx prio fuel (if ltb (prio x) n then prio x else n) (nx x) xs c (omega arith))

-- The least priority value of the waiting tasks.
abbrev pub least_of : (Ptr → ℕ) → List Ptr → ℕ
least_of prio [] = 255
least_of prio (x ∷ xs) = least prio (prio x) xs

pub least_of-le :
    (prio : Ptr → ℕ) (xs : List Ptr) (p : Ptr) → has p xs ≡ true → least_of prio xs ≤ prio p
least_of-le prio [] p i = absurd (ground arith)
least_of-le prio (x ∷ xs) p i = elim (Bool-cases (p == x)) [
  | inl here ↦ let e : p ≡ x = ==-true p x here in rw e (least-le_first prio (prio x) xs)
  | inr away ↦ least-le prio (prio x) xs p (ground arith)
]

pub min_wait_priority_value-least :
    (k : Kernel) (m : Ptr) (xs : List Ptr)
    → IsWaiting k.mutex_wait_next (k.mutexes m).waiters xs
    → min_wait_priority_value k m ≡ some (least_of k.priority xs)
unfolding min_wait_priority_value
min_wait_priority_value-least k m [] i =
    let e : (k.mutexes m).waiters.wait_head ≡ null = i.chain in rw e refl
min_wait_priority_value-least k m (x ∷ xs) i =
    let e : (k.mutexes m).waiters.wait_head ≡ x = i.chain.0 in
    rw (e, ==-false i.chain.1)
      (min_walk-least k.mutex_wait_next k.priority walk_fuel (k.priority x) (k.mutex_wait_next x) xs
        i.chain.2 (omega (arith, i.short)))

-- Whether raising the priority of `t` to `hp` moves it to another ring.
abbrev pub moves : Kernel → Ptr → ℕ → Bool
moves k t hp =
    ltb hp (k.priority t) && (is_ready (k.state t) && not (k.prio_bucket t == prio_bucket_of hp))

-- The ready queues with `t` moved to the ring of the priority `hp`, if it has to.
abbrev pub boosted : Kernel → Queues → Ptr → ℕ → Queues
boosted k q t hp =
    if moves k t hp then enqueue (dequeue q (k.prio_bucket t) t) (prio_bucket_of hp) t else q

-- A task's new priority and bucket, and the rings.
abbrev pub Boosted : Kernel → Queues → Ptr → ℕ → Ptr → Kernel → Type 0
Boosted k q t hp p k' =
    (P : Ptr → ℕ) × (B : Ptr → ℕ) × (nx : Ptr → Ptr) × (heads : ℕ → Ptr) × (k'
      ≡ relink (record k { priority = P; prio_bucket = B }) nx heads)
    × Rings nx heads (boosted k q t hp)
    × (P t ≡ (if ltb hp (k.priority t) then hp else k.priority t))
    × (B p ≡ k.prio_bucket p)

is_ready-ready : (s : TaskState) → is_ready s ≡ true → s ≡ ready
is_ready-ready ready e = refl
is_ready-ready running e = absurd (ground arith)
is_ready-ready blocked e = absurd (ground arith)
is_ready-ready suspended e = absurd (ground arith)
is_ready-ready terminated e = absurd (ground arith)

-- The priority is raised, and with it the bucket; the rings are `nx` and `heads`.
raised :
    (k : Kernel) (q : Queues) (t : Ptr) (hp : ℕ) (p : Ptr) (nx : Ptr → Ptr) (heads : ℕ → Ptr)
    → ltb hp (k.priority t) ≡ true
    → p ≢ t
    → Rings nx heads (boosted k q t hp)
    → Boosted k q t hp p (relink (prioritised k t hp) nx heads)
raised k q t hp p nx heads above other r = (
  update k.priority t hp,
  update k.prio_bucket t (prio_bucket_of hp),
  nx,
  heads,
  refl,
  r,
  rw above (update-at k.priority t hp),
  rw (==-false other) refl,
)

stays : (k : Kernel) (q : Queues) (t : Ptr) (hp : ℕ) → moves k t hp ≡ false → q ≡ boosted k q t hp
stays k q t hp e = rw e refl

pub boost-Boosted :
    (k : Kernel) (t : Ptr) (hp : ℕ) (p : Ptr) {q : Queues}
    → Ready k q
    → t ≢ null
    → k.prio_bucket t < num_priorities
    → p ≢ t
    → (is_ready (k.state t) ≡ true → has t (q (k.prio_bucket t)) ≡ true)
    → suc (length (q (prio_bucket_of hp))) < walk_fuel
    → (k' : Kernel) × (boost k t hp ≡ some k') × Boosted k q t hp p k'
unfolding boost
boost-Boosted k t hp p {q} r ne in_range other on room = elim (Bool-cases (ltb hp (k.priority t))) [
  | inr level ↦
      rw level
        (k, refl, (k.priority, k.prio_bucket, k.next_ready, k.ready_head, refl, r, refl, refl))
  | inl above ↦ elim (Bool-cases (is_ready (k.state t))) [
    | inr off ↦
        let still : moves k t hp ≡ false = ground arith in
        (
          prioritised k t hp,
          rw above (set_priority-off_ring k t hp off),
          raised k q t hp p k.next_ready k.ready_head above other
              (subst (Rings k.next_ready k.ready_head) (stays k q t hp still) r),
        )
    | inl waits ↦ elim (Bool-cases (k.prio_bucket t == prio_bucket_of hp)) [
      | inl same ↦
          let still : moves k t hp ≡ false = ground arith in
          (
            prioritised k t hp,
            rw above (set_priority-same_bucket k t hp same),
            raised k q t hp p k.next_ready k.ready_head above other
                (subst (Rings k.next_ready k.ready_head) (stays k q t hp still) r),
          )
      | inr apart ↦
          let goes : moves k t hp ≡ true = ground arith in
          let (nx, heads, e, r') =
            set_priority-Ready k t hp r ne (is_ready-ready (k.state t) waits) (ground arith)
              in_range (on waits) room in
          (
            relink (prioritised k t hp) nx heads,
            rw above e,
            raised k q t hp p nx heads above other (rw goes r'),
          )
    ]
  ]
]
