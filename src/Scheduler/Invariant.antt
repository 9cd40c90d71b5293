-- ===== src/Scheduler/Invariant.antt =====
-- The scheduler's invariant: the ready rings are circular lists `q 0`, …, `q 7` that share no block.
use microkernel_rtos.Common.{
  ℕ, ◌≤◌, ◌<◌, ◌≡◌, ◌≢◌, List, [], false, true, ◌==◌, has, length, arith, Bool-cases, inl, inr,
  subst,
}
use microkernel_rtos.Links.{Ptr, update}
use microkernel_rtos.Kernel.{Kernel, num_priorities, walk_fuel}
use microkernel_rtos.Scheduler.Rings.{Ring, Ring-frame}

abbrev pub Queues : Type 0
Queues = ℕ → List Ptr

pub record Rings (nx : Ptr → Ptr) (heads : ℕ → Ptr) (q : Queues) : Type 0 where
  pub rings : (b : ℕ) → Ring nx (heads b) (q b)
  pub apart : (a b : ℕ) (p : Ptr) → has p (q a) ≡ true → has p (q b) ≡ true → a ≡ b
  pub short : (b : ℕ) → length (q b) < walk_fuel
  pub bounded : (b : ℕ) → num_priorities ≤ b → q b ≡ []

-- The ready rings of `k` hold the blocks `q`.
abbrev pub Ready : Kernel → Queues → Type 0
Ready k q = Rings k.next_ready k.ready_head q

-- `k` with its ready rings linked anew.
abbrev pub relink : Kernel → (Ptr → Ptr) → (ℕ → Ptr) → Kernel
relink k nx heads = record k { next_ready = nx; ready_head = heads }

module _ {nx : Ptr → Ptr} {heads : ℕ → Ptr} {q : Queues} (r : Rings nx heads q) where
  -- A block on ring `b` is on no other ring.
  pub elsewhere : (a b : ℕ) (p : Ptr) → a ≢ b → has p (q b) ≡ true → has p (q a) ≡ false
  elsewhere a b p ne i = elim (Bool-cases (has p (q a))) [
    | inl j ↦ absurd (ne (r.apart a b p j i))
    | inr out ↦ out
  ]

  -- One ring is replaced, and the others are left alone.
  pub Rings-replace :
      (nx' : Ptr → Ptr) (heads' : ℕ → Ptr) (b : ℕ) (xs : List Ptr)
      → b < num_priorities
      → Ring nx' (heads' b) xs
      → length xs < walk_fuel
      → ((a : ℕ) → a ≢ b → heads' a ≡ heads a)
      → ((a : ℕ) (p : Ptr) → a ≢ b → has p (q a) ≡ true → nx' p ≡ nx p)
      → ((a : ℕ) (p : Ptr) → a ≢ b → has p (q a) ≡ true → has p xs ≡ false)
      → Rings nx' heads' (update q b xs)
  Rings-replace nx' heads' b xs in_range ring small same_heads same_links fresh = record {
    rings = λ a. elim (Bool-cases (a == b)) [
      | inl here ↦
          let e : b ≡ a = ground arith in rw here (subst (λ c. Ring nx' (heads' c) xs) e ring)
      | inr away ↦
          let ne : a ≢ b = ground arith in
          rw away (
            rw (same_heads a ne)
              (Ring-frame nx nx' (heads a) (q a) (λ p i. same_links a p ne i) (r.rings a)))
    ];
    apart = λ a c p i j. ground (arith, r.apart a c p, fresh a p, fresh c p);
    short = λ a. ground (arith, r.short a);
    bounded = λ a h. ground (arith, r.bounded a h);
  }
