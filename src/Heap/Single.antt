-- ===== src/Heap/Single.antt =====
-- A heap whose free memory is one block: an allocation cuts its piece off the front of it.
use microkernel_rtos.Common.{
  same_result, ℕ, suc, ◌+◌, ◌-◌, ◌≤◌, ◌<◌, ◌≡◌, ◌≢◌, refl, ◌∙◌, ap, ◌||◌, [], ◌∷◌, true, some,
  subst, sym, ◌==◌, arith, ==_refl, leb,
}
use microkernel_rtos.Links.{Ptr, null}
use microkernel_rtos.Kernel.{uint32_mod}
use microkernel_rtos.Heap.Walks.{find_fit-first}
use microkernel_rtos.Heap.Calls.{total_of_bounds, alloc_steps}
use microkernel_rtos.Heap.{
  heap_fuel, Heap, header_size, heap_pool_size, total_of, heap_init, heap_alloc, find_fit,
  take_found, take_block, remove_from_list, split_block, prepend_free, coalesce_forward,
  coalesce_walk,
}

-- The free list has the block `c` only, which has `room` bytes.
pub record Single (h : Heap) (c : Ptr) (room : ℕ) : Type 0 where
  pub ready : h.heap_ready ≡ true
  pub list : h.free_list ≡ c
  pub real : c ≢ null
  pub last : h.next_free c ≡ null
  pub size : h.block_size c ≡ room

pub heap_init-Single :
    (h : Heap) → 0 < h.heap_pool → Single (heap_init h) h.heap_pool heap_pool_size
unfolding heap_init
heap_init-Single h placed = record {
  ready = refl;
  list = refl;
  real = omega arith;
  last = ground arith;
  size = ground arith;
}

-- What is left when `n` bytes are cut off.
abbrev rest : Heap → Ptr → ℕ → Heap
rest h c n = split_block (remove_from_list h c null) c n

rest-Single :
    (h : Heap) (c n : ℕ) {room : ℕ}
    → Single h c room
    → 0 < n
    → Single (rest h c n) (c + n) (room - n)
unfolding split_block remove_from_list prepend_free
rest-Single h c n s positive = record {
  ready = s.ready;
  list = refl;
  real = omega (arith, s.real);
  last = ground (arith, s.last);
  size = ground (arith, s.size);
}

-- There is nothing behind the only block to merge it with.
coalesce_walk-alone :
    (fuel : ℕ) (h : Heap) (walk : Ptr)
    → h.next_free walk ≡ null
    → coalesce_walk (suc fuel) h walk ≡ some h
unfolding coalesce_walk
coalesce_walk-alone fuel h walk alone =
    let stop : ((walk == null) || (h.next_free walk == null)) ≡ true = ground (arith, alone) in
    rw stop refl

coalesce_forward-Single :
    (h : Heap) (c : Ptr) {room : ℕ} → Single h c room → coalesce_forward h ≡ some h
unfolding coalesce_forward
coalesce_forward-Single h c s =
    coalesce_walk-alone 2048 h h.free_list (ap h.next_free s.list ∙ s.last)

heap_alloc-Single :
    (h : Heap) (size : ℕ) (c : Ptr) {room : ℕ}
    → Single h c room
    → 0 < size
    → size + 15 < uint32_mod
    → total_of size + (header_size + 8) ≤ room
    → heap_alloc h size ≡ some (c + header_size, rest h c (total_of size))
unfolding take_found take_block
heap_alloc-Single h size c {room} s positive fits large =
    let n = total_of size in
    let b = total_of_bounds size positive fits in
    let enough : leb n (h.block_size c) ≡ true = ground (arith, s.size, large) in
    let splits : leb (header_size + 8) (h.block_size c - n) ≡ true =
      ground (arith, s.size, large) in
    let found : find_fit heap_fuel h n null h.free_list ≡ some (some (null, c)) =
      find_fit-first h n heap_fuel null h.free_list (c ∷ []) (s.list, s.real, s.last) (refl, tt)
        (omega arith)
      ∙ rw enough (rw (==_refl c) refl) in
    alloc_steps h size (some (null, c)) s.ready positive found
    ∙ rw splits (
        rw (coalesce_forward-Single (rest h c n) (c + n) (rest-Single h c n s (omega (arith, b.1))))
          refl)

-- What an allocation of less than the only block leaves.
pub heap_alloc-granted :
    (h h' : Heap) (size : ℕ) (c p : Ptr) {room : ℕ}
    → Single h c room
    → 0 < size
    → size + 15 < uint32_mod
    → total_of size + (header_size + 8) ≤ room
    → heap_alloc h size ≡ some (p, h')
    → (p ≢ null) × Single h' (c + total_of size) (room - total_of size)
heap_alloc-granted h h' size c p {room} s positive fits large ran =
    let (at, left) = same_result ran (heap_alloc-Single h size c s positive fits large) in
    let b = total_of_bounds size positive fits in
    (
      λ z. absurd (omega (arith, z, at)),
      subst (λ g. Single g (c + total_of size) (room - total_of size)) (sym left)
          (rest-Single h c (total_of size) s (omega (arith, b.1))),
    )
