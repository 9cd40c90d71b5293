-- ===== src/Heap/Roundtrip.antt =====
-- A block that is taken and given back, and a request whose rounded size does not fit in 32 bits.
use microkernel_rtos.Common.{
  false, leb, ◌-◌, ◌==◌, Bool-cases, ℕ, ◌+◌, ◌≤◌, ◌<◌, ◌≡◌, ◌≢◌, refl, List, [], ◌∷◌, true, some,
  has, erase, arith, sym, subst, ◌∙◌, ap, ==_refl, inl, inr,
}
use microkernel_rtos.Links.{Ptr, null, update, update-at, Chain, Chain-frame}
use microkernel_rtos.Kernel.{uint32_mod}
use microkernel_rtos.Heap.{
  Heap, header_size, heap_fuel, remove_from_list, split_block, prepend_free, coalesce_forward,
  total_of, take_block, take_found, heap_alloc, heap_free,
}
use microkernel_rtos.Heap.Tiles.{sum}
use microkernel_rtos.Heap.Walks.{first_fit, placed}
use microkernel_rtos.Heap.Blocks.{IsHeap, few_blocks}
use microkernel_rtos.Heap.Returns.{coalesce_walk-returns}
use microkernel_rtos.Heap.Calls.{
  apart_from, searched, alloc_steps, heap_alloc-Taken, heap_free-IsHeap,
}

sum-same :
    (f g : Ptr → ℕ) (xs : List Ptr)
    → ((b : Ptr) → has b xs ≡ true → f b ≡ g b)
    → sum f xs ≡ sum g xs
sum-same f g [] same = refl
sum-same f g (x ∷ xs) same =
    omega (arith, same x (ground arith), sum-same f g xs (λ b i. same b (ground arith)))

-- For a request of 1 to 0xfffffff0 bytes on a well-formed heap with a free block that has room for
-- it, memory that is handed out and freed at once is free again: the used blocks are those of
-- before, and as many bytes are free as before.
pub heap_free-heap_alloc :
    (h : Heap) (size : ℕ) (c : Ptr) {fs us : List Ptr}
    → IsHeap h fs us
    → 0 < size
    → size + 15 < uint32_mod
    → first_fit h.block_size (total_of size) fs ≡ some c
    → (h1 : Heap) × (h2 : Heap) × (fs2 : List Ptr) × (heap_alloc h size
        ≡ some (c + header_size, h1))
      × (heap_free h1 (c + header_size) ≡ some h2)
      × IsHeap h2 fs2 us
      × (sum h2.block_size fs2 ≡ sum h.block_size fs)
heap_free-heap_alloc h size c {fs} {us} i positive small found =
    let (h1, fs1, took, t) = heap_alloc-Taken h size c i positive small found in
    let (h2, fs2, back, whole, k) = heap_free-IsHeap h1 c t.heap (ground arith) in
    let first : erase c (c ∷ us) ≡ us = rw (==_refl c) refl in
    let left : IsHeap h2 fs2 us = subst (λ v. IsHeap h2 fs2 v) first whole in
    let used =
      sum-same h2.block_size h.block_size us
        (λ b j. k.sizes b (subst (λ v. has b v ≡ true) (sym first) j) ∙ t.kept.sizes b j) in
    (h1, h2, fs2, took, back, left, omega (arith, used, left.tiles.total, i.tiles.total))

-- From 0xfffffff1 bytes on, the rounded size with the header wraps to 8 bytes at most.
total_of-wraps :
    (size : ℕ) → uint32_mod ≤ size + 15 → size < uint32_mod → total_of size ≤ header_size
unfolding total_of
total_of-wraps size low high = omega arith

-- The first free block, whose head the list keeps for the piece that is cut off, is answered with.
module _ (h : Heap) (n : ℕ) (c : Ptr) {fs us : List Ptr} (i : IsHeap h (c ∷ fs) us)
    (low : n ≤ header_size) where
  -- No free block begins so closely behind another one.
  not_behind : has (c + n) fs ≡ false
  not_behind = elim (Bool-cases (has (c + n) fs)) [
    | inr off ↦ off
    | inl on ↦
        let size = i.tiles.sized c (ground arith) in
        let size' = i.tiles.sized (c + n) (ground arith) in
        elim (Bool-cases (n == 0)) [
          | inl z ↦
              let e : c + n ≡ c = ground arith in
              absurd (ground (arith, i.tiles.free_distinct.0, subst (λ b. has b fs ≡ true) e on))
          | inr nz ↦
              let sides = i.tiles.apart c (c + n) (ground arith) (ground arith) (ground arith) in
              absurd (ground (arith, sides, size, size'))
        ]
  ]

  wrapped : (h' : Heap) × (take_block h n null c ≡ some h')
  unfolding take_block coalesce_forward remove_from_list split_block prepend_free
  wrapped = elim (Bool-cases (leb (header_size + 8) (h.block_size c - n))) [
    | inr tight ↦ (remove_from_list h c null, rw tight refl)
    | inl rest ↦
        let cut = split_block (remove_from_list h c null) c n in
        let real : c + n ≢ null = omega (arith, i.chain.1) in
        let same : (a : Ptr) → has a fs ≡ true → cut.next_free a ≡ h.next_free a = λ a j. ground (
          arith,
          apart_from fs a c j i.tiles.free_distinct.0,
          apart_from fs a (c + n) j not_behind,
        ) in
        let now : cut.next_free (c + n) ≡ h.next_free c =
          update-at (update (update h.next_free c null) (c + n) null) (c + n) (h.next_free c) in
        let left : Chain cut.next_free (cut.next_free (c + n)) fs null =
          rw now (Chain-frame h.next_free cut.next_free (h.next_free c) null fs same i.chain.2) in
        let (h', ran) =
          coalesce_walk-returns cut heap_fuel (c + n) ((c + n) ∷ fs) (refl, real, left)
            (not_behind, i.tiles.free_distinct.1)
            (omega (arith, few_blocks h.block_size h.heap_pool (c ∷ fs) us i.tiles)) in
        (h', rw rest ran)
  ]

-- A request of 0xfffffff1 bytes or more, which is more than any pool has, to a well-formed heap
-- with a free block returns the memory of the first free block.
pub heap_alloc-wraps :
    (h : Heap) (size : ℕ) (c : Ptr) {fs us : List Ptr}
    → IsHeap h (c ∷ fs) us
    → uint32_mod ≤ size + 15
    → size < uint32_mod
    → (h' : Heap) × (heap_alloc h size ≡ some (c + header_size, h'))
unfolding take_found
heap_alloc-wraps h size c {fs} {us} i low high =
    let n = total_of-wraps size low high in
    let room = i.tiles.sized c (ground arith) in
    let hit : first_fit h.block_size (total_of size) (c ∷ fs) ≡ some c = ground (arith, n, room) in
    let steps = alloc_steps h size (some (null, c)) i.ready (omega arith) (
      searched h (c ∷ fs) us (total_of size) i
      ∙ ap (λ o. some (placed null (c ∷ fs) o)) hit
      ∙ rw (==_refl c) refl) in
    let (h', ran) = wrapped h (total_of size) c i n in (h', steps ∙ rw ran refl)
