-- ===== src/Heap/Calls.antt =====
-- heap_alloc and heap_free.
use microkernel_rtos.Common.{
  ℕ, ◌+◌, ◌-◌, ◌%◌, ◌≤◌, ◌<◌, ◌≡◌, refl, List, ◌∷◌, true, false, ◌||◌, Option, none, some, ◌==◌,
  leb, not, has, erase, arith, subst, ◌∙◌, ap, ==-false, Bool-cases, inl, inr,
}
use microkernel_rtos.Links.{Ptr, null, pred_of}
use microkernel_rtos.Kernel.{uint32_mod}
use microkernel_rtos.Heap.{
  Heap, heap_pool_size, header_size, heap_fuel, total_of, find_fit, remove_from_list, prepend_free,
  split_block, coalesce_forward, take_block, take_found, heap_alloc, heap_free,
}
use microkernel_rtos.Heap.Walks.{first_fit, first_fit-has, placed, find_fit-first}
use microkernel_rtos.Heap.Blocks.{
  IsHeap, Kept, few_blocks, coalesce_forward-IsHeap, remove_from_list-IsHeap, prepend_free-IsHeap,
  split_block-IsHeap,
}
use microkernel_rtos.Heap.Sizes.{
  remove_from_list-sizes, split_block-sizes, split_block-size_of, split_block-pool,
  prepend_free-sizes, prepend_free-pool,
}

-- A size that leaves room for rounding and the header does not wrap.
pub total_of_bounds :
    (size : ℕ)
    → 0 < size
    → size + 15 < uint32_mod
    → (size + header_size ≤ total_of size) × (header_size + 8 ≤ total_of size)
unfolding total_of
total_of_bounds size some_bytes fits = omega arith

-- The search of heap_alloc.
pub searched :
    (h : Heap) (fs us : List Ptr) (n : ℕ)
    → IsHeap h fs us
    → find_fit heap_fuel h n null h.free_list ≡ some (placed null fs (first_fit h.block_size n fs))
searched h fs us n i =
    find_fit-first h n heap_fuel null h.free_list fs i.chain i.tiles.free_distinct
      (few_blocks h.block_size h.heap_pool fs us i.tiles)

-- On an initialised heap, heap_alloc of some bytes is its search and what follows it.
pub alloc_steps :
    (h : Heap) (size : ℕ) (found : Option (Ptr × Ptr))
    → h.heap_ready ≡ true
    → 0 < size
    → find_fit heap_fuel h (total_of size) null h.free_list ≡ some found
    → heap_alloc h size ≡ take_found h (total_of size) found
unfolding heap_alloc
alloc_steps h size found ready positive search =
    let go : (not h.heap_ready || (size == 0)) ≡ false = ground arith in rw go (rw search refl)

-- heap_alloc where no free block is large enough returns NULL and changes nothing.
pub heap_alloc-full :
    (h : Heap) (size : ℕ) {fs us : List Ptr}
    → IsHeap h fs us
    → 0 < size
    → first_fit h.block_size (total_of size) fs ≡ none
    → heap_alloc h size ≡ some (null, h)
unfolding take_found
heap_alloc-full h size {fs} {us} i positive full =
    let n = total_of size in
    alloc_steps h size none i.ready positive
      (searched h fs us n i ∙ ap (λ o. some (placed null fs o)) full)

-- A block on the list is not one that is off it.
pub apart_from : (us : List Ptr) (b c : Ptr) → has b us ≡ true → has c us ≡ false → (b == c) ≡ false
apart_from us b c on off =
    ==-false λ (e : b ≡ c). absurd (ground (arith, subst (λ v. has v us ≡ true) e on))

-- What a call that takes the free block `c` for `n` bytes leaves.
pub record Taken (h h' : Heap) (fs' us : List Ptr) (c : Ptr) (n : ℕ) : Type 0 where
  pub heap : IsHeap h' fs' (c ∷ us)
  pub room : n ≤ h'.block_size c
  pub kept : Kept h h' us

module _ (h : Heap) (n : ℕ) (c : Ptr) {fs us : List Ptr} (i : IsHeap h fs us) (on : has c fs ≡ true)
    (low : header_size + 8 ≤ n) (high : n ≤ h.block_size c) where
  abbrev unlinked : Heap
  unlinked = remove_from_list h c (pred_of c null fs)

  removed : IsHeap unlinked (erase c fs) (c ∷ us)
  removed = remove_from_list-IsHeap h fs us c i on

  same_sizes : (b : Ptr) → unlinked.block_size b ≡ h.block_size b
  same_sizes b = ap (λ (f : Ptr → ℕ). f b) ((remove_from_list-sizes h c (pred_of c null fs)).0)

  same_pool : unlinked.heap_pool ≡ h.heap_pool
  same_pool = (remove_from_list-sizes h c (pred_of c null fs)).1

  take_whole : Taken h unlinked (erase c fs) us c n
  take_whole = record {
    heap = removed;
    room = omega (arith, same_sizes c, high);
    kept = record { sizes = λ b j. same_sizes b; same_pool = same_pool };
  }

  take_part :
      n + (header_size + 8) ≤ h.block_size c
      → (h' : Heap) × (fs' : List Ptr) × (coalesce_forward (split_block unlinked c n) ≡ some h')
        × Taken h h' fs' us c n
  take_part large =
      let on_list : has c (c ∷ us) ≡ true = ground arith in
      let cut =
        split_block-IsHeap unlinked (erase c fs) (c ∷ us) c n removed on_list low
          (omega (arith, same_sizes c, large)) in
      let (h', fs', ran, whole, k) =
        coalesce_forward-IsHeap (split_block unlinked c n) ((c + n) ∷ erase c fs) (c ∷ us) cut in
      let out : has c us ≡ false = removed.tiles.used_distinct.0 in
      let fresh : has (c + n) us ≡ false = ground (arith, cut.tiles.separate (c + n)) in
      (
        h',
        fs',
        ran,
        record {
          heap = whole;
          room = omega (arith, k.sizes c on_list, split_block-size_of unlinked c n);
          kept = record {
            sizes = λ b j.
                k.sizes b (ground arith)
                ∙ split_block-sizes unlinked c n b (apart_from us b c j out)
                    (apart_from us b (c + n) j fresh)
                ∙ same_sizes b;
            same_pool = k.same_pool ∙ split_block-pool unlinked c n ∙ same_pool;
          };
        },
      )

  take_block-Taken :
      (h' : Heap) × (fs' : List Ptr) × (take_block h n (pred_of c null fs) c ≡ some h')
      × Taken h h' fs' us c n
  unfolding take_block
  take_block-Taken = elim (Bool-cases (leb (header_size + 8) (h.block_size c - n))) [
    | inl rest ↦ let (h', fs', ran, t) = take_part (ground arith) in (h', fs', rw rest ran, t)
    | inr tight ↦ (unlinked, erase c fs, rw tight refl, take_whole)
  ]

-- For a request of 1 to 0xfffffff0 bytes on a well-formed heap, where some free block has room for
-- the rounded size and the header, heap_alloc returns the memory behind the header of the first
-- such block: that block is used and large enough, the blocks tile the pool again, and the other
-- used blocks keep their sizes.
pub heap_alloc-Taken :
    (h : Heap) (size : ℕ) (c : Ptr) {fs us : List Ptr}
    → IsHeap h fs us
    → 0 < size
    → size + 15 < uint32_mod
    → first_fit h.block_size (total_of size) fs ≡ some c
    → (h' : Heap) × (fs' : List Ptr) × (heap_alloc h size ≡ some (c + header_size, h'))
      × Taken h h' fs' us c (total_of size)
unfolding take_found
heap_alloc-Taken h size c {fs} {us} i positive small found =
    let n = total_of size in
    let on = first_fit-has h.block_size n fs c found in
    let b = total_of_bounds size positive small in
    let (h', fs', ran, t) = take_block-Taken h n c i on.0 b.1 on.1 in
    let steps =
      alloc_steps h size (some (pred_of c null fs, c)) i.ready positive
        (searched h fs us n i ∙ ap (λ o. some (placed null fs o)) found) in
    (h', fs', steps ∙ rw ran refl, t)

-- The pointer that heap_alloc returns leads heap_free back to the block.
back_to_block :
    (lo b : ℕ)
    → lo ≤ b
    → b + (header_size + 8) ≤ lo + heap_pool_size
    → lo + heap_pool_size ≤ uint32_mod
    → (b + header_size + uint32_mod - header_size) % uint32_mod ≡ b
back_to_block lo b low high fits = omega arith

pub heap_free-null : (h : Heap) → heap_free h null ≡ some h
unfolding heap_free
heap_free-null h = refl

-- heap_free of a used block makes it free, with the heap well formed.
pub heap_free-IsHeap :
    (h : Heap) (b : Ptr) {fs us : List Ptr}
    → IsHeap h fs us
    → has b us ≡ true
    → (h' : Heap) × (fs' : List Ptr) × (heap_free h (b + header_size) ≡ some h')
      × IsHeap h' fs' (erase b us)
      × Kept h h' (erase b us)
unfolding heap_free
heap_free-IsHeap h b {fs} {us} i on =
    let here : (has b fs || has b us) ≡ true = ground arith in
    let size = i.tiles.sized b here in
    let back =
      back_to_block h.heap_pool b (i.tiles.above b here) (omega (arith, size, i.tiles.below b here))
        i.fits in
    let go : ((b + header_size == null) || not h.heap_ready) ≡ false = ground (arith, i.ready) in
    let (h', fs', ran, whole, k) =
      coalesce_forward-IsHeap (prepend_free h b) (b ∷ fs) (erase b us)
        (prepend_free-IsHeap h fs us b i on) in
    (
      h',
      fs',
      rw (go, back) ran,
      whole,
      record {
        sizes = λ a j. k.sizes a j ∙ prepend_free-sizes h b a;
        same_pool = k.same_pool ∙ prepend_free-pool h b;
      },
    )
