-- ===== src/Heap/Sizes.antt =====
-- What the writes of heap.c leave of the sizes of the blocks and of the pool.
use microkernel_rtos.Common.{◌+◌, ◌≡◌, refl, false, ◌==◌, arith, Bool-cases, inl, inr}
use microkernel_rtos.Links.{Ptr, null}
use microkernel_rtos.Heap.{Heap, remove_from_list, prepend_free, split_block}

pub remove_from_list-sizes :
    (h : Heap) (c prev : Ptr)
    → ((remove_from_list h c prev).block_size ≡ h.block_size)
      × ((remove_from_list h c prev).heap_pool ≡ h.heap_pool)
unfolding remove_from_list
remove_from_list-sizes h c prev = elim (Bool-cases (prev == null)) [
  | inl front ↦ rw front (refl, refl)
  | inr inner ↦ rw inner (refl, refl)
]

-- Cutting a block changes the sizes of its two parts only.
pub split_block-sizes :
    (h : Heap) (c m b : Ptr)
    → (b == c) ≡ false
    → (b == c + m) ≡ false
    → (split_block h c m).block_size b ≡ h.block_size b
unfolding split_block prepend_free
split_block-sizes h c m b off off' = rw (off, off') refl

pub split_block-size_of : (h : Heap) (c m : Ptr) → (split_block h c m).block_size c ≡ m
unfolding split_block prepend_free
split_block-size_of h c m = ground arith

pub split_block-pool : (h : Heap) (c m : Ptr) → (split_block h c m).heap_pool ≡ h.heap_pool
unfolding split_block prepend_free
split_block-pool h c m = refl

pub prepend_free-sizes : (h : Heap) (b a : Ptr) → (prepend_free h b).block_size a ≡ h.block_size a
unfolding prepend_free
prepend_free-sizes h b a = refl

pub prepend_free-pool : (h : Heap) (b : Ptr) → (prepend_free h b).heap_pool ≡ h.heap_pool
unfolding prepend_free
prepend_free-pool h b = refl
