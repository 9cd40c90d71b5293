-- ===== src/Fixtures/Heaps.antt =====
-- The allocator's theorems on a pool at address 4096 from which two blocks are taken.
use microkernel_rtos.Common.{
  ◌+◌, ◌≤◌, ◌≡◌, ◌⊎◌, refl, List, [], ◌∷◌, false, Option, none, some, arith,
}
use microkernel_rtos.Links.{Ptr, null, update}
use microkernel_rtos.Heap.{
  Heap, heap_init, heap_alloc, heap_free, total_of, find_fit, take_block, take_found, split_block,
  remove_from_list, prepend_free, coalesce_forward, coalesce_walk, absorb,
}
use microkernel_rtos.Heap.Tiles.{sum}
use microkernel_rtos.Heap.Blocks.{IsHeap, heap_init-IsHeap}
use microkernel_rtos.Heap.Calls.{Taken, heap_alloc-Taken}
use microkernel_rtos.Heap.Reached.{Reached, started, allocated, Reached-apart}
use microkernel_rtos.Heap.Roundtrip.{heap_free-heap_alloc, heap_alloc-wraps}

abbrev pub before : Heap
before = record {
  block_size = λ a. 7;
  next_free = λ a. 7;
  heap_pool = 4096;
  free_list = null;
  heap_ready = false;
}

abbrev pub pool : Heap
pool = heap_init before

pub pool-IsHeap : IsHeap pool (4096 ∷ []) []
pool-IsHeap = heap_init-IsHeap before (omega arith) (omega arith)

heap_alloc-Taken_example :
    (h' : Heap) × (fs' : List Ptr) × (heap_alloc pool 100 ≡ some (4104, h'))
    × Taken pool h' fs' [] 4096 112
unfolding heap_init total_of
heap_alloc-Taken_example =
    heap_alloc-Taken pool 100 4096 pool-IsHeap (omega arith) (omega arith) refl

heap_free-heap_alloc_example :
    (h1 : Heap) × (h2 : Heap) × (fs2 : List Ptr) × (heap_alloc pool 100 ≡ some (4104, h1))
    × (heap_free h1 4104 ≡ some h2)
    × IsHeap h2 fs2 []
    × (sum h2.block_size fs2 ≡ sum pool.block_size (4096 ∷ []))
unfolding heap_init total_of
heap_free-heap_alloc_example =
    heap_free-heap_alloc pool 100 4096 pool-IsHeap (omega arith) (omega arith) refl

heap_alloc-wraps_example : (h' : Heap) × (heap_alloc pool 0xffff_fffa ≡ some (4104, h'))
heap_alloc-wraps_example =
    heap_alloc-wraps pool 0xffff_fffa 4096 pool-IsHeap (omega arith) (omega arith)

-- What the two calls leave.
abbrev heap_of : Option (Ptr × Heap) → Heap
heap_of none = before
heap_of (some (p, h)) = h

abbrev pool_1 : Heap
pool_1 = heap_of (heap_alloc pool 100)

abbrev pool_2 : Heap
pool_2 = heap_of (heap_alloc pool_1 40)

two_calls : Reached pool_2 (4216 ∷ 4104 ∷ []) (update (update (λ p. 0) 4104 100) 4216 40)
unfolding heap_init heap_alloc total_of find_fit take_block take_found split_block remove_from_list
    prepend_free coalesce_forward coalesce_walk absorb
two_calls =
    allocated pool_1 pool_2 (4104 ∷ []) (update (λ p. 0) 4104 100) 40 4216
      (allocated pool pool_1 [] (λ p. 0) 100 4104 (started before (omega arith) (omega arith))
        (omega arith) refl (omega arith))
      (omega arith) refl (omega arith)

Reached-apart_example :
    ((4096 + 8 ≤ 4216) × (4216 + 40 ≤ 4096 + 32768))
    × ((4096 + 8 ≤ 4104) × (4104 + 100 ≤ 4096 + 32768))
    × ((4216 + 40 + 8 ≤ 4104) ⊎ (4104 + 100 + 8 ≤ 4216))
unfolding heap_init heap_alloc total_of find_fit take_block take_found split_block remove_from_list
    prepend_free coalesce_forward coalesce_walk absorb
Reached-apart_example =
    Reached-apart pool_2 (4216 ∷ 4104 ∷ []) (update (update (λ p. 0) 4104 100) 4216 40) 4216 4104
      two_calls (ground arith) (ground arith) (omega arith)
