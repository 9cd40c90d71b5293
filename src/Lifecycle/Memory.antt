-- ===== src/Lifecycle/Memory.antt =====
-- The two allocations of task_create: both are granted, or what was granted is freed again.
use microkernel_rtos.Common.{
  ℕ, ◌+◌, ◌≤◌, ◌<◌, ◌≡◌, ◌⊎◌, inl, inr, refl, List, ◌∷◌, true, ◌||◌, some, ◌==◌, arith, has, erase,
  Option-cases, subst, ==_refl,
}
use microkernel_rtos.Links.{Ptr, null}
use microkernel_rtos.Kernel.{uint32_mod}
use microkernel_rtos.Heap.{Heap, header_size, total_of, heap_alloc, heap_free}
use microkernel_rtos.Heap.Walks.{first_fit, first_fit-has}
use microkernel_rtos.Heap.Blocks.{IsHeap, Kept}
use microkernel_rtos.Heap.Calls.{
  total_of_bounds, heap_alloc-full, heap_alloc-Taken, heap_free-null, heap_free-IsHeap,
}

-- heap_alloc takes the free block `c`.
pub record Got (h : Heap) (fs us : List Ptr) (size : ℕ) : Type 0 where
  pub c : Ptr
  pub h' : Heap
  pub fs' : List Ptr
  pub listed : has c fs ≡ true
  pub ran : heap_alloc h size ≡ some (c + header_size, h')
  pub whole : IsHeap h' fs' (c ∷ us)
  pub room : size + header_size ≤ h'.block_size c
  pub kept : Kept h h' us

pub heap_alloc-cases :
    (h : Heap) (size : ℕ) {fs us : List Ptr}
    → IsHeap h fs us
    → 0 < size
    → size + 15 < uint32_mod
    → (heap_alloc h size ≡ some (null, h)) ⊎ Got h fs us size
heap_alloc-cases h size {fs} {us} i some_bytes small =
    elim (Option-cases (first_fit h.block_size (total_of size) fs)) [
      | inl full ↦ inl (heap_alloc-full h size i some_bytes full)
      | inr (c, found) ↦
          let (h', fs', ran, t) = heap_alloc-Taken h size c i some_bytes small found in
          let b = total_of_bounds size some_bytes small in
          inr (record {
            c = c;
            h' = h';
            fs' = fs';
            listed = (first_fit-has h.block_size (total_of size) fs c found).0;
            ran = ran;
            whole = t.heap;
            room = omega (arith, b.0, t.room);
            kept = t.kept;
          })
    ]

-- The block that was taken last is given back.
returned :
    (h : Heap) (c : Ptr) {fs us : List Ptr}
    → IsHeap h fs (c ∷ us)
    → (h' : Heap) × (fs' : List Ptr) × (heap_free h (c + header_size) ≡ some h') × IsHeap h' fs' us
returned h c {fs} {us} i =
    let (h', fs', ran, whole, k) = heap_free-IsHeap h c i (ground arith) in
    let first : erase c (c ∷ us) ≡ us = rw (==_refl c) refl in
    (h', fs', ran, subst (λ v. IsHeap h' fs' v) first whole)

-- One of the two allocations returns NULL, and freeing both pointers leaves the used blocks `us`.
pub record Refused (h : Heap) (us : List Ptr) (m n : ℕ) : Type 0 where
  pub tcb : Ptr
  pub stk : Ptr
  pub h1 : Heap
  pub h2 : Heap
  pub h3 : Heap
  pub h4 : Heap
  pub fs4 : List Ptr
  pub first : heap_alloc h m ≡ some (tcb, h1)
  pub second : heap_alloc h1 n ≡ some (stk, h2)
  pub failed : ((tcb == null) || (stk == null)) ≡ true
  pub free_first : heap_free h2 tcb ≡ some h3
  pub free_second : heap_free h3 stk ≡ some h4
  pub whole : IsHeap h4 fs4 us

-- Both are granted.
pub record Granted (h : Heap) (fs us : List Ptr) (m n : ℕ) : Type 0 where
  pub one : Got h fs us m
  pub two : Got one.h' one.fs' (one.c ∷ us) n

pub two_allocations :
    (h : Heap) (m n : ℕ) {fs us : List Ptr}
    → IsHeap h fs us
    → 0 < m
    → m + 15 < uint32_mod
    → 0 < n
    → n + 15 < uint32_mod
    → Refused h us m n ⊎ Granted h fs us m n
two_allocations h m n {fs} {us} i m_low m_high n_low n_high =
    elim (heap_alloc-cases h m i m_low m_high) [
      | inl no_tcb ↦ elim (heap_alloc-cases h n i n_low n_high) [
        | inl no_stk ↦ inl (record {
          tcb = null;
          stk = null;
          h1 = h;
          h2 = h;
          h3 = h;
          h4 = h;
          fs4 = fs;
          first = no_tcb;
          second = no_stk;
          failed = refl;
          free_first = heap_free-null h;
          free_second = heap_free-null h;
          whole = i;
        })
        | inr g ↦
            let (h4, fs4, ran, whole) = returned g.h' g.c g.whole in
            inl (record {
              tcb = null;
              stk = g.c + header_size;
              h1 = h;
              h2 = g.h';
              h3 = g.h';
              h4 = h4;
              fs4 = fs4;
              first = no_tcb;
              second = g.ran;
              failed = refl;
              free_first = heap_free-null g.h';
              free_second = ran;
              whole = whole;
            })
      ]
      | inr g ↦ elim (heap_alloc-cases g.h' n g.whole n_low n_high) [
        | inl no_stk ↦
            let (h4, fs4, ran, whole) = returned g.h' g.c g.whole in
            inl (record {
              tcb = g.c + header_size;
              stk = null;
              h1 = g.h';
              h2 = g.h';
              h3 = h4;
              h4 = h4;
              fs4 = fs4;
              first = g.ran;
              second = no_stk;
              failed = ground arith;
              free_first = ran;
              free_second = heap_free-null h4;
              whole = whole;
            })
        | inr g2 ↦ inr (record { one = g; two = g2 })
      ]
    ]
