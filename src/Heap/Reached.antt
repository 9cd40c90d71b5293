-- ===== src/Heap/Reached.antt =====
-- What any sequence of calls of heap_alloc and heap_free makes of the heap and of the memory that it
-- has handed out.
use microkernel_rtos.Common.{
  same_result, has-of_erase, ℕ, zero, suc, ◌+◌, ◌≤◌, ◌<◌, ◌≡◌, ◌≢◌, ◌⊎◌, refl, List, [], ◌∷◌, true,
  ◌||◌, Option, some, ◌==◌, has, erase, arith, sym, subst, ◌∙◌, ap, ==-true, Bool-cases,
  Option-cases, inl, inr,
}
use microkernel_rtos.Links.{Ptr, null, update}
use microkernel_rtos.Kernel.{uint32_mod}
use microkernel_rtos.Heap.{
  Heap, heap_pool_size, header_size, total_of, heap_init, heap_alloc, heap_free,
}
use microkernel_rtos.Heap.Walks.{first_fit}
use microkernel_rtos.Heap.Blocks.{IsHeap, heap_init-IsHeap}
use microkernel_rtos.Heap.Calls.{
  Taken, total_of_bounds, heap_alloc-full, heap_alloc-Taken, heap_free-IsHeap,
}

-- The heap `h` after some calls, the pointers `ps` that have been handed out and not been freed, and
-- the number of bytes `asked p` that was asked for with the pointer `p`.
pub data Reached : Heap → List Ptr → (Ptr → ℕ) → Type 0 where
  started :
      (h : Heap)
      → 0 < h.heap_pool
      → h.heap_pool + heap_pool_size ≤ uint32_mod
      → Reached (heap_init h) [] (λ p. 0)
  allocated :
      (h h' : Heap) (ps : List Ptr) (asked : Ptr → ℕ) (size : ℕ) (p : Ptr)
      → Reached h ps asked
      → size + 15 < uint32_mod
      → heap_alloc h size ≡ some (p, h')
      → p ≢ null
      → Reached h' (p ∷ ps) (update asked p size)
  refused :
      (h h' : Heap) (ps : List Ptr) (asked : Ptr → ℕ) (size : ℕ)
      → Reached h ps asked
      → size + 15 < uint32_mod
      → heap_alloc h size ≡ some (null, h')
      → Reached h' ps asked
  freed :
      (h h' : Heap) (ps : List Ptr) (asked : Ptr → ℕ) (p : Ptr)
      → Reached h ps asked
      → has p ps ≡ true
      → heap_free h p ≡ some h'
      → Reached h' (erase p ps) asked

-- The pointers that are handed out for the blocks `us`.
abbrev handed : List Ptr → List Ptr
handed [] = []
handed (b ∷ us) = (b + header_size) ∷ handed us

has-handed : (b : Ptr) (us : List Ptr) → has (b + header_size) (handed us) ≡ has b us
has-handed b [] = refl
has-handed b (x ∷ us) = ground (arith, has-handed b us)

erase-handed : (b : Ptr) (us : List Ptr) → erase (b + header_size) (handed us) ≡ handed (erase b us)
erase-handed b [] = refl
erase-handed b (x ∷ us) = ground (arith, erase-handed b us)

-- A pointer that was handed out belongs to a block.
block_of :
    (p : Ptr) (us : List Ptr)
    → has p (handed us) ≡ true
    → (b : Ptr) × (p ≡ b + header_size) × (has b us ≡ true)
block_of p [] i = absurd (ground arith)
block_of p (x ∷ us) i = elim (Bool-cases (p == x + header_size)) [
  | inl here ↦ (x, ==-true p (x + header_size) here, ground arith)
  | inr behind ↦ let (b, e, j) = block_of p us (ground arith) in (b, e, ground arith)
]

-- The blocks behind the pointers that are handed out.
pub record Served (h : Heap) (ps : List Ptr) (asked : Ptr → ℕ) : Type 0 where
  pub fs : List Ptr
  pub us : List Ptr
  pub heap : IsHeap h fs us
  pub pointers : ps ≡ handed us
  pub room : (b : Ptr) → has b us ≡ true → asked (b + header_size) + header_size ≤ h.block_size b

refused_zero : (h : Heap) → heap_alloc h 0 ≡ some (null, h)
unfolding heap_alloc
refused_zero h = ground arith

-- The block `c` was taken for `size` bytes.
Served-took :
    {h : Heap} {ps : List Ptr} {asked : Ptr → ℕ} (s : Served h ps asked) (h2 : Heap)
    (fs' : List Ptr) (size : ℕ) (c : Ptr)
    → size + header_size ≤ total_of size
    → Taken h h2 fs' s.us c (total_of size)
    → Served h2 ((c + header_size) ∷ ps) (update asked (c + header_size) size)
Served-took {h} {ps} {asked} s h2 fs' size c enough t = record {
  fs = fs';
  us = c ∷ s.us;
  heap = t.heap;
  pointers = ap (λ qs. (c + header_size) ∷ qs) s.pointers;
  room = λ b i. ground (arith, t.room, s.room b, t.kept.sizes b, t.heap.tiles.used_distinct.0);
}

module _ {h h' : Heap} {ps : List Ptr} {asked : Ptr → ℕ} (s : Served h ps asked) where
  stays : h' ≡ h → Served h' ps asked
  stays e = subst (λ g. Served g ps asked) (sym e) s

  -- heap_alloc hands out NULL and leaves the heap as it is, or takes a free block.
  Served-alloc :
      (size : ℕ) (p : Ptr)
      → size + 15 < uint32_mod
      → heap_alloc h size ≡ some (p, h')
      → ((p ≡ null) × (h' ≡ h)) ⊎ Served h' (p ∷ ps) (update asked p size)
  Served-alloc zero p small ran = inl (same_result ran (refused_zero h))
  Served-alloc (suc size) p small ran =
      elim (Option-cases (first_fit h.block_size (total_of (suc size)) s.fs)) [
        | inl full ↦ inl (same_result ran (heap_alloc-full h (suc size) s.heap (omega arith) full))
        | inr (c, found) ↦
            let (h2, fs', took, t) =
              heap_alloc-Taken h (suc size) c s.heap (omega arith) small found in
            let (ep, eh) = same_result ran took in
            inr (
              subst (λ g. Served g (p ∷ ps) (update asked p (suc size))) (sym eh)
                (subst (λ q. Served h2 (q ∷ ps) (update asked q (suc size))) (sym ep)
                  (Served-took s h2 fs' (suc size) c
                    (total_of_bounds (suc size) (omega arith) small).0 t)))
      ]

  Served-free : (p : Ptr) → has p ps ≡ true → heap_free h p ≡ some h' → Served h' (erase p ps) asked
  Served-free p on ran =
      let (b, e, i) = block_of p s.us (subst (λ qs. has p qs ≡ true) s.pointers on) in
      let (h2, fs', back, whole, k) = heap_free-IsHeap h b s.heap i in
      let eh : h' ≡ h2 =
        let both : ◌≡◌ {A = Option Heap} (some h') (some h2) =
          sym ran ∙ ap (heap_free h) e ∙ back in
        cc in
      let rest : erase p ps ≡ handed (erase b s.us) =
        ap (erase p) s.pointers ∙ ap (λ q. erase q (handed s.us)) e ∙ erase-handed b s.us in
      record {
        fs = fs';
        us = erase b s.us;
        heap = subst (λ g. IsHeap g fs' (erase b s.us)) (sym eh) whole;
        pointers = rest;
        room = λ a j.
            subst (λ g. asked (a + header_size) + header_size ≤ g.block_size a) (sym eh)
              (omega (
                arith,
                k.sizes a j,
                s.room a (ground (arith, has-of_erase a b s.us s.heap.tiles.used_distinct)),
              ));
      }

Reached-Served :
    (h : Heap) (ps : List Ptr) (asked : Ptr → ℕ) → Reached h ps asked → Served h ps asked
Reached-Served h0 ps0 asked0 (started h low high) = record {
  fs = h.heap_pool ∷ [];
  us = [];
  heap = heap_init-IsHeap h low high;
  pointers = refl;
  room = λ b i. absurd (ground arith);
}
Reached-Served h0 ps0 asked0 (allocated h h' ps asked size p r small ran ne) =
    elim (Served-alloc (Reached-Served h ps asked r) size p small ran) [
      | inl (e, same) ↦ absurd (ne e)
      | inr s ↦ s
    ]
Reached-Served h0 ps0 asked0 (refused h h' ps asked size r small ran) =
    elim (Served-alloc (Reached-Served h ps asked r) size null small ran) [
      | inl (e, same) ↦ stays (Reached-Served h ps asked r) same
      | inr s ↦ absurd (
          let (b, e, i) = block_of null s.us (subst (λ qs. has null qs ≡ true) s.pointers refl) in
          omega (arith, e))
    ]
Reached-Served h0 ps0 asked0 (freed h h' ps asked p r on ran) =
    Served-free (Reached-Served h ps asked r) p on ran

-- The bytes at `p` are in the pool, behind a header.
abbrev InPool : Heap → (Ptr → ℕ) → Ptr → Type 0
InPool h asked p = (h.heap_pool + header_size ≤ p) × (p + asked p ≤ h.heap_pool + heap_pool_size)

Reached-InPool :
    (h : Heap) (ps : List Ptr) (asked : Ptr → ℕ) (p : Ptr)
    → Reached h ps asked
    → has p ps ≡ true
    → InPool h asked p
Reached-InPool h ps asked p r on =
    let s = Reached-Served h ps asked r in
    let (b, e, i) = block_of p s.us (subst (λ qs. has p qs ≡ true) s.pointers on) in
    let here : (has b s.fs || has b s.us) ≡ true = ground arith in
    rw e (omega (arith, s.room b i, s.heap.tiles.above b here, s.heap.tiles.below b here))

-- After heap_init on a pool in the address space, whatever calls follow of heap_alloc, for less than
-- 0xfffffff1 bytes, and of heap_free, for pointers that are handed out: the bytes that were asked for
-- at two such pointers lie within the pool, behind a header, and do not overlap: those at the one end
-- before the header of the other.
pub Reached-apart :
    (h : Heap) (ps : List Ptr) (asked : Ptr → ℕ) (p q : Ptr)
    → Reached h ps asked
    → has p ps ≡ true
    → has q ps ≡ true
    → p ≢ q
    → InPool h asked p
      × InPool h asked q
      × ((p + asked p + header_size ≤ q) ⊎ (q + asked q + header_size ≤ p))
Reached-apart h ps asked p q r on on' ne =
    let s = Reached-Served h ps asked r in
    let (b, e, i) = block_of p s.us (subst (λ qs. has p qs ≡ true) s.pointers on) in
    let (c, e', j) = block_of q s.us (subst (λ qs. has q qs ≡ true) s.pointers on') in
    let here : (has b s.fs || has b s.us) ≡ true = ground arith in
    let there : (has c s.fs || has c s.us) ≡ true = ground arith in
    let off : b ≢ c = λ z. ne (e ∙ ap (λ x. x + header_size) z ∙ sym e') in
    let m = s.room b i in
    let n = s.room c j in
    (
      Reached-InPool h ps asked p r on,
      Reached-InPool h ps asked q r on',
      rw (e, e') (ground (arith, s.heap.tiles.apart b c here there off, m, n)),
    )
