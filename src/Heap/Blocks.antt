-- ===== src/Heap/Blocks.antt =====
-- The heap as a whole: the free list and the blocks that tile the pool, and what initialising, merging,
-- removing and cutting blocks makes of them.
use microkernel_rtos.Common.{
  ℕ, ◌+◌, ◌-◌, ◌≤◌, ◌<◌, ◌≡◌, ◌≢◌, refl, List, [], ◌∷◌, true, false, some, ◌==◌, if◌then◌else◌, has,
  erase, has-erase_self, length, arith, sym, subst, ◌∙◌, ==-false, ==-true, Bool-cases, inl, inr,
}
use microkernel_rtos.Links.{
  Ptr, null, update, update-at, pred_of, has-pred_of, Chain, Chain-update, Chain-unlink,
  Chain-ne_null,
}
use microkernel_rtos.Kernel.{uint32_mod}
use microkernel_rtos.Heap.{
  Heap, heap_pool_size, header_size, heap_fuel, remove_from_list, prepend_free, split_block,
  coalesce_forward, heap_init,
}
use microkernel_rtos.Heap.Tiles.{Tiles, Tiles-take, Tiles-give, Tiles-split, length-le_sum}
use microkernel_rtos.Heap.Merge.{coalesce_walk-Coalesced}

-- The blocks `fs` are on the free list and the blocks `us` are used; together they tile the pool.
pub record IsHeap (h : Heap) (fs us : List Ptr) : Type 0 where
  pub ready : h.heap_ready ≡ true
  pub placed : 0 < h.heap_pool
  pub fits : h.heap_pool + heap_pool_size ≤ uint32_mod
  pub chain : Chain h.next_free h.free_list fs null
  pub tiles : Tiles h.block_size h.heap_pool fs us

-- There are fewer free blocks than the walks have rounds.
pub few_blocks :
    (f : Ptr → ℕ) (lo : Ptr) (fs us : List Ptr) → Tiles f lo fs us → length fs < heap_fuel
few_blocks f lo fs us t =
    let n = length-le_sum f fs (λ b i. t.sized b (ground arith)) in omega (arith, n, t.total)

-- After heap_init, the whole pool is one free block.
pub heap_init-IsHeap :
    (h : Heap)
    → 0 < h.heap_pool
    → h.heap_pool + heap_pool_size ≤ uint32_mod
    → IsHeap (heap_init h) (h.heap_pool ∷ []) []
unfolding heap_init
heap_init-IsHeap h low high = record {
  ready = refl;
  placed = low;
  fits = high;
  chain = ground arith;
  tiles = record {
    free_distinct = ground arith;
    used_distinct = tt;
    separate = λ b i. refl;
    sized = λ b i. ground arith;
    above = λ b i. ground arith;
    below = λ b i. ground arith;
    apart = λ a b i j n. ground arith;
    total = ground arith;
  };
}

-- What an operation leaves of the used blocks.
pub record Kept (h h' : Heap) (us : List Ptr) : Type 0 where
  pub sizes : (b : Ptr) → has b us ≡ true → h'.block_size b ≡ h.block_size b
  pub same_pool : h'.heap_pool ≡ h.heap_pool

pub coalesce_forward-IsHeap :
    (h : Heap) (fs us : List Ptr)
    → IsHeap h fs us
    → (h' : Heap) × (fs' : List Ptr) × (coalesce_forward h ≡ some h')
      × IsHeap h' fs' us
      × Kept h h' us
unfolding coalesce_forward
coalesce_forward-IsHeap h fs us i =
    let (h', fs', ran, r) =
      coalesce_walk-Coalesced h.heap_pool h heap_fuel h.free_list fs us i.chain i.tiles
        (few_blocks h.block_size h.heap_pool fs us i.tiles) in
    (
      h',
      fs',
      ran,
      record {
        ready = r.same_ready ∙ i.ready;
        placed = subst (λ p. 0 < p) (sym r.same_pool) i.placed;
        fits = subst (λ p. p + heap_pool_size ≤ uint32_mod) (sym r.same_pool) i.fits;
        chain = subst (λ p. Chain h'.next_free p fs' null) (sym r.same_list) r.chain;
        tiles = subst (λ p. Tiles h'.block_size p fs' us) (sym r.same_pool) r.tiles;
      },
      record { sizes = r.sizes; same_pool = r.same_pool },
    )

-- A heap with other sizes and links.
abbrev relisted : Heap → (Ptr → ℕ) → (Ptr → Ptr) → Ptr → Heap
relisted h f nx l = record h { block_size = f; next_free = nx; free_list = l }

rebuilt :
    (h : Heap) (f : Ptr → ℕ) (nx : Ptr → Ptr) (l : Ptr) {fs us : List Ptr} (fs' us' : List Ptr)
    → IsHeap h fs us
    → Chain nx l fs' null
    → Tiles f h.heap_pool fs' us'
    → IsHeap (relisted h f nx l) fs' us'
rebuilt h f nx l fs' us' i c t = record {
  ready = i.ready;
  placed = i.placed;
  fits = i.fits;
  chain = c;
  tiles = t;
}

-- A free block is unlinked, wherever it stands on the free list.
pub remove_from_list-IsHeap :
    (h : Heap) (fs us : List Ptr) (c : Ptr)
    → IsHeap h fs us
    → has c fs ≡ true
    → IsHeap (remove_from_list h c (pred_of c null fs)) (erase c fs) (c ∷ us)
unfolding remove_from_list
remove_from_list-IsHeap h [] us c i on = absurd (ground arith)
remove_from_list-IsHeap h (x ∷ xs) us c i on = elim (Bool-cases (x == c)) [
  | inl hit ↦
      let e : x ≡ c = ==-true x c hit in
      let out : has c xs ≡ false = subst (λ v. has v xs ≡ false) e (i.tiles.free_distinct.0) in
      let rest : Chain h.next_free (h.next_free c) xs null =
        subst (λ v. Chain h.next_free (h.next_free v) xs null) e (i.chain.2) in
      let t : Tiles h.block_size h.heap_pool xs (c ∷ us) =
        subst (λ b. Tiles h.block_size h.heap_pool (if b then xs else x ∷ erase c xs) (c ∷ us)) hit
          (Tiles-take i.tiles c on) in
      rw hit (
        rebuilt h h.block_size (update h.next_free c null) (h.next_free c) xs (c ∷ us) i
          (Chain-update h.next_free (h.next_free c) null c null xs out rest) t)
  | inr miss ↦
      let prev = pred_of c x xs in
      let behind : has c xs ≡ true = ground arith in
      let inner : (prev == null) ≡ false =
        ==-false
          (Chain-ne_null h.next_free h.free_list null prev (x ∷ xs) (has-pred_of c x xs) i.chain) in
      let off : has c (x ∷ erase c xs) ≡ false =
        ground (arith, has-erase_self c xs i.tiles.free_distinct.1) in
      let linked : Chain (update h.next_free prev (h.next_free c)) h.free_list (x ∷ erase c xs)
          null =
        subst (λ p. Chain (update h.next_free prev (h.next_free c)) p (x ∷ erase c xs) null)
          (sym (i.chain.0))
          (Chain-unlink h.next_free x c null xs behind i.tiles.free_distinct
            (refl, i.chain.1, i.chain.2)) in
      let t : Tiles h.block_size h.heap_pool (x ∷ erase c xs) (c ∷ us) =
        subst (λ b. Tiles h.block_size h.heap_pool (if b then xs else x ∷ erase c xs) (c ∷ us)) miss
          (Tiles-take i.tiles c on) in
      rw miss (
        rw inner (
          rebuilt h h.block_size (update (update h.next_free prev (h.next_free c)) c null)
            h.free_list (x ∷ erase c xs) (c ∷ us) i
            (Chain-update (update h.next_free prev (h.next_free c)) h.free_list null c null
              (x ∷ erase c xs) off linked)
            t))
]

-- A block in front of the free list.
pushed :
    (nx : Ptr → Ptr) (b l : Ptr) (fs : List Ptr)
    → b ≢ null
    → has b fs ≡ false
    → Chain nx l fs null
    → Chain (update nx b l) b (b ∷ fs) null
pushed nx b l fs ne off c =
    let now : update nx b l b ≡ l = update-at nx b l in
    (refl, ne, rw now (Chain-update nx l null b l fs off c))

-- A used block is put at the head of the free list.
pub prepend_free-IsHeap :
    (h : Heap) (fs us : List Ptr) (b : Ptr)
    → IsHeap h fs us
    → has b us ≡ true
    → IsHeap (prepend_free h b) (b ∷ fs) (erase b us)
unfolding prepend_free
prepend_free-IsHeap h fs us b i on =
    let t = Tiles-give i.tiles b on in
    let ne : b ≢ null = λ z. omega (arith, i.tiles.above b (ground arith), i.placed, z) in
    rebuilt h h.block_size (update h.next_free b h.free_list) b (b ∷ fs) (erase b us) i
      (pushed h.next_free b h.free_list fs ne t.free_distinct.0 i.chain) t

-- A used block is cut in two, and its rear part is put at the head of the free list.
pub split_block-IsHeap :
    (h : Heap) (fs us : List Ptr) (c : Ptr) (m : ℕ)
    → IsHeap h fs us
    → has c us ≡ true
    → header_size + 8 ≤ m
    → m + (header_size + 8) ≤ h.block_size c
    → IsHeap (split_block h c m) ((c + m) ∷ fs) us
unfolding split_block prepend_free
split_block-IsHeap h fs us c m i on low high =
    let t = Tiles-split i.tiles c m on low high in
    let off = t.free_distinct.0 in
    let ne : c + m ≢ null = λ z. omega (arith, low, z) in
    let nx = update h.next_free (c + m) null in
    rebuilt h (update (update h.block_size (c + m) (h.block_size c - m)) c m)
      (update nx (c + m) h.free_list) (c + m) ((c + m) ∷ fs) us i
      (pushed nx (c + m) h.free_list fs ne off
        (Chain-update h.next_free h.free_list null (c + m) null fs off i.chain))
      t
