-- ===== src/Heap/Merge.antt =====
-- The loop of _coalesce_forward: neighbours on the free list become one block.
use native.Mathlib.Nat.{mod-eq_of_lt}
use microkernel_rtos.Common.{
  ℕ, zero, suc, ◌+◌, ◌%◌, ◌<◌, ◌≡◌, ◌≢◌, refl, List, [], ◌∷◌, true, false, ◌||◌, some, ◌==◌, has,
  erase, length, arith, subst, ◌∙◌, ap, ==-true, ==_refl, Bool-cases, inl, inr,
}
use microkernel_rtos.Links.{Ptr, null, update, Chain, Chain-update}
use microkernel_rtos.Kernel.{uint32_mod}
use microkernel_rtos.Heap.{Heap, absorb, coalesce_walk}
use microkernel_rtos.Heap.Tiles.{Tiles, Tiles-take, Tiles-give, Tiles-merge}

-- What merging leaves: free blocks `ys'` that tile the pool with the same used blocks `us`, which it
-- has not touched.
pub record Coalesced (lo : Ptr) (h h' : Heap) (w : Ptr) (ys' us : List Ptr) : Type 0 where
  pub chain : Chain h'.next_free w ys' null
  pub tiles : Tiles h'.block_size lo ys' us
  pub sizes : (b : Ptr) → has b us ≡ true → h'.block_size b ≡ h.block_size b
  pub links : (b : Ptr) → has b us ≡ true → h'.next_free b ≡ h.next_free b
  pub same_pool : h'.heap_pool ≡ h.heap_pool
  pub same_ready : h'.heap_ready ≡ h.heap_ready
  pub same_list : h'.free_list ≡ h.free_list

-- The walk passes a block: for the rest of it, the block is not free …
pass :
    {f : Ptr → ℕ} {lo x : Ptr} {ys us : List Ptr} → Tiles f lo (x ∷ ys) us → Tiles f lo ys (x ∷ us)
pass {f} {lo} {x} {ys} {us} t =
    let first : erase x (x ∷ ys) ≡ ys = rw (==_refl x) refl in
    subst (λ v. Tiles f lo v (x ∷ us)) first (Tiles-take t x (ground arith))

-- … and it is free again behind it.
unpass :
    {f : Ptr → ℕ} {lo x : Ptr} {ys us : List Ptr} → Tiles f lo ys (x ∷ us) → Tiles f lo (x ∷ ys) us
unpass {f} {lo} {x} {ys} {us} t =
    let first : erase x (x ∷ us) ≡ us = rw (==_refl x) refl in
    subst (λ v. Tiles f lo (x ∷ ys) v) first (Tiles-give t x (ground arith))

-- Two neighbours at the head of the list become one.
merge_first :
    {f : Ptr → ℕ} {lo x y : Ptr} {ys us : List Ptr}
    → Tiles f lo (x ∷ y ∷ ys) us
    → x + f x ≡ y
    → Tiles (update f x (f x + f y)) lo (x ∷ ys) us
merge_first {f} {lo} {x} {y} {ys} {us} t next =
    let apart : has x (y ∷ ys) ≡ false = t.free_distinct.0 in
    let rest : erase y (x ∷ y ∷ ys) ≡ x ∷ ys = ground arith in
    subst (λ v. Tiles (update f x (f x + f y)) lo v us) rest
      (Tiles-merge t x y (ground arith) (ground arith) next)

-- The sum of two free neighbours does not wrap.
merged_size :
    {f : Ptr → ℕ} {lo x y : Ptr} {ys us : List Ptr}
    → Tiles f lo (x ∷ y ∷ ys) us
    → x + f x ≡ y
    → (f x + f y) % uint32_mod ≡ f x + f y
merged_size {f} {lo} {x} {y} t next =
    let low = t.above x (ground arith) in
    let high = t.below y (ground arith) in mod-eq_of_lt (omega arith)

-- One round of the walk at `x`: the end of the list, …
pub walk_ends :
    (fuel : ℕ) (h : Heap) (x : Ptr) → h.next_free x ≡ null → coalesce_walk (suc fuel) h x ≡ some h
unfolding coalesce_walk
walk_ends fuel h x e =
    let stop : ((x == null) || (h.next_free x == null)) ≡ true = ground arith in rw stop refl

-- … a neighbour, …
pub walk_merges :
    (fuel : ℕ) (h : Heap) (x y : Ptr)
    → x ≢ null
    → y ≢ null
    → h.next_free x ≡ y
    → (x + h.block_size x == y) ≡ true
    → coalesce_walk (suc fuel) h x ≡ coalesce_walk fuel (absorb h x) x
unfolding coalesce_walk
walk_merges fuel h x y nx ny e near =
    let go : ((x == null) || (h.next_free x == null)) ≡ false = ground arith in
    let near' : (x + h.block_size x == h.next_free x) ≡ true = ground arith in rw (go, near') refl

-- … or a gap.
pub walk_skips :
    (fuel : ℕ) (h : Heap) (x y : Ptr)
    → x ≢ null
    → y ≢ null
    → h.next_free x ≡ y
    → (x + h.block_size x == y) ≡ false
    → coalesce_walk (suc fuel) h x ≡ coalesce_walk fuel h y
unfolding coalesce_walk
walk_skips fuel h x y nx ny e gap =
    let go : ((x == null) || (h.next_free x == null)) ≡ false = ground arith in
    let gap' : (x + h.block_size x == h.next_free x) ≡ false = ground arith in
    rw (go, gap') (ap (coalesce_walk fuel h) e)

nothing_merged :
    (lo : Ptr) (h : Heap) (w : Ptr) (ys us : List Ptr)
    → Chain h.next_free w ys null
    → Tiles h.block_size lo ys us
    → Coalesced lo h h w ys us
nothing_merged lo h w ys us c t = record {
  chain = c;
  tiles = t;
  sizes = λ b i. refl;
  links = λ b i. refl;
  same_pool = refl;
  same_ready = refl;
  same_list = refl;
}

-- `absorb`, where its sum does not wrap.
absorb_flat :
    (h : Heap) (x y : Ptr) (n : ℕ)
    → h.next_free x ≡ y
    → (h.block_size x + h.block_size y) % uint32_mod ≡ n
    → absorb h x ≡ record h {
      block_size = update h.block_size x n;
      next_free = update h.next_free x (h.next_free y);
    }
unfolding absorb
absorb_flat h x y n e flat = rw (e, flat) refl

module _ (lo : Ptr) where
  pub coalesce_walk-Coalesced :
      (h : Heap) (fuel : ℕ) (w : Ptr) (ys us : List Ptr)
      → Chain h.next_free w ys null
      → Tiles h.block_size lo ys us
      → length ys < fuel
      → (h' : Heap) × (ys' : List Ptr) × (coalesce_walk fuel h w ≡ some h')
        × Coalesced lo h h' w ys' us
  coalesce_walk-Coalesced h zero w ys us c t d = absurd (omega arith)
  coalesce_walk-Coalesced h (suc fuel) w [] us c t d =
      (h, [], unfold coalesce_walk in rw c refl, nothing_merged lo h w [] us c t)
  coalesce_walk-Coalesced h (suc fuel) w (x ∷ []) us (e, ne, c) t d =
      (h, x ∷ [], rw e (walk_ends fuel h x c), nothing_merged lo h w (x ∷ []) us (e, ne, c) t)
  coalesce_walk-Coalesced h (suc fuel) w (x ∷ y ∷ ys) us (e, ne, (e2, ne2, c)) t d =
      elim (Bool-cases (x + h.block_size x == y)) [
        | inl near ↦
            let next : x + h.block_size x ≡ y = ==-true (x + h.block_size x) y near in
            let n = h.block_size x + h.block_size y in
            let h1 = record h {
              block_size = update h.block_size x n;
              next_free = update h.next_free x (h.next_free y);
            } in
            let flat = absorb_flat h x y n e2 (merged_size t next) in
            let out : has x ys ≡ false = ground (arith, t.free_distinct.0) in
            let now : h1.next_free x ≡ h.next_free y = ground arith in
            let c1 : Chain h1.next_free (h.next_free y) ys null =
              Chain-update h.next_free (h.next_free y) null x (h.next_free y) ys out c in
            let (h', ys', ran, r) =
              coalesce_walk-Coalesced h1 fuel x (x ∷ ys) us (refl, ne, rw now c1)
                (merge_first t next) (omega arith) in
            (
              h',
              ys',
              rw e (
                  walk_merges fuel h x y ne ne2 e2 near
                  ∙ ap (λ z. coalesce_walk fuel z x) flat
                  ∙ ran),
              record {
                chain = rw e r.chain;
                tiles = r.tiles;
                sizes = λ b i. ground (arith, r.sizes b, t.separate x);
                links = λ b i. ground (arith, r.links b, t.separate x);
                same_pool = r.same_pool;
                same_ready = r.same_ready;
                same_list = r.same_list;
              },
            )
        | inr gap ↦
            let (h', ys', ran, r) =
              coalesce_walk-Coalesced h fuel y (y ∷ ys) (x ∷ us) (refl, ne2, c) (pass t)
                (omega arith) in
            (
              h',
              x ∷ ys',
              rw e (walk_skips fuel h x y ne ne2 e2 gap ∙ ran),
              record {
                chain = (e, ne, rw (r.links x (ground arith) ∙ e2) r.chain);
                tiles = unpass r.tiles;
                sizes = λ b i. r.sizes b (ground arith);
                links = λ b i. r.links b (ground arith);
                same_pool = r.same_pool;
                same_ready = r.same_ready;
                same_list = r.same_list;
              },
            )
      ]
