-- ===== src/Heap/Returns.antt =====
-- The loop of _coalesce_forward ends on any list of distinct blocks, whatever their sizes are.
use microkernel_rtos.Common.{
  ℕ, zero, suc, ◌+◌, ◌<◌, ◌≡◌, refl, List, [], ◌∷◌, some, ◌==◌, false, has, Distinct, length, arith,
  ◌∙◌, Bool-cases, inl, inr,
}
use microkernel_rtos.Links.{Ptr, null, Chain, Chain-update, update-at}
use microkernel_rtos.Heap.{Heap, absorb, coalesce_walk}
use microkernel_rtos.Heap.Merge.{walk_ends, walk_merges, walk_skips}

pub coalesce_walk-returns :
    (h : Heap) (fuel : ℕ) (w : Ptr) (ys : List Ptr)
    → Chain h.next_free w ys null
    → Distinct ys
    → length ys < fuel
    → (h' : Heap) × (coalesce_walk fuel h w ≡ some h')
unfolding absorb
coalesce_walk-returns h zero w ys c d f = absurd (omega arith)
coalesce_walk-returns h (suc fuel) w [] c d f = (h, unfold coalesce_walk in rw c refl)
coalesce_walk-returns h (suc fuel) w (x ∷ []) (e, ne, c) d f = (h, rw e (walk_ends fuel h x c))
coalesce_walk-returns h (suc fuel) w (x ∷ y ∷ ys) (e, ne, (e2, ne2, c)) d f =
    elim (Bool-cases (x + h.block_size x == y)) [
      | inl near ↦
          let h1 = absorb h x in
          let out : has x ys ≡ false = ground (arith, d.0) in
          let past = h.next_free (h.next_free x) in
          let now : h1.next_free x ≡ past = update-at h.next_free x past in
          let c1 : Chain h1.next_free past ys null =
            Chain-update h.next_free past null x past ys out (rw e2 c) in
          let (h', ran) =
            coalesce_walk-returns h1 fuel x (x ∷ ys) (refl, ne, rw now c1) (out, d.1.1)
              (omega arith) in
          (h', rw e (walk_merges fuel h x y ne ne2 e2 near ∙ ran))
      | inr gap ↦
          let (h', ran) =
            coalesce_walk-returns h fuel y (y ∷ ys) (refl, ne2, c) d.1 (omega arith) in
          (h', rw e (walk_skips fuel h x y ne ne2 e2 gap ∙ ran))
    ]
