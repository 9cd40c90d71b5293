-- ===== src/Scheduler/Rings.antt =====
-- The circular lists of scheduler.c as lists of addresses, head first: what the walks find, and what
-- the writes that link and unlink a block make of a ring.
use microkernel_rtos.Common.{
  ℕ, zero, suc, ◌<◌, ◌≡◌, ◌≢◌, refl, sym, subst, List, [], ◌∷◌, ◌++◌, false, true, none, some,
  if◌then◌else◌, ◌==◌, has, Distinct, erase, last, length, snoc-Distinct, erase-Distinct, has-erase,
  has-erase_self, arith,
}
use microkernel_rtos.Links.{
  Ptr, null, update, Chain, pred_of, Chain-frame, Chain-update, Chain-snoc, Chain-unlink,
  Chain-relink, Chain-append,
}
use microkernel_rtos.Scheduler.{ring_tail, ring_find}

-- `h` points to the first block of the ring `xs`, and the last one's link leads back to it.
abbrev pub Ring : (Ptr → Ptr) → Ptr → List Ptr → Type 0
Ring nx h [] = h ≡ null
Ring nx h (x ∷ xs) = (h ≡ x) × Chain nx x (x ∷ xs) x × Distinct (x ∷ xs)

-- What rotating a ring by one place does to its list.
abbrev pub rotate : List Ptr → List Ptr
rotate [] = []
rotate (x ∷ xs) = xs ++ x ∷ []

module _ (nx : Ptr → Ptr) where
  pub ring_tail-last :
      (fuel : ℕ) (h p : Ptr) (ys : List Ptr)
      → has h ys ≡ false
      → Chain nx p (p ∷ ys) h
      → length ys < fuel
      → ring_tail fuel nx h p ≡ some (last p ys)
  unfolding ring_tail
  ring_tail-last zero h p ys out c f = absurd (omega arith)
  ring_tail-last (suc fuel) h p [] out c f = ground arith
  ring_tail-last (suc fuel) h p (y ∷ ys) out (e, np, c) f =
      let e' : nx p ≡ y = c.0 in
      ground (arith, ring_tail-last fuel h y ys (ground arith) (refl, c.1, c.2) (omega arith))

  -- A block on the ring is found, with the block before it.
  pub ring_find-found :
      (fuel : ℕ) (h t prev p : Ptr) (ys : List Ptr)
      → has h ys ≡ false
      → has t (p ∷ ys) ≡ true
      → Chain nx p (p ∷ ys) h
      → length ys < fuel
      → ring_find fuel nx h t prev p ≡ some (some (if p == t then prev else pred_of t p ys))
  unfolding ring_find
  ring_find-found zero h t prev p ys out i c f = absurd (omega arith)
  ring_find-found (suc fuel) h t prev p [] out i c f = ground arith
  ring_find-found (suc fuel) h t prev p (y ∷ ys) out i (e, np, c) f =
      let e' : nx p ≡ y = c.0 in ground (arith, ring_find-found fuel h t p y ys (ground arith))

  -- A block that is not on the ring is not found.
  pub ring_find-missing :
      (fuel : ℕ) (h t prev p : Ptr) (ys : List Ptr)
      → has h ys ≡ false
      → has t (p ∷ ys) ≡ false
      → Chain nx p (p ∷ ys) h
      → length ys < fuel
      → ring_find fuel nx h t prev p ≡ some none
  unfolding ring_find
  ring_find-missing zero h t prev p ys out i c f = absurd (omega arith)
  ring_find-missing (suc fuel) h t prev p [] out i c f = ground arith
  ring_find-missing (suc fuel) h t prev p (y ∷ ys) out i (e, np, c) f =
      let e' : nx p ≡ y = c.0 in ground (arith, ring_find-missing fuel h t p y ys (ground arith))

  pub Ring-frame :
      (nx' : Ptr → Ptr) (h : Ptr) (xs : List Ptr)
      → ((a : Ptr) → has a xs ≡ true → nx' a ≡ nx a)
      → Ring nx h xs
      → Ring nx' h xs
  Ring-frame nx' h [] same r = r
  Ring-frame nx' h (x ∷ xs) same (e, c, d) = (e, Chain-frame nx nx' x x (x ∷ xs) same c, d)

  pub insert-Ring :
      (h t x : Ptr) (xs : List Ptr)
      → t ≢ null
      → has t (x ∷ xs) ≡ false
      → Ring nx h (x ∷ xs)
      → Ring (update (update nx (last x xs) t) t h) h (x ∷ xs ++ t ∷ [])
  insert-Ring h t x xs n out (e, c, d) =
      subst (λ v. Ring (update (update nx (last x xs) t) t v) v (x ∷ xs ++ t ∷ [])) (sym e)
        (refl, Chain-snoc nx x t x xs n out d c, snoc-Distinct t (x ∷ xs) d out)

  -- The head leaves a ring of at least two blocks.
  pub behead-Ring :
      (x y : Ptr) (ys : List Ptr)
      → Ring nx x (x ∷ y ∷ ys)
      → Ring (update (update nx (last y ys) (nx x)) x null) (nx x) (y ∷ ys)
  behead-Ring x y ys (e, c, d) =
      let next : nx x ≡ y = c.2.0 in
      let tail = Chain-relink nx y x y ys d.1 (refl, c.2.1, c.2.2) in
      subst (λ v. Ring (update (update nx (last y ys) v) x null) v (y ∷ ys)) (sym next)
        (refl, Chain-update (update nx (last y ys) y) y y x null (y ∷ ys) d.0 tail, d.1)

  -- A block behind the head leaves its ring.
  pub unlink-Ring :
      (x t : Ptr) (ys : List Ptr)
      → has t ys ≡ true
      → Ring nx x (x ∷ ys)
      → Ring (update (update nx (pred_of t x ys) (nx t)) t null) x (x ∷ erase t ys)
  unlink-Ring x t ys i (e, c, d) =
      let out : has t (x ∷ erase t ys) ≡ false = ground (arith, has-erase_self t ys d.1) in
      let left : Distinct (x ∷ erase t ys) = (has-erase x t ys d.0, erase-Distinct t ys d.1) in
      (
        refl,
        Chain-update (update nx (pred_of t x ys) (nx t)) x x t null (x ∷ erase t ys) out
            (Chain-unlink nx x t x ys i d c),
        left,
      )

  -- Moving the head on by one link rotates the ring.
  pub rotate-Ring :
      (x : Ptr) (xs : List Ptr) → Ring nx x (x ∷ xs) → Ring nx (nx x) (rotate (x ∷ xs))
  rotate-Ring x [] (e, c, d) = (c.2, c, d)
  rotate-Ring x (y ∷ ys) (e, c, d) =
      let next : nx x ≡ y = c.2.0 in
      let back : Chain nx x (x ∷ []) y = (refl, c.1, next) in
      (
        next,
        Chain-append nx y x y (y ∷ ys) (x ∷ []) (refl, c.2.1, c.2.2) back,
        snoc-Distinct x (y ∷ ys) d.1 d.0,
      )
