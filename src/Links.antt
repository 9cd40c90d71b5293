-- ===== src/Links.antt =====
-- Linked structures in memory: a `next` field of the task control blocks as a map from addresses
-- to addresses, and the lists of addresses that such a field threads.
use mathlib.Core.Path.{fun_ext}
use microkernel_rtos.Common.{
  ℕ, ◌≡◌, ◌≢◌, refl, List, [], ◌∷◌, ◌++◌, false, true, if◌then◌else◌, ◌==◌, has, Distinct, erase,
  last, has-last, arith, Bool-cases, inl, inr, ap, sym, ==-true,
}

abbrev pub Ptr : Type 0
Ptr = ℕ

-- NULL
abbrev pub null : Ptr
null = 0

-- The write `p->field = v`.
abbrev pub update {ℓ} : {A : Type ℓ} → (Ptr → A) → Ptr → A → Ptr → A
update f p v a = if a == p then v else f a

pub update-at {ℓ} : {A : Type ℓ} (f : Ptr → A) (p : Ptr) (v : A) → update f p v p ≡ v
update-at f p v = ground arith

pub update-same {ℓ} : {A : Type ℓ} (f : Ptr → A) (p : Ptr) → update f p (f p) ≡ f
update-same f p = fun_ext λ a. elim (Bool-cases (a == p)) [
  | inl here ↦ rw here (ap f (sym (==-true a p here)))
  | inr away ↦ rw away refl
]

pub update-update {ℓ} :
    {A : Type ℓ} (f : Ptr → A) (p : Ptr) (u v : A) → update (update f p u) p v ≡ update f p v
update-update f p u v = fun_ext λ a. ground arith

-- From `p` the links lead through the addresses `xs` to `q`.
abbrev pub Chain : (Ptr → Ptr) → Ptr → List Ptr → Ptr → Type 0
Chain nx p [] q = p ≡ q
Chain nx p (x ∷ xs) q = (p ≡ x) × (x ≢ null) × Chain nx (nx x) xs q

-- The element before `t` in `p ∷ xs`.
abbrev pub pred_of : Ptr → Ptr → List Ptr → Ptr
pred_of t p [] = p
pred_of t p (x ∷ xs) = if x == t then p else pred_of t x xs

pub has-pred_of : (t p : Ptr) (xs : List Ptr) → has (pred_of t p xs) (p ∷ xs) ≡ true
has-pred_of t p [] = ground arith
has-pred_of t p (x ∷ xs) = ground (arith, has-pred_of t x xs)

module _ (nx : Ptr → Ptr) where
  pub Chain-frame :
      (nx' : Ptr → Ptr) (p q : Ptr) (xs : List Ptr)
      → ((a : Ptr) → has a xs ≡ true → nx' a ≡ nx a)
      → Chain nx p xs q
      → Chain nx' p xs q
  Chain-frame nx' p q [] same c = c
  Chain-frame nx' p q (x ∷ xs) same (e, n, c) = (
    e,
    n,
    rw (same x (ground arith)) (Chain-frame nx' (nx x) q xs (λ a h. same a (ground arith)) c),
  )

  pub Chain-update :
      (p q a v : Ptr) (xs : List Ptr)
      → has a xs ≡ false
      → Chain nx p xs q
      → Chain (update nx a v) p xs q
  Chain-update p q a v xs out c = Chain-frame (update nx a v) p q xs (λ b h. ground arith) c

  -- The node after `p ∷ ys` is linked in behind the last one, and points on to where that pointed.
  pub Chain-snoc :
      (p t q : Ptr) (ys : List Ptr)
      → t ≢ null
      → has t (p ∷ ys) ≡ false
      → Distinct (p ∷ ys)
      → Chain nx p (p ∷ ys) q
      → Chain (update (update nx (last p ys) t) t q) p (p ∷ ys ++ t ∷ []) q
  Chain-snoc p t q [] n out d c = ground arith
  Chain-snoc p t q (y ∷ ys) n out d (e, np, c) =
      let e' : nx p ≡ y = c.0 in
      let rest = Chain-snoc y t q ys n (ground arith) d.1 (refl, c.1, c.2) in
      let stays : update (update nx (last y ys) t) t q p ≡ y = ground (arith, has-last y ys) in
      (refl, np, rw stays rest)

  -- The same with the predecessor `r` and the links `zs` that remain as variables.
  unlink-at :
      (p t q r : Ptr) (ys zs : List Ptr)
      → has t ys ≡ true
      → Distinct (p ∷ ys)
      → r ≡ pred_of t p ys
      → zs ≡ erase t ys
      → Chain nx p (p ∷ ys) q
      → Chain (update nx r (nx t)) p (p ∷ zs) q
  unlink-at p t q r [] zs h d er ez c = absurd (ground arith)
  unlink-at p t q r (y ∷ ys) zs h d er ez (e, np, c) = elim (Bool-cases (y == t)) [
    | inl hit ↦
        let here : r ≡ p = ground arith in
        let left : zs ≡ ys = ground arith in
        let next : y ≡ t = ground arith in
        let now : update nx r (nx t) p ≡ nx y = ground arith in
        rw left (refl, np, rw now (Chain-update (nx y) q r (nx t) ys (ground arith) c.2))
    | inr miss ↦
        let left : zs ≡ y ∷ erase t ys = ground arith in
        let within : r ≡ pred_of t y ys = ground arith in
        let stays : update nx r (nx t) p ≡ y = ground (arith, has-pred_of t y ys) in
        rw left (
          refl,
          np,
          rw stays
              (unlink-at y t q r ys (erase t ys) (ground arith) d.1 within refl (refl, c.1, c.2)),
        )
  ]

  -- Unlinking `t` from behind its predecessor.
  pub Chain-unlink :
      (p t q : Ptr) (ys : List Ptr)
      → has t ys ≡ true
      → Distinct (p ∷ ys)
      → Chain nx p (p ∷ ys) q
      → Chain (update nx (pred_of t p ys) (nx t)) p (p ∷ erase t ys) q
  Chain-unlink p t q ys h d c = unlink-at p t q _ ys _ h d refl refl c

  -- The link of the last node is redirected from `q` to `r`.
  pub Chain-relink :
      (p q r : Ptr) (ys : List Ptr)
      → Distinct (p ∷ ys)
      → Chain nx p (p ∷ ys) q
      → Chain (update nx (last p ys) r) p (p ∷ ys) r
  Chain-relink p q r [] d c = ground arith
  Chain-relink p q r (y ∷ ys) d (e, np, c) =
      let e' : nx p ≡ y = c.0 in
      let rest = Chain-relink y q r ys d.1 (refl, c.1, c.2) in
      let stays : update nx (last y ys) r p ≡ y = ground (arith, has-last y ys) in
      (refl, np, rw stays rest)

  pub Chain-append :
      (p q r : Ptr) (xs ys : List Ptr) → Chain nx p xs q → Chain nx q ys r → Chain nx p (xs ++ ys) r
  Chain-append p q r [] ys e c = rw e c
  Chain-append p q r (x ∷ xs) ys (e, n, b) c = (e, n, Chain-append (nx x) q r xs ys b c)

  pub Chain-ne_null : (p q a : Ptr) (xs : List Ptr) → has a xs ≡ true → Chain nx p xs q → a ≢ null
  Chain-ne_null p q a [] i c = absurd (ground arith)
  Chain-ne_null p q a (x ∷ xs) i (e, n, c) = elim (Bool-cases (a == x)) [
    | inl hit ↦ let a_is_x : a ≡ x = ground arith in λ z. n (ground arith)
    | inr miss ↦ Chain-ne_null (nx x) q a xs (ground arith) c
  ]

  -- A node of a chain that ends elsewhere does not point to itself.
  pub Chain-next_ne :
      (p q t : Ptr) (ys : List Ptr)
      → has t (p ∷ ys) ≡ true
      → Distinct (p ∷ ys)
      → Chain nx p (p ∷ ys) q
      → t ≢ q
      → nx t ≢ t
  Chain-next_ne p q t [] i d c ne = ground arith
  Chain-next_ne p q t (y ∷ ys) i d (e, n, c) ne = elim (Bool-cases (t == p)) [
    | inl hit ↦ let e' : nx p ≡ y = c.0 in ground arith
    | inr miss ↦ Chain-next_ne y q t ys (ground arith) d.1 (refl, c.1, c.2) ne
  ]
