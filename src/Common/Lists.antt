-- ===== src/Common/Lists.antt =====
-- Lists of addresses measured by native numbers: membership, distinctness, erasure.
use Prim.Native.Nat.{ℕ, suc, ◌+◌, ◌≤◌}
use mathlib.Core.Path.{◌≡◌, refl, subst}
use mathlib.Core.Bool.{Bool, true, false, ◌||◌, ◌&&◌, not}
use mathlib.Core.List.{List, [], ◌∷◌, ◌++◌}
use native.Mathlib.Omega.{arith}
use microkernel_rtos.Common.Tests.{◌==◌, if◌then◌else◌, ==-false}

abbrev pub length {ℓ} : {A : Type ℓ} → List A → ℕ
length [] = 0
length (x ∷ xs) = suc (length xs)

pub length-append {ℓ} : {A : Type ℓ} (xs ys : List A) → length (xs ++ ys) ≡ length xs + length ys
length-append [] ys = omega arith
length-append (x ∷ xs) ys = omega (arith, length-append xs ys)

abbrev pub has : ℕ → List ℕ → Bool
has a [] = false
has a (x ∷ xs) = (a == x) || has a xs

abbrev pub Distinct : List ℕ → Type 0
Distinct [] = Unit {0}
Distinct (x ∷ xs) = (has x xs ≡ false) × Distinct xs

-- Without the first occurrence of `a`.
abbrev pub erase : ℕ → List ℕ → List ℕ
erase a [] = []
erase a (x ∷ xs) = if x == a then xs else x ∷ erase a xs

-- The last of the addresses `p ∷ xs`.
abbrev pub last : ℕ → List ℕ → ℕ
last p [] = p
last p (x ∷ xs) = last x xs

pub has-append : (a : ℕ) (xs ys : List ℕ) → has a (xs ++ ys) ≡ (has a xs || has a ys)
has-append a [] ys = refl
has-append a (x ∷ xs) ys = ground (arith, has-append a xs ys)

pub has-last : (p : ℕ) (xs : List ℕ) → has (last p xs) (p ∷ xs) ≡ true
has-last p [] = ground arith
has-last p (x ∷ xs) = ground (arith, has-last x xs)

pub has-erase : (a t : ℕ) (xs : List ℕ) → has a xs ≡ false → has a (erase t xs) ≡ false
has-erase a t [] h = refl
has-erase a t (x ∷ xs) h = ground (arith, has-erase a t xs)

pub has-erase_self : (t : ℕ) (xs : List ℕ) → Distinct xs → has t (erase t xs) ≡ false
has-erase_self t [] d = refl
has-erase_self t (x ∷ xs) d = ground (arith, has-erase_self t xs)

pub has-of_erase :
    (a t : ℕ) (xs : List ℕ) → Distinct xs → has a (erase t xs) ≡ (has a xs && not (a == t))
has-of_erase a t [] d = refl
has-of_erase a t (x ∷ xs) d = ground (arith, has-of_erase a t xs)

pub erase-Distinct : (t : ℕ) (xs : List ℕ) → Distinct xs → Distinct (erase t xs)
erase-Distinct t [] d = d
erase-Distinct t (x ∷ xs) d = ground (arith, erase-Distinct t xs, has-erase x t xs)

pub erase_of_not_has : (t : ℕ) (xs : List ℕ) → has t xs ≡ false → erase t xs ≡ xs
erase_of_not_has t [] h = refl
erase_of_not_has t (x ∷ xs) h = ground (arith, erase_of_not_has t xs)

pub erase-snoc : (t : ℕ) (xs : List ℕ) → has t xs ≡ false → erase t (xs ++ t ∷ []) ≡ xs
erase-snoc t [] h = ground arith
erase-snoc t (x ∷ xs) h = ground (arith, erase-snoc t xs)

pub snoc-Distinct : (t : ℕ) (xs : List ℕ) → Distinct xs → has t xs ≡ false → Distinct (xs ++ t ∷ [])
snoc-Distinct t [] d h = (refl, tt)
snoc-Distinct t (x ∷ xs) d h = ground (arith, snoc-Distinct t xs, has-append x xs (t ∷ []))

pub length-erase-le : (t : ℕ) (xs : List ℕ) → length (erase t xs) ≤ length xs
length-erase-le t [] = omega arith
length-erase-le t (x ∷ xs) = ground (arith, length-erase-le t xs)

erase-known :
    (x t : ℕ) (ts : List ℕ) → (t == x) ≡ false → has t ts ≡ true → has t (erase x ts) ≡ true
erase-known x t [] off i = absurd (ground arith)
erase-known x t (y ∷ ts) off i = ground (arith, erase-known x t ts)

erase-shorter : (x : ℕ) (ts : List ℕ) → has x ts ≡ true → suc (length (erase x ts)) ≡ length ts
erase-shorter x [] i = absurd (ground arith)
erase-shorter x (y ∷ ts) i = ground (arith, erase-shorter x ts)

-- Distinct tasks of a list are no more than the list has.
pub length-le :
    (xs ts : List ℕ)
    → Distinct xs
    → ((t : ℕ) → has t xs ≡ true → has t ts ≡ true)
    → length xs ≤ length ts
length-le [] ts d known = omega arith
length-le (x ∷ xs) ts d known =
    let rest = length-le xs (erase x ts) d.1 (λ t i.
      erase-known x t ts
        (==-false λ (e : t ≡ x). absurd (ground (arith, d.0, subst (λ v. has v xs ≡ true) e i)))
        (known t (ground arith))) in
    omega (arith, rest, erase-shorter x ts (known x (ground arith)))
