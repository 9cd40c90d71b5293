-- ===== src/Heap/Tiles.antt =====
-- The blocks of the pool: free and used blocks that tile it. What taking, giving back, cutting and
-- merging blocks does to such a tiling.
use microkernel_rtos.Common.{
  ℕ, ◌+◌, ◌-◌, ◌*◌, ◌≤◌, ◌≡◌, ◌≢◌, ◌⊎◌, refl, List, [], ◌∷◌, true, false, ◌||◌, ◌&&◌, not, ◌==◌,
  has, Distinct, erase, length, arith, Bool-cases, inl, inr, erase-Distinct, has-of_erase, ==-true,
}
use microkernel_rtos.Links.{Ptr, update}
use microkernel_rtos.Heap.{heap_pool_size, header_size}

abbrev pub sum : (Ptr → ℕ) → List Ptr → ℕ
sum f [] = 0
sum f (x ∷ xs) = f x + sum f xs

pub sum-erase :
    (f : Ptr → ℕ) (b : Ptr) (xs : List Ptr) → has b xs ≡ true → f b + sum f (erase b xs) ≡ sum f xs
sum-erase f b [] i = absurd (ground arith)
sum-erase f b (x ∷ xs) i = elim (Bool-cases (x == b)) [
  | inl hit ↦ let e : x ≡ b = ==-true x b hit in rw hit (rw e refl)
  | inr miss ↦ rw miss (omega (arith, sum-erase f b xs (ground arith)))
]

pub sum-update :
    (f : Ptr → ℕ) (b v : ℕ) (xs : List Ptr) → has b xs ≡ false → sum (update f b v) xs ≡ sum f xs
sum-update f b v [] off = refl
sum-update f b v (x ∷ xs) off = ground (arith, sum-update f b v xs)

pub sum-set :
    (f : Ptr → ℕ) (b v : ℕ) (xs : List Ptr)
    → has b xs ≡ true
    → Distinct xs
    → sum (update f b v) xs + f b ≡ sum f xs + v
sum-set f b v [] i d = absurd (ground arith)
sum-set f b v (x ∷ xs) i d = elim (Bool-cases (b == x)) [
  | inl hit ↦
      let e : b ≡ x = ==-true b x hit in
      let off : has b xs ≡ false = ground arith in ground (arith, sum-update f b v xs)
  | inr miss ↦ ground (arith, sum-set f b v xs)
]

-- The blocks `fs` are free, the blocks `us` are used; `f` gives their sizes, and `lo` is the pool.
pub record Tiles (f : Ptr → ℕ) (lo : Ptr) (fs us : List Ptr) : Type 0 where
  pub free_distinct : Distinct fs
  pub used_distinct : Distinct us
  pub separate : (b : Ptr) → has b fs ≡ true → has b us ≡ false
  pub sized : (b : Ptr) → (has b fs || has b us) ≡ true → header_size + 8 ≤ f b
  pub above : (b : Ptr) → (has b fs || has b us) ≡ true → lo ≤ b
  pub below : (b : Ptr) → (has b fs || has b us) ≡ true → b + f b ≤ lo + heap_pool_size
  pub apart :
      (a b : Ptr)
      → (has a fs || has a us) ≡ true
      → (has b fs || has b us) ≡ true
      → a ≢ b
      → (a + f a ≤ b) ⊎ (b + f b ≤ a)
  pub total : sum f fs + sum f us ≡ heap_pool_size

module _ {f : Ptr → ℕ} {lo : Ptr} {fs us : List Ptr} (t : Tiles f lo fs us) where
  -- The same blocks, otherwise shared out.
  reshare :
      (fs' us' : List Ptr)
      → Distinct fs'
      → Distinct us'
      → ((b : Ptr) → has b fs' ≡ true → has b us' ≡ false)
      → ((b : Ptr) → (has b fs' || has b us') ≡ (has b fs || has b us))
      → sum f fs' + sum f us' ≡ sum f fs + sum f us
      → Tiles f lo fs' us'
  reshare fs' us' df du sep same tot = record {
    free_distinct = df;
    used_distinct = du;
    separate = sep;
    sized = λ b i. ground (arith, t.sized b, same b);
    above = λ b i. ground (arith, t.above b, same b);
    below = λ b i. ground (arith, t.below b, same b);
    apart = λ a b i j n. ground (arith, t.apart a b, same a, same b);
    total = omega (arith, tot, t.total);
  }

  -- A free block is put to use.
  pub Tiles-take : (c : Ptr) → has c fs ≡ true → Tiles f lo (erase c fs) (c ∷ us)
  Tiles-take c i =
      reshare (erase c fs) (c ∷ us) (erase-Distinct c fs t.free_distinct)
        (t.separate c i, t.used_distinct)
        (λ b j. ground (arith, has-of_erase b c fs t.free_distinct, t.separate b))
        (λ b. ground (arith, has-of_erase b c fs t.free_distinct))
        (omega (arith, sum-erase f c fs i))

  -- A used block is given back.
  pub Tiles-give : (c : Ptr) → has c us ≡ true → Tiles f lo (c ∷ fs) (erase c us)
  Tiles-give c i =
      let off : has c fs ≡ false = elim (Bool-cases (has c fs)) [
        | inl both ↦ absurd (ground (arith, t.separate c both))
        | inr off ↦ off
      ] in
      reshare (c ∷ fs) (erase c us) (off, t.free_distinct) (erase-Distinct c us t.used_distinct)
        (λ b j. ground (arith, has-of_erase b c us t.used_distinct, t.separate b))
        (λ b. ground (arith, has-of_erase b c us t.used_distinct))
        (omega (arith, sum-erase f c us i))

  -- A used block is cut in two, and the rear part is free.
  pub Tiles-split :
      (c : Ptr) (m : ℕ)
      → has c us ≡ true
      → header_size + 8 ≤ m
      → m + (header_size + 8) ≤ f c
      → Tiles (update (update f (c + m) (f c - m)) c m) lo ((c + m) ∷ fs) us
  Tiles-split c m i low high = record {
    free_distinct = (off_free, t.free_distinct);
    used_distinct = t.used_distinct;
    separate = λ b j. ground (arith, t.separate b, off_used);
    sized = λ b j. ground (arith, t.sized b);
    above = λ b j. ground (arith, t.above b, t.above c);
    below = λ b j. ground (arith, t.below b, t.below c);
    apart = λ a b j k n. ground (arith, t.apart a b, t.apart a c, t.apart c b);
    total = tot;
  }
    where
      fresh : (has (c + m) fs || has (c + m) us) ≡ false
      fresh = elim (Bool-cases (has (c + m) fs || has (c + m) us)) [
        | inl on ↦ absurd (ground (arith, t.apart c (c + m), t.sized (c + m)))
        | inr off ↦ off
      ]

      off_free : has (c + m) fs ≡ false
      off_free = ground (arith, fresh)

      off_used : has (c + m) us ≡ false
      off_used = ground (arith, fresh)

      cut : Ptr → ℕ
      cut = update f (c + m) (f c - m)

      c_off : has c fs ≡ false
      c_off = elim (Bool-cases (has c fs)) [
        | inl both ↦ absurd (ground (arith, t.separate c both))
        | inr off ↦ off
      ]

      tot : sum (update cut c m) ((c + m) ∷ fs) + sum (update cut c m) us ≡ heap_pool_size
      tot =
          let e1 = sum-update cut c m fs c_off in
          let e2 = sum-update f (c + m) (f c - m) fs off_free in
          let e3 = sum-set cut c m us i t.used_distinct in
          let e4 = sum-update f (c + m) (f c - m) us off_used in
          let e5 : cut c ≡ f c = ground arith in
          let e6 : update cut c m (c + m) ≡ f c - m = ground arith in
          omega (arith, e1, e2, e3, e4, e5, e6, t.total)

  -- Two free blocks, `y` just behind `x`, become one.
  pub Tiles-merge :
      (x y : Ptr)
      → has x fs ≡ true
      → has y fs ≡ true
      → x + f x ≡ y
      → Tiles (update f x (f x + f y)) lo (erase y fs) us
  Tiles-merge x y i j next = record {
    free_distinct = erase-Distinct y fs t.free_distinct;
    used_distinct = t.used_distinct;
    separate = λ b k. ground (arith, t.separate b, gone b);
    sized = λ b k. ground (arith, t.sized b, gone b);
    above = λ b k. ground (arith, t.above b, gone b);
    below = λ b k. ground (arith, t.below b, t.below y, gone b);
    apart = λ a b k l n. ground (
      arith,
      t.apart a b,
      t.apart a y,
      t.apart y b,
      gone a,
      gone b,
      t.sized a,
      t.sized b,
      t.separate a,
      t.separate b,
    );
    total = tot;
  }
    where
      gone : (b : Ptr) → has b (erase y fs) ≡ (has b fs && not (b == y))
      gone b = has-of_erase b y fs t.free_distinct

      x_on : has x (erase y fs) ≡ true
      x_on = ground (arith, gone x, t.sized x)

      tot :
          sum (update f x (f x + f y)) (erase y fs) + sum (update f x (f x + f y)) us
          ≡ heap_pool_size
      tot =
          let e1 =
            sum-set f x (f x + f y) (erase y fs) x_on (erase-Distinct y fs t.free_distinct) in
          let e2 = sum-erase f y fs j in
          let e3 = sum-update f x (f x + f y) us (t.separate x i) in
          omega (arith, e1, e2, e3, t.total)

pub length-le_sum :
    (f : Ptr → ℕ) (xs : List Ptr)
    → ((b : Ptr) → has b xs ≡ true → header_size + 8 ≤ f b)
    → (header_size + 8) * length xs ≤ sum f xs
length-le_sum f [] big = omega arith
length-le_sum f (x ∷ xs) big =
    omega (arith, big x (ground arith), length-le_sum f xs (λ b i. big b (ground arith)))
