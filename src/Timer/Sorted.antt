-- ===== src/Timer/Sorted.antt =====
-- The list of timers: sorted by expiry, the earlier started first among equals.
use microkernel_rtos.Common.{
  ℕ, zero, suc, ◌≤◌, ◌<◌, ◌≡◌, ◌≢◌, refl, List, [], ◌∷◌, ◌++◌, true, false, some, ◌||◌, ◌==◌, leb,
  if◌then◌else◌, has, Distinct, length, last, arith, sym, subst, ap, has-append, ==-false,
  Bool-cases, inl, inr, has-last,
}
use microkernel_rtos.Links.{Ptr, null, update, update-at, Chain, Chain-update, Chain-ne_null}
use microkernel_rtos.Kernel.{walk_fuel}
use microkernel_rtos.Timer.{Timers, insert_walk, link_in, insert_sorted}

abbrev pub AtLeast : (Ptr → ℕ) → ℕ → List Ptr → Type 0
AtLeast f n [] = Unit {0}
AtLeast f n (x ∷ xs) = (n ≤ f x) × AtLeast f n xs

abbrev pub InOrder : (Ptr → ℕ) → List Ptr → Type 0
InOrder f [] = Unit {0}
InOrder f (x ∷ xs) = AtLeast f (f x) xs × InOrder f xs

-- The timers `ts` are running, in the order in which they expire.
pub record Running (s : Timers) (ts : List Ptr) : Type 0 where
  pub chain : Chain s.next s.timer_list ts null
  pub distinct : Distinct ts
  pub short : length ts < walk_fuel
  pub ordered : InOrder s.expiry_tick ts
  pub live : (p : Ptr) → has p ts ≡ true → s.active p ≡ true

-- The timers that expire at `e` or before, at the front of a list, and the others.
abbrev pub upto : (Ptr → ℕ) → ℕ → List Ptr → List Ptr
upto f e [] = []
upto f e (x ∷ xs) = if leb (f x) e then x ∷ upto f e xs else []

abbrev pub beyond : (Ptr → ℕ) → ℕ → List Ptr → List Ptr
beyond f e [] = []
beyond f e (x ∷ xs) = if leb (f x) e then beyond f e xs else x ∷ xs

abbrev pub first : List Ptr → Ptr
first [] = null
first (x ∷ xs) = x

pub upto-beyond : (f : Ptr → ℕ) (e : ℕ) (xs : List Ptr) → upto f e xs ++ beyond f e xs ≡ xs
upto-beyond f e [] = refl
upto-beyond f e (x ∷ xs) = elim (Bool-cases (leb (f x) e)) [
  | inl h ↦ rw h (ap (λ ys. x ∷ ys) (upto-beyond f e xs))
  | inr h ↦ rw h refl
]

insert_walk-ends :
    (nx : Ptr → Ptr) (f : Ptr → ℕ) (e fuel : ℕ) (prev curr : Ptr) (ts : List Ptr)
    → Chain nx curr ts null
    → length ts < fuel
    → insert_walk fuel nx f e prev curr ≡ some (last prev (upto f e ts), first (beyond f e ts))
unfolding insert_walk
insert_walk-ends nx f e zero prev curr ts c h = absurd (omega arith)
insert_walk-ends nx f e (suc fuel) prev curr [] c h = rw c refl
insert_walk-ends nx f e (suc fuel) prev curr (x ∷ xs) (eq, n, c) h =
    rw (eq, ==-false n)
      (elim (Bool-cases (leb (f x) e)) [
        | inl early ↦ rw early (insert_walk-ends nx f e fuel x (nx x) xs c (omega arith))
        | inr late ↦ rw late refl
      ])

Chain-first : (nx : Ptr → Ptr) (p : Ptr) (ts : List Ptr) → Chain nx p ts null → p ≡ first ts
Chain-first nx p [] c = c
Chain-first nx p (x ∷ xs) c = c.0

-- `t` is linked in behind the last of `p ∷ front`.
Chain-insert :
    (nx : Ptr → Ptr) (p t : Ptr) (front back : List Ptr)
    → t ≢ null
    → has t (p ∷ front ++ back) ≡ false
    → Distinct (p ∷ front ++ back)
    → Chain nx p (p ∷ front ++ back) null
    → Chain (update (update nx t (first back)) (last p front) t) p (p ∷ front ++ t ∷ back) null
Chain-insert nx p t [] back n out d (e, np, c) =
    let to : nx p ≡ first back = Chain-first nx (nx p) back c in
    let off : has t back ≡ false = ground arith in
    let now : update (update nx t (first back)) p t p ≡ t = ground arith in
    let on : update (update nx t (first back)) p t t ≡ nx p = ground arith in
    let rest =
      Chain-update (update nx t (first back)) (nx p) null p t back d.0
        (Chain-update nx (nx p) null t (first back) back off c) in
    (refl, np, (now, n, rw on rest))
Chain-insert nx p t (y ∷ ys) back n out d (e, np, c) =
    let rest = Chain-insert nx y t ys back n (ground arith) d.1 (refl, c.1, c.2) in
    let to : nx p ≡ y = c.0 in
    let stays : update (update nx t (first back)) (last y ys) t p ≡ y =
      ground (arith, has-last y ys, has-append p ys back) in
    (refl, np, rw stays rest)

-- The list with `t` behind the timers that expire no later than it.
abbrev pub insert_at : (Ptr → ℕ) → Ptr → List Ptr → List Ptr
insert_at f t ts = upto f (f t) ts ++ t ∷ beyond f (f t) ts

-- `s` with its timers linked anew.
abbrev pub listed : Timers → (Ptr → Ptr) → Ptr → Timers
listed s nx h = record s { next = nx; timer_list = h }

link_in-Chain :
    (s : Timers) (t : Ptr) (front back : List Ptr)
    → t ≢ null
    → has t (front ++ back) ≡ false
    → Distinct (front ++ back)
    → Chain s.next s.timer_list (front ++ back) null
    → (nx : Ptr → Ptr) × (h : Ptr) × (link_in s t (last null front) (first back) ≡ listed s nx h)
      × Chain nx h (front ++ t ∷ back) null
unfolding link_in
link_in-Chain s t [] back n out d c =
    let on : update s.next t s.timer_list t ≡ s.timer_list = update-at s.next t s.timer_list in
    (
      update s.next t s.timer_list,
      t,
      refl,
      (refl, n, rw on (Chain-update s.next s.timer_list null t s.timer_list back out c)),
    )
link_in-Chain s t (x ∷ xs) back n out d c =
    let inner : (last x xs == null) ≡ false = ==-false (
      Chain-ne_null s.next s.timer_list null (last x xs) (x ∷ xs ++ back)
        (ground (arith, has-last x xs, has-append (last x xs) xs back)) c) in
    let nx = update (update s.next t (first back)) (last x xs) t in
    (
      nx,
      s.timer_list,
      rw inner refl,
      subst (λ h. Chain nx h (x ∷ xs ++ t ∷ back) null) (sym (c.0))
          (Chain-insert s.next x t xs back n out d (refl, c.1, c.2)),
    )

-- What is late enough for the head of `back`, is late enough for all of it.
AtLeast-le : (f : Ptr → ℕ) (m n : ℕ) (xs : List Ptr) → m ≤ n → AtLeast f n xs → AtLeast f m xs
AtLeast-le f m n [] h a = tt
AtLeast-le f m n (x ∷ xs) h a = (omega (arith, a.0), AtLeast-le f m n xs h a.1)

pub AtLeast-insert :
    (f : Ptr → ℕ) (n e : ℕ) (t : Ptr) (xs : List Ptr)
    → n ≤ f t
    → AtLeast f n xs
    → AtLeast f n (upto f e xs ++ t ∷ beyond f e xs)
AtLeast-insert f n e t [] h a = (h, tt)
AtLeast-insert f n e t (x ∷ xs) h a = elim (Bool-cases (leb (f x) e)) [
  | inl early ↦ rw early (a.0, AtLeast-insert f n e t xs h a.1)
  | inr late ↦ rw late (h, a)
]

pub insert_at-InOrder :
    (f : Ptr → ℕ) (t : Ptr) (xs : List Ptr) → InOrder f xs → InOrder f (insert_at f t xs)
insert_at-InOrder f t [] o = (tt, tt)
insert_at-InOrder f t (x ∷ xs) o = elim (Bool-cases (leb (f x) (f t))) [
  | inl early ↦
      let le : f x ≤ f t = ground arith in
      rw early (AtLeast-insert f (f x) (f t) t xs le o.0, insert_at-InOrder f t xs o.1)
  | inr late ↦
      let le : f t ≤ f x = ground arith in rw late ((le, AtLeast-le f (f t) (f x) xs le o.0), o)
]

pub has-insert_at :
    (f : Ptr → ℕ) (e : ℕ) (p t : Ptr) (xs : List Ptr)
    → has p (upto f e xs ++ t ∷ beyond f e xs) ≡ ((t == p) || has p xs)
has-insert_at f e p t [] = ground arith
has-insert_at f e p t (x ∷ xs) = elim (Bool-cases (leb (f x) e)) [
  | inl early ↦ rw early (let r = has-insert_at f e p t xs in ground arith)
  | inr late ↦ rw late (ground arith)
]

insert_at-Distinct :
    (f : Ptr → ℕ) (e : ℕ) (t : Ptr) (xs : List Ptr)
    → Distinct xs
    → has t xs ≡ false
    → Distinct (upto f e xs ++ t ∷ beyond f e xs)
insert_at-Distinct f e t [] d out = (refl, tt)
insert_at-Distinct f e t (x ∷ xs) d out = elim (Bool-cases (leb (f x) e)) [
  | inl early ↦
      let r = has-insert_at f e x t xs in
      rw early (ground arith, insert_at-Distinct f e t xs d.1 (ground arith))
  | inr late ↦ rw late (out, d)
]

length-insert_at :
    (f : Ptr → ℕ) (e : ℕ) (t : Ptr) (xs : List Ptr)
    → length (upto f e xs ++ t ∷ beyond f e xs) ≡ suc (length xs)
length-insert_at f e t [] = refl
length-insert_at f e t (x ∷ xs) = elim (Bool-cases (leb (f x) e)) [
  | inl early ↦ rw early (ap suc (length-insert_at f e t xs))
  | inr late ↦ rw late refl
]

-- _insert_sorted puts a timer behind those that expire no later than it, and the list stays sorted.
pub insert_sorted-Running :
    (s : Timers) (t : Ptr) {ts : List Ptr}
    → Running s ts
    → t ≢ null
    → has t ts ≡ false
    → s.active t ≡ true
    → suc (length ts) < walk_fuel
    → (nx : Ptr → Ptr) × (h : Ptr) × (insert_sorted s t ≡ some (listed s nx h))
      × Running (listed s nx h) (insert_at s.expiry_tick t ts)
unfolding insert_sorted
insert_sorted-Running s t {ts} r n out on room =
    let f = s.expiry_tick in
    let front = upto f (f t) ts in
    let back = beyond f (f t) ts in
    let split : ts ≡ front ++ back = sym (upto-beyond f (f t) ts) in
    let walk = insert_walk-ends s.next f (f t) walk_fuel null s.timer_list ts r.chain r.short in
    let (nx, h, e, c) =
      link_in-Chain s t front back n (subst (λ v. has t v ≡ false) split out)
        (subst Distinct split r.distinct)
        (subst (λ v. Chain s.next s.timer_list v null) split r.chain) in
    (
      nx,
      h,
      rw walk (ap some e),
      record {
        chain = c;
        distinct = insert_at-Distinct f (f t) t ts r.distinct out;
        short = omega (arith, length-insert_at f (f t) t ts);
        ordered = insert_at-InOrder f t ts r.ordered;
        live = λ p i. ground (arith, has-insert_at f (f t) p t ts, r.live p);
      },
    )
