-- ===== src/Timer/Stop.antt =====
-- sw_timer_stop: a timer leaves the list, wherever it stands on it.
use microkernel_rtos.Common.{
  ℕ, ◌≡◌, ◌≢◌, refl, List, [], ◌∷◌, true, false, some, ◌==◌, if◌then◌else◌, has, erase, arith, sym,
  subst, ==-false, ==-true, Bool-cases, inl, inr, has-erase, has-erase_self, erase-Distinct,
  length-erase-le, erase_of_not_has,
}
use microkernel_rtos.Links.{
  Ptr, null, update, pred_of, has-pred_of, Chain, Chain-update, Chain-unlink, Chain-ne_null,
}
use microkernel_rtos.Kernel.{walk_fuel}
use microkernel_rtos.Waiting.Chains.{list_find-found, list_find-missing}
use microkernel_rtos.Timer.{Timers, set_next, sw_timer_stop, unlink_timer}
use microkernel_rtos.Timer.Sorted.{AtLeast, InOrder, Running}

AtLeast-erase :
    (f : Ptr → ℕ) (n : ℕ) (t : Ptr) (xs : List Ptr) → AtLeast f n xs → AtLeast f n (erase t xs)
AtLeast-erase f n t [] a = tt
AtLeast-erase f n t (x ∷ xs) a = elim (Bool-cases (x == t)) [
  | inl hit ↦ rw hit a.1
  | inr miss ↦ rw miss (a.0, AtLeast-erase f n t xs a.1)
]

InOrder-erase : (f : Ptr → ℕ) (t : Ptr) (xs : List Ptr) → InOrder f xs → InOrder f (erase t xs)
InOrder-erase f t [] o = tt
InOrder-erase f t (x ∷ xs) o = elim (Bool-cases (x == t)) [
  | inl hit ↦ rw hit o.1
  | inr miss ↦ rw miss (AtLeast-erase f (f x) t xs o.0, InOrder-erase f t xs o.1)
]

-- The timer `t` is unlinked; the others run on.
unlinked :
    (s s' : Timers) (t : Ptr) (ts : List Ptr)
    → Running s ts
    → Chain s'.next s'.timer_list (erase t ts) null
    → s'.expiry_tick ≡ s.expiry_tick
    → s'.active ≡ update s.active t false
    → Running s' (erase t ts)
unlinked s s' t ts r c same off = record {
  chain = c;
  distinct = erase-Distinct t ts r.distinct;
  short = omega (arith, length-erase-le t ts, r.short);
  ordered =
      subst (λ f. InOrder f (erase t ts)) (sym same) (InOrder-erase s.expiry_tick t ts r.ordered);
  live = λ p i.
      subst (λ f. f p ≡ true) (sym off)
        (ground (arith, has-erase p t ts, has-erase_self t ts r.distinct, r.live p));
}

-- `t` is inactive, and the list is linked anew.
abbrev pub stopped : Timers → Ptr → (Ptr → Ptr) → Ptr → Timers
stopped s t nx head = record s { next = nx; timer_list = head; active = update s.active t false }

-- What sw_timer_stop does to a timer behind `prev`, and to the head of the list.
abbrev behind : Timers → Ptr → Ptr → Timers
behind s t prev = record (set_next (set_next s prev (s.next t)) t null) {
  active = update s.active t false;
}

abbrev beheaded : Timers → Ptr → Timers
beheaded s t = record (set_next s t null) {
  timer_list = s.next t;
  active = update s.active t false;
}

module _ (s : Timers) (t x : Ptr) (ys : List Ptr) (r : Running s (x ∷ ys)) where
  stop-first : (x == t) ≡ true → Running (beheaded s t) (erase t (x ∷ ys))
  stop-first hit =
      let e : x ≡ t = ==-true x t hit in
      let out : has t ys ≡ false = subst (λ v. has v ys ≡ false) e (r.distinct.0) in
      let rest : Chain s.next (s.next t) ys null =
        subst (λ v. Chain s.next (s.next v) ys null) e (r.chain.2) in
      let c = Chain-update s.next (s.next t) null t null ys out rest in
      unlinked s (beheaded s t) t (x ∷ ys) r (rw hit c) refl refl

  stop-inner :
      (x == t) ≡ false → has t ys ≡ true → Running (behind s t (pred_of t x ys)) (erase t (x ∷ ys))
  stop-inner miss on =
      let prev = pred_of t x ys in
      let off : has t (x ∷ erase t ys) ≡ false = ground (arith, has-erase_self t ys r.distinct.1) in
      let c =
        Chain-update (update s.next prev (s.next t)) x null t null (x ∷ erase t ys) off
          (Chain-unlink s.next x t null ys on r.distinct (refl, r.chain.1, r.chain.2)) in
      unlinked s (behind s t prev) t (x ∷ ys) r
        (rw miss
          (subst (λ h. Chain (behind s t prev).next h (x ∷ erase t ys) null) (sym (r.chain.0)) c))
        refl refl

  -- The walk finds the timer.
  stop-found :
      t ≢ null
      → has t (x ∷ ys) ≡ true
      → (nx : Ptr → Ptr) × (head : Ptr) × (sw_timer_stop s t ≡ some (stopped s t nx head))
        × Running (stopped s t nx head) (erase t (x ∷ ys))
  unfolding sw_timer_stop unlink_timer
  stop-found ne on =
      let walk = list_find-found s.next walk_fuel t null s.timer_list x ys on r.chain r.short in
      elim (Bool-cases (x == t)) [
        | inl hit ↦ (
          (beheaded s t).next,
          (beheaded s t).timer_list,
          rw (==-false ne, walk) (rw hit refl),
          stop-first hit,
        )
        | inr miss ↦
            let inner : (pred_of t x ys == null) ≡ false = ==-false (
              Chain-ne_null s.next s.timer_list null (pred_of t x ys) (x ∷ ys) (has-pred_of t x ys)
                r.chain) in
            (
              (behind s t (pred_of t x ys)).next,
              s.timer_list,
              rw (==-false ne, walk) (rw miss (rw inner refl)),
              stop-inner miss (ground arith),
            )
      ]

-- What is left: `t` is inactive and off the list, and nothing else has changed, or nothing has.
abbrev pub after_stop : Timers → Ptr → List Ptr → (Ptr → Ptr) → Ptr → Timers
after_stop s t ts nx head = if has t ts then stopped s t nx head else s

-- sw_timer_stop takes a timer that is running off the list, wherever it stands there, and makes it
-- inactive; the others run on in their order, and no other field of a timer changes. Where the
-- timer is not running, the call changes nothing at all.
pub sw_timer_stop-Running :
    (s : Timers) (t : Ptr) (ts : List Ptr)
    → t ≢ null
    → Running s ts
    → (nx : Ptr → Ptr) × (head : Ptr) × (sw_timer_stop s t ≡ some (after_stop s t ts nx head))
      × Running (after_stop s t ts nx head) (erase t ts)
unfolding sw_timer_stop unlink_timer
sw_timer_stop-Running s t [] ne r =
    let walk = list_find-missing s.next walk_fuel t null s.timer_list [] refl r.chain r.short in
    (s.next, s.timer_list, rw (==-false ne, walk) refl, r)
sw_timer_stop-Running s t (x ∷ ys) ne r = elim (Bool-cases (has t (x ∷ ys))) [
  | inl on ↦ let (nx, head, e, r') = stop-found s t x ys r ne on in (nx, head, rw on e, rw on r')
  | inr out ↦
      let walk =
        list_find-missing s.next walk_fuel t null s.timer_list (x ∷ ys) out r.chain r.short in
      (
        s.next,
        s.timer_list,
        rw (==-false ne, walk) (rw out refl),
        rw out (subst (Running s) (sym (erase_of_not_has t (x ∷ ys) out)) r),
      )
]
