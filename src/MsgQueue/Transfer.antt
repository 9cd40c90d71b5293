-- ===== src/MsgQueue/Transfer.antt =====
-- What putting a message into a queue and taking one out do to its contents.
use native.Mathlib.Nat.{mod-add-mod}
use microkernel_rtos.Common.{
  ℕ, zero, suc, ◌+◌, ◌-◌, ◌*◌, ◌%◌, ◌<◌, ◌≡◌, ◌≢◌, refl, List, [], ◌∷◌, ◌++◌, arith, ap, ◌∙◌, sym,
  subst, inl, inr,
}
use microkernel_rtos.Links.{Ptr, update-at}
use microkernel_rtos.Kernel.{Kernel, MsgQueue, uint32_mod}
use microkernel_rtos.MsgQueue.{memcpy, slot_of, put_message, take_message}
use microkernel_rtos.MsgQueue.Memory.{
  read, Apart, read-memcpy_self, read-memcpy-Apart, slots-Apart, slot-below,
}
use microkernel_rtos.MsgQueue.Fifo.{
  IsRing, slot, messages, contents, messages-put, messages-same, slot_of-flat,
}

-- The queue at `q` is a ring of the messages `ms`.
pub record Holds (k : Kernel) (q : Ptr) (ms : List (List ℕ)) : Type 0 where
  pub ring : IsRing (k.queues q)
  pub holds : contents k.bytes (k.queues q) ≡ ms

pub Holds-at :
    (k : Kernel) (q : Ptr) (v : MsgQueue) {ms : List (List ℕ)}
    → k.queues q ≡ v
    → IsRing v
    → contents k.bytes v ≡ ms
    → Holds k q ms
Holds-at k q v {ms} e r c = record {
  ring = subst IsRing (sym e) r;
  holds = ap (contents k.bytes) e ∙ c;
}

-- `index + 1` does not wrap at 2 ^ 32.
next-index : (v : MsgQueue) (i : ℕ) → IsRing v → i < v.depth → (i + 1) % uint32_mod ≡ i + 1
next-index v i r h = omega (arith, r.narrow)

next-mod : (a d : ℕ) → (a % d + 1) % d ≡ (a + 1) % d
next-mod a d = rw mod-add-mod refl

next-sum : (a n d : ℕ) → (a % d + n) % d ≡ (a + n) % d
next-sum a n d = rw mod-add-mod refl

-- A slot stays clear of what the whole storage stays clear of.
within-Apart :
    (buf j depth size out : ℕ)
    → j < depth
    → Apart buf (depth * size) out size
    → Apart (buf + j * size) size out size
within-Apart buf j depth size out lt (inl before) =
    inl (omega (arith, slot-below buf j depth size lt))
within-Apart buf j depth size out lt (inr behind) = inr (omega arith)

-- A message that is put into a queue with a free slot becomes the youngest; the others stay.
pub put_message-Holds :
    (k : Kernel) (q msg : Ptr) {ms : List (List ℕ)}
    → Holds k q ms
    → (k.queues q).count < (k.queues q).depth
    → Holds (put_message k q msg) q (ms ++ read k.bytes msg (k.queues q).msg_size ∷ [])
unfolding put_message
put_message-Holds k q msg {ms} h room =
    Holds-at (put_message k q msg) q v' (update-at k.queues q v') ring'
      (ap (λ n. messages b' v v.head n) count' ∙ stored ∙ ap (λ xs. xs ++ m ∷ []) h.holds)
  where
    open h use {ring}

    v : MsgQueue
    v = k.queues q

    m : List ℕ
    m = read k.bytes msg v.msg_size

    b' : ℕ → ℕ
    b' = memcpy k.bytes (slot_of v v.tail) msg v.msg_size

    v' : MsgQueue
    v' = record v {
      tail = ((v.tail + 1) % uint32_mod) % v.depth;
      count = (v.count + 1) % uint32_mod;
    }

    tail_in : v.tail < v.depth
    tail_in = omega (arith, ring.tail_at, ring.head_in)

    flat : slot_of v v.tail ≡ v.buffer + v.tail * v.msg_size
    flat = slot_of-flat v v.tail ring tail_in

    count' : (v.count + 1) % uint32_mod ≡ suc v.count
    count' = omega (arith, ring.narrow)

    tail' : ((v.tail + 1) % uint32_mod) % v.depth ≡ (v.head + suc v.count) % v.depth
    tail' =
        ap (λ t. t % v.depth) (next-index v v.tail ring tail_in)
        ∙ ap (λ t. (t + 1) % v.depth) ring.tail_at
        ∙ next-mod (v.head + v.count) v.depth
        ∙ ap (λ t. t % v.depth) (omega arith)

    ring' : IsRing v'
    ring' = record {
      sized = ring.sized;
      fits = ring.fits;
      narrow = ring.narrow;
      head_in = ring.head_in;
      tail_at = tail' ∙ ap (λ n. (v.head + n) % v.depth) (sym count');
      count_in = omega (arith, count');
    }

    written : slot b' v v.tail ≡ m
    written =
        ap (λ a. read (memcpy k.bytes a msg v.msg_size) (v.buffer + v.tail * v.msg_size) v.msg_size)
          flat
        ∙ read-memcpy_self k.bytes (v.buffer + v.tail * v.msg_size) msg v.msg_size

    others : (j : ℕ) → j ≢ v.tail → slot b' v j ≡ slot k.bytes v j
    others j ne =
        read-memcpy-Apart k.bytes (slot_of v v.tail) msg v.msg_size (v.buffer + j * v.msg_size)
          v.msg_size
          (subst (λ a. Apart (v.buffer + j * v.msg_size) v.msg_size a v.msg_size) (sym flat)
            (slots-Apart v.buffer j v.tail v.msg_size ne))

    stored : messages b' v v.head (suc v.count) ≡ contents k.bytes v ++ m ∷ []
    stored =
        messages-put k.bytes b' v m v.tail v.head v.count written others ring.head_in room
          ring.tail_at

-- The first of the messages of a ring, and the others.
messages-cons :
    (b : ℕ → ℕ) (v : MsgQueue) (h n : ℕ) {m : List ℕ} {ms : List (List ℕ)}
    → messages b v h n ≡ m ∷ ms
    → (0 < n) × (slot b v h ≡ m) × (messages b v ((h + 1) % v.depth) (n - 1) ≡ ms)
messages-cons b v h zero e = cc
messages-cons b v h (suc n) e =
    let less : suc n - 1 ≡ n = omega arith in (omega arith, cc, rw less (cc))

-- Taking a message out of a queue that is not empty copies the oldest one to `out` and leaves the
-- others in their order, if `out` does not overlap the queue's storage.
pub take_message-Holds :
    (k : Kernel) (q out : Ptr) {m : List ℕ} {ms : List (List ℕ)}
    → let v = k.queues q in
      Holds k q (m ∷ ms)
      → Apart v.buffer (v.depth * v.msg_size) out v.msg_size
      → Holds (take_message k q out) q ms × (read (take_message k q out).bytes out v.msg_size ≡ m)
unfolding take_message
take_message-Holds k q out {m} {ms} h apart = (
  Holds-at (take_message k q out) q v' (update-at k.queues q v') ring' (
      ap (λ j. messages b' v j (v.count - 1)) head'
      ∙ messages-same k.bytes b' v ((v.head + 1) % v.depth) (v.count - 1) same next_in
      ∙ front.2),
  ap (λ a. read (memcpy k.bytes a' a v.msg_size) a' v.msg_size) flat
      ∙ read-memcpy_self k.bytes out (v.buffer + v.head * v.msg_size) v.msg_size
      ∙ front.1,
)
  where
    open h use {ring}

    v : MsgQueue
    v = k.queues q

    a' : Ptr
    a' = out

    b' : ℕ → ℕ
    b' = memcpy k.bytes out (slot_of v v.head) v.msg_size

    v' : MsgQueue
    v' = record v { head = ((v.head + 1) % uint32_mod) % v.depth; count = v.count - 1 }

    front :
        (0 < v.count)
        × (slot k.bytes v v.head ≡ m)
        × (messages k.bytes v ((v.head + 1) % v.depth) (v.count - 1) ≡ ms)
    front = messages-cons k.bytes v v.head v.count h.holds

    head' : ((v.head + 1) % uint32_mod) % v.depth ≡ (v.head + 1) % v.depth
    head' = ap (λ t. t % v.depth) (next-index v v.head ring ring.head_in)

    next_in : (v.head + 1) % v.depth < v.depth
    next_in = omega (arith, ring.head_in)

    flat : slot_of v v.head ≡ v.buffer + v.head * v.msg_size
    flat = slot_of-flat v v.head ring ring.head_in

    around : v.tail ≡ ((v.head + 1) % v.depth + (v.count - 1)) % v.depth
    around =
        ring.tail_at
        ∙ ap (λ t. t % v.depth) (omega (arith, front.0))
        ∙ sym (next-sum (v.head + 1) (v.count - 1) v.depth)

    ring' : IsRing v'
    ring' = record {
      sized = ring.sized;
      fits = ring.fits;
      narrow = ring.narrow;
      head_in = omega (arith, head', next_in);
      tail_at = around ∙ ap (λ j. (j + (v.count - 1)) % v.depth) (sym head');
      count_in = omega (arith, ring.count_in);
    }

    same : (j : ℕ) → j < v.depth → slot b' v j ≡ slot k.bytes v j
    same j lt =
        read-memcpy-Apart k.bytes out (slot_of v v.head) v.msg_size (v.buffer + j * v.msg_size)
          v.msg_size (within-Apart v.buffer j v.depth v.msg_size out lt apart)
