-- ===== src/Demos/Creation.antt =====
-- Creating the example programs' tasks, and starting them.
use microkernel_rtos.Common.{
  Option-cases, ◌>>=◌, ap, Option, ℕ, suc, ◌+◌, ◌-◌, ◌≤◌, ◌<◌, ◌≡◌, ◌≢◌, ◌⊎◌, inl, inr, refl, true,
  false, ◌||◌, List, [], ◌∷◌, ◌++◌, none, some, ◌==◌, arith, has, length, sym, subst, ◌∙◌, ap,
  ==-false, Bool-cases, ltb, leb, has-append, append_assoc, append-nil,
}
use microkernel_rtos.Links.{Ptr, null}
use microkernel_rtos.Kernel.{max_tasks, min_stack_size, uint32_mod, walk_fuel}
use microkernel_rtos.Heap.{header_size}
use microkernel_rtos.Heap.Blocks.{IsHeap}
use microkernel_rtos.Stack.{Image}
use microkernel_rtos.Lifecycle.{System, task_create}
use microkernel_rtos.Lifecycle.Create.{NotCreated, NowCreated, task_create-Outcome}
use microkernel_rtos.Demos.{TaskSpec, create_or_stop, create_each}
use microkernel_rtos.Demos.Tasks.{
  Made, described, tasks, filled, Settled, Populated, within, filled-has, filled-length,
  AllSettled-frame,
}

-- The call that returned NULL, in the state that the calls before it have led to from the state `from`,
-- with the tasks that they have created.
pub record Refusal (img : Image) (idle : Ptr) (from : System) (ts : List TaskSpec) : Type 0 where
  pub made : Made
  pub spec : TaskSpec
  pub rest : List TaskSpec
  pub before : System
  pub after : System
  pub reached : create_each img from (described made) ≡ some before
  pub split : described made ++ spec ∷ rest ≡ ts
  pub populated : Populated before idle made
  pub ran :
      task_create img before spec.func spec.priority spec.stack_bytes spec.text ≡ some (null, after)
  pub refused : NotCreated img before after populated.used null spec.func spec.stack_bytes

-- Calls behind other calls.
create_each-append :
    (img : Image) (from s s' : System) (ts : List TaskSpec) (t : TaskSpec)
    → create_each img from ts ≡ some s
    → create_or_stop img s t ≡ some s'
    → create_each img from (ts ++ t ∷ []) ≡ some s'
unfolding create_each
create_each-append img from s s' [] t e ran =
    let same : ◌≡◌ {A = Option System} (some from) (some s) = e in
    let here : from ≡ s = cc in
    rw (subst (λ c. create_or_stop img c t ≡ some s') (sym here) ran) refl
create_each-append img from s s' (u ∷ ts) t e ran =
    elim (Option-cases (create_or_stop img from u)) [
      | inl stops ↦ absurd (ground (arith, e, stops))
      | inr (c, goes) ↦ rw goes (
          create_each-append img c s s' ts t
            (sym (ap (λ o. o >>= λ v. create_each img v ts) goes) ∙ e) ran)
    ]

module _ (img : Image) (idle : Ptr) (some_bytes : 0 < img.sizeof_tcb)
    (tcb_fits : img.sizeof_tcb + 15 < uint32_mod) (trap : img.task_exit_trap < uint32_mod) where
  module _ (s : System) (made : Made) (t : TaskSpec) (p : Populated s idle made) where
    -- The memory of a task that is on a ring is used.
    not_free : (c : Ptr) → has c p.free ≡ true → has (c + header_size) (tasks idle made) ≡ false
    not_free c i = elim (Bool-cases (has (c + header_size) (tasks idle made))) [
      | inl on ↦
          let back : c + header_size - header_size ≡ c = omega arith in
          let busy : has c p.used ≡ true =
            subst (λ a. has a p.used ≡ true) back (p.owned (c + header_size) on) in
          absurd (ground (arith, p.heap.tiles.separate c i))
      | inr off ↦ off
    ]

    module _ (s' : System) (a : Ptr)
        (n : NowCreated img s s'
          (filled idle made)
          p.free
          p.used
          a
          t.func
          t.priority
          t.stack_bytes) where
      abbrev c : Ptr
      c = n.memory.one.c

      new : has a (tasks idle made) ≡ false
      new = rw n.returns (not_free c n.memory.one.listed)

      known :
          (b : Ptr) (u : TaskSpec)
          → has b (tasks idle made) ≡ true
          → Settled s.kernel b u
          → Settled s'.kernel b u
      known b u i z =
          let off : b ≢ a =
            λ e. absurd (ground (arith, new, ap (λ x. has x (tasks idle made)) e)) in
          let (state, bucket) = n.task.others b off in
          let (func, priority) = n.task.entries b off in
          record {
            state = state ∙ z.state;
            func = func ∙ z.func;
            priority = priority ∙ z.priority;
            bucket = bucket ∙ z.bucket;
          }

      one_more : Populated s' idle ((a, t) ∷ made)
      one_more = record {
        rings = n.task.rings;
        registry = n.task.registry ∙ ap (λ l. l ++ a ∷ []) p.registry;
        settled = (
          record {
            state = n.task.state;
            func = n.task.entry;
            priority = n.task.priority_set.0;
            bucket = n.task.bucket_set;
          },
          AllSettled-frame s.kernel s'.kernel idle made known p.settled,
        );
        is_idle = n.task.current.1 ∙ p.is_idle;
        fits =
            rw n.same_heap (rw n.memory.two.kept.same_pool (rw n.memory.one.kept.same_pool p.fits));
        free = n.memory.two.fs';
        used = n.memory.two.c ∷ c ∷ p.used;
        heap =
            subst (λ h. IsHeap h n.memory.two.fs' (n.memory.two.c ∷ c ∷ p.used)) (sym n.same_heap)
              n.memory.two.whole;
        owned =
            λ b i. ground (arith, has-append b (tasks idle made) (a ∷ []), p.owned b, n.returns);
      }

    -- One call of task_create.
    abbrev pub Step : Type 0
    Step =
        ((s' : System) × (task_create img s t.func t.priority t.stack_bytes t.text
            ≡ some (null, s'))
          × NotCreated img s s' p.used null t.func t.stack_bytes)
        ⊎ ((a : Ptr) × (s' : System) × (create_or_stop img s t ≡ some s')
            × NowCreated img s s' (filled idle made) p.free p.used a t.func t.priority t.stack_bytes
            × Populated s' idle ((a, t) ∷ made))

    not_on_ring :
        (c b : ℕ) → has c p.free ≡ true → has (c + header_size) (filled idle made b) ≡ false
    not_on_ring c b i = ground (arith, filled-has idle made b (c + header_size), not_free c i)

    ring_has_room :
        length s.kernel.task_registry < max_tasks
        → (b : ℕ) → suc (length (filled idle made b)) < walk_fuel
    ring_has_room left b =
        omega (arith, filled-length idle made b, left, ap (length {A = Ptr}) p.registry)

    when_full :
        max_tasks ≤ length s.kernel.task_registry
        → task_create img s t.func t.priority t.stack_bytes t.text ≡ some (null, s)
    unfolding task_create
    when_full full = elim (Bool-cases ((t.func == null) || ltb t.stack_bytes min_stack_size)) [
      | inl bad ↦ rw bad refl
      | inr good ↦
          let stop : leb max_tasks (length s.kernel.task_registry) ≡ true = ground arith in
          rw (good, stop) refl
    ]

    pub step : t.func < uint32_mod → t.stack_bytes + 22 < uint32_mod → Step
    unfolding create_or_stop
    step entry size = elim (Bool-cases (leb max_tasks (length s.kernel.task_registry))) [
      | inl stop ↦
          let full : max_tasks ≤ length s.kernel.task_registry = ground arith in
          inl (
            s,
            when_full full,
            record {
              why = inr (inr (inl full));
              returns = refl;
              same_kernel = refl;
              free = p.free;
              heap = p.heap;
            },
          )
      | inr left ↦
          let (a, s', ran, out) =
            task_create-Outcome img s t.func t.priority t.stack_bytes t.text p.rings p.heap
              some_bytes tcb_fits size p.fits trap entry not_on_ring
              (ring_has_room (ground arith)) in
          elim out [
            | inl failed ↦ inl (
              s',
              subst (λ v. task_create img s t.func t.priority t.stack_bytes t.text ≡ some (v, s'))
                  failed.returns ran,
              subst (λ v. NotCreated img s s' p.used v t.func t.stack_bytes) failed.returns failed,
            )
            | inr n ↦
                let ne : a ≢ null = λ z. absurd (omega (arith, z, n.returns)) in
                inr (a, s', rw ran (rw (==-false ne) refl), n, one_more s' a n)
          ]
    ]

  -- What a list of calls leaves.
  abbrev pub CreatedOrNot : System → System → Made → List TaskSpec → Type 0
  CreatedOrNot from s made ts =
      ((create_each img s ts ≡ none) × Refusal img idle from (described made ++ ts))
      ⊎ ((made' : Made) × (s' : System) × (create_each img s ts ≡ some s')
          × (described made' ≡ described made ++ ts)
          × Populated s' idle made')

  pub create_each-Populated :
      (from : System) (ts : List TaskSpec) (s : System) (made : Made)
      → create_each img from (described made) ≡ some s
      → Populated s idle made
      → within ts ≡ true
      → CreatedOrNot from s made ts
  unfolding create_each create_or_stop
  create_each-Populated from [] s made come p w =
      inr (made, s, refl, sym (append-nil (described made)), p)
  create_each-Populated from (t ∷ ts) s made come p w =
      elim (step s made t p (ground arith) (ground arith)) [
        | inl (s', ran, failed) ↦ inl (
          rw ran refl,
          record {
            made = made;
            spec = t;
            rest = ts;
            before = s;
            after = s';
            reached = come;
            split = refl;
            populated = p;
            ran = ran;
            refused = failed;
          },
        )
        | inr (a, s', ran, n, p') ↦
            let same = append_assoc (described made) (t ∷ []) ts in
            elim (create_each-Populated from ts s' ((a, t) ∷ made)
              (create_each-append img from s s' (described made) t come ran) p' (ground arith)) [
                | inl (stopped, r) ↦ inl (rw ran stopped, subst (Refusal img idle from) same r)
                | inr (made', u, ran', all, p2) ↦ inr (made', u, rw ran ran', all ∙ same, p2)
              ]
      ]
