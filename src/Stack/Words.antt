-- ===== src/Stack/Words.antt =====
-- The words of memory, and the frame that a task starts from.
use microkernel_rtos.Common.{
  ℕ, zero, ◌+◌, ◌-◌, ◌*◌, ◌%◌, ◌≤◌, ◌<◌, ◌≡◌, ◌⊎◌, inl, inr, refl, List, [], ◌∷◌, ◌==◌,
  if◌then◌else◌, arith, length, ◌∙◌, suc,
}
use microkernel_rtos.Links.{Ptr}
use microkernel_rtos.Kernel.{uint32_mod}
use microkernel_rtos.Stack.{
  set_word, get_word, set_words, Image, exception_frame, saved_registers, build_initial_stack,
}

-- A word that is written is read back, …
pub get_word-set_word : (f : Ptr → ℕ) (a w : ℕ) → w < uint32_mod → get_word (set_word f a w) a ≡ w
unfolding get_word set_word
get_word-set_word f a w small = ground arith

-- and the words beside it stay.
pub get_word-set_word_apart :
    (f : Ptr → ℕ) (a b w : ℕ)
    → (a + 4 ≤ b) ⊎ (b + 4 ≤ a)
    → get_word (set_word f a w) b ≡ get_word f b
unfolding get_word set_word
get_word-set_word_apart f a b w off = ground arith

-- Outside the words that are written, memory stays.
pub get_word-set_words_apart :
    (f : Ptr → ℕ) (a b : ℕ) (ws : List ℕ)
    → (a + 4 * length ws ≤ b) ⊎ (b + 4 ≤ a)
    → get_word (set_words f a ws) b ≡ get_word f b
unfolding set_words
get_word-set_words_apart f a b [] off = refl
get_word-set_words_apart f a b (w ∷ ws) off =
    get_word-set_words_apart (set_word f a w) (a + 4) b ws (ground arith)
    ∙ get_word-set_word_apart f a b w (ground arith)

-- The i-th of the words.
abbrev pub nth : List ℕ → ℕ → ℕ
nth [] i = 0
nth (w ∷ ws) i = if i == 0 then w else nth ws (i - 1)

abbrev pub AllWords : List ℕ → Type 0
AllWords [] = Unit {0}
AllWords (w ∷ ws) = (w < uint32_mod) × AllWords ws

-- The words that are written are read back.
pub get_word-set_words :
    (f : Ptr → ℕ) (a i : ℕ) (ws : List ℕ)
    → AllWords ws
    → i < length ws
    → get_word (set_words f a ws) (a + 4 * i) ≡ nth ws i
unfolding set_words
get_word-set_words f a i [] small within = absurd (omega arith)
get_word-set_words f a zero (w ∷ ws) (small, rest) within =
    let here : a + 4 * 0 ≡ a = omega arith in
    rw here (
      get_word-set_words_apart (set_word f a w) (a + 4) a ws (inr (omega arith))
      ∙ get_word-set_word f a w small)
get_word-set_words f a (suc i) (w ∷ ws) (small, rest) within =
    ground (arith, get_word-set_words (set_word f a w) (a + 4) i ws rest (omega arith))

eight_words :
    (high : ℕ) → 32 ≤ high → high < uint32_mod → (high + uint32_mod - 32) % uint32_mod ≡ high - 32
eight_words high low small = omega arith

-- What _build_initial_stack leaves below `high`, for a task that starts at `func`.
pub record Frame (img : Image) (f : Ptr → ℕ) (high func : Ptr) (r : Ptr × (Ptr → ℕ)) : Type 0 where
  pub top : r.0 ≡ high - 64
  pub registers : (i : ℕ) → i < 8 → get_word r.1 (high - 64 + 4 * i) ≡ 0
  pub exception :
      (i : ℕ) → i < 8 → get_word r.1 (high - 32 + 4 * i) ≡ nth (exception_frame img func) i
  pub below : (b : Ptr) → b + 4 ≤ high - 64 → get_word r.1 b ≡ get_word f b
  pub above : (b : Ptr) → high ≤ b → get_word r.1 b ≡ get_word f b

all_zero : (i : ℕ) → i < 8 → nth saved_registers i ≡ 0
all_zero i within = ground arith

pub build_initial_stack-Frame :
    (img : Image) (f : Ptr → ℕ) (high func : Ptr)
    → 64 ≤ high
    → high < uint32_mod
    → img.task_exit_trap < uint32_mod
    → func < uint32_mod
    → Frame img f high func (build_initial_stack img f high func)
unfolding build_initial_stack
build_initial_stack-Frame img f high func low small trap entry =
    let e1 = eight_words high (omega arith) small in
    let e2 = eight_words (high - 32) (omega arith) (omega arith) in
    let e3 : high - 32 - 32 ≡ high - 64 = omega arith in
    let framed = set_words f (high - 32) (exception_frame img func) in
    rw e1 (
      rw e2 (
        rw e3 (record {
          top = refl;
          registers = λ i within.
              get_word-set_words framed (high - 64) i saved_registers (ground arith) within
              ∙ all_zero i within;
          exception = λ i within.
              get_word-set_words_apart framed (high - 64) (high - 32 + 4 * i) saved_registers
                (inl (omega arith))
              ∙ get_word-set_words f (high - 32) i (exception_frame img func) (ground arith) within;
          below = λ b under.
              get_word-set_words_apart framed (high - 64) b saved_registers (inr (omega arith))
              ∙ get_word-set_words_apart f (high - 32) b (exception_frame img func)
                  (inr (omega arith));
          above = λ b over.
              get_word-set_words_apart framed (high - 64) b saved_registers (inl (omega arith))
              ∙ get_word-set_words_apart f (high - 32) b (exception_frame img func)
                  (inl (omega arith));
        })))
