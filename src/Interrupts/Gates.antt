-- ===== src/Interrupts/Gates.antt =====
-- The gates of the descriptor table as the processor reads them, and what the loops over them do.
use ose.Prelude.{
  ℕ, zero, suc, ◌+◌, ◌*◌, ◌/◌, ◌%◌, ◌≤◌, ◌<◌, ◌≡◌, ◌≢◌, ◌⊎◌, inl, inr, refl, ◌∙◌, arith, Bool, Mem,
  ltb, ◌==◌, if◌then◌else◌,
}
use native.Mathlib.Nat.{add-zero}
use native.Mathlib.Decide.{dec_lt, ℕ_discrete}
use ose.Memory.Words.{load32, store32, load32-store32_self, load32-store32_apart, store32_outside}
use ose.Interrupts.{
  low_word, high_word, write_descriptor, gates_loop, set_present, exceptions_loop,
  kernel_code_segment, interrupt_gate,
}

-- The fields of the gate at `d`.
abbrev pub gate_offset : Mem → ℕ → ℕ
gate_offset m d = load32 m d % 65536 + load32 m (d + 4) / 65536 * 65536

abbrev pub gate_selector : Mem → ℕ → ℕ
gate_selector m d = load32 m d / 65536

abbrev pub gate_type : Mem → ℕ → ℕ
gate_type m d = load32 m (d + 4) / 256 % 16

abbrev pub gate_privilege : Mem → ℕ → ℕ
gate_privilege m d = load32 m (d + 4) / 8192 % 4

abbrev pub gate_present : Mem → ℕ → Bool
gate_present m d = load32 m (d + 4) / 32768 % 2 == 1

-- The fields of two words that are put together from them.
pub words_offset :
    (h s b t f d p : ℕ)
    → h < 4294967296
    → b < 256
    → t < 16
    → f < 2
    → d < 4
    → p < 2
    → low_word h s % 65536 + high_word h b t f d p / 65536 * 65536 ≡ h
words_offset h s b t f d p hh hb ht hf hd hp = omega arith

pub high_word-fields :
    (h b t f d p : ℕ)
    → b < 256
    → t < 16
    → f < 2
    → d < 4
    → p < 2
    → (high_word h b t f d p / 256 % 16 ≡ t)
      × (high_word h b t f d p / 8192 % 4 ≡ d)
      × (high_word h b t f d p / 32768 % 2 ≡ p)
      × (high_word h b t f d p < 4294967296)
high_word-fields h b t f d p hb ht hf hd hp = (omega arith, omega arith, omega arith, omega arith)

-- Storing the two words of a gate.
abbrev pub store_gate : (d low high : ℕ) → Mem → Mem
store_gate d low high m = store32 (store32 m d low) (d + 4) high

module _ (d low high : ℕ) (m : Mem) where
  pub store_gate-low : low < 4294967296 → load32 (store_gate d low high m) d ≡ low
  store_gate-low h =
      load32-store32_apart (store32 m d low) (d + 4) d high (inr (omega arith))
      ∙ load32-store32_self m d low h

  pub store_gate-high : high < 4294967296 → load32 (store_gate d low high m) (d + 4) ≡ high
  store_gate-high h = load32-store32_self (store32 m d low) (d + 4) high h

  pub store_gate-apart :
      (b : ℕ) → (d + 8 ≤ b) ⊎ (b + 4 ≤ d) → load32 (store_gate d low high m) b ≡ load32 m b
  store_gate-apart b h =
      load32-store32_apart (store32 m d low) (d + 4) b high
        (elim h [ inl p ↦ inl (omega arith) | inr p ↦ inr (omega arith) ])
      ∙ load32-store32_apart m d b low
          (elim h [ inl p ↦ inl (omega arith) | inr p ↦ inr (omega arith) ])

  pub store_gate_outside : (x : ℕ) → (x < d) ⊎ (d + 8 ≤ x) → store_gate d low high m x ≡ m x
  store_gate_outside x h =
      store32_outside (store32 m d low) (d + 4) high x
        (elim h [ inl p ↦ inl (omega arith) | inr p ↦ inr (omega arith) ])
      ∙ store32_outside m d low x (elim h [ inl p ↦ inl (omega arith) | inr p ↦ inr (omega arith) ])

-- Gate `j` leads to trampoline `j`, with the bit present as `p` says.
abbrev pub IsGate : Mem → (idt trampolines p j : ℕ) → Type 0
IsGate m idt trampolines p j =
    (load32 m (idt + j * 8) ≡ low_word (trampolines + 8 * j) kernel_code_segment)
    × (load32 m (idt + j * 8 + 4) ≡ high_word (trampolines + 8 * j) 0 interrupt_gate 0 0 p)

low_word-lt : (o : ℕ) → low_word o kernel_code_segment < 4294967296
low_word-lt o = omega arith

-- A gate that is stored, beside the others.
store_gate-IsGate :
    (m : Mem) (idt t i p : ℕ)
    → p < 2
    → IsGate
        (store_gate
          (idt + i * 8)
          (low_word (t + 8 * i) kernel_code_segment)
          (high_word (t + 8 * i) 0 interrupt_gate 0 0 p)
          m)
        idt
        t
        p
        i
store_gate-IsGate m idt t i p h =
    let low = low_word (t + 8 * i) kernel_code_segment in
    let high = high_word (t + 8 * i) 0 interrupt_gate 0 0 p in
    (
      store_gate-low (idt + i * 8) low high m (low_word-lt (t + 8 * i)),
      store_gate-high (idt + i * 8) low high m
          (high_word-fields (t + 8 * i) 0 interrupt_gate 0 0 p (omega arith) (omega arith)
            (omega arith) (omega arith) h).3,
    )

store_gate-IsGate_other :
    (m : Mem) (idt t i j p low high : ℕ)
    → j ≢ i
    → IsGate m idt t p j
    → IsGate (store_gate (idt + i * 8) low high m) idt t p j
store_gate-IsGate_other m idt t i j p low high ne g =
    let side : (i < j) ⊎ (j < i) = elim (dec_lt i j) [ yes a ↦ inl a | no a ↦ inr (omega arith) ] in
    (
      store_gate-apart (idt + i * 8) low high m (idt + j * 8)
            (elim side [ inl a ↦ inl (omega arith) | inr a ↦ inr (omega arith) ])
          ∙ g.0,
      store_gate-apart (idt + i * 8) low high m (idt + j * 8 + 4)
            (elim side [ inl a ↦ inl (omega arith) | inr a ↦ inr (omega arith) ])
          ∙ g.1,
    )

-- The loop of `generate_idt` writes the gates one by one.
pub gates_loop-IsGate :
    (k i idt t : ℕ) (m : Mem)
    → ((j : ℕ) → j < i → IsGate m idt t 0 j)
    → (j : ℕ) → j < i + k
    → IsGate (gates_loop k i idt t m) idt t 0 j
unfolding gates_loop write_descriptor
gates_loop-IsGate zero i idt t m done j h = done j (omega arith)
gates_loop-IsGate (suc k) i idt t m done j h =
    gates_loop-IsGate k (i + 1) idt t
      (write_descriptor (idt + i * 8) (t + 8 * i) interrupt_gate 0 m) (λ l hl. next l hl) j
      (omega arith)
  where
    next :
        (l : ℕ)
        → l < i + 1
        → IsGate (write_descriptor (idt + i * 8) (t + 8 * i) interrupt_gate 0 m) idt t 0 l
    next l hl = elim (ℕ_discrete l i) [
      | yes e ↦ rw e (store_gate-IsGate m idt t i 0 (omega arith))
      | no ne ↦ store_gate-IsGate_other m idt t i l 0 _ _ ne (done l (omega arith))
    ]

pub gates_loop_outside :
    (k i idt t x : ℕ) (m : Mem)
    → (x < idt + i * 8) ⊎ (idt + (i + k) * 8 ≤ x)
    → gates_loop k i idt t m x ≡ m x
unfolding gates_loop write_descriptor
gates_loop_outside zero i idt t x m h = refl
gates_loop_outside (suc k) i idt t x m h =
    gates_loop_outside k (i + 1) idt t x
      (write_descriptor (idt + i * 8) (t + 8 * i) interrupt_gate 0 m)
      (elim h [ inl a ↦ inl (omega arith) | inr a ↦ inr (omega arith) ])
    ∙ store_gate_outside (idt + i * 8) (low_word (t + 8 * i) kernel_code_segment)
        (high_word (t + 8 * i) 0 interrupt_gate 0 0 0) m x
        (elim h [ inl a ↦ inl (omega arith) | inr a ↦ inr (omega arith) ])

-- Setting the bit present of the words of a gate.
set_present_lem :
    (m : Mem) (idt t i : ℕ)
    → IsGate m idt t 0 i
    → set_present (idt + i * 8) m
      ≡ store32 m (idt + i * 8 + 4) (high_word (t + 8 * i) 0 interrupt_gate 0 0 1)
unfolding set_present
set_present_lem m idt t i g =
    let clear =
      (high_word-fields (t + 8 * i) 0 interrupt_gate 0 0 0 (omega arith) (omega arith) (omega arith)
        (omega arith) (omega arith)).2 in
    let sum : high_word (t + 8 * i) 0 interrupt_gate 0 0 0 + 32768
        ≡ high_word (t + 8 * i) 0 interrupt_gate 0 0 1 =
      omega arith in
    rw (g.1, clear, sum) refl

set_present-IsGate :
    (m : Mem) (idt t i : ℕ) → IsGate m idt t 0 i → IsGate (set_present (idt + i * 8) m) idt t 1 i
set_present-IsGate m idt t i g =
    let high = high_word (t + 8 * i) 0 interrupt_gate 0 0 1 in
    rw (set_present_lem m idt t i g) (
      load32-store32_apart m (idt + i * 8 + 4) (idt + i * 8) high (inr (omega arith)) ∙ g.0,
      load32-store32_self m (idt + i * 8 + 4) high
          (high_word-fields (t + 8 * i) 0 interrupt_gate 0 0 1 (omega arith) (omega arith)
            (omega arith) (omega arith) (omega arith)).3,
    )

set_present-IsGate_other :
    (m : Mem) (idt t i j p : ℕ)
    → j ≢ i
    → IsGate m idt t p j
    → IsGate (set_present (idt + i * 8) m) idt t p j
unfolding set_present
set_present-IsGate_other m idt t i j p ne g =
    let side : (i < j) ⊎ (j < i) = elim (dec_lt i j) [ yes a ↦ inl a | no a ↦ inr (omega arith) ] in
    (
      load32-store32_apart m (idt + i * 8 + 4) (idt + j * 8) _
            (elim side [ inl a ↦ inl (omega arith) | inr a ↦ inr (omega arith) ])
          ∙ g.0,
      load32-store32_apart m (idt + i * 8 + 4) (idt + j * 8 + 4) _
            (elim side [ inl a ↦ inl (omega arith) | inr a ↦ inr (omega arith) ])
          ∙ g.1,
    )

-- The present bit once the gates below `i` are marked.
abbrev pub marked : (i j : ℕ) → ℕ
marked i j = if ltb j i then 1 else 0

marked-suc : (i j : ℕ) → j ≢ i → marked (i + 1) j ≡ marked i j
marked-suc i j ne = ground arith

-- The loop of `init_exceptions` marks the gates one by one.
pub exceptions_loop-IsGate :
    (k i idt t n : ℕ) (m : Mem)
    → i + k ≤ n
    → ((j : ℕ) → j < n → IsGate m idt t (marked i j) j)
    → (j : ℕ) → j < n
    → IsGate (exceptions_loop k i idt m) idt t (marked (i + k) j) j
unfolding exceptions_loop
exceptions_loop-IsGate zero i idt t n m h done j hj = rw (add-zero i) (done j hj)
exceptions_loop-IsGate (suc k) i idt t n m h done j hj =
    let count : i + suc k ≡ i + 1 + k = omega arith in
    rw count (
      exceptions_loop-IsGate k (i + 1) idt t n (set_present (idt + i * 8) m) (omega arith)
        (λ l hl. elim (ℕ_discrete l i) [
          | yes e ↦
              let before : marked i i ≡ 0 = ground arith in
              let after : marked (i + 1) i ≡ 1 = ground arith in
              rw (e, after) (set_present-IsGate m idt t i (rw before at (done i (omega arith))))
          | no ne ↦
              rw (marked-suc i l ne)
                (set_present-IsGate_other m idt t i l (marked i l) ne (done l hl))
        ])
        j hj)

pub exceptions_loop_outside :
    (k i idt x : ℕ) (m : Mem)
    → (x < idt + i * 8) ⊎ (idt + (i + k) * 8 ≤ x)
    → exceptions_loop k i idt m x ≡ m x
unfolding exceptions_loop set_present
exceptions_loop_outside zero i idt x m h = refl
exceptions_loop_outside (suc k) i idt x m h =
    exceptions_loop_outside k (i + 1) idt x (set_present (idt + i * 8) m)
      (elim h [ inl a ↦ inl (omega arith) | inr a ↦ inr (omega arith) ])
    ∙ store32_outside m (idt + i * 8 + 4) _ x
        (elim h [ inl a ↦ inl (omega arith) | inr a ↦ inr (omega arith) ])
