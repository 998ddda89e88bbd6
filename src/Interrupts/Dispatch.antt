-- ===== src/Interrupts/Dispatch.antt =====
-- From the descriptor table to the handler: the path that an interrupt takes through the memory.
use ose.Prelude.{
  ℕ, ◌+◌, ◌*◌, ◌/◌, ◌%◌, ◌≤◌, ◌<◌, ◌≡◌, ◌≢◌, inl, inr, refl, ◌∙◌, arith, true, not, if◌then◌else◌,
  Option, none, some,
}
use native.Mathlib.Decide.{dec_lt, ℕ_discrete}
use ose.Memory.Words.{load32, store32, load32-store32_apart, store32_outside}
use ose.Interrupts.{Interrupts, low_word, high_word, has_error_code, direct_set_interrupt_handler}
use ose.Interrupts.Trampolines.{Entered, enter, enter-agree}
use ose.Interrupts.Gates.{
  gate_offset, gate_selector, gate_type, gate_privilege, gate_present, words_offset,
  high_word-fields, store_gate, store_gate-low, store_gate-high, store_gate-apart,
  store_gate_outside,
}

abbrev pub gate : Interrupts → ℕ → ℕ
gate s vector = s.idt + vector * 8

-- The tables follow one another, every trampoline pushes its vector and jumps to `collect_ctx`, and
-- every gate leads to its trampoline in the code segment of the kernel.
pub record IsReady (collect_ctx : ℕ) (s : Interrupts) : Type 0 where
  pub trampolines_end : s.trampolines + 2048 ≤ s.idt
  pub idt_end : s.idt + 2048 ≤ s.handler_table
  pub table_end : s.handler_table + 1024 ≤ 0x400000
  pub code :
      (i : ℕ)
      → i < 256
      → enter s.ram (s.trampolines + i * 8)
        ≡ some (record { dummy_pushed = not (has_error_code i); vector = i; target = collect_ctx })
  pub offsets : (i : ℕ) → i < 256 → gate_offset s.ram (gate s i) ≡ s.trampolines + i * 8
  pub selectors : (i : ℕ) → i < 256 → gate_selector s.ram (gate s i) ≡ 8

-- The processor takes a gate that is present and runs the trampoline; `collect_ctx` calls
-- `universal_interrupt_handler` with the vector that was pushed.
abbrev pub interrupt : Interrupts → ℕ → Option (Option Entered)
interrupt s vector =
    if gate_present s.ram (gate s vector)
    then some (enter s.ram (gate_offset s.ram (gate s vector)))
    else none

abbrev pub set_in_table : (vector handler : ℕ) → Interrupts → Interrupts
set_in_table vector handler s = record s {
  ram = store32 s.ram (s.handler_table + vector * 4) handler;
}

-- Writing an entry of the handler table leaves what the processor reads.
pub set_in_table-IsReady :
    (c vector handler : ℕ) (s : Interrupts)
    → IsReady c s
    → vector < 256
    → IsReady c (set_in_table vector handler s)
      × ((i : ℕ)
          → i < 256
          → (load32 (set_in_table vector handler s).ram (gate s i) ≡ load32 s.ram (gate s i))
            × (load32 (set_in_table vector handler s).ram (gate s i + 4)
                ≡ load32 s.ram (gate s i + 4)))
set_in_table-IsReady c vector handler s v h =
    let a = v.trampolines_end in
    let b = v.idt_end in
    let place = s.handler_table + vector * 4 in
    let low : (i : ℕ)
        → i < 256
        → load32 (store32 s.ram place handler) (gate s i) ≡ load32 s.ram (gate s i) =
      λ i hi. load32-store32_apart s.ram place (gate s i) handler (inr (omega arith)) in
    let high : (i : ℕ)
        → i < 256
        → load32 (store32 s.ram place handler) (gate s i + 4) ≡ load32 s.ram (gate s i + 4) =
      λ i hi. load32-store32_apart s.ram place (gate s i + 4) handler (inr (omega arith)) in
    (
      record {
        trampolines_end = a;
        idt_end = b;
        table_end = v.table_end;
        code = λ i hi.
            enter-agree s.ram (store32 s.ram place handler) (s.trampolines + i * 8)
              (λ x p q. store32_outside s.ram place handler x (inl (omega arith)))
            ∙ v.code i hi;
        offsets = λ i hi. rw (low i hi, high i hi) (v.offsets i hi);
        selectors = λ i hi. rw (low i hi) (v.selectors i hi);
      },
      λ i hi. (low i hi, high i hi),
    )

-- What a handler is registered with.
abbrev pub IsRegistered : (type dpl : ℕ) → Interrupts → ℕ → Type 0
IsRegistered type dpl s vector =
    (gate_present s.ram (gate s vector) ≡ true)
    × (gate_type s.ram (gate s vector) ≡ type % 16)
    × (gate_privilege s.ram (gate s vector) ≡ dpl % 4)

-- A gate set to its trampoline: the tables stay ready, the gate has the given type and privilege
-- level and is present, all other gates and the handler table stay.
pub direct_set-IsReady :
    (c vector type dpl : ℕ) (s : Interrupts)
    → IsReady c s
    → vector < 256
    → let s' = direct_set_interrupt_handler vector type dpl (s.trampolines + vector * 8) s in
      IsReady c s'
      × IsRegistered type dpl s' vector
      × ((i : ℕ)
          → i < 256
          → i ≢ vector
          → (load32 s'.ram (gate s i) ≡ load32 s.ram (gate s i))
            × (load32 s'.ram (gate s i + 4) ≡ load32 s.ram (gate s i + 4)))
      × ((i : ℕ)
          → i < 256
          → load32 s'.ram (s.handler_table + i * 4) ≡ load32 s.ram (s.handler_table + i * 4))
unfolding direct_set_interrupt_handler
direct_set-IsReady c vector type dpl s v h =
    let a = v.trampolines_end in
    let b = v.idt_end in
    let e = v.table_end in
    let d = gate s vector in
    let t = s.trampolines + vector * 8 in
    let selector : load32 s.ram d / 65536 ≡ 8 = v.selectors vector h in
    let low = low_word t (load32 s.ram d / 65536) in
    let b8 = load32 s.ram (d + 4) % 256 in
    let f = load32 s.ram (d + 4) / 4096 % 2 in
    let high = high_word t b8 (type % 16) f (dpl % 4) 1 in
    let fields =
      high_word-fields t b8 (type % 16) f (dpl % 4) 1 (omega arith) (omega arith) (omega arith)
        (omega arith) (omega arith) in
    let stored_low : load32 (store_gate d low high s.ram) d ≡ low =
      store_gate-low d low high s.ram (omega (arith, selector)) in
    let stored_high : load32 (store_gate d low high s.ram) (d + 4) ≡ high =
      store_gate-high d low high s.ram fields.3 in
    let other_low : (i : ℕ)
        → i < 256
        → i ≢ vector
        → load32 (store_gate d low high s.ram) (gate s i) ≡ load32 s.ram (gate s i) =
      λ i hi ne.
        store_gate-apart d low high s.ram (gate s i)
          (elim (dec_lt vector i) [ yes p ↦ inl (omega arith) | no p ↦ inr (omega arith) ]) in
    let other_high : (i : ℕ)
        → i < 256
        → i ≢ vector
        → load32 (store_gate d low high s.ram) (gate s i + 4) ≡ load32 s.ram (gate s i + 4) =
      λ i hi ne.
        store_gate-apart d low high s.ram (gate s i + 4)
          (elim (dec_lt vector i) [ yes p ↦ inl (omega arith) | no p ↦ inr (omega arith) ]) in
    (
      record {
        trampolines_end = a;
        idt_end = b;
        table_end = e;
        code = λ i hi.
            enter-agree s.ram (store_gate d low high s.ram) (s.trampolines + i * 8)
              (λ x p q. store_gate_outside d low high s.ram x (inl (omega arith)))
            ∙ v.code i hi;
        offsets = λ i hi. elim (ℕ_discrete i vector) [
          | yes q ↦
              rw (q, stored_low, stored_high)
                (words_offset t (load32 s.ram d / 65536) b8 (type % 16) f (dpl % 4) 1 (omega arith)
                  (omega arith) (omega arith) (omega arith) (omega arith) (omega arith))
          | no ne ↦ rw (other_low i hi ne, other_high i hi ne) (v.offsets i hi)
        ];
        selectors = λ i hi. elim (ℕ_discrete i vector) [
          | yes q ↦ rw (q, stored_low) (omega (arith, selector))
          | no ne ↦ rw (other_low i hi ne) (v.selectors i hi)
        ];
      },
      (rw (stored_high, fields.2) refl, rw stored_high fields.0, rw stored_high fields.1),
      λ i hi ne. (other_low i hi ne, other_high i hi ne),
      λ i hi. store_gate-apart d low high s.ram (s.handler_table + i * 4) (inl (omega arith)),
    )
