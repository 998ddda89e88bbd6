-- ===== src/Interrupts/Initial.antt =====
-- What `init_interrupts` sets up.
use ose.Prelude.{
  ℕ, ◌+◌, ◌*◌, ◌≤◌, ◌<◌, ◌≡◌, ◌≢◌, ◌⊎◌, inl, inr, refl, ◌∙◌, arith, true, Mem, ltb, leb,
  if◌then◌else◌, none, some,
}
use ose.Prelude.Outcome.{ok, panic}
use native.Mathlib.Decide.{ℕ_discrete}
use ose.Memory.Bytes.{memzero}
use ose.Memory.Bytes.Copy.{memset_lem}
use ose.Memory.Words.{load32, load32-agree, load32-memzero_in, load32-memzero_out}
use ose.Memory.Immortal.{Immortal, malloc_immortal, calloc_immortal}
use ose.Memory.Immortal.Blocks.{InArena, malloc_immortal-room}
use ose.Interrupts.{
  Interrupts, trampolines_loop, generate_trampolines, gates_loop, generate_idt, exceptions_loop,
  set_interrupt_handler, init_interrupts, universal_interrupt_handler,
}
use ose.Interrupts.Trampolines.{enter, enter-agree, enter-trampolines_loop, loop-next}
use ose.Interrupts.Gates.{
  gate_present, words_offset, high_word-fields, IsGate, marked, gates_loop-IsGate,
  gates_loop_outside, exceptions_loop-IsGate, exceptions_loop_outside,
}
use ose.Interrupts.Dispatch.{IsReady, interrupt}
use ose.Interrupts.Handlers.{entered, interrupt-IsReady, set_interrupt_handler-IsReady}

-- A block for a table of `n` bytes when arena 1 has room for it.
table_block :
    (s : Immortal) (n : ℕ)
    → InArena s
    → 0 < n
    → s.current 1 + 8 + n ≤ 0x400000
    → (p : ℕ) × (s' : Immortal) × (malloc_immortal n 8 s ≡ ok (p, s'))
      × (s.current 1 ≤ p)
      × (p < s.current 1 + 8)
      × InArena s'
      × (s'.current 1 ≡ p + n)
table_block s n v pos room = malloc_immortal-room s n 8 v (pos, omega arith) room

memzero_outside : (d n x : ℕ) (m : Mem) → (x < d) ⊎ (d + n ≤ x) → memzero d n m x ≡ m x
unfolding memzero
memzero_outside d n x m h = ground (arith, memset_lem d 0 n m x)

-- The tables one after another, and the memory after each part of the initialisation.
module _ (c t idt table : ℕ) (m : Mem) where
  abbrev Ordered : Type 0
  Ordered = (t + 2048 ≤ idt) × (idt + 2048 ≤ table) × (table + 1024 ≤ 0x400000)

  abbrev with_code : Mem
  with_code = (trampolines_loop 256 c 0 t m).0

  abbrev with_gates : Mem
  with_gates = gates_loop 256 0 idt t with_code

  abbrev with_table : Mem
  with_table = memzero table 1024 with_gates

  abbrev pub prepared : Mem
  prepared = exceptions_loop 32 0 idt with_table

  -- The parts after the trampolines leave them.
  prepared_below : (x : ℕ) → Ordered → x < t + 2048 → prepared x ≡ with_code x
  prepared_below x o h =
      exceptions_loop_outside 32 0 idt x with_table (inl (omega arith))
      ∙ memzero_outside table 1024 x with_gates (inl (omega arith))
      ∙ gates_loop_outside 256 0 idt t x with_code (inl (omega arith))

  with_table-IsGate : Ordered → (j : ℕ) → j < 256 → IsGate with_table idt t (marked 0 j) j
  with_table-IsGate o j h =
      let g = gates_loop-IsGate 256 0 idt t with_code (λ l hl. elim hl [ ]) j h in
      let none_marked : marked 0 j ≡ 0 = ground arith in
      rw none_marked (
        load32-memzero_out with_gates table 1024 (idt + j * 8) (inl (omega arith)) ∙ g.0,
        load32-memzero_out with_gates table 1024 (idt + j * 8 + 4) (inl (omega arith)) ∙ g.1,
      )

  prepared-IsGate : Ordered → (j : ℕ) → j < 256 → IsGate prepared idt t (marked 32 j) j
  prepared-IsGate o j h =
      exceptions_loop-IsGate 32 0 idt t 256 with_table (omega arith) (with_table-IsGate o) j h

  prepared-table : Ordered → (j : ℕ) → j < 256 → load32 prepared (table + j * 4) ≡ 0
  prepared-table o j h =
      let a = table + j * 4 in
      load32-agree with_table prepared a
        (exceptions_loop_outside 32 0 idt a with_table (inr (omega arith)))
        (exceptions_loop_outside 32 0 idt (a + 1) with_table (inr (omega arith)))
        (exceptions_loop_outside 32 0 idt (a + 2) with_table (inr (omega arith)))
        (exceptions_loop_outside 32 0 idt (a + 3) with_table (inr (omega arith)))
      ∙ load32-memzero_in with_gates table 1024 a (omega arith) (omega arith)

  prepared-code :
      (i : ℕ) → Ordered → c < 4294967296 → i < 256 → enter prepared (t + i * 8) ≡ some (entered c i)
  prepared-code i o hc h =
      let from_zero : 0 + i ≡ i = omega arith in
      enter-agree with_code prepared (t + i * 8) (λ x p q. prepared_below x o (omega arith))
      ∙ enter-trampolines_loop 256 c 0 t m i (omega arith) hc (omega arith) h
      ∙ rw from_zero refl

marked-lt : (i j : ℕ) → marked i j < 2
marked-lt i j = ground arith

pub prepared-IsReady :
    (c t idt table : ℕ) (m : Mem) (immortal : Immortal)
    → (t + 2048 ≤ idt) × (idt + 2048 ≤ table) × (table + 1024 ≤ 0x400000)
    → c < 4294967296
    → IsReady c (record {
      ram = prepared c t idt table m;
      immortal = immortal;
      trampolines = t;
      idt = idt;
      handler_table = table;
    })
prepared-IsReady c t idt table m immortal o hc = record {
  trampolines_end = o.0;
  idt_end = o.1;
  table_end = o.2;
  code = λ i h. prepared-code c t idt table m i o hc h;
  offsets = λ i h.
      let g = prepared-IsGate c t idt table m o i h in
      rw (g.0, g.1)
        (words_offset (t + 8 * i) 8 0 14 0 0 (marked 32 i) (omega arith) (omega arith) (omega arith)
            (omega arith) (omega arith) (marked-lt 32 i)
          ∙ omega arith);
  selectors = λ i h. rw (prepared-IsGate c t idt table m o i h).0 (omega arith);
}

module _ (c t idt table : ℕ) (m : Mem) (immortal : Immortal)
    (o : (t + 2048 ≤ idt) × (idt + 2048 ≤ table) × (table + 1024 ≤ 0x400000)) where
  abbrev first : Interrupts
  first = record {
    ram = prepared c t idt table m;
    immortal = immortal;
    trampolines = t;
    idt = idt;
    handler_table = table;
  }

  first-interrupt :
      c < 4294967296
      → (i : ℕ) → i < 256
      → interrupt first i ≡ (if ltb i 32 then some (some (entered c i)) else none)
  first-interrupt hc i h =
      let g = prepared-IsGate c t idt table m o i h in
      let p =
        (high_word-fields (t + 8 * i) 0 14 0 0 (marked 32 i) (omega arith) (omega arith)
          (omega arith) (omega arith) (marked-lt 32 i)).2 in
      let present : gate_present (prepared c t idt table m) (idt + i * 8) ≡ ltb i 32 =
        rw (g.1, p) (ground arith) in
      interrupt-IsReady c i first (prepared-IsReady c t idt table m immortal o hc) h
      ∙ rw present refl

  first_handler : (i : ℕ) → i < 256 → universal_interrupt_handler i first ≡ panic
  unfolding universal_interrupt_handler
  first_handler i h = rw (prepared-table c t idt table m o i h) refl

-- The initialisation up to the handler of page faults.
init_interrupts_lem :
    (c handler : ℕ) (s : Interrupts)
    → InArena s.immortal
    → s.immortal.current 1 + 5144 ≤ 0x400000
    → (t : ℕ) × (idt : ℕ) × (table : ℕ) × (immortal : Immortal) × ((t + 2048 ≤ idt)
        × (idt + 2048 ≤ table)
        × (table + 1024 ≤ 0x400000))
      × (init_interrupts c handler s
          ≡ ok (
              set_interrupt_handler 14 14 0 handler (record {
                ram = prepared c t idt table s.ram;
                immortal = immortal;
                trampolines = t;
                idt = idt;
                handler_table = table;
              })))
unfolding init_interrupts calloc_immortal generate_idt generate_trampolines
init_interrupts_lem c handler s v room =
    let (t, i1, e1, low1, high1, v1, c1) =
      table_block s.immortal 2048 v (omega arith) (omega arith) in
    let (idt, i2, e2, low2, high2, v2, c2) =
      table_block i1 2048 v1 (omega arith) (omega (arith, c1)) in
    let (table, i3, e3, low3, high3, v3, c3) =
      table_block i2 1024 v2 (omega arith) (omega (arith, c1, c2)) in
    let last : leb (trampolines_loop 256 c 0 t s.ram).1 (t + 2048) ≡ true =
      rw (loop-next 256 c 0 t s.ram) (ground arith) in
    (
      t,
      idt,
      table,
      i3,
      (omega (arith, c1), omega (arith, c2), omega (arith, c1, c2)),
      rw (e1, last, e2, e3) refl,
    )

-- When arena 1 has room for the three tables, `init_interrupts` returns, with the tables ready.
-- Exactly the first 32 vectors, the exceptions, are taken, each by its own trampoline; the page
-- fault gets to its handler, and any other vector makes `universal_interrupt_handler` panic.
pub init_interrupts-IsReady :
    (c handler : ℕ) (s : Interrupts)
    → InArena s.immortal
    → s.immortal.current 1 + 5144 ≤ 0x400000
    → c < 4294967296
    → 0 < handler
    → handler < 4294967296
    → (s' : Interrupts) × (init_interrupts c handler s ≡ ok s')
      × IsReady c s'
      × ((i : ℕ)
          → i < 256
          → interrupt s' i ≡ (if ltb i 32 then some (some (entered c i)) else none))
      × (universal_interrupt_handler 14 s' ≡ ok handler)
      × ((i : ℕ) → i < 256 → i ≢ 14 → universal_interrupt_handler i s' ≡ panic)
init_interrupts-IsReady c handler s v room hc pos hl =
    let (t, idt, table, immortal, o, e) = init_interrupts_lem c handler s v room in
    let s1 : Interrupts = record {
      ram = prepared c t idt table s.ram;
      immortal = immortal;
      trampolines = t;
      idt = idt;
      handler_table = table;
    } in
    let v1 = prepared-IsReady c t idt table s.ram immortal o hc in
    let (v2, r, taken, calls, others) =
      set_interrupt_handler-IsReady c 14 14 0 handler s1 v1 (omega arith) pos hl in
    (
      set_interrupt_handler 14 14 0 handler s1,
      e,
      v2,
      λ i h. elim (ℕ_discrete i 14) [
        | yes q ↦ rw q taken
        | no ne ↦ (others i h ne).0 ∙ first-interrupt c t idt table s.ram immortal o hc i h
      ],
      calls,
      λ i h ne. (others i h ne).1 ∙ first_handler c t idt table s.ram immortal o i h,
    )
