-- ===== src/Interrupts.antt =====
-- Interrupts of src/interrupts.c: the trampolines, the descriptor table, the handler table and the
-- masks of the interrupt controllers.
use ose.Prelude.{
  ℕ, zero, suc, ◌+◌, ◌-◌, ◌*◌, ◌/◌, ◌%◌, Bool, true, false, not, ◌||◌, Option, none, some, Mem,
  write, leb, ltb, ◌==◌, if◌then◌else◌, u8, u32, sub32,
}
use ose.Prelude.Outcome.{Outcome, ok, panic, ◌>>=◌}
use ose.Memory.Bytes.{memzero}
use ose.Memory.Words.{load32, store32}
use ose.Memory.Immortal.{Immortal, malloc_immortal, calloc_immortal}
pub mod Trampolines
pub mod Gates
pub mod Dispatch
pub mod Handlers
pub mod Initial
pub mod Pic
pub mod Examples

abbrev pub vector_count : ℕ
vector_count = 256

abbrev pub exception_count : ℕ
exception_count = 0x20

abbrev pub trampoline_size : ℕ
trampoline_size = 8

-- `sizeof(GateDescriptor)`.
abbrev pub gate_size : ℕ
gate_size = 8

abbrev pub interrupt_gate : ℕ
interrupt_gate = 0xE

abbrev pub kernel_code_segment : ℕ
kernel_code_segment = 0x8

abbrev pub page_fault_vector : ℕ
page_fault_vector = 0x0E

-- The variables of interrupts.c, the memory that they point into, and the allocator.
pub record Interrupts : Type 0 where
  pub ram : Mem
  pub immortal : Immortal
  pub trampolines : ℕ
  pub idt : ℕ
  pub handler_table : ℕ

unfoldable pub has_error_code : ℕ → Bool
has_error_code vector =
    (vector == 0x08)
    || (vector == 0x0A)
    || (vector == 0x0B)
    || (vector == 0x0C)
    || (vector == 0x0D)
    || (vector == 0x0E)
    || (vector == 0x11)
    || (vector == 0x15)
    || (vector == 0x1D)
    || (vector == 0x1E)

-- A round of the loop of `generate_trampolines`: the code at `t`, and where the next one starts.
unfoldable pub write_trampoline : (collect_ctx vector t : ℕ) → Mem → Mem × ℕ
write_trampoline collect_ctx vector t m =
    let f = has_error_code vector in
    let p : ℕ = if f then t else t + 1 in
    let m1 = if f then m else write m t 0x0E in
    let m2 = write (write (write m1 p 0x6A) (p + 1) (u8 vector)) (p + 2) 0xE9 in
    (store32 m2 (p + 3) (sub32 (sub32 collect_ctx (p + 3)) 4), p + 3 + 4 + (if f then 1 else 0))

-- The loop from `vector` on, with `k` vectors left.
unfoldable pub trampolines_loop : ℕ → (collect_ctx vector t : ℕ) → Mem → Mem × ℕ
trampolines_loop zero collect_ctx vector t m = (m, t)
trampolines_loop (suc k) collect_ctx vector t m =
    let r = write_trampoline collect_ctx vector t m in
    trampolines_loop k collect_ctx (vector + 1) r.1 r.0

-- The assertion at the end panics.
unfoldable pub generate_trampolines : (collect_ctx : ℕ) → Interrupts → Outcome Interrupts
generate_trampolines collect_ctx s = do
  (t, immortal) ← malloc_immortal (vector_count * trampoline_size) 8 s.immortal
  let r = trampolines_loop vector_count collect_ctx 0 t s.ram
  if leb r.1 (t + vector_count * trampoline_size)
      then ok (record s { ram = r.0; immortal = immortal; trampolines = t })
      else panic

-- The two words of a gate: the offset in the outer halves, the selector, and a byte with type,
-- privilege level and present bit.
abbrev pub low_word : (offset selector : ℕ) → ℕ
low_word offset selector = offset % 65536 + selector * 65536

abbrev pub high_word : (offset low_byte type fixed dpl present : ℕ) → ℕ
high_word offset low_byte type fixed dpl present =
    low_byte + (type + fixed * 16 + dpl * 32 + present * 128) * 256 + offset / 65536 % 65536 * 65536

unfoldable pub write_descriptor : (desc trampoline type present : ℕ) → Mem → Mem
write_descriptor desc trampoline type present m =
    store32 (store32 m desc (low_word trampoline kernel_code_segment)) (desc + 4)
      (high_word trampoline 0 type 0 0 present)

-- The loop of `generate_idt` from gate `i` on, with `k` gates left.
unfoldable pub gates_loop : ℕ → (i idt trampolines : ℕ) → Mem → Mem
gates_loop zero i idt trampolines m = m
gates_loop (suc k) i idt trampolines m =
    gates_loop k (i + 1) idt trampolines (
      write_descriptor (idt + i * gate_size) (trampolines + trampoline_size * i) interrupt_gate 0 m)

unfoldable pub generate_idt : (collect_ctx : ℕ) → Interrupts → Outcome Interrupts
generate_idt collect_ctx s = do
  s1 ← generate_trampolines collect_ctx s
  (idt, immortal) ← malloc_immortal (gate_size * vector_count) 8 s1.immortal
  ok (record s1 {
    ram = gates_loop vector_count 0 idt s1.trampolines s1.ram;
    immortal = immortal;
    idt = idt;
  })

-- Sets the bit `present` of the gate at `desc`.
unfoldable pub set_present : ℕ → Mem → Mem
set_present desc m =
    let h = load32 m (desc + 4) in
    store32 m (desc + 4) (if h / 32768 % 2 == 1 then h else h + 32768)

-- The loop of `init_exceptions` from gate `i` on, with `k` gates left.
unfoldable pub exceptions_loop : ℕ → (i idt : ℕ) → Mem → Mem
exceptions_loop zero i idt m = m
exceptions_loop (suc k) i idt m =
    exceptions_loop k (i + 1) idt (set_present (idt + i * gate_size) m)

unfoldable pub direct_set_interrupt_handler :
    (vector type dpl handler : ℕ) → Interrupts → Interrupts
direct_set_interrupt_handler vector type dpl handler s =
    let desc = s.idt + vector * gate_size in
    let low = load32 s.ram desc in
    let high = load32 s.ram (desc + 4) in
    record s {
      ram =
          store32 (store32 s.ram desc (low_word handler (low / 65536))) (desc + 4)
            (high_word handler (high % 256) (type % 16) (high / 4096 % 2) (dpl % 4) 1);
    }

unfoldable pub set_interrupt_handler : (vector type dpl handler : ℕ) → Interrupts → Interrupts
set_interrupt_handler vector type dpl handler s =
    direct_set_interrupt_handler vector type dpl (s.trampolines + vector * trampoline_size)
      (record s { ram = store32 s.ram (s.handler_table + vector * 4) handler })

unfoldable pub init_interrupts :
    (collect_ctx pagefault_handler : ℕ) → Interrupts → Outcome Interrupts
init_interrupts collect_ctx pagefault_handler s = do
  s1 ← generate_idt collect_ctx s
  (table, ram, immortal) ← calloc_immortal (4 * vector_count) 8 s1.ram s1.immortal
  let s2 = record s1 { ram = ram; immortal = immortal; handler_table = table }
  let s3 = record s2 { ram = exceptions_loop exception_count 0 s2.idt s2.ram }
  ok (set_interrupt_handler page_fault_vector interrupt_gate 0 pagefault_handler s3)

-- The handler that `universal_interrupt_handler` calls.
unfoldable pub universal_interrupt_handler : (vector : ℕ) → Interrupts → Outcome ℕ
universal_interrupt_handler vector s =
    let handler = load32 s.ram (s.handler_table + vector * 4) in
    if handler == 0 then panic else ok handler
