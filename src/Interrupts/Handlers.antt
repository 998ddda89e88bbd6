-- ===== src/Interrupts/Handlers.antt =====
-- Registering a handler for an interrupt.
use ose.Prelude.{
  ℕ, ◌+◌, ◌*◌, ◌<◌, ◌≡◌, ◌≢◌, inl, inr, refl, ◌∙◌, arith, false, not, ◌==◌, if◌then◌else◌, none,
  some,
}
use ose.Prelude.Outcome.{ok}
use native.Mathlib.Decide.{dec_lt}
use ose.Memory.Words.{load32, load32-store32_self, load32-store32_apart}
use ose.Interrupts.{
  Interrupts, has_error_code, set_interrupt_handler, direct_set_interrupt_handler,
  universal_interrupt_handler,
}
use ose.Interrupts.Trampolines.{Entered}
use ose.Interrupts.Gates.{gate_present}
use ose.Interrupts.Dispatch.{
  IsReady, gate, interrupt, set_in_table, IsRegistered, set_in_table-IsReady, direct_set-IsReady,
}

-- What an interrupt leads to in a ready state.
abbrev pub entered : (collect_ctx vector : ℕ) → Entered
entered c vector = record {
  dummy_pushed = not (has_error_code vector);
  vector = vector;
  target = c;
}

pub interrupt-IsReady :
    (c i : ℕ) (s : Interrupts)
    → IsReady c s
    → i < 256
    → interrupt s i ≡ (if gate_present s.ram (gate s i) then some (some (entered c i)) else none)
interrupt-IsReady c i s v h = rw (v.offsets i h, v.code i h) refl

same_interrupt :
    (c i : ℕ) (s s' : Interrupts)
    → IsReady c s
    → IsReady c s'
    → i < 256
    → load32 s'.ram (gate s' i + 4) ≡ load32 s.ram (gate s i + 4)
    → interrupt s' i ≡ interrupt s i
same_interrupt c i s s' v v' h same =
    rw (interrupt-IsReady c i s v h, interrupt-IsReady c i s' v' h, same) refl

-- After `set_interrupt_handler` with a handler that is not null, the vector's gate has the given
-- type and privilege level, its interrupt is taken, pushes the vector and gets to `collect_ctx`, and
-- `universal_interrupt_handler` calls the handler. Every other vector's interrupt and handler are
-- as before, and the tables are ready again.
pub set_interrupt_handler-IsReady :
    (c vector type dpl handler : ℕ) (s : Interrupts)
    → IsReady c s
    → vector < 256
    → 0 < handler
    → handler < 4294967296
    → let s' = set_interrupt_handler vector type dpl handler s in
      IsReady c s'
      × IsRegistered type dpl s' vector
      × (interrupt s' vector ≡ some (some (entered c vector)))
      × (universal_interrupt_handler vector s' ≡ ok handler)
      × ((i : ℕ)
          → i < 256
          → i ≢ vector
          → (interrupt s' i ≡ interrupt s i)
            × (universal_interrupt_handler i s' ≡ universal_interrupt_handler i s))
unfolding set_interrupt_handler universal_interrupt_handler direct_set_interrupt_handler
set_interrupt_handler-IsReady c vector type dpl handler s v h pos hl =
    let (v1, same1) = set_in_table-IsReady c vector handler s v h in
    let s1 = set_in_table vector handler s in
    let (v2, r, same2, table2) = direct_set-IsReady c vector type dpl s1 v1 h in
    let s2 = direct_set_interrupt_handler vector type dpl (s.trampolines + vector * 8) s1 in
    let stored : load32 s1.ram (s.handler_table + vector * 4) ≡ handler =
      load32-store32_self s.ram (s.handler_table + vector * 4) handler hl in
    let not_null : (handler == 0) ≡ false = ground arith in
    let taken : interrupt s2 vector ≡ some (some (entered c vector)) =
      interrupt-IsReady c vector s2 v2 h ∙ rw r.0 refl in
    (
      v2,
      r,
      taken,
      rw (table2 vector h, stored, not_null) refl,
      λ i hi ne. (
        same_interrupt c i s s2 v v2 hi ((same2 i hi ne).1 ∙ (same1 i hi).1),
        rw
            (
              table2 i hi,
              load32-store32_apart s.ram (s.handler_table + vector * 4) (s.handler_table + i * 4)
                  handler
                  (elim (dec_lt vector i) [ yes p ↦ inl (omega arith) | no p ↦ inr (omega arith) ]),
            )
            refl,
      ),
    )
