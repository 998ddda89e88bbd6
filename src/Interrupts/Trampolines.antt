-- ===== src/Interrupts/Trampolines.antt =====
-- What the trampolines do when the processor runs them.
use ose.Prelude.{
  ℕ, zero, suc, ◌+◌, ◌*◌, ◌≤◌, ◌<◌, ◌≡◌, ◌⊎◌, inl, inr, refl, sym, ◌∙◌, arith, Bool, true, false,
  not, ◌&&◌, Option, none, some, Mem, write, ◌==◌, if◌then◌else◌, u8, u32, sub32, Bool-cases,
}
use native.Mathlib.Nat.{zero-mul, add-zero}
use mathlib.Core.Path.{subst}
use ose.Memory.Words.{load32, store32, load32-store32_self, load32-agree, store32_outside}
use ose.Interrupts.{has_error_code, write_trampoline, trampolines_loop}

-- What a trampoline does: it pushes CS in the place of the error code or not, pushes a vector, and
-- jumps.
pub record Entered : Type 0 where
  pub dummy_pushed : Bool
  pub vector : ℕ
  pub target : ℕ

-- `push imm8` and `jmp rel32` at `p`; the jump is relative to the instruction behind it.
unfoldable pub decode : Mem → Bool → ℕ → Option Entered
decode m dummy p =
    if (m p == 0x6A) && (m (p + 2) == 0xE9)
    then some (record {
      dummy_pushed = dummy;
      vector = m (p + 1);
      target = u32 (p + 7 + load32 m (p + 3));
    })
    else none

-- The instructions at `t`, with `push cs` before them or not.
abbrev pub enter : Mem → ℕ → Option Entered
enter m t = if m t == 0x0E then decode m true (t + 1) else decode m false t

decode-agree :
    (m m' : Mem) (d : Bool) (p : ℕ)
    → ((x : ℕ) → p ≤ x → x < p + 7 → m' x ≡ m x)
    → decode m' d p ≡ decode m d p
unfolding decode
decode-agree m m' d p h =
    let a = h p (omega arith) (omega arith) in
    let b = h (p + 1) (omega arith) (omega arith) in
    let c = h (p + 2) (omega arith) (omega arith) in
    let w =
      load32-agree m m' (p + 3) (h (p + 3) (omega arith) (omega arith))
        (h (p + 3 + 1) (omega arith) (omega arith)) (h (p + 3 + 2) (omega arith) (omega arith))
        (h (p + 3 + 3) (omega arith) (omega arith)) in
    rw (a, b, c, w) refl

-- The eight bytes decide.
pub enter-agree :
    (m m' : Mem) (t : ℕ) → ((x : ℕ) → t ≤ x → x < t + 8 → m' x ≡ m x) → enter m' t ≡ enter m t
enter-agree m m' t h =
    rw
      (
        h t (omega arith) (omega arith),
        decode-agree m m' true (t + 1) (λ x p q. h x (omega arith) (omega arith)),
        decode-agree m m' false t (λ x p q. h x (omega arith) (omega arith)),
      )
      refl

pub write_trampoline-next : (c v t : ℕ) (m : Mem) → (write_trampoline c v t m).1 ≡ t + 8
unfolding write_trampoline
write_trampoline-next c v t m = ground arith

-- The seven bytes that both kinds of trampolines share.
abbrev code : (p v rel : ℕ) → Mem → Mem
code p v rel m = store32 (write (write (write m p 0x6A) (p + 1) (u8 v)) (p + 2) 0xE9) (p + 3) rel

code_outside : (p v rel x : ℕ) (m : Mem) → (x < p) ⊎ (p + 7 ≤ x) → code p v rel m x ≡ m x
code_outside p v rel x m h = ground (
  arith,
  store32_outside (write (write (write m p 0x6A) (p + 1) (u8 v)) (p + 2) 0xE9) (p + 3) rel x,
)

code_first : (p v rel : ℕ) (m : Mem) → code p v rel m p ≡ 0x6A
code_first p v rel m = ground (
  arith,
  store32_outside (write (write (write m p 0x6A) (p + 1) (u8 v)) (p + 2) 0xE9) (p + 3) rel p,
)

decode-code :
    (p v rel : ℕ) (m : Mem) (d : Bool)
    → v < 256
    → rel < 4294967296
    → decode (code p v rel m) d p
      ≡ some (record { dummy_pushed = d; vector = v; target = u32 (p + 7 + rel) })
unfolding decode
decode-code p v rel m d hv hr =
    let m1 = write (write (write m p 0x6A) (p + 1) (u8 v)) (p + 2) 0xE9 in
    let a : store32 m1 (p + 3) rel p ≡ 0x6A = code_first p v rel m in
    let b : store32 m1 (p + 3) rel (p + 1) ≡ v =
      ground (arith, store32_outside m1 (p + 3) rel (p + 1)) in
    let c : store32 m1 (p + 3) rel (p + 2) ≡ 0xE9 =
      ground (arith, store32_outside m1 (p + 3) rel (p + 2)) in
    rw (a, b, c, load32-store32_self m1 (p + 3) rel hr) refl

pub write_trampoline_outside :
    (c v t x : ℕ) (m : Mem) → (x < t) ⊎ (t + 8 ≤ x) → (write_trampoline c v t m).0 x ≡ m x
unfolding write_trampoline
write_trampoline_outside c v t x m h = elim (Bool-cases (has_error_code v)) [
  | inl e ↦ rw e (ground (arith, code_outside t v (sub32 (sub32 c (t + 3)) 4) x m))
  | inr e ↦
      rw e
        (ground (arith, code_outside (t + 1) v (sub32 (sub32 c (t + 1 + 3)) 4) x (write m t 0x0E)))
]

-- A trampoline that is written pushes its vector and enters `collect_ctx`, with CS pushed before if
-- the processor pushes no error code.
pub enter-write_trampoline :
    (c v t : ℕ) (m : Mem)
    → v < 256
    → c < 4294967296
    → t + 8 ≤ 4294967296
    → enter (write_trampoline c v t m).0 t
      ≡ some (record { dummy_pushed = not (has_error_code v); vector = v; target = c })
unfolding write_trampoline
enter-write_trampoline c v t m hv hc ht = elim (Bool-cases (has_error_code v)) [
  | inl e ↦
      let rel = sub32 (sub32 c (t + 3)) 4 in
      let to : u32 (t + 7 + rel) ≡ c = omega arith in
      rw (e, code_first t v rel m) (decode-code t v rel m false hv (omega arith) ∙ rw to refl)
  | inr e ↦
      let rel = sub32 (sub32 c (t + 1 + 3)) 4 in
      let to : u32 (t + 1 + 7 + rel) ≡ c = omega arith in
      let cs : code (t + 1) v rel (write m t 0x0E) t ≡ 0x0E =
        code_outside (t + 1) v rel t (write m t 0x0E) (inl (omega arith)) ∙ ground arith in
      rw (e, cs) (decode-code (t + 1) v rel (write m t 0x0E) true hv (omega arith) ∙ rw to refl)
]

loop_outside :
    (k c v t : ℕ) (m : Mem) (x : ℕ)
    → (x < t) ⊎ (t + k * 8 ≤ x)
    → (trampolines_loop k c v t m).0 x ≡ m x
unfolding trampolines_loop
loop_outside zero c v t m x h = refl
loop_outside (suc k) c v t m x h =
    let n = write_trampoline-next c v t m in
    loop_outside k c (v + 1) (write_trampoline c v t m).1 (write_trampoline c v t m).0 x
      (ground (arith, n))
    ∙ write_trampoline_outside c v t x m (ground arith)

pub loop-next : (k c v t : ℕ) (m : Mem) → (trampolines_loop k c v t m).1 ≡ t + k * 8
unfolding trampolines_loop
loop-next zero c v t m = omega arith
loop-next (suc k) c v t m = omega (
  arith,
  write_trampoline-next c v t m,
  loop-next k c (v + 1) (write_trampoline c v t m).1 (write_trampoline c v t m).0,
)

-- Each of the `k` trampolines that the loop writes from `t` on, when the vectors from `v` on are
-- bytes and the addresses do not wrap, pushes its own vector and jumps to `collect_ctx`; it pushes CS
-- before in the place of an error code exactly if the processor pushes none for that vector.
pub enter-trampolines_loop :
    (k c v t : ℕ) (m : Mem) (i : ℕ)
    → v + k ≤ 256
    → c < 4294967296
    → t + k * 8 ≤ 4294967296
    → i < k
    → enter (trampolines_loop k c v t m).0 (t + i * 8)
      ≡ some (record { dummy_pushed = not (has_error_code (v + i)); vector = v + i; target = c })
unfolding trampolines_loop
enter-trampolines_loop zero c v t m i hv hc ht hi = elim hi [ ]
enter-trampolines_loop (suc k) c v t m zero hv hc ht hi =
    let m1 = (write_trampoline c v t m).0 in
    let n = write_trampoline-next c v t m in
    rw (zero-mul 8, add-zero t, add-zero v)
      (enter-agree m1 (trampolines_loop k c (v + 1) (write_trampoline c v t m).1 m1).0 t
          (λ x p q. loop_outside k c (v + 1) (write_trampoline c v t m).1 m1 x (ground (arith, n)))
        ∙ enter-write_trampoline c v t m (omega arith) hc (omega arith))
enter-trampolines_loop (suc k) c v t m (suc i) hv hc ht hi =
    let m1 = (write_trampoline c v t m).0 in
    let next : t + 8 ≡ (write_trampoline c v t m).1 = sym (write_trampoline-next c v t m) in
    let place : t + suc i * 8 ≡ t + 8 + i * 8 = omega arith in
    let vector : v + suc i ≡ v + 1 + i = omega arith in
    rw (place, vector)
      (subst
        (λ t'.
          enter (trampolines_loop k c (v + 1) t' m1).0 (t + 8 + i * 8)
          ≡ some (record {
            dummy_pushed = not (has_error_code (v + 1 + i));
            vector = v + 1 + i;
            target = c;
          }))
        next
        (enter-trampolines_loop k c (v + 1) (t + 8) m1 i (omega arith) hc (omega arith)
          (omega arith)))
