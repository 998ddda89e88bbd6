-- ===== src/Console/Printf/Vsnprintf/Contract.antt =====
-- The contract of `vsnprintf`: what it stores, what it returns, and where it writes.
use ose.Prelude.{ℕ, ◌+◌, ◌-◌, ◌≤◌, ◌<◌, ◌≡◌, ap, ◌∙◌, arith, ◌&&◌, ◌==◌, if◌then◌else◌, ltb, leb}
use ose.Prelude.{Mem, u8, u32, List, some, Option, length, get_or, min}
use ose.Console.Printf.{Sink}
use ose.Console.Printf.Emit.{emit, emit-string, emit-mem}
use ose.Console.Printf.Vsnprintf.{finish, finish_all, vsnprintf, vsprintf}
use ose.Console.Printf.Vsnprintf.Output.{output, emit_all, vsnprintf_loop-emit, output-total}

-- All that a format prints, however long.
abbrev pub full_output : (ℕ → List ℕ) → (format args : List ℕ) → Option (List ℕ)
full_output text_at format args = output (length format + 1) text_at format args

vsnprintf-finish :
    (text_at : ℕ → List ℕ) (m : Mem) (s n : ℕ) (format args : List ℕ) {cs : List ℕ}
    → full_output text_at format args ≡ some cs
    → vsnprintf text_at m s n format args
      ≡ some (finish s n (u32 (s + n)) (emit (u32 (s + n)) cs (record { mem = m; string = s })))
unfolding vsnprintf
vsnprintf-finish text_at m s n format args e =
    let end = u32 (s + n) in
    let o : Sink = record { mem = m; string = s } in
    ap (finish_all s n end)
      (vsnprintf_loop-emit (length format + 1) end text_at format args o ∙ ap (emit_all end o) e)

-- Every format has an output, and `vsnprintf` returns for every format, buffer and arguments, after
-- it has put exactly that output through the bounded sink.
pub vsnprintf-total :
    (text_at : ℕ → List ℕ) (m : Mem) (s n : ℕ) (format args : List ℕ)
    → (cs : List ℕ) × (full_output text_at format args ≡ some cs)
      × (vsnprintf text_at m s n format args
          ≡ some
              (finish s n (u32 (s + n)) (emit (u32 (s + n)) cs (record { mem = m; string = s }))))
vsnprintf-total text_at m s n format args =
    let (cs, e) = output-total (length format + 1) text_at format args (omega arith) in
    (cs, e, vsnprintf-finish text_at m s n format args e)

-- What address `x` holds after `n` characters at most, the terminator included, went to `s`.
abbrev pub stored : Mem → (s n : ℕ) → List ℕ → ℕ → ℕ
stored m s n cs x =
    let kept = min (length cs) (n - 1) in
    if n == 0
    then m x
    else if leb s x && ltb x (s + kept)
    then u8 (get_or cs (x - s) 0)
    else if x == s + kept
    then 0
    else m x

finish_lem :
    (m : Mem) (s n : ℕ) (cs : List ℕ) (x : ℕ)
    → s + n < 4294967296
    → s + length cs < 4294967296
    → (finish s n (s + n) (emit (s + n) cs (record { mem = m; string = s }))).0 x
      ≡ stored m s n cs x
unfolding finish
finish_lem m s n cs x hn hc =
    let o : Sink = record { mem = m; string = s } in
    ground (arith, emit-string (s + n) cs o hc, emit-mem (s + n) cs o x hc)

unbounded_lem :
    (m : Mem) (s : ℕ) (cs : List ℕ) (x : ℕ)
    → 2 ≤ s
    → s + length cs < 4294967296
    → (finish s 4294967295 (s - 1) (emit (s - 1) cs (record { mem = m; string = s }))).0 x
      ≡ (if x == s - 2 then 0 else m x)
unfolding finish
unbounded_lem m s cs x hs hc =
    let o : Sink = record { mem = m; string = s } in
    ground (arith, emit-string (s - 1) cs o hc, emit-mem (s - 1) cs o x hc)

-- For a buffer at an address from 2 on and an output that ends below 2 ^ 32 if put there, `vsprintf`
-- stores no character of its output: `s + SIZE_MAX` wraps to one below `s`, so the only byte that it
-- writes is a zero two below `s`. It still returns the length of the output.
pub vsprintf_lem :
    (text_at : ℕ → List ℕ) (m : Mem) (s : ℕ) (format args : List ℕ) {cs : List ℕ}
    → full_output text_at format args ≡ some cs
    → 2 ≤ s
    → s + length cs < 4294967296
    → (r : Mem × ℕ) × (vsprintf text_at m s format args ≡ some r)
      × (r.1 ≡ length cs)
      × ((x : ℕ) → r.0 x ≡ (if x == s - 2 then 0 else m x))
unfolding vsprintf finish
vsprintf_lem text_at m s format args {cs} e hs hc =
    let o : Sink = record { mem = m; string = s } in
    let bound : u32 (s + 4294967295) ≡ s - 1 = omega arith in
    (
      finish s 4294967295 (s - 1) (emit (s - 1) cs o),
      vsnprintf-finish text_at m s 4294967295 format args e
          ∙ ap (λ (end : ℕ). some (finish s 4294967295 end (emit end cs o))) bound,
      omega (arith, emit-string (s - 1) cs o hc),
      λ x. unbounded_lem m s cs x hs hc,
    )

-- For a buffer and an output that end below 2 ^ 32, `vsnprintf` returns the length of the whole
-- output, stores as much of it as fits with a terminator, and writes nowhere else.
pub vsnprintf_lem :
    (text_at : ℕ → List ℕ) (m : Mem) (s n : ℕ) (format args : List ℕ) {cs : List ℕ}
    → full_output text_at format args ≡ some cs
    → s + n < 4294967296
    → s + length cs < 4294967296
    → (r : Mem × ℕ) × (vsnprintf text_at m s n format args ≡ some r)
      × (r.1 ≡ length cs)
      × ((x : ℕ) → r.0 x ≡ stored m s n cs x)
unfolding finish
vsnprintf_lem text_at m s n format args {cs} e hn hc =
    let o : Sink = record { mem = m; string = s } in
    let bound : u32 (s + n) ≡ s + n = omega arith in
    (
      finish s n (s + n) (emit (s + n) cs o),
      vsnprintf-finish text_at m s n format args e
          ∙ ap (λ (end : ℕ). some (finish s n end (emit end cs o))) bound,
      omega (arith, emit-string (s + n) cs o hc),
      λ x. finish_lem m s n cs x hn hc,
    )
