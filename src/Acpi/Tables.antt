-- ===== src/Acpi/Tables.antt =====
-- The tables that the initialisation finds.
use ose.Prelude.{
  ℕ, zero, suc, ◌+◌, ◌/◌, ◌%◌, ◌≤◌, ◌<◌, ◌≡◌, ◌≢◌, ◌↔◌, ◌⊎◌, inl, inr, refl, sym, ◌∙◌, arith, Bool,
  true, false, ◌&&◌, ◌==◌, Mem, sub32, Bool-cases, some, if◌then◌else◌,
}
use mathlib.Core.Bool.{true≢false}
use native.Mathlib.Decide.{ℕ_discrete}
use ose.Memory.Bytes.{memcmp}
use ose.Memory.Bytes.Compare.{SameBytes}
use ose.Acpi.{
  Literals, Acpi, is_zero, fadt_loop, entry_of, length_of, rsdt_of, validate_checksum, find_rsdp,
  init_acpi,
}
use ose.Acpi.Search.{find_rsdp_lem}
use ose.Acpi.Checksum.{sum, and_iff, same_signature, zero_sum}

-- The test of an entry.
abbrev accepted : Literals → Mem → ℕ → Bool
accepted l m e = is_zero (memcmp m e l.facp 4) && validate_checksum m e

-- A table with the signature of the FADT and the right sum.
abbrev pub IsFadt : Literals → Mem → ℕ → Type 0
IsFadt l m e = SameBytes m e l.facp 4 × (sum (length_of m e) m e % 256 ≡ 0)

accepted-IsFadt :
    (l : Literals) (m : Mem) (e : ℕ)
    → ((x : ℕ) → m x < 256)
    → (accepted l m e ≡ true) ↔ IsFadt l m e
unfolding validate_checksum
accepted-IsFadt l m e bytes =
    let (to1, from1) = same_signature m e l.facp 4 bytes in
    let (to2, from2) = zero_sum (length_of m e) m e in
    let (to, from) = and_iff (is_zero (memcmp m e l.facp 4)) (validate_checksum m e) in
    (λ h. (to1 (to h).0, to2 (to h).1), λ h. from (from1 h.0, from2 h.1))

-- Entry `i` is the first of the `k` entries from `i` on that is not null and a FADT.
abbrev pub IsFirst : Literals → Mem → (rsdt i k j : ℕ) → Type 0
IsFirst l m rsdt i k j =
    (i ≤ j)
    × (j < i + k)
    × (entry_of m rsdt j ≢ 0)
    × IsFadt l m (entry_of m rsdt j)
    × ((x : ℕ) → i ≤ x → x < j → IsFadt l m (entry_of m rsdt x) → entry_of m rsdt x ≡ 0)

-- Once a table is found, the loop keeps it.
fadt_loop_found :
    (k : ℕ) (l : Literals) (m : Mem) (rsdt i fadt : ℕ)
    → fadt ≢ 0
    → fadt_loop k l m rsdt i fadt ≡ fadt
unfolding fadt_loop
fadt_loop_found zero l m rsdt i fadt h = refl
fadt_loop_found (suc k) l m rsdt i fadt h =
    let found : (fadt == 0) ≡ false = ground arith in
    rw (found, fadt_loop) (fadt_loop_found k l m rsdt (i + 1) fadt h)

-- The result of the loop over the `k` entries from `i` on: the first FADT, or NULL if there is none.
abbrev pub IsFound : Literals → Mem → (rsdt i k fadt : ℕ) → Type 0
IsFound l m rsdt i k fadt =
    ((j : ℕ) × (fadt ≡ entry_of m rsdt j) × IsFirst l m rsdt i k j)
    ⊎ ((fadt ≡ 0)
        × ((x : ℕ) → i ≤ x → x < i + k → IsFadt l m (entry_of m rsdt x) → entry_of m rsdt x ≡ 0))

skip :
    (l : Literals) (m : Mem) (rsdt i k fadt : ℕ)
    → (IsFadt l m (entry_of m rsdt i) → entry_of m rsdt i ≡ 0)
    → IsFound l m rsdt (i + 1) k fadt
    → IsFound l m rsdt i (suc k) fadt
skip l m rsdt i k fadt null found =
    let here : (x : ℕ) → i ≤ x → (x ≡ i) ⊎ (i + 1 ≤ x) =
      λ x a. elim (ℕ_discrete x i) [ yes y ↦ inl y | no n ↦ inr (omega arith) ] in
    elim found [
      | inl (j, r, (a, b, c, d, f)) ↦ inl (
        j,
        r,
        (
          omega arith,
          omega arith,
          c,
          d,
          λ x p q g. elim (here x p) [ inl y ↦ rw y (null (rw y at g)) | inr n ↦ f x n q g ],
        ),
      )
      | inr (r, none_found) ↦ inr (
        r,
        λ x p q g. elim (here x p) [
          | inl y ↦ rw y (null (rw y at g))
          | inr n ↦ none_found x n (omega arith) g
        ],
      )
    ]

fadt_loop-IsFound :
    (k : ℕ) (l : Literals) (m : Mem) (rsdt i : ℕ)
    → ((x : ℕ) → m x < 256)
    → IsFound l m rsdt i k (fadt_loop k l m rsdt i 0)
unfolding fadt_loop
fadt_loop-IsFound zero l m rsdt i bytes = inr (refl, λ x a b. absurd (omega arith))
fadt_loop-IsFound (suc k) l m rsdt i bytes =
    let e = entry_of m rsdt i in
    let (to, from) = accepted-IsFadt l m e bytes in
    let rest = fadt_loop-IsFound k l m rsdt (i + 1) bytes in
    elim (Bool-cases (accepted l m e)) [
      | inr r ↦
          rw (r, fadt_loop)
            (skip l m rsdt i k (fadt_loop k l m rsdt (i + 1) 0)
              (λ g. absurd (true≢false (sym (from g) ∙ r))) rest)
      | inl a ↦ elim (ℕ_discrete e 0) [
        | yes z ↦
            rw (a, z, fadt_loop) (skip l m rsdt i k (fadt_loop k l m rsdt (i + 1) 0) (λ g. z) rest)
        | no nz ↦ inl (
          i,
          rw (a, fadt_loop) (fadt_loop_found k l m rsdt (i + 1) e nz),
          (omega arith, omega arith, nz, to a, λ x p q. absurd (omega arith)),
        )
      ]
    ]

-- On a memory of bytes, from NULL pointers and for an address that does not wrap, `init_acpi`
-- returns. RSDP is what `find_RSDP` gives; RSDT is the table that it points to if that has the right
-- sum, else NULL; FADT is the first entry of the RSDT that is not null, has the signature FACP and
-- the right sum, of as many entries as the length of the RSDT says, and NULL if there is no such
-- entry or no RSDT.
pub init_acpi_lem :
    (l : Literals) (m : Mem) (ebda_start : ℕ)
    → ((x : ℕ) → m x < 256)
    → ebda_start + 15 < 4294967296
    → (s : Acpi) × (init_acpi l m ebda_start (record { rsdp = 0; rsdt = 0; fadt = 0 }) ≡ some s)
      × (find_rsdp l m ebda_start ≡ some s.rsdp)
      × (s.rsdt ≡ (if validate_checksum m (rsdt_of m s.rsdp) then rsdt_of m s.rsdp else 0))
      × ((s.rsdt ≡ 0 → s.fadt ≡ 0)
          × (s.rsdt ≢ 0 → IsFound l m s.rsdt 0 (sub32 (length_of m s.rsdt) 36 / 4) s.fadt))
unfolding init_acpi
init_acpi_lem l m ebda_start bytes h =
    let (p, e, first) = find_rsdp_lem l m ebda_start h in
    let rsdt = if validate_checksum m (rsdt_of m p) then rsdt_of m p else 0 in
    let fadt = if rsdt == 0 then 0 else fadt_loop (sub32 (length_of m rsdt) 36 / 4) l m rsdt 0 0 in
    (
      record { rsdp = p; rsdt = rsdt; fadt = fadt },
      rw (e, init_acpi) refl,
      e,
      refl,
      (
        λ z. let t : (rsdt == 0) ≡ true = ground arith in rw t refl,
        λ nz.
            let t : (rsdt == 0) ≡ false = ground arith in
            rw t (fadt_loop-IsFound (sub32 (length_of m rsdt) 36 / 4) l m rsdt 0 bytes),
      ),
    )
