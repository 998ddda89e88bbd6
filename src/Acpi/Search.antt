-- ===== src/Acpi/Search.antt =====
-- The search for the root pointer.
use ose.Prelude.{
  ℕ, zero, suc, ◌+◌, ◌-◌, ◌*◌, ◌%◌, ◌≤◌, ◌<◌, ◌≡◌, ◌⊎◌, inl, inr, refl, arith, Bool, true, false,
  Bool-cases, none, some, Mem, ltb, ltb→lt,
}
use native.Mathlib.Decide.{ℕ_discrete}
use ose.Acpi.{Literals, scan, align16, validate_rsdp, find_rsdp}

-- No address of the region is valid, and the first one that is.
abbrev pub NoneValid : (valid : ℕ → Bool) → (from end : ℕ) → Type 0
NoneValid valid from end = (q : ℕ) → from ≤ q → q < end → q % 16 ≡ 0 → valid q ≡ false

abbrev pub FirstValid : (valid : ℕ → Bool) → (from end p : ℕ) → Type 0
FirstValid valid from end p =
    (from ≤ p) × (p < end) × (p % 16 ≡ 0) × (valid p ≡ true) × NoneValid valid from p

-- The loop ends with the first valid address, or with none if there is none.
scan_lem :
    (fuel k : ℕ) (valid : ℕ → Bool) (p end : ℕ)
    → p % 16 ≡ 0
    → k < fuel
    → end ≤ p + k * 16
    → ((scan fuel valid p end ≡ some none) × NoneValid valid p end)
      ⊎ ((q : ℕ) × (scan fuel valid p end ≡ some (some q)) × FirstValid valid p end q)
unfolding scan
scan_lem zero k valid p end al hk h = elim hk [ ]
scan_lem (suc fuel) k valid p end al hk h = elim (Bool-cases (ltb p end)) [
  | inr e ↦ inl (rw (e, scan) refl, λ q a b m. absurd (ground arith))
  | inl e ↦ elim (Bool-cases (valid p)) [
    | inl v ↦ inr (
      p,
      rw (e, v, scan) refl,
      (omega arith, ground arith, al, v, λ q a b m. absurd (omega arith)),
    )
    | inr v ↦
        let below = ltb→lt p end e in
        let later : (q : ℕ) → p ≤ q → q % 16 ≡ 0 → (q ≡ p) ⊎ (p + 16 ≤ q) =
          λ q a m. elim (ℕ_discrete q p) [ yes y ↦ inl y | no n ↦ inr (omega arith) ] in
        elim (scan_lem fuel (k - 1) valid (p + 16) end (omega arith) (omega arith) (omega arith)) [
          | inl (r, none_valid) ↦ inl (
            rw (e, v, scan) r,
            λ q a b m. elim (later q a m) [ inl y ↦ rw y v | inr n ↦ none_valid q n b m ],
          )
          | inr (q, r, f) ↦ inr (
            q,
            rw (e, v, scan) r,
            (
              omega (arith, f.0),
              f.1,
              f.2,
              f.3,
              λ x a b m. elim (later x a m) [ inl y ↦ rw y v | inr n ↦ f.4 x n b m ],
            ),
          )
        ]
  ]
]

aligned16 :
    (a : ℕ) → a + 15 < 4294967296 → (align16 a % 16 ≡ 0) × (a ≤ align16 a) × (align16 a < a + 16)
aligned16 a h = (omega arith, omega arith, omega arith)

-- For an address that does not wrap, `find_RSDP` returns. The result is the first valid address, of
-- those that are divisible by 16, from the given one up to 0xA0000; or if there is none, the first
-- from 0xE0000 up to 0xFFFFF; or if there is none either, NULL.
pub find_rsdp_lem :
    (l : Literals) (m : Mem) (ebda_start : ℕ)
    → ebda_start + 15 < 4294967296
    → (p : ℕ) × (find_rsdp l m ebda_start ≡ some p)
      × (FirstValid (validate_rsdp l m) ebda_start 0xA0000 p
          ⊎ (NoneValid (validate_rsdp l m) ebda_start 0xA0000
              × (FirstValid (validate_rsdp l m) 0xE0000 0xFFFFF p
                  ⊎ (NoneValid (validate_rsdp l m) 0xE0000 0xFFFFF × (p ≡ 0)))))
unfolding find_rsdp
find_rsdp_lem l m ebda_start h =
    let valid = validate_rsdp l m in
    let (al, above, near) = aligned16 ebda_start h in
    let from : (q : ℕ) → ebda_start ≤ q → q % 16 ≡ 0 → align16 ebda_start ≤ q =
      λ q a b. omega arith in
    elim (scan_lem 0xA001 0xA000 valid (align16 ebda_start) 0xA0000 al (omega arith)
      (omega arith)) [
        | inr (p, r, f) ↦ (
          p,
          rw r refl,
          inl (omega (arith, f.0), f.1, f.2, f.3, λ q a b k. f.4 q (from q a k) b k),
        )
        | inl (r, no_low) ↦
            let no_low' : NoneValid valid ebda_start 0xA0000 =
              λ q a b k. no_low q (from q a k) b k in
            elim (scan_lem 0xA001 0xA000 valid (align16 0xE0000) 0xFFFFF refl (omega arith)
              (omega arith)) [
                | inr (p, r2, f) ↦ (p, rw (r, r2) refl, inr (no_low', inl f))
                | inl (r2, no_rom) ↦ (0, rw (r, r2) refl, inr (no_low', inr (no_rom, refl)))
              ]
      ]
