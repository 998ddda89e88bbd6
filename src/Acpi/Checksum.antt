-- ===== src/Acpi/Checksum.antt =====
-- The checksums and signatures of the tables.
use ose.Prelude.{
  ℕ, zero, suc, ◌+◌, ◌%◌, ◌<◌, ◌≡◌, ◌↔◌, refl, ◌∙◌, arith, Bool, true, ◌&&◌, ◌==◌, Mem, u8,
}
use ose.Prelude.Int.{ℤ, pos, negsuc}
use ose.Memory.Bytes.{memcmp}
use ose.Memory.Bytes.Compare.{SameBytes, memcmp-SameBytes}
use ose.Acpi.{Literals, is_zero, checksum_loop, validate_rsdp, validate_checksum, length_of}

-- The sum of the `k` bytes at `p`.
unfoldable pub sum : (k : ℕ) → Mem → ℕ → ℕ
sum zero m p = 0
sum (suc k) m p = m p + sum k m (p + 1)

checksum_loop_lem :
    (k : ℕ) (m : Mem) (p c : ℕ) → c < 256 → checksum_loop k m p c ≡ (c + sum k m p) % 256
unfolding checksum_loop sum
checksum_loop_lem zero m p c h = omega arith
checksum_loop_lem (suc k) m p c h =
    checksum_loop_lem k m (p + 1) (u8 (c + m p)) (omega arith) ∙ omega arith

is_zero_iff : (i : ℤ) → (is_zero i ≡ true) ↔ (i ≡ pos 0)
is_zero_iff (pos zero) = (λ h. refl, λ h. refl)
is_zero_iff (pos (suc n)) = (λ h. cc, λ h. cc)
is_zero_iff (negsuc n) = (λ h. cc, λ h. cc)

pub zero_sum :
    (k : ℕ) (m : Mem) (p : ℕ) → ((checksum_loop k m p 0 == 0) ≡ true) ↔ (sum k m p % 256 ≡ 0)
zero_sum k m p = rw (checksum_loop_lem k m p 0 (omega arith)) (ground arith)

-- A root pointer: its signature and twenty bytes that add up to 0.
abbrev pub IsRsdp : Literals → Mem → ℕ → Type 0
IsRsdp l m p = SameBytes m p l.rsd_ptr 8 × (sum 20 m p % 256 ≡ 0)

pub and_iff : (a b : Bool) → ((a && b) ≡ true) ↔ ((a ≡ true) × (b ≡ true))
and_iff a b = ground arith

pub same_signature :
    (m : Mem) (a b n : ℕ)
    → ((x : ℕ) → m x < 256)
    → (is_zero (memcmp m a b n) ≡ true) ↔ SameBytes m a b n
same_signature m a b n bytes =
    let (to, from) = is_zero_iff (memcmp m a b n) in
    let (to', from') = memcmp-SameBytes m a b n bytes in (λ h. to' (to h), λ h. from (from' h))

-- On a memory of bytes, `validate_RSDP` accepts exactly the addresses of twenty bytes that begin with
-- the signature and add up to 0 modulo 256, and `validate_checksum` exactly the tables whose bytes,
-- as many as the field `length` says, add up to 0 modulo 256.
pub validate-IsRsdp :
    (l : Literals) (m : Mem) (p : ℕ)
    → ((x : ℕ) → m x < 256)
    → ((validate_rsdp l m p ≡ true) ↔ IsRsdp l m p)
      × ((validate_checksum m p ≡ true) ↔ (sum (length_of m p) m p % 256 ≡ 0))
unfolding validate_rsdp validate_checksum
validate-IsRsdp l m p bytes =
    let (to, from) = and_iff (is_zero (memcmp m p l.rsd_ptr 8)) (checksum_loop 20 m p 0 == 0) in
    let (to1, from1) = same_signature m p l.rsd_ptr 8 bytes in
    let (to2, from2) = zero_sum 20 m p in
    (
      (λ h. (to1 (to h).0, to2 (to h).1), λ h. from (from1 h.0, from2 h.1)),
      zero_sum (length_of m p) m p,
    )
