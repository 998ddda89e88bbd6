-- ===== src/Ps2/Keys/Table.antt =====
-- What the table `byte_to_code` holds and lacks.
use ose.Prelude.{
  ℕ, zero, suc, ◌<◌, ◌≡◌, ◌≢◌, refl, arith, sym, ap, ◌∙◌, Bool, true, false, ◌&&◌, ◌||◌, not,
}
use ose.Prelude.{List, [], ◌∷◌, Option, none, some, get_or, ltb, leb, ◌==◌}
use mathlib.Core.Bool.{false≢true}
use native.Mathlib.Decide.{ℕ_discrete}
use mathlib.Core.Path.{subst}
use ose.Prelude.{◌+◌, if◌then◌else◌}
use ose.Ps2.Keys.{KeyCode, byte_to_code, make_char, key_none, key_f1, key_f2, key_f7}

-- The function keys F1, F2 and F7.
is_missing : KeyCode → Bool
is_missing key_f1 = true
is_missing key_f2 = true
is_missing key_f7 = true
is_missing _ = false

all_found : List KeyCode → Bool
all_found [] = true
all_found (k ∷ ks) = not (is_missing k) && all_found ks

all_found-get_or :
    (ks : List KeyCode) (i : ℕ) → all_found ks ≡ true → is_missing (get_or ks i key_none) ≡ false
unfolding all_found is_missing
all_found-get_or [] i h = refl
all_found-get_or (k ∷ ks) zero h = ground arith
all_found-get_or (k ∷ ks) (suc i) h = all_found-get_or ks i (ground arith)

missing_key : (k : KeyCode) {j : KeyCode} → is_missing k ≡ true → is_missing j ≡ false → j ≢ k
missing_key k h g e = false≢true (sym g ∙ ap is_missing e ∙ h)

-- No byte stands for F1, F2 or F7: their entries name other keys, or are missing.
pub byte_to_code-missing :
    (c : ℕ)
    → (get_or byte_to_code c key_none ≢ key_f1)
      × (get_or byte_to_code c key_none ≢ key_f2)
      × (get_or byte_to_code c key_none ≢ key_f7)
unfolding is_missing
byte_to_code-missing c =
    let found = all_found-get_or byte_to_code c (unfold all_found is_missing in refl) in
    (
      λ e. missing_key key_f1 refl found e,
      λ e. missing_key key_f2 refl found e,
      λ e. missing_key key_f7 refl found e,
    )

-- The code of the first table entry from index `i` on whose key types `ch`.
code_typing : ℕ → ℕ → List KeyCode → Option ℕ
code_typing ch i [] = none
code_typing ch i (k ∷ ks) =
    let later = code_typing ch (i + 1) ks in
    elim (make_char k) [ none ↦ later | some c ↦ if c == ch then some i else later ]

types : ℕ → ℕ → Bool
types ch code = elim (make_char (get_or byte_to_code code key_none)) [
  | none ↦ false
  | some c ↦ c == ch
]

is_typed : ℕ → Bool
is_typed ch = elim (code_typing ch 0 byte_to_code) [
  | none ↦ false
  | some c ↦ types ch c && ltb c 128
]

-- The lower-case letters, the digits, the blank and the new line.
unfoldable pub is_basic : ℕ → Bool
is_basic ch =
    (leb b'a' ch && leb ch b'z') || (leb b'0' ch && leb ch b'9') || (ch == b' ') || (ch == 10)

all_typed : ℕ → Bool
all_typed zero = true
all_typed (suc n) = (not (is_basic n) || is_typed n) && all_typed n

all_typed_sound : (n ch : ℕ) → all_typed n ≡ true → ch < n → is_basic ch ≡ true → is_typed ch ≡ true
unfolding all_typed
all_typed_sound zero ch h lt b = absurd (omega arith)
all_typed_sound (suc n) ch h lt b = elim (ℕ_discrete ch n) [
  | yes e ↦ subst (λ x. is_typed x ≡ true) (sym e) (ground (arith, ap is_basic e))
  | no ne ↦ all_typed_sound n ch (ground arith) (omega arith) b
]

is_basic-lt : (ch : ℕ) → is_basic ch ≡ true → ch < 123
unfolding is_basic
is_basic-lt ch b = ground arith

types-some : (ch c : ℕ) → types ch c ≡ true → make_char (get_or byte_to_code c key_none) ≡ some ch
unfolding types
types-some ch c h = typed_some (make_char (get_or byte_to_code c key_none)) h
  where
    typed_some :
        (o : Option ℕ)
        → (elim o as (λ x. Bool) [ none ↦ false | some d ↦ d == ch ]) ≡ true
        → o ≡ some ch
    typed_some none g = absurd (false≢true g)
    typed_some (some d) g = ap some (ground arith)

found_code :
    (ch : ℕ)
    → is_typed ch ≡ true
    → (c : ℕ) × (c < 128) × (make_char (get_or byte_to_code c key_none) ≡ some ch)
unfolding is_typed
found_code ch h = typed_at (code_typing ch 0 byte_to_code) h
  where
    typed_at :
        (o : Option ℕ)
        → (elim o as (λ x. Bool) [ none ↦ false | some c ↦ types ch c && ltb c 128 ]) ≡ true
        → (c : ℕ) × (c < 128) × (make_char (get_or byte_to_code c key_none) ≡ some ch)
    typed_at none g = absurd (false≢true g)
    typed_at (some c) g = (c, ground arith, types-some ch c (ground arith))

-- Every lower-case letter, every digit, the blank and the new line is typed by some plain code.
pub byte_to_code-types :
    (ch : ℕ)
    → is_basic ch ≡ true
    → (c : ℕ) × (c < 128) × (make_char (get_or byte_to_code c key_none) ≡ some ch)
byte_to_code-types ch b = found_code ch (
    all_typed_sound 123 ch (unfold all_typed is_basic is_typed code_typing types make_char in refl)
      (is_basic-lt ch b) b)
