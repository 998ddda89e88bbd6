-- ===== src/Ps2/Keyboard/Events.antt =====
-- What the keyboard sends for each event, and that the handler decodes it.
use mathlib.Core.Path.{subst}
use ose.Prelude.{
  ℕ, sym, ◌<◌, ◌≡◌, ◌≢◌, refl, arith, ltb, u32, ◌+◌, ◌*◌, if◌then◌else◌, Option-cases, inl, inr,
  Bool, true, false, ◌∙◌, ap,
}
use ose.Prelude.{List, [], ◌∷◌, ◌++◌, append_assoc, Option, none, some, All, get_or}
use ose.Ps2.Keys.{byte_to_code, make_char, key_none, KeyCode}
use ose.Ps2.Queue.{CommandQueue}
use ose.Ps2.Devices.{Bus, ◌>>=◌}
use ose.Ps2.Keyboard.{
  Decoder, World, idle, keyboard_handler, receive_code, keycode, ext0_key, send_make_key,
}

-- Scan code set 2: plain codes, codes behind 0xE0, Print Screen, and Pause, which has no release.
pub data KeyEvent : Type 0 where
  press release ext_press ext_release : ℕ → KeyEvent
  print_screen_press print_screen_release pause : KeyEvent

abbrev pub encode : KeyEvent → List ℕ
encode (press c) = c ∷ []
encode (release c) = 0xF0 ∷ c ∷ []
encode (ext_press c) = 0xE0 ∷ c ∷ []
encode (ext_release c) = 0xE0 ∷ 0xF0 ∷ c ∷ []
encode print_screen_press = 0xE0 ∷ 0x12 ∷ 0xE0 ∷ 0x7C ∷ []
encode print_screen_release = 0xE0 ∷ 0xF0 ∷ 0x7C ∷ 0xE0 ∷ 0xF0 ∷ 0x12 ∷ []
encode pause = 0xE1 ∷ 0x14 ∷ 0x77 ∷ 0xE1 ∷ 0xF0 ∷ 0x14 ∷ 0xF0 ∷ 0x77 ∷ []

-- A byte that stands for a key: none of ACK, RSD and the three prefixes.
abbrev pub IsCode : ℕ → Type 0
IsCode c = (c < 256) × (c ≢ 0xFA) × (c ≢ 0xFE) × (c ≢ 0xF0) × (c ≢ 0xE0) × (c ≢ 0xE1)

-- The codes 0x12 and 0x7C behind 0xE0 belong to Print Screen.
abbrev pub IsEvent : KeyEvent → Type 0
IsEvent (press c) = IsCode c
IsEvent (release c) = IsCode c
IsEvent (ext_press c) = IsCode c × (c ≢ 0x12) × (c ≢ 0x7C)
IsEvent (ext_release c) = IsCode c × (c ≢ 0x12) × (c ≢ 0x7C)
IsEvent print_screen_press = Unit
IsEvent print_screen_release = Unit
IsEvent pause = Unit

abbrev chars : Option ℕ → List ℕ
chars none = []
chars (some c) = c ∷ []

-- What an event types: a press of a plain key its character, of an extended key that of its code.
pub typed_by : KeyEvent → List ℕ
typed_by (press c) =
    chars (make_char (if ltb c 128 then get_or byte_to_code c key_none else key_none))
typed_by (ext_press c) = elim (ext0_key c) [ none ↦ [] | some k ↦ chars (make_char k) ]
typed_by _ = []

-- The handler at one byte after another.
unfoldable pub run : ℕ → List ℕ → World → Option World
run vector [] w = some w
run vector (b ∷ bs) w = keyboard_handler vector b w >>= run vector bs

run-append : (v : ℕ) (xs ys : List ℕ) (w : World) → run v (xs ++ ys) w ≡ (run v xs w >>= run v ys)
unfolding run
run-append v [] ys w = refl
run-append v (x ∷ xs) ys w = elim (Option-cases (keyboard_handler v x w)) [
  | inl e ↦ rw (e, run) refl
  | inr (w', e) ↦ rw (e, run) (run-append v xs ys w')
]

-- The handler at a byte that stands for a key.
handler-code : (v c : ℕ) (w : World) → IsCode c → keyboard_handler v c w ≡ some (receive_code c w)
unfolding keyboard_handler
handler-code v c w h = ground arith

send_make_key_lem :
    (k : KeyCode) (w : World)
    → send_make_key k w ≡ record w { typed = chars (make_char k) ++ w.typed }
unfolding send_make_key
send_make_key_lem k w = elim (Option-cases (make_char k)) [
  | inl e ↦ rw (e, send_make_key, chars) refl
  | inr (c, e) ↦ rw (e, send_make_key, chars) refl
]

ext0_key-some : (c : ℕ) → c ≢ 0x12 → c ≢ 0x7C → (k : KeyCode) × (ext0_key c ≡ some k)
ext0_key-some c h g = elim (Option-cases (ext0_key c)) [
  | inl e ↦ absurd (ext0_key-ne-none c h g e)
  | inr p ↦ p
]
  where
    ext0_key-ne-none : (c : ℕ) → c ≢ 0x12 → c ≢ 0x7C → ext0_key c ≢ none
    ext0_key-ne-none c h g = unfold ext0_key in ground arith

module _ (v fail_count : ℕ) (queues : ℕ → CommandQueue) (bus : Bus) (typed : List ℕ) where
  abbrev start : World
  start = record {
    decoder = idle;
    fail_count = fail_count;
    queues = queues;
    bus = bus;
    typed = typed;
  }

  abbrev extended : Bool → World
  extended r = record start { decoder = record idle { ext0 = true; released = r } }

  receive-extended :
      (c : ℕ) (k : KeyCode) (r : Bool)
      → c < 256
      → ext0_key c ≡ some k
      → receive_code c (extended r)
        ≡ record (if r then extended r else send_make_key k (extended r)) { decoder = idle }
  unfolding receive_code keycode
  receive-extended c k r h e =
      let code : u32 (0 * 256 + c) ≡ c = omega arith in rw (code, e, receive_code, keycode) refl

  run-start :
      (e : KeyEvent)
      → IsEvent e
      → run v (encode e) start ≡ some (record start { typed = typed_by e ++ typed })
  unfolding run typed_by keyboard_handler receive_code keycode
  run-start (press c) h =
      ap (λ r. r >>= run v []) (handler-code v c start h)
      ∙ ap (λ (w : World). some (record w { decoder = idle })) (send_make_key_lem _ start)
  run-start (release c) h =
      ap (λ r. r >>= run v [])
        (handler-code v c (record start { decoder = record idle { released = true } }) h)
  run-start (ext_press c) (h, n1, n2) =
      let (k, e) = ext0_key-some c n1 n2 in
      ap (λ r. r >>= run v []) (handler-code v c (extended false) h)
      ∙ ap some (receive-extended c k false h.0 e)
      ∙ ap (λ (w : World). some (record w { decoder = idle }))
          (send_make_key_lem k (extended false))
      ∙ rw (e, typed_by) refl
  run-start (ext_release c) (h, n1, n2) =
      let (k, e) = ext0_key-some c n1 n2 in
      ap (λ r. r >>= run v []) (handler-code v c (extended true) h)
      ∙ ap some (receive-extended c k true h.0 e)
  run-start print_screen_press h = unfold ext0_key send_make_key make_char in refl
  run-start print_screen_release h = unfold ext0_key in refl
  run-start pause h = unfold send_make_key make_char in refl

-- From the idle state, the bytes of an event leave the decoder idle, type the event's character
-- and change nothing else.
run-encode :
    (v : ℕ) (e : KeyEvent) (w : World)
    → IsEvent e
    → w.decoder ≡ idle
    → run v (encode e) w ≡ some (record w { typed = typed_by e ++ w.typed })
run-encode v e w h i =
    subst
      (λ (d : Decoder).
        run v (encode e) (record w { decoder = d })
        ≡ some (record w { decoder = d; typed = typed_by e ++ w.typed }))
      (sym i) (run-start v w.fail_count w.queues w.bus w.typed e h)

abbrev pub encode_all : List KeyEvent → List ℕ
encode_all [] = []
encode_all (e ∷ es) = encode e ++ encode_all es

-- What a series of events types, the latest first.
abbrev pub typed_all : List KeyEvent → List ℕ
typed_all [] = []
typed_all (e ∷ es) = typed_all es ++ typed_by e

-- From the idle state, the bytes of any series of key events type the characters of the events in
-- order, send nothing, leave the command queues alone, and end in the idle state.
pub run-encode_all :
    (v : ℕ) (es : List KeyEvent) (w : World)
    → All IsEvent es
    → w.decoder ≡ idle
    → run v (encode_all es) w ≡ some (record w { typed = typed_all es ++ w.typed })
run-encode_all v [] w h i = unfold run in refl
run-encode_all v (e ∷ es) w h i =
    run-append v (encode e) (encode_all es) w
    ∙ ap (λ r. r >>= run v (encode_all es)) (run-encode v e w h.0 i)
    ∙ run-encode_all v es (record w { typed = typed_by e ++ w.typed }) h.1 i
    ∙ ap (λ (l : List ℕ). some (record w { typed = l }))
        (sym (append_assoc (typed_all es) (typed_by e) w.typed))
