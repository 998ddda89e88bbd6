-- ===== src/Ps2/Controller/Script.antt =====
-- What `init_ps2_controller` says to a controller whose self test succeeds.
use ose.Prelude.{
  ℕ, ◌%◌, ◌<◌, ◌≡◌, refl, ◌∙◌, arith, Bool, true, false, not, ◌||◌, ◌==◌, inl, inr, Bool-cases,
  some, List, [], ◌∷◌, if◌then◌else◌,
}
use ose.Prelude.Bits.{bit, bit-from_bits}
use ose.Interrupts.Pic.{Pic, disable_io_devices, device_code, keyboard, mouse}
use ose.Interrupts.Pic.Masks.{IsOperational, masked, io_devices-masked}
use ose.Ps2.Devices.{Poll, command_port, data_port}
use ose.Ps2.Controller.{
  Controller, absent, assign, disable_irq, enable_second, enable_irq, set_second, test_second,
  init_channels, init_ps2_controller,
}
use ose.Ps2.Controller.Talk.{
  Step, answers, sent_by, Follows, command, update, send_command-Follows, read_data-Follows,
  read_command_byte-Follows, update_command_byte-Follows, test_channel-Follows,
}

-- The bits of the command byte that is written.
bit-assign :
    (i : ℕ) (b : Bool) (byte j : ℕ)
    → j < 8
    → bit (assign i b byte) j ≡ (if j == i then b else bit byte j)
unfolding assign
bit-assign i b byte j h = bit-from_bits (λ k. if k == i then b else bit byte k) j h

disable_irq_bits :
    (c i : ℕ)
    → i < 8
    → bit (disable_irq c) i ≡ (if i == 0 || i == 1 || i == 4 || i == 6 then false else bit c i)
unfolding disable_irq
disable_irq_bits c i h =
    rw
      (
        bit-assign 6 false (assign 4 false (assign 1 false (assign 0 false c))) i h,
        bit-assign 4 false (assign 1 false (assign 0 false c)) i h,
        bit-assign 1 false (assign 0 false c) i h,
        bit-assign 0 false c i h,
      )
      (ground arith)

enable_second_bits :
    (c i : ℕ) → i < 8 → bit (enable_second c) i ≡ (if i == 1 || i == 5 then false else bit c i)
unfolding enable_second
enable_second_bits c i h =
    rw (bit-assign 5 false (assign 1 false c) i h, bit-assign 1 false c i h) (ground arith)

enable_irq_bits :
    (c i : ℕ) → i < 8 → bit (enable_irq c) i ≡ (if i == 0 || i == 1 then true else bit c i)
unfolding enable_irq
enable_irq_bits c i h =
    rw (bit-assign 1 true (assign 0 true c) i h, bit-assign 0 true c i h) (ground arith)

-- The conversation with a controller that has the bytes `c0` to `c3` as command bytes when it is
-- asked, and `t0` and `t1` as the results of the tests of the channels; bytes `w` are written back.
unfoldable pub script : (c0 w0 c1 c2 w2 t0 t1 c3 w3 : ℕ) → List Step
script c0 w0 c1 c2 w2 t0 t1 c3 w3 =
    let last = update c3 w3 [] in
    command 0xAD
    ∷ command 0xA7
    ∷ update c0 w0 (
        command 0xAA
        ∷ answers 0x55
        ∷ command 0xA8
        ∷ command 0x20
        ∷ answers c1
        ∷ (if bit c1 5
            then command 0xAB ∷ answers t0 ∷ last
            else command 0xA7
              ∷ update c2 w2 (command 0xAB ∷ answers t0 ∷ command 0xA9 ∷ answers t1 ∷ last)))

-- The state of the controller after that conversation.
abbrev pub finished :
    (second : Bool) (t0 t1 : ℕ) (polls : List Poll) (sent : List (ℕ × ℕ)) → Pic → Controller
finished second t0 t1 polls sent pic = record {
  channel0 = t0 % 16;
  channel1 = if second then t1 % 16 else absent;
  pic = disable_io_devices (device_code mouse) (disable_io_devices (device_code keyboard) pic);
  bus = record { polls = polls; sent = sent };
}

-- The part of the conversation after the self test.
module _ (c1 c2 t0 t1 c3 : ℕ) (rest : List Poll) (polls : List Poll) (c : Controller) where
  abbrev sent0 : List (ℕ × ℕ)
  sent0 = c.bus.sent

  abbrev later : List Step
  later =
      let last = update c3 (enable_irq c3) [] in
      command 0xA8
      ∷ command 0x20
      ∷ answers c1
      ∷ (if bit c1 5
          then command 0xAB ∷ answers t0 ∷ last
          else command 0xA7
            ∷ update c2 (enable_second c2)
                (command 0xAB ∷ answers t0 ∷ command 0xA9 ∷ answers t1 ∷ last))

  init_channels-Follows :
      Follows polls later rest
      → init_channels (record c { bus = record { polls = polls; sent = sent0 } })
        ≡ some (finished (not (bit c1 5)) t0 t1 rest (sent_by later sent0) c.pic)
  unfolding init_channels set_second test_second Follows sent_by
  init_channels-Follows f = elim (Bool-cases (bit c1 5)) [
    | inl h ↦
        let last = update c3 (enable_irq c3) [] in
        let first = command 0xAB ∷ answers t0 ∷ last in
        let f' : Follows polls (command 0xA8 ∷ command 0x20 ∷ answers c1 ∷ first) rest =
          rw h at f in
        let s1 = (command_port, 0xA8) ∷ sent0 in
        let s2 = (command_port, 0x20) ∷ s1 in
        let s3 = (command_port, 0xAB) ∷ s2 in
        let (p1, e1, f1) =
          send_command-Follows (command 0x20 ∷ answers c1 ∷ first) rest polls sent0 0xA8 f' in
        let (p2, e2, f2) = read_command_byte-Follows first rest p1 s1 c1 f1 in
        let (p3, e3, f3) = test_channel-Follows last rest p2 s2 0xAB t0 f2 in
        let (p4, e4, f4) = update_command_byte-Follows [] rest p3 s3 enable_irq c3 f3 in
        rw (h, e1, e2, h, e3, e4, f4) refl
    | inr h ↦
        let last = update c3 (enable_irq c3) [] in
        let tests = command 0xAB ∷ answers t0 ∷ command 0xA9 ∷ answers t1 ∷ last in
        let second = command 0xA7 ∷ update c2 (enable_second c2) tests in
        let f' : Follows polls (command 0xA8 ∷ command 0x20 ∷ answers c1 ∷ second) rest =
          rw h at f in
        let s1 = (command_port, 0xA8) ∷ sent0 in
        let s2 = (command_port, 0x20) ∷ s1 in
        let s3 = (command_port, 0xA7) ∷ s2 in
        let s4 = (data_port, enable_second c2) ∷ (command_port, 0x60) ∷ (command_port, 0x20) ∷ s3 in
        let s5 = (command_port, 0xAB) ∷ s4 in
        let s6 = (command_port, 0xA9) ∷ s5 in
        let (p1, e1, f1) =
          send_command-Follows (command 0x20 ∷ answers c1 ∷ second) rest polls sent0 0xA8 f' in
        let (p2, e2, f2) = read_command_byte-Follows second rest p1 s1 c1 f1 in
        let (p3, e3, f3) =
          send_command-Follows (update c2 (enable_second c2) tests) rest p2 s2 0xA7 f2 in
        let (p4, e4, f4) = update_command_byte-Follows tests rest p3 s3 enable_second c2 f3 in
        let (p5, e5, f5) =
          test_channel-Follows (command 0xA9 ∷ answers t1 ∷ last) rest p4 s4 0xAB t0 f4 in
        let (p6, e6, f6) = test_channel-Follows last rest p5 s5 0xA9 t1 f5 in
        let (p7, e7, f7) = update_command_byte-Follows [] rest p6 s6 enable_irq c3 f6 in
        rw (h, e1, e2, h, e3, e4, e5, e6, e7, f7) refl
  ]

-- The lines of the keyboard and the mouse.
devices_masked :
    (pic : Pic)
    → IsOperational pic
    → let pic' =
        disable_io_devices (device_code mouse) (disable_io_devices (device_code keyboard) pic) in
      (masked pic' 1 ≡ true) × (masked pic' 12 ≡ true)
devices_masked pic v =
    let (v1, m1) = (io_devices-masked (device_code keyboard) 1 pic v (omega arith)).1 in
    let pic1 = disable_io_devices (device_code keyboard) pic in
    let (va, ma) = (io_devices-masked (device_code mouse) 1 pic1 v1 (omega arith)).1 in
    let (vb, mb) = (io_devices-masked (device_code mouse) 12 pic1 v1 (omega arith)).1 in
    (ma ∙ rw m1 (ground arith), mb ∙ ground arith)

-- A controller that is present, takes each byte and answers after any number of polls, and whose self
-- test succeeds, is told exactly the script: the command byte is written back with the interrupts of
-- both channels, the clock bit of the first and the translation cleared; the second channel, which is
-- there when the enabling of it has cleared bit 5, has its clock bit and interrupt cleared; at last
-- both interrupts are set. The statuses of the channels are the lower 4 bits of the results of their
-- tests, or ABSENT for a second channel that is not there, and when the interrupt controllers are
-- initialised the lines of the keyboard and the mouse are masked.
pub init_ps2_controller-script :
    (c0 c1 c2 t0 t1 c3 : ℕ) (polls rest : List Poll) (c : Controller)
    → let w0 = disable_irq c0 in
      let w2 = enable_second c2 in
      let w3 = enable_irq c3 in
      let ss = script c0 w0 c1 c2 w2 t0 t1 c3 w3 in
      c.bus.polls ≡ polls
      → Follows polls ss rest
      → IsOperational c.pic
      → (c' : Controller) × (init_ps2_controller true c ≡ some c')
        × (c'.bus ≡ record { polls = rest; sent = sent_by ss c.bus.sent })
        × (c'.channel0 ≡ t0 % 16)
        × (c'.channel1 ≡ (if bit c1 5 then absent else t1 % 16))
        × (masked c'.pic 1 ≡ true)
        × (masked c'.pic 12 ≡ true)
        × ((i : ℕ)
            → i < 8
            → (bit w0 i ≡ (if i == 0 || i == 1 || i == 4 || i == 6 then false else bit c0 i))
              × (bit w2 i ≡ (if i == 1 || i == 5 then false else bit c2 i))
              × (bit w3 i ≡ (if i == 0 || i == 1 then true else bit c3 i)))
unfolding init_ps2_controller Follows sent_by script
init_ps2_controller-script c0 c1 c2 t0 t1 c3 polls rest c e f v =
    let after = later c1 c2 t0 t1 c3 rest polls c in
    let test = command 0xAA ∷ answers 0x55 ∷ after in
    let first = update c0 (disable_irq c0) test in
    let s1 = (command_port, 0xAD) ∷ c.bus.sent in
    let s2 = (command_port, 0xA7) ∷ s1 in
    let s3 = (data_port, disable_irq c0) ∷ (command_port, 0x60) ∷ (command_port, 0x20) ∷ s2 in
    let s4 = (command_port, 0xAA) ∷ s3 in
    let (p1, e1, f1) = send_command-Follows (command 0xA7 ∷ first) rest polls c.bus.sent 0xAD f in
    let (p2, e2, f2) = send_command-Follows first rest p1 s1 0xA7 f1 in
    let (p3, e3, f3) = update_command_byte-Follows test rest p2 s2 disable_irq c0 f2 in
    let (p4, e4, f4) = send_command-Follows (answers 0x55 ∷ after) rest p3 s3 0xAA f3 in
    let (p5, e5, f5) = read_data-Follows after rest p4 s4 0x55 f4 in
    let c5 = record c { bus = record { polls = p5; sent = s4 } } in
    let done = init_channels-Follows c1 c2 t0 t1 c3 rest p5 c5 f5 in
    let (m1, m12) = devices_masked c.pic v in
    (
      finished (not (bit c1 5)) t0 t1 rest (sent_by after s4) c.pic,
      rw (e, e1, e2, e3, e4, e5) done,
      refl,
      refl,
      elim (Bool-cases (bit c1 5)) [ inl h ↦ rw h refl | inr h ↦ rw h refl ],
      m1,
      m12,
      λ i h. (disable_irq_bits c0 i h, enable_second_bits c2 i h, enable_irq_bits c3 i h),
    )
