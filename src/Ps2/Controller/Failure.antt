-- ===== src/Ps2/Controller/Failure.antt =====
-- What the start of the devices does with a controller that is absent or fails its self test.
use ose.Prelude.{ℕ, ◌≡◌, ◌≢◌, refl, arith, true, false, some, List, [], ◌∷◌, ◌==◌}
use ose.Ps2.Devices.{
  Poll, Bus, command_port, data_port, reset_if_ok, reset_devices, detect_if_ok, detect_devices,
  channel_ok,
}
use ose.Ps2.Controller.{
  Controller, absent, uninitialized, disable_irq, init_ps2_controller, start_devices,
}
use ose.Ps2.Controller.Talk.{
  Step, answers, sent_by, Follows, command, update, send_command-Follows, read_data-Follows,
  update_command_byte-Follows,
}

-- The conversation up to the answer `test` to the self test, with `c0` as the command byte.
abbrev pub self_test : (c0 test : ℕ) → List Step
self_test c0 test =
    command 0xAD ∷ command 0xA7 ∷ update c0 (disable_irq c0) (command 0xAA ∷ answers test ∷ [])

init_ps2_controller-failed :
    (c0 test : ℕ) (rest : List Poll) (c : Controller)
    → Follows c.bus.polls (self_test c0 test) rest
    → test ≢ 0x55
    → init_ps2_controller true c
      ≡ some (record c {
        bus = record { polls = rest; sent = sent_by (self_test c0 test) c.bus.sent };
      })
unfolding init_ps2_controller Follows sent_by
init_ps2_controller-failed c0 test rest c f ne =
    let ask = command 0xAA ∷ answers test ∷ [] in
    let sent = c.bus.sent in
    let s1 = (command_port, 0xAD) ∷ sent in
    let s2 = (command_port, 0xA7) ∷ s1 in
    let s3 = (data_port, disable_irq c0) ∷ (command_port, 0x60) ∷ (command_port, 0x20) ∷ s2 in
    let s4 = (command_port, 0xAA) ∷ s3 in
    let first = update c0 (disable_irq c0) ask in
    let (p1, e1, f1) = send_command-Follows (command 0xA7 ∷ first) rest c.bus.polls sent 0xAD f in
    let (p2, e2, f2) = send_command-Follows first rest p1 s1 0xA7 f1 in
    let (p3, e3, f3) = update_command_byte-Follows ask rest p2 s2 disable_irq c0 f2 in
    let (p4, e4, f4) = send_command-Follows (answers test ∷ []) rest p3 s3 0xAA f3 in
    let (p5, e5, f5) = read_data-Follows [] rest p4 s4 test f4 in
    let no_success : (test == 0x55) ≡ false = ground arith in
    rw (e1, e2, e3, e4, e5, no_success, f5) refl

-- Channels that are not marked as tested are left alone.
untested :
    (status0 status1 : ℕ)
    → (status0 == channel_ok) ≡ false
    → (status1 == channel_ok) ≡ false
    → (c : Controller) (d0 d1 : ℕ)
    → (reset_devices status0 status1 c.bus ≡ some c.bus)
      × (detect_devices status0 status1 d0 d1 c.bus ≡ some (d0, d1, c.bus))
unfolding reset_devices reset_if_ok detect_devices detect_if_ok
untested status0 status1 h k c d0 d1 = (rw (h, k) refl, rw (h, k) refl)

-- When the statuses of the channels are still those that the kernel starts with, and the controller
-- takes each byte and answers the self test with anything but 0x55, then nothing is sent behind the
-- self test: no device is reset or identified, the entries of `devices` and the statuses stay. In
-- place of a controller that is absent nothing is sent at all, and both channels are marked as absent.
pub start_devices-unusable :
    (d0 d1 c0 test : ℕ) (rest : List Poll) (c : Controller)
    → c.channel0 ≡ uninitialized
    → c.channel1 ≡ uninitialized
    → Follows c.bus.polls (self_test c0 test) rest
    → test ≢ 0x55
    → (start_devices true d0 d1 c
        ≡ some (
          d0,
          d1,
          record c { bus = record { polls = rest; sent = sent_by (self_test c0 test) c.bus.sent } },
        ))
      × (start_devices false d0 d1 c
          ≡ some (d0, d1, record c { channel0 = absent; channel1 = absent }))
unfolding start_devices init_ps2_controller
start_devices-unusable d0 d1 c0 test rest c h0 h1 f ne = (
  let bus : Bus = record { polls = rest; sent = sent_by (self_test c0 test) c.bus.sent } in
      let (r, d) =
        untested c.channel0 c.channel1 (ground (arith, h0)) (ground (arith, h1))
          (record c { bus = bus }) d0 d1 in
      rw (init_ps2_controller-failed c0 test rest c f ne, r, d) refl,
  let c' = record c { channel0 = absent; channel1 = absent } in
      let (r, d) = untested absent absent refl refl c' d0 d1 in rw (r, d) refl,
)
