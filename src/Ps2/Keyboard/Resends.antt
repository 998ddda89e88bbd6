-- ===== src/Ps2/Keyboard/Resends.antt =====
-- The failures of commands: the RSD branch of the handler, byte after byte.
use ose.Prelude.{ℕ, zero, suc, ◌+◌, ◌<◌, ◌≤◌, ◌≡◌, refl, arith, ap, ◌∙◌, u8, ◌==◌, some}
use ose.Prelude.{List, ◌∷◌, replicate, false}
use ose.Ps2.Devices.{Poll}
use ose.Ps2.Queue.Fifo.{IsQueue}
use ose.Ps2.Keyboard.{World, keyboard_handler, queue_pop, resend}
use ose.Ps2.Keyboard.Events.{run}
use ose.Ps2.Keyboard.Sends.{
  waiting, channel_of, queue_pop_lem, Takes, log_byte, log_all, send_topqueue-taken,
}

-- A failure that is not the third in a row: the command in front is sent again and stays.
resend_again :
    (vector : ℕ) (w : World) (bs : List ℕ) (rest : List Poll) {x : ℕ} {xs : List ℕ}
    → let c = channel_of vector in
      IsQueue (w.queues c)
      → waiting c w ≡ x ∷ xs
      → 3 ≤ w.fail_count
      → w.fail_count < 255
      → Takes c w.bus.polls (x ∷ bs) rest
      → (next : List Poll) × Takes c next bs rest
        × (keyboard_handler vector 0xFE w
            ≡ some (record w {
              fail_count = w.fail_count + 1;
              bus = record { polls = next; sent = log_byte c x w.bus.sent };
            }))
unfolding keyboard_handler resend
resend_again vector w bs rest {x} {xs} v e lo hi t =
    let count : u8 (w.fail_count + 1) ≡ w.fail_count + 1 = omega arith in
    let other : (w.fail_count + 1 == 3) ≡ false = ground arith in
    let w1 = record w { fail_count = w.fail_count + 1 } in
    let (next, more, sends) = send_topqueue-taken (channel_of vector) w1 rest bs {xs = xs} v e t in
    (next, more, rw (count, other, sends) refl)

-- From a count of three failures on, further failures below 256 do not drop the command.
resends_above :
    (vector k : ℕ) (w : World) (rest : List Poll) {x : ℕ} {xs : List ℕ}
    → let c = channel_of vector in
      IsQueue (w.queues c)
      → waiting c w ≡ x ∷ xs
      → 3 ≤ w.fail_count
      → w.fail_count + k < 256
      → Takes c w.bus.polls (replicate k x) rest
      → (w' : World) × (run vector (replicate k 0xFE) w ≡ some w')
        × (waiting c w' ≡ x ∷ xs)
        × (w'.fail_count ≡ w.fail_count + k)
        × (w'.bus ≡ record { polls = rest; sent = log_all c (replicate k x) w.bus.sent })
unfolding run Takes
resends_above vector zero w rest v e lo hi t =
    (w, refl, e, omega arith, ap (λ ps. record { polls = ps; sent = w.bus.sent }) t)
resends_above vector (suc k) w rest {x} {xs} v e lo hi t =
    let c = channel_of vector in
    let (next, more, again) = resend_again vector w (replicate k x) rest v e lo (omega arith) t in
    let w1 : World = record w {
      fail_count = w.fail_count + 1;
      bus = record { polls = next; sent = log_byte c x w.bus.sent };
    } in
    let (w', runs, waits, count, bus) =
      resends_above vector k w1 rest {xs = xs} v e (omega arith) (omega arith) more in
    (w', rw (again, run) runs, waits, omega (arith, count), bus)

-- When two commands or more wait and the count of failures is at 2, the third failure drops the
-- command in front, sends nothing and leaves the count at 3. Up to 252 further failures, while the
-- controller takes every byte in time, are then all answered by sending the next command again:
-- none of them drops it, and the count goes up with each.
pub resends-stuck :
    (vector k : ℕ) (w : World) (rest : List Poll) {x y : ℕ} {xs : List ℕ}
    → let c = channel_of vector in
      IsQueue (w.queues c)
      → waiting c w ≡ x ∷ y ∷ xs
      → w.fail_count ≡ 2
      → k < 253
      → Takes c w.bus.polls (replicate k y) rest
      → (w' : World) × (run vector (0xFE ∷ replicate k 0xFE) w ≡ some w')
        × (waiting c w' ≡ y ∷ xs)
        × (w'.fail_count ≡ 3 + k)
        × (w'.bus ≡ record { polls = rest; sent = log_all c (replicate k y) w.bus.sent })
unfolding run
resends-stuck vector k w rest v e two few t =
    let c = channel_of vector in
    let w1 = record w { fail_count = 3 } in
    let (v1, e1) = queue_pop_lem c w1 v e in
    let third : keyboard_handler vector 0xFE w ≡ some (queue_pop c w1) =
      unfold keyboard_handler resend in rw two refl in
    let (w', runs, waits, count, bus) =
      resends_above vector k (queue_pop c w1) rest v1 e1 (unfold queue_pop in omega arith)
        (unfold queue_pop in omega arith) (unfold queue_pop in t) in
    (
      w',
      rw (third, run) runs,
      waits,
      count ∙ (unfold queue_pop in refl),
      bus ∙ (unfold queue_pop in refl),
    )
