-- ===== src/Timer/Clock.antt =====
-- What an interrupt of the timer adds to the clock.
use ose.Prelude.{ℕ, ◌+◌, ◌*◌, ◌/◌, ◌%◌, ◌≤◌, ◌<◌, ◌≡◌, refl, arith, ◌∷◌, u8, u32}
use ose.Timer.{Timer, adjusted, mils, init_timer_with_reload_value}

-- The milliseconds that an interrupt adds, in units of 2 ^ -32.
abbrev pub step : Timer → ℕ
step s = s.interrupt_millis * 4294967296 + s.interrupt_millis_fractions

-- The bytes for the counter, 0 for 0x10000.
abbrev pub counter : (low high : ℕ) → ℕ
counter low high = low + high * 256

mils_bounds :
    (reload : ℕ)
    → reload ≤ 65536
    → (3000 * 4294967296 * reload < (mils reload + 1) * 3579545)
      × (mils reload * 3579545 ≤ 3000 * 4294967296 * reload + 3496 * reload)
      × (mils reload < 18446744073709551616)
unfolding mils
mils_bounds reload h = (omega arith, omega arith, omega arith)

adjusted_le : (reload : ℕ) → reload < 65536 → (adjusted reload ≤ 65536) × (1 < adjusted reload)
adjusted_le reload h = (ground arith, ground arith)

words : (x : ℕ) → x < 18446744073709551616 → u32 (x / 4294967296) * 4294967296 + u32 x ≡ x
words x h = omega arith

bytes : (n : ℕ) → n ≤ 65536 → counter (u8 n) (u8 (n / 256)) ≡ n % 65536
bytes n h = omega arith

-- For a reload value of 16 bits, the timer counts from `n`, which is the value with 2 for 1 and
-- 0x10000 for 0, and gets it as two bytes, the low one first. An interrupt after `n` periods of
-- 3579545 / 3 Hz adds to the clock this time in milliseconds, at most 2 ^ -32 too little, and at most
-- one part in three billion too much.
pub init_timer-step :
    (timer_handler reload : ℕ) (s : Timer)
    → reload < 65536
    → let s' = init_timer_with_reload_value timer_handler reload s in
      let n = s'.reload_value_channel0 in
      (n ≡ adjusted reload)
      × ((low : ℕ) × (high : ℕ) × (s'.sent ≡ (0x40, high) ∷ (0x40, low) ∷ (0x43, 0x34) ∷ s.sent)
          × (counter low high ≡ n % 65536)
          × (low < 256)
          × (high < 256))
      × (3000 * 4294967296 * n < (step s' + 1) * 3579545)
      × (step s' * 3579545 ≤ 3000 * 4294967296 * n + 3496 * n)
unfolding init_timer_with_reload_value
init_timer-step timer_handler reload s h =
    let n = adjusted reload in
    let (hn, more) = adjusted_le reload h in
    let (a, b, c) = mils_bounds n hn in
    let whole : u32 (mils n / 4294967296) * 4294967296 + u32 (mils n) ≡ mils n = words (mils n) c in
    (refl, (u8 n, u8 (n / 256), refl, bytes n hn, omega arith, omega arith), rw whole a, rw whole b)
