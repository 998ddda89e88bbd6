-- ===== src/Timer/Examples.antt =====
-- The theorems on the timer at the frequency of the kernel and at one that is too low.
use ose.Prelude.{◌+◌, ◌*◌, ◌≤◌, ◌<◌, arith}
use ose.Timer.{adjusted, reload_for, noted_frequency}
use ose.Timer.Reload.{reload_for-rounded, low_frequency-wrong}

reload_for-rounded_example :
    (2 * (3 * reload_for 180 * 180) ≤ 2 * 3579545 + 3 * 180)
    × (2 * 3579545 ≤ 2 * (3 * reload_for 180 * 180) + 3 * 180)
    × (1 < reload_for 180)
    × (reload_for 180 < 65536)
reload_for-rounded_example = reload_for-rounded 180 (omega arith) (omega arith)

low_frequency-wrong_example : 2 * 20 ≤ noted_frequency (adjusted (reload_for 20))
low_frequency-wrong_example = low_frequency-wrong 20 (omega arith) (omega arith)
