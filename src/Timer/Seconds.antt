-- ===== src/Timer/Seconds.antt =====
-- The clock of src/timer.c.
use netproc.Base.{ℕ, ◌+◌, ◌*◌, ◌^◌, ◌<◌, ◌≤◌, some, arith}
use netproc.Timer.{Timespec, get_time, msec2clock}

-- For a time since the start that `get_time` measures in a run of less than 2 ^ 32 seconds, the
-- clock shows the whole seconds, split in the usual way: no second is lost, and minutes and seconds
-- stay below sixty.
pub msec2clock_lem :
    (milliseconds : ℕ)
    → milliseconds < 1000 * 2 ^ 32
    → let c = msec2clock milliseconds in
      (1000 * (c.hours * 3600 + c.minutes * 60 + c.seconds) ≤ milliseconds)
      × (milliseconds < 1000 * (c.hours * 3600 + c.minutes * 60 + c.seconds) + 1000)
      × (c.minutes < 60)
      × (c.seconds < 60)
unfolding msec2clock
msec2clock_lem milliseconds h = (omega arith, omega arith, omega arith, omega arith)

-- Between two readings of a monotone clock, `get_time` never goes back, and it is behind the clock
-- by less than a millisecond, while the milliseconds fit 64 bits.
pub get_time_mono :
    (s t : Timespec)
    → s.tv_nsec < 1000000000
    → t.tv_nsec < 1000000000
    → s.tv_sec * 1000000000 + s.tv_nsec ≤ t.tv_sec * 1000000000 + t.tv_nsec
    → t.tv_sec < 2 ^ 53
    → (get_time (some s) ≤ get_time (some t))
      × (get_time (some t) * 1000000 ≤ t.tv_sec * 1000000000 + t.tv_nsec)
      × (t.tv_sec * 1000000000 + t.tv_nsec < get_time (some t) * 1000000 + 1000000)
unfolding get_time
get_time_mono s t hs ht le small = (omega arith, omega arith, omega arith)
