-- ===== src/Timer.antt =====
-- src/timer.c: the clock in milliseconds, and a time as hours, minutes and seconds.
pub mod Seconds
mod Tests
use netproc.Base.{ℕ, ◌+◌, ◌*◌, ◌/◌, ◌%◌, Option, none, some, u32_mod, u64_mod}

-- `struct timespec`
pub record Timespec : Type 0 where
  pub tv_sec : ℕ
  pub tv_nsec : ℕ

-- What `clock_gettime` answers is an argument: `none` where it fails.
unfoldable pub get_time : Option Timespec → ℕ
get_time none = 0
get_time (some ts) = (ts.tv_sec * 1000 + ts.tv_nsec / 1000000) % u64_mod

-- The three numbers that are written.
pub record Clock : Type 0 where
  pub hours : ℕ
  pub minutes : ℕ
  pub seconds : ℕ

unfoldable pub msec2clock : ℕ → Clock
msec2clock milliseconds =
    let secs = milliseconds / 1000 % u32_mod in
    record { hours = secs / 60 / 60; minutes = secs / 60 % 60; seconds = secs % 60 }
