-- ===== src/Timer/Tests.antt =====
-- Times at concrete numbers.
use netproc.Base.{◌≡◌, refl}
use netproc.Timer.{Timespec, msec2clock}

one_day : msec2clock 90061999 ≡ record { hours = 25; minutes = 1; seconds = 1 }
unfolding msec2clock
one_day = refl

abbrev early : Timespec
early = record { tv_sec = 7; tv_nsec = 999999999 }

abbrev late : Timespec
late = record { tv_sec = 8; tv_nsec = 1 }
