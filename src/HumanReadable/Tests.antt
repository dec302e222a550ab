-- ===== src/HumanReadable/Tests.antt =====
-- Numbers with their units.
use netproc.Base.{ℕ, ◌*◌, ◌-◌, ◌^◌, ◌≡◌, refl, true, false, some}
use netproc.HumanReadable.{
  define_sufix, human_readable, readable, scale, rate, total, Written, whole, scaled, nothing,
}
use netproc.HumanReadable.Scale.{Readable, human_readable-Readable}

abbrev thirteen : Written → ℕ
thirteen nothing = 1
thirteen (whole n s) = 13
thirteen (scaled m b s) = 13

mebibytes :
    human_readable thirteen (define_sufix false true) 14 (3 * 2 ^ 20) rate
    ≡ (some (scaled 3072 1024 "MiB/s"), true)
unfolding human_readable readable scale define_sufix
mebibytes = refl

-- The largest number has the last unit.
largest :
    human_readable thirteen (define_sufix true false) 12 (2 ^ 64 - 1) total
    ≡ (some (scaled 18446744 1000 "Pb"), false)
unfolding human_readable readable scale define_sufix
largest = refl

human_readable-Readable_example :
    Readable
      (define_sufix false true)
      rate
      (3 * 2 ^ 20)
      (human_readable thirteen (define_sufix false true) 14 (3 * 2 ^ 20) rate).0
human_readable-Readable_example = human_readable-Readable thirteen 14 false true (3 * 2 ^ 20) rate
