-- ===== src/Filter/Masks.antt =====
-- The masks of the programs of src/filter.c.
use Prim.Native.Nat.{bit_and}
use netproc.Base.{ℕ, ◌+◌, ◌*◌, ◌/◌, ◌^◌, ◌<◌, ◌≡◌, ◌==◌, arith}
use netproc.Base.Bits.{bit_and_ones, and_shift}

-- A word's first byte decides the test for the network 127.
pub loopback_mask :
    (a b c d : ℕ)
    → b < 256
    → c < 256
    → d < 256
    → a < 256
    → (bit_and (a * 16777216 + b * 65536 + c * 256 + d) 0xff000000 == 0x7f000000) ≡ (a == 127)
loopback_mask a b c d hb hc hd ha =
    let w = a * 16777216 + b * 65536 + c * 256 + d in
    let e = and_shift 24 w 255 in let o = bit_and_ones 8 (w / 2 ^ 24) in ground (arith, e, o)

pub version_mask : (b : ℕ) → b < 256 → (bit_and b 0xf0 == 0x40) ≡ (b / 16 == 4)
version_mask b h =
    let e = and_shift 4 b 15 in let o = bit_and_ones 4 (b / 2 ^ 4) in ground (arith, e, o)
