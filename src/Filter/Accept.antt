-- ===== src/Filter/Accept.antt =====
-- The frames that the programs of src/filter.c let through.
use Prim.Native.Nat.{bit_and}
use netproc.Base.{
  ℕ, ◌+◌, ◌*◌, ◌/◌, ◌<◌, ◌≡◌, Bool, true, false, not, ◌&&◌, ◌||◌, some, List, [], ◌∷◌,
  if◌then◌else◌, leb, ◌==◌, length, get_or, arith,
}
use netproc.Filter.{SockFilter, filter_get}
use netproc.Filter.Machine.{Op, load_b, load_h, load_w, mask, jump, return, interp}
use netproc.Filter.Masks.{loopback_mask}

-- An Ethernet frame with an IPv4 packet of one of the protocols, neither of whose addresses is in
-- the network 127.
abbrev pub ethernet : (ℕ → Bool) → List ℕ → Bool
ethernet protocol frame =
    leb 34 (length frame)
    && ((get_or frame 12 0 == 8)
        && ((get_or frame 13 0 == 0)
            && (not (get_or frame 26 0 == 127)
                && (not (get_or frame 30 0 == 127) && protocol (get_or frame 23 0)))))

-- A bare IPv4 packet of one of the protocols, as on the interface of a tunnel, neither of whose
-- addresses is in the network 127.
abbrev pub tunnel : (ℕ → Bool) → List ℕ → Bool
tunnel protocol frame =
    leb 20 (length frame)
    && ((get_or frame 0 0 / 16 == 4)
        && (not (get_or frame 12 0 == 127)
            && (not (get_or frame 16 0 == 127) && protocol (get_or frame 9 0))))

-- A frame that begins with the hexadecimal digit 4 and has 127 where a bare packet has the first
-- byte of its destination.
abbrev pub misjudged : List ℕ → Bool
misjudged frame = (get_or frame 0 0 / 16 == 4) && (get_or frame 16 0 == 127)

-- The order of the tests: what begins like an IPv4 packet is judged as one, unless it is of another
-- protocol; everything else is judged as an Ethernet frame.
abbrev accepts : (ℕ → Bool) → List ℕ → Bool
accepts protocol frame =
    if leb 20 (length frame) && (get_or frame 0 0 / 16 == 4)
    then (if (get_or frame 12 0 == 127) || (get_or frame 16 0 == 127)
        then false
        else if protocol (get_or frame 9 0)
        then true
        else ethernet protocol frame)
    else ethernet protocol frame

abbrev kept : Bool → ℕ
kept b = if b then 0x40000 else 0

-- From the load of the Ethernet type on.
abbrev ethernet_one : ℕ → List Op
ethernet_one p =
    load_h 12
    ∷ jump 0x0800 0 9
    ∷ load_w 26
    ∷ mask 0xff000000
    ∷ jump 0x7f000000 6 0
    ∷ load_w 30
    ∷ mask 0xff000000
    ∷ jump 0x7f000000 3 0
    ∷ load_b 23
    ∷ jump p 0 1
    ∷ return 0x40000
    ∷ return 0
    ∷ []

abbrev tunnel_one : ℕ → List Op
tunnel_one p =
    load_b 0
    ∷ mask 0xf0
    ∷ jump 0x40 0 8
    ∷ load_w 12
    ∷ mask 0xff000000
    ∷ jump 0x7f000000 16 0
    ∷ load_w 16
    ∷ mask 0xff000000
    ∷ jump 0x7f000000 13 0
    ∷ load_b 9
    ∷ jump p 10 0
    ∷ ethernet_one p

abbrev tunnel_both : List Op
tunnel_both =
    load_b 0
    ∷ mask 0xf0
    ∷ jump 0x40 0 9
    ∷ load_w 12
    ∷ mask 0xff000000
    ∷ jump 0x7f000000 18 0
    ∷ load_w 16
    ∷ mask 0xff000000
    ∷ jump 0x7f000000 15 0
    ∷ load_b 9
    ∷ jump 6 12 0
    ∷ jump 17 11 0
    ∷ load_h 12
    ∷ jump 0x0800 0 10
    ∷ load_w 26
    ∷ mask 0xff000000
    ∷ jump 0x7f000000 7 0
    ∷ load_w 30
    ∷ mask 0xff000000
    ∷ jump 0x7f000000 4 0
    ∷ load_b 23
    ∷ jump 6 1 0
    ∷ jump 17 0 1
    ∷ return 0x40000
    ∷ return 0
    ∷ []

module _ (frame : List ℕ) (bytes : (i : ℕ) → get_or frame i 0 < 256) where
  address :
      (k : ℕ)
      → (bit_and
            (get_or frame k 0 * 16777216
              + get_or frame (k + 1) 0 * 65536
              + get_or frame (k + 2) 0 * 256
              + get_or frame (k + 3) 0)
            0xff000000
          == 0x7f000000)
        ≡ (get_or frame k 0 == 127)
  address k =
      loopback_mask (get_or frame k 0) (get_or frame (k + 1) 0) (get_or frame (k + 2) 0)
        (get_or frame (k + 3) 0) (bytes (k + 1)) (bytes (k + 2)) (bytes (k + 3)) (bytes k)

  ether_type :
      (get_or frame 12 0 * 256 + get_or frame 13 0 == 0x0800)
      ≡ ((get_or frame 12 0 == 8) && (get_or frame 13 0 == 0))
  ether_type = ground (arith, bytes 12, bytes 13)

  ethernet_one-kept :
      (p a : ℕ) → interp (ethernet_one p) 0 a frame ≡ kept (ethernet (λ b. b == p) frame)
  ethernet_one-kept p a = ground (arith, address 26, address 30, ether_type)

  -- For these flags `filter_get` chooses a program, and a run of it keeps a frame, or drops it.
  abbrev pub Kept : (List SockFilter → ℕ → List ℕ → ℕ) → ℕ → (ℕ → Bool) → Type 0
  Kept run flags_proto protocol =
      (fprog : List SockFilter) × (filter_get flags_proto ≡ some fprog)
      × (run fprog 0 frame ≡ (
          if tunnel protocol frame || (ethernet protocol frame && not (misjudged frame))
          then 0x40000
          else 0))
