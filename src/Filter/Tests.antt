-- ===== src/Filter/Tests.antt =====
-- The programs on concrete frames, run by a machine that decodes each instruction.
use Prim.Native.Nat.{bit_and}
use netproc.Base.{
  ℕ, zero, suc, ◌≡◌, refl, Bool, true, ◌&&◌, Option, none, some, List, [], ◌∷◌, if◌then◌else◌, ◌==◌,
  ltb,
}
use netproc.Filter.{SockFilter, insn, ip_tcp}
use netproc.Filter.Machine.{load_byte, load_half, load_word}

-- One instruction: the value of the accumulator and how many instructions to pass over, or the result.
abbrev after : ℕ → Option ℕ → Option (ℕ × ℕ) × ℕ
after a none = (none, 0)
after a (some v) = (some (v, 0), 0)

abbrev execute : SockFilter → ℕ → List ℕ → Option (ℕ × ℕ) × ℕ
execute (insn code jt jf k) a frame =
    if code == 0x30
    then after a (load_byte frame k)
    else if code == 0x28
    then after a (load_half frame k)
    else if code == 0x20
    then after a (load_word frame k)
    else if code == 0x54
    then (some (bit_and a k, 0), 0)
    else if code == 0x15
    then (some (a, if a == k then jt else jf), 0)
    else (none, k)

abbrev follow : Option (ℕ × ℕ) × ℕ → (ℕ × ℕ → ℕ) → ℕ
follow (none, result) next = result
follow (some s, result) next = next s

abbrev run_from : List SockFilter → ℕ → List ℕ → ℕ → ℕ
run_from [] a frame skip = 0
run_from (i ∷ p) a frame (suc skip) = run_from p a frame skip
run_from (i ∷ p) a frame zero = follow (execute i a frame) (λ s. run_from p s.0 frame s.1)

abbrev machine : List SockFilter → ℕ → List ℕ → ℕ
machine p a frame = run_from p a frame 0

-- An Ethernet header and an IPv4 header, from 10.0.0.1 to 10.0.0.2.
abbrev frame_of : ℕ → ℕ → List ℕ
frame_of mac protocol =
    mac ∷ 0 ∷ 0 ∷ 0 ∷ 0 ∷ 1 ∷ 2 ∷ 0 ∷ 0 ∷ 0 ∷ 0 ∷ 2 ∷ 8 ∷ 0 ∷ 69 ∷ 0 ∷ 127 ∷ 40 ∷ 0 ∷ 1 ∷ 0 ∷ 0 ∷ 64
    ∷ protocol ∷ 0 ∷ 0 ∷ 10 ∷ 0 ∷ 0 ∷ 1 ∷ 10 ∷ 0 ∷ 0 ∷ 2 ∷ []

tcp_kept : machine ip_tcp 0 (frame_of 2 6) ≡ 0x40000
tcp_kept = refl

udp_dropped : machine ip_tcp 0 (frame_of 2 17) ≡ 0
udp_dropped = refl

-- A destination address of the Ethernet that begins with the digit 4 looks like the version of a
-- packet in a tunnel, and the length 127 * 256 + 40 of the packet like the network 127.
mistaken : machine ip_tcp 0 (frame_of 0x40 6) ≡ 0
mistaken = refl

abbrev all_bytes : List ℕ → Bool
all_bytes [] = true
all_bytes (x ∷ xs) = ltb x 256 && all_bytes xs
