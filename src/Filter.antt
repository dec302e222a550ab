-- ===== src/Filter.antt =====
-- src/filter.c: the BPF programs that the kernel is to run on every frame. An instruction is a
-- `struct sock_filter`; the machine that runs it is the kernel's, and is a parameter.
pub mod Machine
pub mod Masks
pub mod Accept
mod Tests
use netproc.Base.{ℕ, Bool, true, false, Option, none, some, List, [], ◌∷◌, if◌then◌else◌, ◌==◌}

-- `TCP` and `UDP` of src/config.h
abbrev pub tcp : ℕ
tcp = 1

abbrev pub udp : ℕ
udp = 2

-- `struct sock_filter`
pub data SockFilter : Type 0 where
  insn : ℕ → ℕ → ℕ → ℕ → SockFilter

abbrev pub ip_tcp_udp : List SockFilter
ip_tcp_udp =
    insn 0x30 0 0 0x00000000
    ∷ insn 0x54 0 0 0x000000f0
    ∷ insn 0x15 0 9 0x00000040
    ∷ insn 0x20 0 0 0x0000000c
    ∷ insn 0x54 0 0 0xff000000
    ∷ insn 0x15 18 0 0x7f000000
    ∷ insn 0x20 0 0 0x00000010
    ∷ insn 0x54 0 0 0xff000000
    ∷ insn 0x15 15 0 0x7f000000
    ∷ insn 0x30 0 0 0x00000009
    ∷ insn 0x15 12 0 0x00000006
    ∷ insn 0x15 11 0 0x00000011
    ∷ insn 0x28 0 0 0x0000000c
    ∷ insn 0x15 0 10 0x00000800
    ∷ insn 0x20 0 0 0x0000001a
    ∷ insn 0x54 0 0 0xff000000
    ∷ insn 0x15 7 0 0x7f000000
    ∷ insn 0x20 0 0 0x0000001e
    ∷ insn 0x54 0 0 0xff000000
    ∷ insn 0x15 4 0 0x7f000000
    ∷ insn 0x30 0 0 0x00000017
    ∷ insn 0x15 1 0 0x00000006
    ∷ insn 0x15 0 1 0x00000011
    ∷ insn 0x6 0 0 0x00040000
    ∷ insn 0x6 0 0 0x00000000
    ∷ []

abbrev pub ip_tcp : List SockFilter
ip_tcp =
    insn 0x30 0 0 0x00000000
    ∷ insn 0x54 0 0 0x000000f0
    ∷ insn 0x15 0 8 0x00000040
    ∷ insn 0x20 0 0 0x0000000c
    ∷ insn 0x54 0 0 0xff000000
    ∷ insn 0x15 16 0 0x7f000000
    ∷ insn 0x20 0 0 0x00000010
    ∷ insn 0x54 0 0 0xff000000
    ∷ insn 0x15 13 0 0x7f000000
    ∷ insn 0x30 0 0 0x00000009
    ∷ insn 0x15 10 0 0x00000006
    ∷ insn 0x28 0 0 0x0000000c
    ∷ insn 0x15 0 9 0x00000800
    ∷ insn 0x20 0 0 0x0000001a
    ∷ insn 0x54 0 0 0xff000000
    ∷ insn 0x15 6 0 0x7f000000
    ∷ insn 0x20 0 0 0x0000001e
    ∷ insn 0x54 0 0 0xff000000
    ∷ insn 0x15 3 0 0x7f000000
    ∷ insn 0x30 0 0 0x00000017
    ∷ insn 0x15 0 1 0x00000006
    ∷ insn 0x6 0 0 0x00040000
    ∷ insn 0x6 0 0 0x00000000
    ∷ []

abbrev pub ip_udp : List SockFilter
ip_udp =
    insn 0x30 0 0 0x00000000
    ∷ insn 0x54 0 0 0x000000f0
    ∷ insn 0x15 0 8 0x00000040
    ∷ insn 0x20 0 0 0x0000000c
    ∷ insn 0x54 0 0 0xff000000
    ∷ insn 0x15 16 0 0x7f000000
    ∷ insn 0x20 0 0 0x00000010
    ∷ insn 0x54 0 0 0xff000000
    ∷ insn 0x15 13 0 0x7f000000
    ∷ insn 0x30 0 0 0x00000009
    ∷ insn 0x15 10 0 0x00000011
    ∷ insn 0x28 0 0 0x0000000c
    ∷ insn 0x15 0 9 0x00000800
    ∷ insn 0x20 0 0 0x0000001a
    ∷ insn 0x54 0 0 0xff000000
    ∷ insn 0x15 6 0 0x7f000000
    ∷ insn 0x20 0 0 0x0000001e
    ∷ insn 0x54 0 0 0xff000000
    ∷ insn 0x15 3 0 0x7f000000
    ∷ insn 0x30 0 0 0x00000017
    ∷ insn 0x15 0 1 0x00000011
    ∷ insn 0x6 0 0 0x00040000
    ∷ insn 0x6 0 0 0x00000000
    ∷ []

-- `TCP | UDP` is 3; the length of the program is that of the list.
unfoldable pub filter_get : ℕ → Option (List SockFilter)
filter_get flags_proto =
    if flags_proto == 3
    then some ip_tcp_udp
    else if flags_proto == tcp
    then some ip_tcp
    else if flags_proto == udp
    then some ip_udp
    else none

-- The program that `setsockopt` attaches, and whether that succeeds, `attached` being its answer.
unfoldable pub filter_set : Bool → ℕ → Option (List SockFilter) × Bool
unfolding filter_get
filter_set attached flags_proto = elim (filter_get flags_proto) [
  | none ↦ (none, false)
  | some fprog ↦ if attached then (some fprog, true) else (none, false)
]
