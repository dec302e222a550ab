-- ===== src/Packet/Described.antt =====
-- What `parse_packet` of src/packet.c is to give for a frame, told by the frame's own fields.
use mathlib.Core.Option
use Prim.Native.Nat.{bit_and}
use netproc.Base.Bits.{bit_and_ones, and_shift, two_pow-pos}
use netproc.Base.{
  not, ◌&&◌, ◌^◌, List, [], ◌∷◌, Bool, ℕ, zero, suc, ◌+◌, ◌*◌, ◌/◌, ◌%◌, ◌<◌, ◌≡◌, refl, ap,
  fun_ext, Option, none, some, if◌then◌else◌, ◌==◌, arith, inl, inr, Bool-cases,
}
use netproc.Packet.{
  Iphdr, Layer4, ntohs, Fragment, Frags, Packet, Ppd, Direction, pkt_down, pkt_upl,
  max_reassemblies, dont_fragment, is_first, has_offset, fill_packet,
}
use netproc.Packet.Slots.{occupied, find}

-- The way of a frame, by its type: 4 is sent, 0 is received, and no other is looked at.
abbrev pub way : ℕ → Option Direction
way pkttype = if pkttype == 4 then some pkt_upl else if pkttype == 0 then some pkt_down else none

-- Which of a source and a destination is on this machine, and which on the other.
abbrev pub near : Direction → ℕ → ℕ → ℕ
near pkt_upl source dest = source
near pkt_down source dest = dest

abbrev pub far : Direction → ℕ → ℕ → ℕ
far pkt_upl source dest = dest
far pkt_down source dest = source

-- The number of two bytes, as they were sent.
abbrev pub big_endian : ℕ → ℕ
big_endian port = port % 256 * 256 + port / 256

abbrev pub packet_going : Ppd → ℕ → ℕ → Direction → Packet
packet_going ppd source dest dir = record {
  if_index = ppd.sll_ifindex;
  direction = dir;
  protocol = ppd.l3.protocol;
  local_ip = near dir ppd.l3.saddr ppd.l3.daddr;
  remote_ip = far dir ppd.l3.saddr ppd.l3.daddr;
  local_port = big_endian (near dir source dest);
  remote_port = big_endian (far dir source dest);
  lenght = ppd.tp_snaplen;
}

-- The packet of a frame with these ports, if it goes one of the two ways.
abbrev pub packet_with : Ppd → ℕ → ℕ → Option Packet
packet_with ppd source dest = Option.map (packet_going ppd source dest) (way ppd.sll_pkttype)

pub fill_packet-packet_with :
    (ppd : Ppd) (source dest : ℕ) → fill_packet ppd source dest ≡ packet_with ppd source dest
fill_packet-packet_with ppd source dest = elim (Bool-cases (ppd.sll_pkttype == 4)) [
  | inl out ↦ rw out refl
  | inr other ↦ rw other elim (Bool-cases (ppd.sll_pkttype == 0)) [
    | inl host ↦ rw host refl
    | inr none_other ↦ rw none_other refl
  ]
]

-- The flags and the offset of a fragment, in the number of the two bytes.
abbrev pub unbroken : Iphdr → Bool
unbroken l3 = big_endian l3.frag_off / 16384 % 2 == 1

abbrev pub continued : Iphdr → Bool
continued l3 = big_endian l3.frag_off / 8192 % 2 == 1

abbrev pub begins : Iphdr → Bool
begins l3 = big_endian l3.frag_off % 8192 == 0

bit_test : (b p : ℕ) → b < 2 → 0 < p → not (b * p == 0) ≡ (b == 1)
bit_test zero p h pos = ground arith
bit_test (suc zero) p h pos = ground arith
bit_test (suc (suc b)) p h pos = absurd (omega (arith, h))

bit_set : (k n : ℕ) → not (bit_and n (1 * 2 ^ k) == 0) ≡ (n / 2 ^ k % 2 == 1)
bit_set k n =
    let one : bit_and (n / 2 ^ k) 1 ≡ n / 2 ^ k % 2 = bit_and_ones 1 (n / 2 ^ k) in
    rw (and_shift k n 1, one) (bit_test (n / 2 ^ k % 2) (2 ^ k) (omega arith) (two_pow-pos k))

dont_fragment-unbroken : (l3 : Iphdr) → dont_fragment l3 ≡ unbroken l3
dont_fragment-unbroken l3 = bit_set 14 (ntohs l3.frag_off)

has_offset-begins : (l3 : Iphdr) → has_offset l3 ≡ not (begins l3)
has_offset-begins l3 = rw (bit_and_ones 13 (ntohs l3.frag_off)) refl

is_first-begins : (l3 : Iphdr) → is_first l3 ≡ (continued l3 && begins l3)
is_first-begins l3 = rw (bit_set 13 (ntohs l3.frag_off), bit_and_ones 13 (ntohs l3.frag_off)) refl

-- The first slot in use that has the identification and both addresses of a header.
abbrev pub holder : Iphdr → List Fragment → Option Fragment
holder l3 [] = none
holder l3 (f ∷ frags) =
    if not (f.ttl == 0) && ((f.id == l3.id) && ((f.saddr == l3.saddr) && (f.daddr == l3.daddr)))
    then some f
    else holder l3 frags

find-holder : (l3 : Iphdr) (frags : List Fragment) → find l3 frags ≡ holder l3 frags
unfolding find
find-holder l3 [] = refl
find-holder l3 (f ∷ frags) = ground (arith, find-holder l3 frags)

-- The packet that a frame stands for, by what is known of the frame and of its datagram: a later
-- fragment has the ports of the datagram in the table, and is dropped where there is none; a first
-- fragment is dropped where the table is full.
pub record Seen : Type 0 where
  pub whole : Bool
  pub leads : Bool
  pub follows : Bool
  pub seat : Option Fragment
  pub fill : ℕ → ℕ → Option Packet

abbrev pub later : (ℕ → ℕ → Option Packet) → Option Fragment → Option Packet
later fill none = none
later fill (some f) = fill f.source_port f.dest_port

abbrev pub packet_by : Seen → Frags → Layer4 → Option Packet
packet_by seen s l4 =
    let own = seen.fill l4.source l4.dest in
    if seen.whole
    then own
    else if seen.leads
    then (if occupied s.pkt_ip_frag == max_reassemblies then none else own)
    else if seen.follows
    then later seen.fill seen.seat
    else own

abbrev pub packet_of : Frags → Ppd → Option Packet
packet_of s ppd =
    packet_by
      (record {
        whole = unbroken ppd.l3;
        leads = continued ppd.l3 && begins ppd.l3;
        follows = not (begins ppd.l3);
        seat = holder ppd.l3 s.pkt_ip_frag;
        fill = packet_with ppd;
      })
      s ppd.l4

-- The same, as the code looks at the frame.
abbrev pub seen_by : Frags → Ppd → Seen
seen_by s ppd = record {
  whole = dont_fragment ppd.l3;
  leads = is_first ppd.l3;
  follows = has_offset ppd.l3;
  seat = find ppd.l3 s.pkt_ip_frag;
  fill = fill_packet ppd;
}

pub seen_by-packet_of :
    (s : Frags) (ppd : Ppd) → packet_by (seen_by s ppd) s ppd.l4 ≡ packet_of s ppd
seen_by-packet_of s ppd =
    let same_fill : fill_packet ppd ≡ packet_with ppd =
      fun_ext λ source. fun_ext λ dest. fill_packet-packet_with ppd source dest in
    rw
      (
        dont_fragment-unbroken ppd.l3,
        is_first-begins ppd.l3,
        has_offset-begins ppd.l3,
        find-holder ppd.l3 s.pkt_ip_frag,
      )
      (ap
        (λ fill.
          packet_by
            (record {
              whole = unbroken ppd.l3;
              leads = continued ppd.l3 && begins ppd.l3;
              follows = not (begins ppd.l3);
              seat = holder ppd.l3 s.pkt_ip_frag;
              fill = fill;
            })
            s ppd.l4)
        same_fill)
