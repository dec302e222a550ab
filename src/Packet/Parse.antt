-- ===== src/Packet/Parse.antt =====
-- `parse_packet` of src/packet.c: the table stays in order, and the packet is what its specification says.
use netproc.Base.{
  ℕ, ◌<◌, ◌≡◌, refl, ap, ◌∙◌, none, if◌then◌else◌, ◌==◌, arith, length, Option-cases, inl, inr,
  Bool-cases, ok, Returns, at-get_or,
}
use netproc.Packet.{
  Frags, Ppd, max_reassemblies, store_slot, store_fragment, stored_fragment, search_slot,
  search_fragment, slot_or_err, dont_fragment, is_first, has_offset, get_fragment, clear_frag,
  fill_packet, parsed, parse_packet,
}
use netproc.Packet.Described.{packet_of, packet_by, seen_by, seen_by-packet_of, later}
use netproc.Packet.Slots.{
  occupied, find, occupied-le, free_at, free_at-lt, store_slot-free_at, length-store_slot,
  length-search_slot, found_at, found_at-lt, search_slot-none, search_slot-found_at,
}
use netproc.Packet.Table.{IsValid, get_fragment-IsValid, clear_frag-IsValid}

stored-parsed :
    (now : ℕ) {s : Frags} (ppd : Ppd)
    → IsValid s
    → let (s', i) = store_fragment now s ppd.l3 ppd.l4 in
      parsed ppd (slot_or_err i) s'.pkt_ip_frag
      ≡ ok (
          if occupied s.pkt_ip_frag == max_reassemblies
          then none
          else fill_packet ppd ppd.l4.source ppd.l4.dest)
unfolding store_fragment
stored-parsed now {s} ppd v = elim (Bool-cases (occupied s.pkt_ip_frag == max_reassemblies)) [
  | inl full ↦ rw (v.counted, full) refl
  | inr room ↦
      let new = stored_fragment now ppd.l3 ppd.l4 in
      let some_slot : occupied s.pkt_ip_frag < length s.pkt_ip_frag =
        ground (arith, occupied-le s.pkt_ip_frag, v.sized) in
      rw
        (
          v.counted,
          room,
          (store_slot-free_at new s.pkt_ip_frag some_slot).0,
          at-get_or (store_slot new s.pkt_ip_frag).0 (free_at s.pkt_ip_frag) new (
              omega
                (arith, length-store_slot new s.pkt_ip_frag, free_at-lt s.pkt_ip_frag some_slot)),
          (store_slot-free_at new s.pkt_ip_frag some_slot).1,
        )
        refl
]

searched-parsed :
    (s : Frags) (ppd : Ppd)
    → let (s', i) = search_fragment s ppd.l3 in
      parsed ppd (slot_or_err i) s'.pkt_ip_frag
      ≡ ok (later (fill_packet ppd) (find ppd.l3 s.pkt_ip_frag))
unfolding search_fragment
searched-parsed s ppd = elim (Option-cases (find ppd.l3 s.pkt_ip_frag)) [
  | inl absent ↦ rw (absent, search_slot-none ppd.l3 s.pkt_ip_frag absent) refl
  | inr (f, there) ↦
      rw
        (
          there,
          (search_slot-found_at ppd.l3 s.pkt_ip_frag f f there).0,
          at-get_or (search_slot ppd.l3 s.pkt_ip_frag).0 (found_at ppd.l3 s.pkt_ip_frag) f (
              omega (
                arith,
                length-search_slot ppd.l3 s.pkt_ip_frag,
                found_at-lt ppd.l3 s.pkt_ip_frag (cc there),
              )),
          (search_slot-found_at ppd.l3 s.pkt_ip_frag f f there).1,
        )
        (ground arith)
]

get_fragment-inserted :
    (now : ℕ) {s : Frags} (ppd : Ppd)
    → IsValid s
    → let (s', id) = get_fragment now s ppd.l3 ppd.l4 in
      parsed ppd id s'.pkt_ip_frag ≡ ok (packet_by (seen_by s ppd) s ppd.l4)
unfolding get_fragment
get_fragment-inserted now {s} ppd v = elim (Bool-cases (dont_fragment ppd.l3)) [
  | inl e ↦ rw e refl
  | inr e ↦ rw e elim (Bool-cases (is_first ppd.l3)) [
    | inl f ↦ rw f (stored-parsed now ppd v)
    | inr f ↦ rw f elim (Bool-cases (has_offset ppd.l3)) [
      | inl o ↦ rw o (searched-parsed s ppd)
      | inr o ↦ rw o refl
    ]
  ]
]

pub get_fragment-parsed :
    (now : ℕ) {s : Frags} (ppd : Ppd)
    → IsValid s
    → let (s', id) = get_fragment now s ppd.l3 ppd.l4 in
      parsed ppd id s'.pkt_ip_frag ≡ ok (packet_of s ppd)
get_fragment-parsed now {s} ppd v =
    get_fragment-inserted now ppd v ∙ ap ok (seen_by-packet_of s ppd)

-- How `parse_packet` ends.
pub parse_packet_lem :
    (now : ℕ) {s : Frags} (ppd : Ppd)
    → IsValid s
    → parse_packet now s ppd
      ≡ ok (clear_frag now (get_fragment now s ppd.l3 ppd.l4).0, packet_of s ppd)
unfolding parse_packet
parse_packet_lem now {s} ppd v = rw (get_fragment-parsed now ppd v) refl

-- On a table in order, and at a time after 0, `parse_packet` reads no slot outside of the table and
-- leaves it in order, and its packet, or its failure, is that of `packet_of`: a frame sent is an
-- upload from its source, a frame received a download to its destination, of any other type none;
-- a later fragment, of offset not 0 and without the flag that forbids fragments, has the ports of the
-- first slot in use for its datagram, and there is no packet if there is none; a first fragment,
-- marked as continued, is dropped where the table is full; any other frame has its own ports.
pub parse_packet-packet_of :
    (now : ℕ) {s : Frags} (ppd : Ppd)
    → 0 < now
    → IsValid s
    → Returns (parse_packet now s ppd) λ r. IsValid r.0 × (r.1 ≡ packet_of s ppd)
parse_packet-packet_of now {s} ppd p v = (
  (clear_frag now (get_fragment now s ppd.l3 ppd.l4).0, packet_of s ppd),
  parse_packet_lem now ppd v,
  (clear_frag-IsValid now (get_fragment-IsValid now ppd.l3 ppd.l4 p v).0, refl),
)
