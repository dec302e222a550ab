-- ===== src/Packet.antt =====
-- src/packet.c and src/packet.h: what a captured frame says about an IP packet, and the table of
-- the datagrams that come in fragments. `parse_packet` reaches the headers by casting pointers into
-- the capture ring; here the headers at those places are records, in the network's byte order. The
-- machine is little-endian, so that `ntohs` swaps the bytes. `time` is not part of the program: a
-- call takes the seconds that it says, one number for the two calls within one packet.
pub mod Slots
pub mod Table
pub mod Reassembly
pub mod Described
pub mod Parse
mod Tests
use Prim.Native.Nat.{bit_and}
use netproc.Base.{
  ℕ, zero, suc, ◌+◌, ◌-◌, ◌*◌, ◌/◌, ◌%◌, ◌≡◌, Bool, true, false, not, Option, none, some, List, [],
  ◌∷◌, ◌&&◌, ◌||◌, if◌then◌else◌, ◌==◌, leb, Run, ok, fault, ◌>>=◌, at,
}

abbrev pub ip_df : ℕ
ip_df = 0x4000

abbrev pub ip_mf : ℕ
ip_mf = 0x2000

abbrev pub ip_offmask : ℕ
ip_offmask = 0x1fff

abbrev pub max_reassemblies : ℕ
max_reassemblies = 32

abbrev pub lifetime_frag : ℕ
lifetime_frag = 3

-- `struct layer_4`
pub record Layer4 : Type 0 where
  pub source : ℕ
  pub dest : ℕ

-- The fields of `struct iphdr` that the file reads.
pub record Iphdr : Type 0 where
  pub frag_off : ℕ
  pub id : ℕ
  pub protocol : ℕ
  pub saddr : ℕ
  pub daddr : ℕ

-- `struct pkt_ip_fragment`
pub record Fragment : Type 0 where
  pub ttl : ℕ
  pub saddr : ℕ
  pub daddr : ℕ
  pub id : ℕ
  pub source_port : ℕ
  pub dest_port : ℕ

-- The two static variables of the file.
pub record Frags : Type 0 where
  pub pkt_ip_frag : List Fragment
  pub count_reassemblies : ℕ

abbrev pub ntohs : ℕ → ℕ
ntohs x = x % 256 * 256 + x / 256

-- `DEC_REASSEMBLE`
abbrev pub dec_reassemble : ℕ → ℕ
dec_reassemble var = var - (if var == 0 then 0 else 1)

-- The table's own results: an index, or -1.
abbrev pub stored_fragment : ℕ → Iphdr → Layer4 → Fragment
stored_fragment now l3 l4 = record {
  ttl = now;
  saddr = l3.saddr;
  daddr = l3.daddr;
  id = l3.id;
  source_port = l4.source;
  dest_port = l4.dest;
}

abbrev pub next_index : Option ℕ → Option ℕ
next_index none = none
next_index (some i) = some (suc i)

-- The loop of `store_fragment` from a slot on.
unfoldable pub store_slot : Fragment → List Fragment → List Fragment × Option ℕ
store_slot new [] = ([], none)
store_slot new (f ∷ frags) =
    let (rest, i) = store_slot new frags in
    if f.ttl == 0 then (new ∷ frags, some 0) else (f ∷ rest, next_index i)

unfoldable pub store_fragment : ℕ → Frags → Iphdr → Layer4 → Frags × Option ℕ
unfolding store_slot
store_fragment now s l3 l4 =
    if s.count_reassemblies == max_reassemblies
    then (s, none)
    else let (frags, i) = store_slot (stored_fragment now l3 l4) s.pkt_ip_frag in
      (record { pkt_ip_frag = frags; count_reassemblies = (s.count_reassemblies + 1) % 256 }, i)

-- The slot is in use, for the datagram of the header.
abbrev pub matches : Iphdr → Fragment → Bool
matches l3 f =
    not (f.ttl == 0) && ((l3.id == f.id) && ((l3.saddr == f.saddr) && (l3.daddr == f.daddr)))

-- `( ntohs ( l3->frag_off ) & IP_MF ) == 0`
abbrev pub is_last : Iphdr → Bool
is_last l3 = bit_and (ntohs l3.frag_off) ip_mf == 0

-- The loop of `search_fragment` from a slot on; the last fragment of a datagram frees its slot.
unfoldable pub search_slot : Iphdr → List Fragment → List Fragment × Option ℕ
search_slot l3 [] = ([], none)
search_slot l3 (f ∷ frags) =
    let (rest, i) = search_slot l3 frags in
    if matches l3 f
    then ((if is_last l3 then record f { ttl = 0 } else f) ∷ frags, some 0)
    else (f ∷ rest, next_index i)

-- The count after the loop: `DEC_REASSEMBLE` where a slot was freed.
abbrev pub freed_count : Bool → ℕ → Option ℕ → ℕ
freed_count last count none = count
freed_count last count (some i) = if last then dec_reassemble count else count

unfoldable pub search_fragment : Frags → Iphdr → Frags × Option ℕ
unfolding search_slot
search_fragment s l3 =
    let (frags, i) = search_slot l3 s.pkt_ip_frag in
    (
      record {
        pkt_ip_frag = frags;
        count_reassemblies = freed_count (is_last l3) s.count_reassemblies i;
      },
      i,
    )

-- The results of `get_fragment`: -1, `ERR_FRAGMENT`, or an index.
pub data FragmentId : Type 0 where
  no_fragment : FragmentId
  err_fragment : FragmentId
  slot : ℕ → FragmentId

abbrev pub slot_or_err : Option ℕ → FragmentId
slot_or_err none = err_fragment
slot_or_err (some i) = slot i

abbrev pub dont_fragment : Iphdr → Bool
dont_fragment l3 = not (bit_and (ntohs l3.frag_off) ip_df == 0)

abbrev pub is_first : Iphdr → Bool
is_first l3 = not (is_last l3) && (bit_and (ntohs l3.frag_off) ip_offmask == 0)

abbrev pub has_offset : Iphdr → Bool
has_offset l3 = not (bit_and (ntohs l3.frag_off) ip_offmask == 0)

unfoldable pub get_fragment : ℕ → Frags → Iphdr → Layer4 → Frags × FragmentId
unfolding store_fragment search_fragment
get_fragment now s l3 l4 =
    if dont_fragment l3
    then (s, no_fragment)
    else if is_first l3
    then (let (s', i) = store_fragment now s l3 l4 in (s', slot_or_err i))
    else if has_offset l3
    then (let (s', i) = search_fragment s l3 in (s', slot_or_err i))
    else (s, no_fragment)

-- The loop of `clear_frag` from a slot on, with the count that it stops at.
unfoldable pub clear_slots : ℕ → ℕ → List Fragment → List Fragment × ℕ
clear_slots now count [] = ([], count)
clear_slots now count (f ∷ frags) =
    let expired = not (f.ttl == 0) && leb lifetime_frag (now - f.ttl) in
    let count' = if expired then dec_reassemble count else count in
    let (rest, left) = clear_slots now count' frags in
    if count == 0
    then (f ∷ frags, count)
    else ((if expired then record f { ttl = 0 } else f) ∷ rest, left)

unfoldable pub clear_frag : ℕ → Frags → Frags
unfolding clear_slots
clear_frag now s =
    let (frags, left) = clear_slots now s.count_reassemblies s.pkt_ip_frag in
    record { pkt_ip_frag = frags; count_reassemblies = left }

pub data Direction : Type 0 where
  pkt_down : Direction
  pkt_upl : Direction

-- `struct packet`, with its tuple.
pub record Packet : Type 0 where
  pub if_index : ℕ
  pub direction : Direction
  pub protocol : ℕ
  pub local_ip : ℕ
  pub remote_ip : ℕ
  pub local_port : ℕ
  pub remote_port : ℕ
  pub lenght : ℕ

-- What the capture ring says of a frame: `struct sockaddr_ll`, the headers and `tp_snaplen`.
pub record Ppd : Type 0 where
  pub sll_pkttype : ℕ
  pub sll_ifindex : ℕ
  pub l3 : Iphdr
  pub l4 : Layer4
  pub tp_snaplen : ℕ

abbrev pub packet_host : ℕ
packet_host = 0

abbrev pub packet_outgoing : ℕ
packet_outgoing = 4

abbrev pub insert_data_packet : ℕ → Direction → ℕ → ℕ → ℕ → ℕ → ℕ → ℕ → Packet
insert_data_packet if_index direction protocol local_address remote_address local_port remote_port
      len =
    record {
      if_index = if_index;
      direction = direction;
      protocol = protocol;
      local_ip = local_address;
      remote_ip = remote_address;
      local_port = ntohs local_port;
      remote_port = ntohs remote_port;
      lenght = len;
    }

-- The calls of `insert_data_packet` for a frame sent and for a frame received, where the ports are
-- those of the frame or those of its datagram.
abbrev pub upload : Ppd → ℕ → ℕ → Packet
upload ppd source dest =
    insert_data_packet ppd.sll_ifindex pkt_upl ppd.l3.protocol ppd.l3.saddr ppd.l3.daddr source dest
      ppd.tp_snaplen

abbrev pub download : Ppd → ℕ → ℕ → Packet
download ppd source dest =
    insert_data_packet ppd.sll_ifindex pkt_down ppd.l3.protocol ppd.l3.daddr ppd.l3.saddr dest
      source ppd.tp_snaplen

-- The switch on the packet's type; another type is a failure.
abbrev pub fill_packet : Ppd → ℕ → ℕ → Option Packet
fill_packet ppd source dest =
    if ppd.sll_pkttype == packet_outgoing
    then some (upload ppd source dest)
    else if ppd.sll_pkttype == packet_host
    then some (download ppd source dest)
    else none

-- The ports of the packet: its own, or those in the slot of its datagram.
abbrev pub parsed : Ppd → FragmentId → List Fragment → Run (Option Packet)
parsed ppd no_fragment frags = ok (fill_packet ppd ppd.l4.source ppd.l4.dest)
parsed ppd err_fragment frags = ok none
parsed ppd (slot i) frags = do f ← at frags i; ok (fill_packet ppd f.source_port f.dest_port)

-- The packet is `none` where the result is 0.
unfoldable pub parse_packet : ℕ → Frags → Ppd → Run (Frags × Option Packet)
unfolding get_fragment clear_frag
parse_packet now s ppd = do
  let (s', id_frag) = get_fragment now s ppd.l3 ppd.l4
  pkt ← parsed ppd id_frag s'.pkt_ip_frag
  ok (clear_frag now s', pkt)
