-- ===== src/Packet/Tests.antt =====
-- Frames of one datagram in three fragments.
use netproc.Base.{
  ℕ, ◌<◌, ◌≡◌, refl, none, some, [], ◌∷◌, arith, replicate, map, ok, Returns, ◌>>=◌, at,
}
use netproc.Packet.{
  Fragment, Iphdr, Layer4, Frags, Ppd, pkt_upl, store_slot, store_fragment, search_slot,
  search_fragment, get_fragment, clear_slots, clear_frag, parse_packet, fill_packet,
}
use netproc.Packet.Slots.{occupied, find, expire}
use netproc.Packet.Table.{IsValid, clear_frag_lem}
use netproc.Packet.Parse.{parse_packet-packet_of}
use netproc.Packet.Described.{packet_of}
use netproc.Packet.Reassembly.{parse_all, parse_packet-reassembly}

abbrev free : Fragment
free = record { ttl = 0; saddr = 0; daddr = 0; id = 0; source_port = 0; dest_port = 0 }

abbrev start : Frags
start = record { pkt_ip_frag = replicate 32 free; count_reassemblies = 0 }

start-IsValid : IsValid start
unfolding occupied
start-IsValid = record { sized = refl; counted = refl }

-- `frag_off` in the network's order: MF with offset 0, MF with offset 185, and offset 370.
abbrev header : ℕ → Iphdr
header frag_off = record { frag_off = frag_off; id = 7; protocol = 17; saddr = 1; daddr = 2 }

abbrev frame : ℕ → Layer4 → Ppd
frame frag_off l4 = record {
  sll_pkttype = 4;
  sll_ifindex = 1;
  l3 = header frag_off;
  l4 = l4;
  tp_snaplen = 1500;
}

abbrev first : Ppd
first = frame 0x0020 (record { source = 0x3500; dest = 0x901f })

abbrev middle : Ppd
middle = frame 0xb920 (record { source = 1; dest = 2 })

abbrev last : Ppd
last = frame 0x7201 (record { source = 3; dest = 4 })

-- The last fragment has the ports of the first one, and frees the slot.
reassembled :
    (parse_packet 100 start first >>= λ r.
    parse_packet 101 r.0 middle >>= λ s. parse_packet 102 s.0 last)
    ≡ ok (
      record {
        pkt_ip_frag =
            record free { saddr = 1; daddr = 2; id = 7; source_port = 0x3500; dest_port = 0x901f }
            ∷ replicate 31 free;
        count_reassemblies = 0;
      },
      some (record {
        if_index = 1;
        direction = pkt_upl;
        protocol = 17;
        local_ip = 1;
        remote_ip = 2;
        local_port = 53;
        remote_port = 8080;
        lenght = 1500;
      }),
    )
unfolding parse_packet get_fragment store_fragment store_slot search_fragment search_slot clear_frag
    clear_slots at
reassembled = refl

-- Three seconds later the slot is free again, and the fragment is dropped.
expired :
    (parse_packet 100 start first >>= λ r.
    parse_packet 103 r.0 (record middle { l3 = record (header 0) { id = 8 } }) >>= λ s.
    parse_packet 104 s.0 last >>= λ u. ok u.1)
    ≡ ok none
unfolding parse_packet get_fragment store_fragment store_slot search_fragment search_slot clear_frag
    clear_slots at
expired = refl

clear_frag_lem_example : clear_frag 103 start ≡ record {
  pkt_ip_frag = map (expire 103) start.pkt_ip_frag;
  count_reassemblies = occupied (map (expire 103) start.pkt_ip_frag);
}
clear_frag_lem_example = clear_frag_lem 103 start-IsValid

parse_packet-packet_of_example :
    Returns (parse_packet 100 start first) λ r. IsValid r.0 × (r.1 ≡ packet_of start first)
parse_packet-packet_of_example = parse_packet-packet_of 100 first (omega arith) start-IsValid

room : occupied start.pkt_ip_frag < 32
unfolding occupied
room = omega arith

absent : find first.l3 start.pkt_ip_frag ≡ none
unfolding find
absent = refl

parse_packet-reassembly_example :
    Returns
      (parse_packet 100 start first >>= λ r.
        parse_all ((101, middle) ∷ []) r.0 >>= λ s'. parse_packet 102 s' last)
      λ r. IsValid r.0 × (r.1 ≡ fill_packet last 0x3500 0x901f)
parse_packet-reassembly_example =
    parse_packet-reassembly 100 102 first last ((101, middle) ∷ []) (omega arith) (omega arith)
      start-IsValid refl refl room absent (omega arith, omega arith, refl, tt) refl refl refl refl
