-- ===== src/Packet/Table.antt =====
-- The table of src/packet.c: its invariant, and what `get_fragment` and `clear_frag` do to it.
use netproc.Base.{
  ℕ, ◌<◌, ◌≡◌, refl, ◌∙◌, ◌==◌, arith, length, map, Option-cases, inl, inr, Bool-cases,
}
use netproc.Packet.{
  Iphdr, Layer4, Frags, max_reassemblies, store_fragment, stored_fragment, search_fragment,
  FragmentId, no_fragment, err_fragment, slot, slot_or_err, dont_fragment, is_first, has_offset,
  get_fragment, clear_frag,
}
use netproc.Packet.Slots.{
  occupied, find, occupied-le, length-store_slot, free_at-lt, store_slot-free_at,
  occupied-store_slot, length-search_slot, found_at-lt, search_slot-none, search_slot-found_at,
  occupied-search_slot, expire, clear_slots_lem, length-expire,
}

-- The table has all its slots, and the count is that of the slots in use.
pub record IsValid (s : Frags) : Type 0 where
  pub sized : length s.pkt_ip_frag ≡ max_reassemblies
  pub counted : s.count_reassemblies ≡ occupied s.pkt_ip_frag

-- `clear_frag` frees exactly the slots whose time is over, although it stops early.
pub clear_frag_lem :
    (now : ℕ) {s : Frags}
    → IsValid s
    → clear_frag now s ≡ record {
      pkt_ip_frag = map (expire now) s.pkt_ip_frag;
      count_reassemblies = occupied (map (expire now) s.pkt_ip_frag);
    }
unfolding clear_frag
clear_frag_lem now {s} v =
    rw (clear_slots_lem now 0 s.count_reassemblies s.pkt_ip_frag (omega (arith, v.counted)))
      (ground arith)

pub clear_frag-IsValid : (now : ℕ) {s : Frags} → IsValid s → IsValid (clear_frag now s)
clear_frag-IsValid now {s} v =
    rw (clear_frag_lem now v)
      (record { sized = length-expire now s.pkt_ip_frag ∙ v.sized; counted = refl })

-- An index that is given is one of the table.
abbrev pub Within : FragmentId → Frags → Type 0
Within no_fragment s = Unit
Within err_fragment s = Unit
Within (slot i) s = i < length s.pkt_ip_frag

-- A first fragment, and the outcome for it.
pub store_fragment-IsValid :
    (now : ℕ) {s : Frags} (l3 : Iphdr) (l4 : Layer4)
    → 0 < now
    → IsValid s
    → IsValid (store_fragment now s l3 l4).0
      × Within (slot_or_err (store_fragment now s l3 l4).1) (store_fragment now s l3 l4).0
unfolding store_fragment
store_fragment-IsValid now {s} l3 l4 p v =
    elim (Bool-cases (s.count_reassemblies == max_reassemblies)) [
      | inl full ↦ rw full (v, tt)
      | inr room ↦
          let some_slot : occupied s.pkt_ip_frag < length s.pkt_ip_frag =
            ground (arith, occupied-le s.pkt_ip_frag, v.sized, v.counted) in
          let new = stored_fragment now l3 l4 in
          rw (room, (store_slot-free_at new s.pkt_ip_frag some_slot).0)
            (
              record {
                sized = length-store_slot new s.pkt_ip_frag ∙ v.sized;
                counted = omega (
                  arith,
                  v.counted,
                  v.sized,
                  some_slot,
                  occupied-store_slot new s.pkt_ip_frag p some_slot,
                );
              },
              omega
                  (arith, length-store_slot new s.pkt_ip_frag, free_at-lt s.pkt_ip_frag some_slot),
            )
    ]

pub search_fragment-IsValid :
    {s : Frags} (l3 : Iphdr)
    → IsValid s
    → IsValid (search_fragment s l3).0
      × Within (slot_or_err (search_fragment s l3).1) (search_fragment s l3).0
unfolding search_fragment
search_fragment-IsValid {s} l3 v = elim (Option-cases (find l3 s.pkt_ip_frag)) [
  | inl absent ↦ rw (search_slot-none l3 s.pkt_ip_frag absent) (v, tt)
  | inr (f, there) ↦ rw (search_slot-found_at l3 s.pkt_ip_frag f f there).0 (
    record {
      sized = length-search_slot l3 s.pkt_ip_frag ∙ v.sized;
      counted = ground (arith, v.counted, occupied-search_slot l3 s.pkt_ip_frag f there);
    },
    omega (arith, length-search_slot l3 s.pkt_ip_frag, found_at-lt l3 s.pkt_ip_frag (cc there)),
  )
]

pub get_fragment-IsValid :
    (now : ℕ) {s : Frags} (l3 : Iphdr) (l4 : Layer4)
    → 0 < now
    → IsValid s
    → IsValid (get_fragment now s l3 l4).0
      × Within (get_fragment now s l3 l4).1 (get_fragment now s l3 l4).0
unfolding get_fragment
get_fragment-IsValid now {s} l3 l4 p v = elim (Bool-cases (dont_fragment l3)) [
  | inl e ↦ rw e (v, tt)
  | inr e ↦ rw e elim (Bool-cases (is_first l3)) [
    | inl f ↦ rw f (store_fragment-IsValid now l3 l4 p v)
    | inr f ↦ rw f elim (Bool-cases (has_offset l3)) [
      | inl o ↦ rw o (search_fragment-IsValid l3 v)
      | inr o ↦ rw o (v, tt)
    ]
  ]
]
