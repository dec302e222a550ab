-- ===== src/Packet/Reassembly.antt =====
-- src/packet.c over several frames: the ports of a first fragment reach the later fragments of its
-- datagram.
use netproc.Base.{
  sym, ℕ, ◌+◌, ◌<◌, ◌≡◌, refl, ◌∙◌, Bool, true, false, not, none, some, List, [], ◌∷◌, ◌&&◌, ◌||◌,
  ◌==◌, arith, inl, inr, Bool-cases, Run, ok, Returns, ◌>>=◌,
}
use netproc.Packet.{
  Fragment, Iphdr, Layer4, Frags, Ppd, max_reassemblies, lifetime_frag, store_fragment,
  stored_fragment, search_fragment, is_last, matches, dont_fragment, is_first, has_offset,
  get_fragment, clear_frag, fill_packet, parse_packet,
}
use netproc.Packet.Slots.{
  occupied, find, find-store_slot, find-store_slot-new, search_slot-kept, find-search_slot,
  find-expire,
}
use netproc.Packet.Table.{IsValid, get_fragment-IsValid, clear_frag_lem, clear_frag-IsValid}
use netproc.Packet.Described.{packet_of, seen_by-packet_of}
use netproc.Packet.Parse.{parse_packet_lem, parse_packet-packet_of}

-- Two headers of one datagram.
abbrev pub same_datagram : Iphdr → Iphdr → Bool
same_datagram a b = (a.id == b.id) && ((a.saddr == b.saddr) && (a.daddr == b.daddr))

-- A header that neither stores nor frees a slot of the datagram of `q`.
abbrev pub harmless : Iphdr → Iphdr → Bool
harmless q l3 =
    not (same_datagram q l3)
    || (dont_fragment l3 || (not (is_first l3) && not (has_offset l3 && is_last l3)))

-- The table holds for the datagram of `q` what `f` says.
abbrev pub Tracks : Frags → Iphdr → Fragment → Type 0
Tracks s q f = find q s.pkt_ip_frag ≡ some f

apart :
    (q l3 : Iphdr)
    → same_datagram q l3 ≡ false
    → (f : Fragment) → matches q f ≡ true
    → matches l3 f ≡ false
apart q l3 h f m = ground arith

get_fragment-apart :
    (now : ℕ) (s : Frags) (l3 : Iphdr) (l4 : Layer4) (q : Iphdr)
    → same_datagram q l3 ≡ false
    → find q (get_fragment now s l3 l4).0.pkt_ip_frag ≡ find q s.pkt_ip_frag
unfolding get_fragment store_fragment search_fragment
get_fragment-apart now s l3 l4 q h = ground (
  arith,
  find-store_slot q (stored_fragment now l3 l4) s.pkt_ip_frag (ground arith),
  find-search_slot q l3 s.pkt_ip_frag (apart q l3 h),
)

get_fragment-harmless :
    (now : ℕ) (s : Frags) (l3 : Iphdr) (l4 : Layer4) (q : Iphdr)
    → harmless q l3 ≡ true
    → find q (get_fragment now s l3 l4).0.pkt_ip_frag ≡ find q s.pkt_ip_frag
unfolding get_fragment store_fragment search_fragment
get_fragment-harmless now s l3 l4 q h = elim (Bool-cases (same_datagram q l3)) [
  | inl e ↦ ground (arith, search_slot-kept l3 s.pkt_ip_frag)
  | inr e ↦ get_fragment-apart now s l3 l4 q e
]

get_fragment-first :
    (now : ℕ) {s : Frags} (l3 : Iphdr) (l4 : Layer4)
    → 0 < now
    → IsValid s
    → dont_fragment l3 ≡ false
    → is_first l3 ≡ true
    → occupied s.pkt_ip_frag < max_reassemblies
    → find l3 s.pkt_ip_frag ≡ none
    → find l3 (get_fragment now s l3 l4).0.pkt_ip_frag ≡ some (stored_fragment now l3 l4)
unfolding get_fragment store_fragment
get_fragment-first now {s} l3 l4 p v e f room absent =
    let new = stored_fragment now l3 l4 in
    rw (e, f) ground
      (
        arith,
        v.counted,
        v.sized,
        find-store_slot-new l3 new s.pkt_ip_frag (ground arith) (omega (arith, v.sized)) absent,
      )

-- A frame that comes in time and is harmless for the datagram of `q` leaves its slot.
pub parse_packet-Tracks :
    (now : ℕ) {s : Frags} (ppd : Ppd) (q : Iphdr) (f : Fragment)
    → 0 < now
    → now < f.ttl + lifetime_frag
    → IsValid s
    → harmless q ppd.l3 ≡ true
    → Tracks s q f
    → Returns (parse_packet now s ppd) λ r. IsValid r.0 × Tracks r.0 q f
parse_packet-Tracks now {s} ppd q f p young v h there =
    let w = (get_fragment-IsValid now ppd.l3 ppd.l4 p v).0 in
    (
      (clear_frag now (get_fragment now s ppd.l3 ppd.l4).0, packet_of s ppd),
      parse_packet_lem now ppd v,
      (
        clear_frag-IsValid now w,
        rw (clear_frag_lem now w) (
            find-expire q now (get_fragment now s ppd.l3 ppd.l4).0.pkt_ip_frag f
              (get_fragment-harmless now s ppd.l3 ppd.l4 q h ∙ there) young),
      ),
    )

-- The table after a row of frames, each with the time when it comes.
unfoldable pub parse_all : List (ℕ × Ppd) → Frags → Run Frags
parse_all [] s = ok s
parse_all (frame ∷ frames) s = do (s', pkt) ← parse_packet frame.0 s frame.1; parse_all frames s'

-- Frames that come within the life time of `f` and are harmless for the datagram of `q`.
abbrev pub Quiet : Iphdr → Fragment → List (ℕ × Ppd) → Type 0
Quiet q f [] = Unit
Quiet q f (frame ∷ frames) =
    (0 < frame.0)
    × (frame.0 < f.ttl + lifetime_frag)
    × (harmless q frame.1.l3 ≡ true)
    × Quiet q f frames

pub parse_all-Tracks :
    (frames : List (ℕ × Ppd)) {s : Frags} (q : Iphdr) (f : Fragment)
    → IsValid s
    → Tracks s q f
    → Quiet q f frames
    → Returns (parse_all frames s) λ s'. IsValid s' × Tracks s' q f
unfolding parse_all
parse_all-Tracks [] {s} q f v there quiet = (s, refl, (v, there))
parse_all-Tracks (frame ∷ frames) {s} q f v there (p, young, h, quiet) =
    let (r, e, (v', there')) = parse_packet-Tracks frame.0 frame.1 q f p young v h there in
    rw e (parse_all-Tracks frames q f v' there' quiet)

find-same :
    (q l3 : Iphdr) (frags : List Fragment)
    → same_datagram q l3 ≡ true
    → find l3 frags ≡ find q frags
unfolding find
find-same q l3 [] h = refl
find-same q l3 (f ∷ frags) h = ground (arith, find-same q l3 frags h)

tracked-packet_of :
    (s : Frags) (ppd : Ppd) (q : Iphdr) (f : Fragment)
    → same_datagram q ppd.l3 ≡ true
    → dont_fragment ppd.l3 ≡ false
    → is_first ppd.l3 ≡ false
    → has_offset ppd.l3 ≡ true
    → Tracks s q f
    → packet_of s ppd ≡ fill_packet ppd f.source_port f.dest_port
tracked-packet_of s ppd q f same e first o there =
    sym (seen_by-packet_of s ppd)
    ∙ rw (e, first, o, find-same q ppd.l3 s.pkt_ip_frag same, there) refl

-- A first fragment that finds a free slot, and whose datagram has none yet, gives its ports to a
-- later fragment of the same datagram, whatever frames come between the two, if these come before
-- the life time ends and none of them is a first or a last fragment of that datagram.
pub parse_packet-reassembly :
    (now now' : ℕ) {s : Frags} (first ppd : Ppd) (frames : List (ℕ × Ppd))
    → 0 < now
    → 0 < now'
    → IsValid s
    → dont_fragment first.l3 ≡ false
    → is_first first.l3 ≡ true
    → occupied s.pkt_ip_frag < max_reassemblies
    → find first.l3 s.pkt_ip_frag ≡ none
    → Quiet first.l3 (stored_fragment now first.l3 first.l4) frames
    → same_datagram first.l3 ppd.l3 ≡ true
    → dont_fragment ppd.l3 ≡ false
    → is_first ppd.l3 ≡ false
    → has_offset ppd.l3 ≡ true
    → Returns
        (parse_packet now s first >>= λ r. parse_all frames r.0 >>= λ s'. parse_packet now' s' ppd)
        λ r. IsValid r.0 × (r.1 ≡ fill_packet ppd first.l4.source first.l4.dest)
parse_packet-reassembly now now' {s} first ppd frames p p' v e f room absent quiet same e' f' o =
    let new = stored_fragment now first.l3 first.l4 in
    let w = (get_fragment-IsValid now first.l3 first.l4 p v).0 in
    let kept =
      find-expire first.l3 now (get_fragment now s first.l3 first.l4).0.pkt_ip_frag new
        (get_fragment-first now first.l3 first.l4 p v e f room absent) (omega arith) in
    let (s', run, (v', there)) =
      parse_all-Tracks frames first.l3 new (clear_frag-IsValid now w)
        (rw (clear_frag_lem now w) kept) quiet in
    let (r, done, (v'', pkt)) = parse_packet-packet_of now' ppd p' v' in
    rw (parse_packet_lem now first v, run)
      (r, done, (v'', pkt ∙ tracked-packet_of s' ppd first.l3 new same e' f' o there))
