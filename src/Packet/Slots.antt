-- ===== src/Packet/Slots.antt =====
-- The three loops over the slots in src/packet.c: what each does to the slots in use and to the
-- one that is found for a datagram.
use netproc.Base.{
  ℕ, suc, ◌+◌, ◌-◌, ◌≤◌, ◌<◌, ◌≡◌, ◌≢◌, refl, ap, true, false, not, Option, none, some, List, [],
  ◌∷◌, ◌&&◌, if◌then◌else◌, ◌==◌, leb, arith, length, get_or, to_nat, map,
}
use netproc.Packet.{
  Fragment, Iphdr, store_slot, matches, is_last, search_slot, clear_slots, lifetime_frag,
}

-- How many slots are in use.
unfoldable pub occupied : List Fragment → ℕ
occupied [] = 0
occupied (f ∷ frags) = to_nat (not (f.ttl == 0)) + occupied frags

-- The first slot of the datagram of a header.
unfoldable pub find : Iphdr → List Fragment → Option Fragment
find l3 [] = none
find l3 (f ∷ frags) = if matches l3 f then some f else find l3 frags

pub occupied-le : (frags : List Fragment) → occupied frags ≤ length frags
unfolding occupied
occupied-le [] = omega arith
occupied-le (f ∷ frags) = ground (arith, occupied-le frags)

pub length-store_slot :
    (new : Fragment) (frags : List Fragment) → length (store_slot new frags).0 ≡ length frags
unfolding store_slot
length-store_slot new [] = refl
length-store_slot new (f ∷ frags) = ground (arith, length-store_slot new frags)

-- The first slot that is not in use.
unfoldable pub free_at : List Fragment → ℕ
free_at [] = 0
free_at (f ∷ frags) = if f.ttl == 0 then 0 else suc (free_at frags)

pub free_at-lt :
    (frags : List Fragment) → occupied frags < length frags → free_at frags < length frags
unfolding occupied free_at
free_at-lt [] h = absurd (omega arith)
free_at-lt (f ∷ frags) h = ground (arith, free_at-lt frags)

pub store_slot-free_at :
    (new : Fragment) (frags : List Fragment)
    → occupied frags < length frags
    → ((store_slot new frags).1 ≡ some (free_at frags))
      × (get_or (store_slot new frags).0 (free_at frags) new ≡ new)
unfolding store_slot occupied free_at
store_slot-free_at new [] h = absurd (omega arith)
store_slot-free_at new (f ∷ frags) h = ground (arith, store_slot-free_at new frags)

pub occupied-store_slot :
    (new : Fragment) (frags : List Fragment)
    → 0 < new.ttl
    → occupied frags < length frags
    → occupied (store_slot new frags).0 ≡ occupied frags + 1
unfolding store_slot occupied
occupied-store_slot new [] p h = absurd (omega arith)
occupied-store_slot new (f ∷ frags) p h = ground (arith, occupied-store_slot new frags p)

pub find-store_slot :
    (l3 : Iphdr) (new : Fragment) (frags : List Fragment)
    → matches l3 new ≡ false
    → find l3 (store_slot new frags).0 ≡ find l3 frags
unfolding store_slot find
find-store_slot l3 new [] h = refl
find-store_slot l3 new (f ∷ frags) h = ground (arith, find-store_slot l3 new frags h)

pub find-store_slot-new :
    (l3 : Iphdr) (new : Fragment) (frags : List Fragment)
    → matches l3 new ≡ true
    → occupied frags < length frags
    → find l3 frags ≡ none
    → find l3 (store_slot new frags).0 ≡ some new
unfolding store_slot find occupied
find-store_slot-new l3 new [] h p n = absurd (omega arith)
find-store_slot-new l3 new (f ∷ frags) h p n = ground (arith, find-store_slot-new l3 new frags h)

pub length-search_slot :
    (l3 : Iphdr) (frags : List Fragment) → length (search_slot l3 frags).0 ≡ length frags
unfolding search_slot
length-search_slot l3 [] = refl
length-search_slot l3 (f ∷ frags) = ground (arith, length-search_slot l3 frags)

-- The index of the first slot of a datagram.
unfoldable pub found_at : Iphdr → List Fragment → ℕ
found_at l3 [] = 0
found_at l3 (f ∷ frags) = if matches l3 f then 0 else suc (found_at l3 frags)

pub found_at-lt :
    (l3 : Iphdr) (frags : List Fragment) → find l3 frags ≢ none → found_at l3 frags < length frags
unfolding find found_at
found_at-lt l3 [] h = absurd (h refl)
found_at-lt l3 (f ∷ frags) h = ground (arith, found_at-lt l3 frags)

pub search_slot-none :
    (l3 : Iphdr) (frags : List Fragment)
    → find l3 frags ≡ none
    → search_slot l3 frags ≡ (frags, none)
unfolding search_slot find
search_slot-none l3 [] h = refl
search_slot-none l3 (f ∷ frags) h = ground (arith, search_slot-none l3 frags)

-- The slot afterwards: freed, where the fragment is the last one.
abbrev pub used_slot : Iphdr → Fragment → Fragment
used_slot l3 f = if is_last l3 then record f { ttl = 0 } else f

pub search_slot-found_at :
    (l3 : Iphdr) (frags : List Fragment) (f d : Fragment)
    → find l3 frags ≡ some f
    → ((search_slot l3 frags).1 ≡ some (found_at l3 frags))
      × (get_or (search_slot l3 frags).0 (found_at l3 frags) d ≡ used_slot l3 f)
unfolding search_slot find found_at
search_slot-found_at l3 [] f d h = absurd (cc)
search_slot-found_at l3 (e ∷ frags) f d h = ground (arith, search_slot-found_at l3 frags f d)

pub occupied-search_slot :
    (l3 : Iphdr) (frags : List Fragment) (f : Fragment)
    → find l3 frags ≡ some f
    → occupied (search_slot l3 frags).0 + to_nat (is_last l3) ≡ occupied frags
unfolding search_slot find occupied
occupied-search_slot l3 [] f h = absurd (cc)
occupied-search_slot l3 (e ∷ frags) f h = ground (arith, occupied-search_slot l3 frags f)

-- A fragment that is not the last leaves the slots as they are.
pub search_slot-kept :
    (l3 : Iphdr) (frags : List Fragment) → is_last l3 ≡ false → (search_slot l3 frags).0 ≡ frags
unfolding search_slot
search_slot-kept l3 [] h = refl
search_slot-kept l3 (f ∷ frags) h = ground (arith, search_slot-kept l3 frags h)

-- Another datagram's slots stay.
pub find-search_slot :
    (q l3 : Iphdr) (frags : List Fragment)
    → ((f : Fragment) → matches q f ≡ true → matches l3 f ≡ false)
    → find q (search_slot l3 frags).0 ≡ find q frags
unfolding search_slot find
find-search_slot q l3 [] apart = refl
find-search_slot q l3 (f ∷ frags) apart = ground (arith, find-search_slot q l3 frags apart, apart f)

-- A slot, freed where its time is over.
abbrev pub expire : ℕ → Fragment → Fragment
expire now f =
    if not (f.ttl == 0) && leb lifetime_frag (now - f.ttl) then record f { ttl = 0 } else f

pub expire_empty :
    (now : ℕ) (frags : List Fragment) → occupied frags ≡ 0 → map (expire now) frags ≡ frags
unfolding occupied
expire_empty now [] h = refl
expire_empty now (f ∷ frags) h = ground (arith, expire_empty now frags)

-- The loop of `clear_frag` from a slot on, where `k` slots in use lie before it.
pub clear_slots_lem :
    (now k count : ℕ) (frags : List Fragment)
    → count ≡ k + occupied frags
    → clear_slots now count frags ≡ (map (expire now) frags, k + occupied (map (expire now) frags))
unfolding clear_slots occupied
clear_slots_lem now k count [] h = ground arith
clear_slots_lem now k count (f ∷ frags) h = ground (
  arith,
  clear_slots_lem now k (count - 1) frags,
  clear_slots_lem now (k + 1) count frags,
  clear_slots_lem now k count frags,
  expire_empty now frags,
)

pub length-expire :
    (now : ℕ) (frags : List Fragment) → length (map (expire now) frags) ≡ length frags
length-expire now [] = refl
length-expire now (f ∷ frags) = ap suc (length-expire now frags)

-- A slot that is found and young stays, whatever else goes.
pub find-expire :
    (q : Iphdr) (now : ℕ) (frags : List Fragment) (f : Fragment)
    → find q frags ≡ some f
    → now < f.ttl + lifetime_frag
    → find q (map (expire now) frags) ≡ some f
unfolding find
find-expire q now [] f h young = absurd (cc)
find-expire q now (e ∷ frags) f h young = ground (arith, find-expire q now frags f)
