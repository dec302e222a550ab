-- ===== src/Domain/Cached.antt =====
-- The answers of src/resolver/domain.c, and that its table and its ring stay in step.
use native.Mathlib.Nat.{mod-lt}
use mathlib.Core.Path.{subst}
use mathlib.Core.Option.{some-injective, some-ne-none, none-ne-some}
use netproc.Base.{
  ℕ, zero, suc, ◌+◌, ◌^◌, ◌%◌, ◌<◌, ◌≡◌, ◌⊎◌, inl, inr, refl, ap, sym, ◌∙◌, true, false, Option,
  none, some, Option-cases, Bool-cases, List, [], ◌∷◌, ◌==◌, if◌then◌else◌, length, length-set,
  get_elem?, get_elem?-set, set, take, arith, Returns,
}
use netproc.Hashtable.{Table}
use netproc.Hashtable.Chain.{IsKeying, same}
use netproc.Hashtable.Methods.{IsValid, reads, hashtable_set-Stored, hashtable_get-reads}
use netproc.Hashtable.Remove.{hashtable_remove-Removed}
use netproc.Domain.{
  SockaddrAll, inet, inet6, check_addr_equal, Host, Cache, Answer, name_resolved, not_resolved,
  no_host_memory, HasMemory, hit, fqdn_of, start_resolving, miss, ip2domain,
}

equal_refl : (a : SockaddrAll) → check_addr_equal a a ≡ true
equal_refl (inet a port) = ground arith
equal_refl (inet6 a port) = ground arith

equal_symm :
    (hash : SockaddrAll → ℕ) (a b : SockaddrAll)
    → same hash check_addr_equal a b ≡ same hash check_addr_equal b a
equal_symm hash (inet a p) (inet b q) = ground arith
equal_symm hash (inet a p) (inet6 b q) = ground arith
equal_symm hash (inet6 a p) (inet b q) = ground arith
equal_symm hash (inet6 a p) (inet6 b q) = ground arith

equal_trans :
    (hash : SockaddrAll → ℕ) (a b c : SockaddrAll)
    → same hash check_addr_equal a b ≡ true
    → same hash check_addr_equal b c ≡ true
    → same hash check_addr_equal a c ≡ true
equal_trans hash (inet a p) (inet b q) (inet c r) e f = ground arith
equal_trans hash (inet a p) (inet b q) (inet6 c r) e f = ground arith
equal_trans hash (inet a p) (inet6 b q) c e f = ground arith
equal_trans hash (inet6 a p) (inet b q) c e f = ground arith
equal_trans hash (inet6 a p) (inet6 b q) (inet c r) e f = ground arith
equal_trans hash (inet6 a p) (inet6 b q) (inet6 c r) e f = ground arith

-- With any hash the addresses are told apart as an equivalence does.
pub check_addr_equal-IsKeying : (hash : SockaddrAll → ℕ) → IsKeying hash check_addr_equal
check_addr_equal-IsKeying hash = record {
  same_refl = equal_refl;
  same_symm = equal_symm hash;
  same_trans = equal_trans hash;
}

within_some : (xs : List (Option Host)) (i : ℕ) → i < length xs → get_elem? xs i ≡ none → ⊥
within_some [] i h e = absurd (omega (arith, h))
within_some (x ∷ xs) zero h e = some-ne-none x e
within_some (x ∷ xs) (suc i) h e = within_some xs i (omega (arith, h)) e

module _ (hash : SockaddrAll → ℕ) where
  abbrev pub finds : Cache → SockaddrAll → Option ℕ
  finds s q = reads hash check_addr_equal s.ht_hosts q

  -- The place is a host of the address.
  abbrev pub HostAt : Cache → SockaddrAll → ℕ → Type 0
  HostAt s q i =
      (host : Host) × (get_elem? s.hosts i ≡ some (some host))
      × (same hash check_addr_equal host.sa_all q ≡ true)

  -- The table finds hosts of the ring, each by its address.
  pub record IsCached (s : Cache) : Type 0 where
    pub valid : IsValid hash check_addr_equal s.ht_hosts
    pub listed : (q : SockaddrAll) (i : ℕ) → finds s q ≡ some i → HostAt s q i
    pub inside : s.index < length s.hosts

  -- A name is that of a host of the ring that has the address, and is resolved; any other answer is
  -- the address itself.
  abbrev pub Right : ℕ → SockaddrAll → Cache → Answer → Type 0
  Right buff_len sa_all s (name_resolved name) =
      (i : ℕ) × (host : Host) × (get_elem? s.hosts i ≡ some (some host))
      × (same hash check_addr_equal host.sa_all sa_all ≡ true)
      × (host.resolved ≡ true)
      × (name ≡ take buff_len host.fqdn)
  Right buff_len sa_all s (not_resolved a) = a ≡ sa_all
  Right buff_len sa_all s (no_host_memory a) = a ≡ sa_all

  abbrev pub Answered : ℕ → SockaddrAll → Cache → Cache × Answer → Type 0
  Answered buff_len sa_all s r = IsCached r.0 × Right buff_len sa_all s r.1

  -- A slot that no entry leads to may be used for an address that is not in the table.
  start_resolving-IsCached :
      (m : HasMemory) (sa_all : SockaddrAll) (s : Cache) (old : Option Host)
      → IsValid hash check_addr_equal s.ht_hosts
      → ((q : SockaddrAll) (i : ℕ) → finds s q ≡ some i → HostAt s q i × ((s.index == i) ≡ false))
      → s.index < length s.hosts
      → s.ht_hosts.nentries + 1 < 2 ^ 24
      → finds s sa_all ≡ none
      → Returns
          (start_resolving hash m sa_all s old)
          λ r. IsCached r.0 × (r.1 ≡ not_resolved sa_all)
  start_resolving-IsCached m sa_all s old v listed inside few absent =
      let fresh : Host = record { sa_all = sa_all; fqdn = fqdn_of old; resolved = false } in
      let hosts = set s.hosts s.index (some fresh) in
      let there = λ (i : ℕ). get_elem?-set s.hosts s.index i (some fresh) inside in
      let next : (s.index + 1) % length s.hosts < length hosts =
        rw (length-set s.hosts s.index (some fresh))
          (mod-lt (s.index + 1) (omega (arith, inside))) in
      let (r, run, done) =
        hashtable_set-Stored hash check_addr_equal (check_addr_equal-IsKeying hash) m.entry
          m.buckets sa_all s.index v few absent in
      rw run (elim done [
        | inl st ↦ (
          _,
          refl,
          (
            record {
              valid = st.valid;
              listed = λ q i h. elim (Bool-cases (same hash check_addr_equal sa_all q)) [
                | inl here ↦
                    let place : s.index ≡ i =
                      some-injective s.index i (ground (arith, st.stored q, here, h)) in
                    (fresh, ground (arith, there i, place), here)
                | inr other ↦
                    let ((host, e, eq), apart) =
                      listed q i (ground (arith, st.stored q, other, h)) in
                    (host, ground (arith, there i, apart, e), eq)
              ];
              inside = next;
            },
            refl,
          ),
        )
        | inr (unchanged, dry) ↦ rw unchanged (
          _,
          refl,
          (
            record {
              valid = v;
              listed = λ q i h.
                  let ((host, e, eq), apart) = listed q i h in
                  (host, ground (arith, there i, apart, e), eq);
              inside = next;
            },
            refl,
          ),
        )
      ])

  hit-Answered :
      (buff_len : ℕ) (sa_all : SockaddrAll) (s : Cache) (i : ℕ)
      → IsCached s
      → HostAt s sa_all i
      → Returns (hit buff_len sa_all s (get_elem? s.hosts i)) (Answered buff_len sa_all s)
  hit-Answered buff_len sa_all s i c (host, e, eq) = elim (Bool-cases (host.resolved)) [
    | inl done ↦ rw (e, done) (_, refl, (c, (i, host, e, eq, done, refl)))
    | inr waiting ↦ rw (e, waiting) (_, refl, (c, refl))
  ]

  -- No entry leads to the slot of a host whose entry was removed.
  apart :
      (s : Cache) (u : Table SockaddrAll ℕ) (host : Host)
      → IsCached s
      → get_elem? s.hosts s.index ≡ some (some host)
      → ((q : SockaddrAll)
          → reads hash check_addr_equal u q
            ≡ (if same hash check_addr_equal host.sa_all q then none else finds s q))
      → (q : SockaddrAll) (i : ℕ) → reads hash check_addr_equal u q ≡ some i
      → HostAt s q i × ((s.index == i) ≡ false)
  apart s u host c e removed q i h = elim (Bool-cases (same hash check_addr_equal host.sa_all q)) [
    | inl gone ↦ absurd (ground (arith, removed q, gone, h))
    | inr kept ↦
        let (other, f, eq) = c.listed q i (ground (arith, removed q, kept, h)) in
        (
          (other, f, eq),
          elim (Bool-cases (s.index == i)) [
            | inl here ↦
                let place : s.index ≡ i = ground (arith, here) in
                let one : some host ≡ some other =
                  some-injective (some host) (some other)
                    (sym e ∙ (ap (get_elem? s.hosts) place ∙ f)) in
                let own_address : same hash check_addr_equal host.sa_all q ≡ true =
                  ap (λ (x : Host). same hash check_addr_equal x.sa_all q)
                    (some-injective host other one)
                  ∙ eq in
                absurd (ground (arith, own_address, kept))
            | inr away ↦ away
          ],
        )
  ]

  -- Nor to a slot that was never used.
  unused :
      (s : Cache)
      → IsCached s
      → get_elem? s.hosts s.index ≡ some none
      → (q : SockaddrAll) (i : ℕ) → finds s q ≡ some i
      → HostAt s q i × ((s.index == i) ≡ false)
  unused s c e q i h =
      let (host, f, eq) = c.listed q i h in
      (
        (host, f, eq),
        elim (Bool-cases (s.index == i)) [
          | inl here ↦
              let place : s.index ≡ i = ground (arith, here) in
              absurd (
                none-ne-some host
                  (some-injective none (some host) (sym e ∙ (ap (get_elem? s.hosts) place ∙ f))))
          | inr away ↦ away
        ],
      )

  resolving-Answered :
      (m : HasMemory) (buff_len : ℕ) (sa_all : SockaddrAll) (s u : Cache) (old : Option Host)
      → Returns
          (start_resolving hash m sa_all u old)
          (λ r. IsCached r.0 × (r.1 ≡ not_resolved sa_all))
      → Returns (start_resolving hash m sa_all u old) (Answered buff_len sa_all s)
  resolving-Answered m buff_len sa_all s u old (r, run, (c, e)) =
      (r, run, (c, subst (Right buff_len sa_all s) (sym e) refl))

  enough :
      (s : Cache) (host : Host)
      → (1 < s.ht_hosts.nentries) ⊎ (some (some host) ≡ some none)
      → (1 < s.ht_hosts.nentries) ⊎ (finds s host.sa_all ≡ none)
  enough s host (inl more) = inl more
  enough s host (inr e) = absurd (some-ne-none host (some-injective (some host) none e))

  miss-Answered :
      (m : HasMemory) (buff_len : ℕ) (sa_all : SockaddrAll) (s : Cache)
      (slot : Option (Option Host))
      → get_elem? s.hosts s.index ≡ slot
      → IsCached s
      → s.ht_hosts.nentries + 1 < 2 ^ 24
      → (1 < s.ht_hosts.nentries) ⊎ (slot ≡ some none)
      → finds s sa_all ≡ none
      → Returns (miss hash m sa_all s slot) (Answered buff_len sa_all s)
  miss-Answered m buff_len sa_all s none e c few more absent =
      absurd (within_some s.hosts s.index c.inside e)
  miss-Answered m buff_len sa_all s (some none) e c few more absent = elim (Bool-cases (m.host)) [
    | inl room ↦ rw room (
        resolving-Answered m buff_len sa_all s s none
          (start_resolving-IsCached m sa_all s none c.valid (unused s c e) c.inside few absent))
    | inr dry ↦ rw dry (_, refl, (c, refl))
  ]
  miss-Answered m buff_len sa_all s (some (some host)) e c few more absent =
      elim (Bool-cases (host.resolved)) [
        | inr waiting ↦ rw waiting (_, refl, (c, refl))
        | inl done ↦
            let (r, run, gone) =
              hashtable_remove-Removed hash check_addr_equal (check_addr_equal-IsKeying hash)
                m.shrunk host.sa_all c.valid (omega (arith, few)) (enough s host more) in
            let u = record s { ht_hosts = r.0 } in
            let absent' : finds u sa_all ≡ none = ground (arith, gone.removed sa_all, absent) in
            rw (done, run)
              (resolving-Answered m buff_len sa_all s u (some host) (
                start_resolving-IsCached m sa_all u (some host) gone.valid
                  (apart s r.0 host c e gone.removed) c.inside (omega (arith, few, gone.nentries))
                  absent'))
      ]

  -- While the table has room for an entry, and has more than one entry or the slot at the index was
  -- never used: `ip2domain` ends within its arrays whatever memory there is, with a table that finds
  -- hosts of the ring by their addresses, and if it gives a name, that is the name of a host of the
  -- ring that has the address asked for and is resolved; otherwise it gives the address.
  pub ip2domain-Answered :
      (m : HasMemory) (buff_len : ℕ) (sa_all : SockaddrAll) (s : Cache)
      → IsCached s
      → s.ht_hosts.nentries + 1 < 2 ^ 24
      → (1 < s.ht_hosts.nentries) ⊎ (get_elem? s.hosts s.index ≡ some none)
      → Returns (ip2domain hash m buff_len sa_all s) (Answered buff_len sa_all s)
  unfolding ip2domain
  ip2domain-Answered m buff_len sa_all s c few more = elim (Option-cases (finds s sa_all)) [
    | inl e ↦
        rw (hashtable_get-reads hash check_addr_equal sa_all c.valid, e)
          (miss-Answered m buff_len sa_all s (get_elem? s.hosts s.index) refl c few more e)
    | inr (i, e) ↦
        rw (hashtable_get-reads hash check_addr_equal sa_all c.valid, e)
          (hit-Answered buff_len sa_all s i c (c.listed sa_all i e))
  ]
