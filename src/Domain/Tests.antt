-- ===== src/Domain/Tests.antt =====
-- The cache of src/resolver/domain.c, from its start.
use netproc.Base.{
  ℕ, ◌≡◌, inr, refl, sym, ◌∙◌, true, false, some, [], replicate, arith, Returns, Run, ok, ◌>>=◌, at,
  codes,
}
use mathlib.Core.Option.{none-ne-some}
use netproc.Hashtable.{
  hashtable_min_new, hashtable_set, hashtable_min_set, hashtable_get, hashtable_min_get, get_entry,
  find_entry, prepend, get_index,
}
use netproc.Hashtable.Shrink.{hashtable_min_new-IsValid}
use netproc.Domain.{
  SockaddrAll, inet, check_addr_equal, Cache, Answer, name_resolved, HasMemory, cache_domain_init,
  ip2domain, ip2domain_exec,
}
use netproc.Domain.Cached.{IsCached, Answered, ip2domain-Answered}

abbrev hash : SockaddrAll → ℕ
hash a = 3

abbrev plenty : HasMemory
plenty = record { host = true; task = true; entry = true; buckets = true; shrunk = true }

abbrev start : Cache
start = cache_domain_init 2 record { nentries = 0; buckets = replicate 16 [] }

-- An address is asked for, a worker finds its name, and it is asked for again.
abbrev asked : Run (Cache × Answer)
asked = do
  r ← ip2domain hash plenty 9 (inet 5 80) start
  ip2domain hash plenty 9 (inet 5 443) (ip2domain_exec 0 (codes "host") r.0)

asked_test : asked >>= (λ r. ok (r.1)) ≡ ok (name_resolved (codes "host"))
unfolding ip2domain ip2domain_exec hashtable_set hashtable_min_set hashtable_get hashtable_min_get
    get_entry find_entry prepend get_index at
asked_test = refl

-- Two addresses whose tasks could not be given to the pool: both slots wait for ever, and a third
-- address is never looked up.
abbrev no_task : HasMemory
no_task = record plenty { task = false }

abbrev stuck : Run (Cache × Answer)
stuck = do
  r ← ip2domain hash no_task 9 (inet 5 80) start
  r' ← ip2domain hash no_task 9 (inet 6 80) r.0
  ip2domain hash plenty 9 (inet 7 80) r'.0

stuck_test : stuck >>= (λ r. ok (r.0.tasks)) ≡ ok []
unfolding ip2domain hashtable_set hashtable_min_set hashtable_get hashtable_min_get get_entry
    find_entry prepend get_index at
stuck_test = refl

made : hashtable_min_new {K = SockaddrAll} {V = ℕ} true true ≡ some start.ht_hosts
unfolding hashtable_min_new
made = refl

start-IsCached : IsCached hash start
start-IsCached = record {
  valid = (hashtable_min_new-IsValid hash check_addr_equal true true made).0;
  listed = λ q i h. absurd (
      none-ne-some i
        (sym ((hashtable_min_new-IsValid hash check_addr_equal true true made).2 q) ∙ h));
  inside = omega arith;
}

ip2domain-Answered_example :
    Returns (ip2domain hash plenty 9 (inet 5 80) start) (Answered hash 9 (inet 5 80) start)
ip2domain-Answered_example =
    ip2domain-Answered hash plenty 9 (inet 5 80) start start-IsCached (omega arith) (inr refl)
