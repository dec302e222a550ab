-- ===== src/Domain.antt =====
-- src/resolver/domain.c with the comparison of src/resolver/sock_util.c: a ring of hosts, whose
-- names the pool of threads finds, and a table that finds a host by its address. The pointer to a
-- host is its place in the ring; a place that was never used holds `none`. The hash is any function
-- of an address. A text that `sockaddr_ntop` writes stands as the address that it is of; whether
-- there is memory, and the name that a worker finds, are given with each call.
pub mod Cached
mod Tests
use netproc.Base.{
  ℕ, zero, suc, ◌+◌, ◌%◌, Bool, true, false, Option, none, some, List, [], ◌∷◌, ◌++◌, ◌==◌,
  if◌then◌else◌, length, get_elem?, set, take, replicate, Run, ok, fault, ◌>>=◌,
}
use netproc.Hashtable.{Table, hashtable_set, hashtable_get, hashtable_remove}

-- `union sockaddr_all`, by its family: the address, and the port. Other families are not used.
pub data SockaddrAll : Type 0 where
  inet : ℕ → ℕ → SockaddrAll
  inet6 : ℕ → ℕ → SockaddrAll

abbrev pub check_addr_equal : SockaddrAll → SockaddrAll → Bool
check_addr_equal (inet a port) (inet b other) = a == b
check_addr_equal (inet a port) (inet6 b other) = false
check_addr_equal (inet6 a port) (inet b other) = false
check_addr_equal (inet6 a port) (inet6 b other) = a == b

-- `struct host`; its status is that its name is resolved, or that it is being resolved.
pub record Host : Type 0 where
  pub sa_all : SockaddrAll
  pub fqdn : List ℕ
  pub resolved : Bool

-- The static variables, and the tasks that were given to the pool, by the places of their hosts, the
-- last first. `cache_size` is the length of the ring.
pub record Cache : Type 0 where
  pub ht_hosts : Table SockaddrAll ℕ
  pub hosts : List (Option Host)
  pub index : ℕ
  pub tasks : List ℕ

abbrev pub default_cache_size : ℕ
default_cache_size = 2048

-- With a table that `hashtable_new` has made.
abbrev pub cache_domain_init : ℕ → Table SockaddrAll ℕ → Cache
cache_domain_init size ht = record {
  ht_hosts = ht;
  hosts = replicate (if size == 0 then default_cache_size else size) none;
  index = 0;
  tasks = [];
}

-- The results 1, 0 and -1, and what is in `buff`.
pub data Answer : Type 0 where
  name_resolved : List ℕ → Answer
  not_resolved : SockaddrAll → Answer
  no_host_memory : SockaddrAll → Answer

-- `ip2domain_exec`, with the name that is found, or the text of the address.
abbrev pub exec_at : List (Option Host) → ℕ → List ℕ → Option (Option Host) → List (Option Host)
exec_at hosts i name none = hosts
exec_at hosts i name (some none) = hosts
exec_at hosts i name (some (some host)) =
    set hosts i (some (record host { fqdn = name; resolved = true }))

unfoldable pub ip2domain_exec : ℕ → List ℕ → Cache → Cache
ip2domain_exec i name s = record s { hosts = exec_at s.hosts i name (get_elem? s.hosts i) }

-- Whether there is memory for a host, for a task, for an entry and for the table's arrays.
pub record HasMemory : Type 0 where
  pub host : Bool
  pub task : Bool
  pub entry : Bool
  pub buckets : Bool
  pub shrunk : Bool

-- A host that is found.
abbrev pub hit : ℕ → SockaddrAll → Cache → Option (Option Host) → Run (Cache × Answer)
hit buff_len sa_all s none = fault
hit buff_len sa_all s (some none) = fault
hit buff_len sa_all s (some (some host)) =
    if host.resolved
    then ok (s, name_resolved (take buff_len host.fqdn))
    else ok (s, not_resolved sa_all)

abbrev pub fqdn_of : Option Host → List ℕ
fqdn_of none = []
fqdn_of (some host) = host.fqdn

module _ (hash : SockaddrAll → ℕ) where
  -- The slot at `index` gets the address, and a worker is to find its name.
  abbrev pub start_resolving : HasMemory → SockaddrAll → Cache → Option Host → Run (Cache × Answer)
  start_resolving m sa_all s old = do
    (ht, done) ← hashtable_set hash check_addr_equal m.entry m.buckets s.ht_hosts sa_all s.index
    ok (
      record {
        ht_hosts = ht;
        hosts =
            set s.hosts s.index
              (some (record { sa_all = sa_all; fqdn = fqdn_of old; resolved = false }));
        index = (s.index + 1) % length s.hosts;
        tasks = if m.task then s.index ∷ s.tasks else s.tasks;
      },
      not_resolved sa_all,
    )

  -- `hosts[index]`, on a miss.
  abbrev pub miss : HasMemory → SockaddrAll → Cache → Option (Option Host) → Run (Cache × Answer)
  miss m sa_all s none = fault
  miss m sa_all s (some none) =
      if m.host then start_resolving m sa_all s none else ok (s, no_host_memory sa_all)
  miss m sa_all s (some (some host)) =
      if host.resolved
      then (do
        (ht, gone) ← hashtable_remove hash check_addr_equal m.shrunk s.ht_hosts host.sa_all
        start_resolving m sa_all (record s { ht_hosts = ht }) (some host))
      else ok (s, not_resolved sa_all)

  abbrev pub answer : HasMemory → ℕ → SockaddrAll → Cache → Option ℕ → Run (Cache × Answer)
  answer m buff_len sa_all s (some i) = hit buff_len sa_all s (get_elem? s.hosts i)
  answer m buff_len sa_all s none = miss m sa_all s (get_elem? s.hosts s.index)

  unfoldable pub ip2domain : HasMemory → ℕ → SockaddrAll → Cache → Run (Cache × Answer)
  ip2domain m buff_len sa_all s = do
    found ← hashtable_get hash check_addr_equal s.ht_hosts sa_all
    answer m buff_len sa_all s found
