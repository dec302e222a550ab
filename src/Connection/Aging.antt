-- ===== src/Connection/Aging.antt =====
-- The walk of src/connection.c that removes connections: a connection with its two entries outlives
-- one update in which it is not listed, and is freed once in the next.
use mathlib.Core.List.{flatten}
use netproc.Types.{Connection}
use netproc.Base.{
  ℕ, zero, suc, ◌+◌, ◌%◌, ◌<◌, ◌≡◌, refl, ap, true, false, List, [], ◌∷◌, ◌++◌, if◌then◌else◌, ltb,
  ◌==◌, length, to_nat, arith, u64_mod, not, Bool-cases, inl, inr,
}
use netproc.Hashtable.{Table, Chain, remove_chain}
use netproc.Hashtable.Methods.{IsValid}
use netproc.Hashtable.Foreach.{values, hashtable_foreach_remove-IsValid}
use netproc.Connection.{
  Key, ht_cb_compare, Store, change, active, lower, remove_inactives_conns, remove_inactives,
}

-- How often a number is in a list.
abbrev pub occurs : ℕ → List ℕ → ℕ
occurs c [] = 0
occurs c (d ∷ ds) = to_nat (d == c) + occurs c ds

pub occurs-append : (c : ℕ) (xs ys : List ℕ) → occurs c (xs ++ ys) ≡ occurs c xs + occurs c ys
occurs-append c [] ys = omega arith
occurs-append c (x ∷ xs) ys = omega (arith, occurs-append c xs ys)

pub ==-elim : (d c : ℕ) → (d == c) ≡ true → d ≡ c
==-elim d c e = ground arith

active-change :
    (conns : List Connection) (d c : ℕ)
    → c < length conns
    → active (change lower conns d) c
      ≡ (if d == c then (active conns c + 255) % 256 else active conns c)
active-change [] d c h = absurd (omega arith)
active-change (conn ∷ conns) zero zero h = refl
active-change (conn ∷ conns) zero (suc c) h = ground arith
active-change (conn ∷ conns) (suc d) zero h = ground arith
active-change (conn ∷ conns) (suc d) (suc c) h =
    ground (arith, active-change conns d c (omega arith))

pub length-change :
    (f : Connection → Connection) (conns : List Connection) (d : ℕ)
    → length (change f conns d) ≡ length conns
length-change f [] d = refl
length-change f (conn ∷ conns) zero = refl
length-change f (conn ∷ conns) (suc d) = ap suc (length-change f conns d)

-- What becomes of a connection with `refs` for `refs_active` that the walk meets `k` times: the
-- number afterwards, how often it is freed, and how many of its entries stay.
abbrev pub age : ℕ → ℕ → ℕ × ℕ × ℕ
age zero refs = (refs, 0, 0)
age (suc k) refs =
    let (r, f, n) = age k ((refs + 255) % 256) in
    (r, to_nat (refs == 0) + f, to_nat (ltb 1 refs) + n)

-- What one call of the callback for `d` does to the connection `c`.
module _ (s : Store) (d c : ℕ) where
  callback_length : length (remove_inactives_conns s d).0.conns ≡ length s.conns
  unfolding remove_inactives_conns
  callback_length = ground (arith, length-change lower s.conns d)

  callback_active :
      c < length s.conns
      → active (remove_inactives_conns s d).0.conns c
        ≡ (if d == c then (active s.conns c + 255) % 256 else active s.conns c)
  unfolding remove_inactives_conns
  callback_active h = ground (arith, active-change s.conns d c h)

  callback_freed :
      occurs c (remove_inactives_conns s d).0.freed
      ≡ occurs c s.freed + (if d == c then to_nat (active s.conns c == 0) else 0)
  unfolding remove_inactives_conns
  callback_freed = elim (Bool-cases (d == c)) [
    | inl e ↦ rw (==-elim d c e) (ground (arith, occurs-append c s.freed (c ∷ [])))
    | inr e ↦ ground (arith, occurs-append c s.freed (d ∷ []))
  ]

  callback_gone : (d == c) ≡ true → (remove_inactives_conns s d).1 ≡ not (ltb 1 (active s.conns c))
  unfolding remove_inactives_conns
  callback_gone e = rw (==-elim d c e) (ground arith)

-- The connection `c` after the walk of a chain that meets it `k` times.
abbrev Aged : ℕ → ℕ → ℕ → Store → Store × Chain Key ℕ × ℕ → Type 0
Aged c k refs s (s', kept, n) =
    (active s'.conns c ≡ (age k refs).0)
    × (occurs c s'.freed ≡ occurs c s.freed + (age k refs).1)
    × (occurs c (values kept) ≡ (age k refs).2)

remove_chain-Aged :
    (chain : Chain Key ℕ) (s : Store) (c k refs : ℕ)
    → c < length s.conns
    → occurs c (values chain) ≡ k
    → active s.conns c ≡ refs
    → Aged c k refs s (remove_chain remove_inactives_conns chain s)
unfolding remove_chain
remove_chain-Aged [] s c zero refs h o e = (e, omega arith, refl)
remove_chain-Aged [] s c (suc k) refs h o e = absurd (omega (arith, o))
remove_chain-Aged (x ∷ chain) s c zero refs h o e =
    let apart : (x.value == c) ≡ false = ground (arith, o) in
    let later =
      remove_chain-Aged chain (remove_inactives_conns s x.value).0 c zero refs
        (omega (arith, h, callback_length s x.value c)) (ground (arith, o))
        (ground (arith, callback_active s x.value c h, e)) in
    ground (arith, later, callback_freed s x.value c)
remove_chain-Aged (x ∷ chain) s c (suc k) refs h o e = elim (Bool-cases (x.value == c)) [
  | inl same ↦
      let later =
        remove_chain-Aged chain (remove_inactives_conns s x.value).0 c k ((refs + 255) % 256)
          (omega (arith, h, callback_length s x.value c)) (ground (arith, o))
          (ground (arith, callback_active s x.value c h, e)) in
      ground (arith, later, callback_freed s x.value c, callback_gone s x.value c same, e)
  | inr apart ↦
      let later =
        remove_chain-Aged chain (remove_inactives_conns s x.value).0 c (suc k) refs
          (omega (arith, h, callback_length s x.value c)) (ground (arith, o))
          (ground (arith, callback_active s x.value c h, e)) in
      ground (arith, later, callback_freed s x.value c)
]

-- The entries of a connection in the table.
abbrev pub entries : ℕ → Table Key ℕ → ℕ
entries c ht = occurs c (values (flatten ht.buckets))

-- In a valid table, a connection with two entries that was marked in the last update is kept, with
-- `refs_active` 1, by the walk that starts the next one; if it is then not marked, the walk after
-- that takes both entries out and frees it, once.
pub remove_inactives-aging :
    (hash : Key → ℕ) {ht : Table Key ℕ} (s : Store) (c : ℕ)
    → IsValid hash ht_cb_compare ht
    → ht.nentries < u64_mod
    → c < length s.conns
    → entries c ht ≡ 2
    → let (s', ht') = remove_inactives ht s in
      IsValid hash ht_cb_compare ht'
      × (active s.conns c ≡ 3
          → (active s'.conns c ≡ 1) × (entries c ht' ≡ 2) × (occurs c s'.freed ≡ occurs c s.freed))
      × (active s.conns c ≡ 1 → (entries c ht' ≡ 0) × (occurs c s'.freed ≡ occurs c s.freed + 1))
unfolding remove_inactives
remove_inactives-aging hash {ht} s c v few h two =
    let (v', e, row, n, size) =
      hashtable_foreach_remove-IsValid remove_inactives_conns hash ht_cb_compare s v few in
    (
      v',
      (λ marked.
          let aged = remove_chain-Aged (flatten ht.buckets) s c 2 3 h two marked in
          rw (e, row) (aged.0, aged.2, omega (arith, aged.1))),
      (λ old.
          let aged = remove_chain-Aged (flatten ht.buckets) s c 2 1 h two old in
          rw (e, row) (aged.2, aged.1)),
    )
