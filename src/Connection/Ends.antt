-- ===== src/Connection/Ends.antt =====
-- The end of src/connection.c: `connection_free` frees every connection once.
use mathlib.Core.List.{flatten}
use netproc.Types.{Connection}
use netproc.Base.{
  ℕ, zero, suc, ◌+◌, ◌%◌, ◌<◌, ◌≡◌, refl, ap, ◌∙◌, false, List, [], ◌∷◌, if◌then◌else◌, ◌==◌,
  length, to_nat, arith, u64_mod, Bool-cases, inl, inr,
}
use netproc.Hashtable.{Table}
use netproc.Hashtable.Methods.{IsValid}
use netproc.Hashtable.Foreach.{values, hashtable_min_detroy-values}
use netproc.Connection.{
  Key, ht_cb_compare, Store, change, exits, conn_free, free_all, connection_free,
}
use netproc.Connection.Aging.{occurs, occurs-append, length-change, entries, ==-elim}

abbrev raise : Connection → Connection
raise conn = record conn { refs_exit = (conn.refs_exit + 1) % 256 }

exits-change :
    (conns : List Connection) (d c : ℕ)
    → c < length conns
    → exits (change raise conns d) c ≡ (if d == c then (exits conns c + 1) % 256 else exits conns c)
exits-change [] d c h = absurd (omega arith)
exits-change (conn ∷ conns) zero zero h = refl
exits-change (conn ∷ conns) zero (suc c) h = ground arith
exits-change (conn ∷ conns) (suc d) zero h = ground arith
exits-change (conn ∷ conns) (suc d) (suc c) h = ground (arith, exits-change conns d c (omega arith))

module _ (s : Store) (d c : ℕ) where
  conn_free-length : length (conn_free s d).conns ≡ length s.conns
  unfolding conn_free
  conn_free-length = ground (arith, length-change raise s.conns d)

  conn_free-exits :
      c < length s.conns
      → exits (conn_free s d).conns c
        ≡ (if d == c then (exits s.conns c + 1) % 256 else exits s.conns c)
  unfolding conn_free
  conn_free-exits h = ground (arith, exits-change s.conns d c h)

  conn_free-freed :
      occurs c (conn_free s d).freed
      ≡ occurs c s.freed + (if d == c then to_nat (exits s.conns c == 1) else 0)
  unfolding conn_free
  conn_free-freed = elim (Bool-cases (d == c)) [
    | inl e ↦ rw (==-elim d c e) (ground (arith, occurs-append c s.freed (c ∷ [])))
    | inr e ↦ ground (arith, occurs-append c s.freed (d ∷ []))
  ]

-- How often a connection is freed by `k` calls of which the first finds `refs` in `refs_exit`.
abbrev frees : ℕ → ℕ → ℕ
frees zero refs = 0
frees (suc k) refs = to_nat (refs == 1) + frees k ((refs + 1) % 256)

free_all-frees :
    (cs : List ℕ) (s : Store) (c k refs : ℕ)
    → c < length s.conns
    → occurs c cs ≡ k
    → exits s.conns c ≡ refs
    → occurs c (free_all cs s).freed ≡ occurs c s.freed + frees k refs
unfolding free_all
free_all-frees [] s c zero refs h o e = omega arith
free_all-frees [] s c (suc k) refs h o e = absurd (omega (arith, o))
free_all-frees (d ∷ cs) s c zero refs h o e =
    let apart : (d == c) ≡ false = ground (arith, o) in
    let later =
      free_all-frees cs (conn_free s d) c zero refs (omega (arith, h, conn_free-length s d c))
        (ground (arith, o)) (ground (arith, conn_free-exits s d c h, e)) in
    ground (arith, later, conn_free-freed s d c)
free_all-frees (d ∷ cs) s c (suc k) refs h o e = elim (Bool-cases (d == c)) [
  | inl same ↦
      let later =
        free_all-frees cs (conn_free s d) c k ((refs + 1) % 256)
          (omega (arith, h, conn_free-length s d c)) (ground (arith, o))
          (ground (arith, conn_free-exits s d c h, e)) in
      ground (arith, later, conn_free-freed s d c, e)
  | inr apart ↦
      let later =
        free_all-frees cs (conn_free s d) c (suc k) refs (omega (arith, h, conn_free-length s d c))
          (ground (arith, o)) (ground (arith, conn_free-exits s d c h, e)) in
      ground (arith, later, conn_free-freed s d c)
]

-- On a valid table, `connection_free` frees a connection that has two entries exactly once, and one
-- that is not in the table never.
pub connection_free-once :
    (hash : Key → ℕ) {ht : Table Key ℕ} (s : Store) (c : ℕ)
    → IsValid hash ht_cb_compare ht
    → ht.nentries < u64_mod
    → c < length s.conns
    → exits s.conns c ≡ 0
    → (entries c ht ≡ 2 → occurs c (connection_free ht s).freed ≡ occurs c s.freed + 1)
      × (entries c ht ≡ 0 → occurs c (connection_free ht s).freed ≡ occurs c s.freed)
unfolding connection_free
connection_free-once hash {ht} s c v few h e =
    let all = ap (λ r. r.0) (hashtable_min_detroy-values hash ht_cb_compare v few) in
    (
      (λ two. rw all (free_all-frees (values (flatten ht.buckets)) s c 2 0 h two e)),
      (λ none.
          rw all (free_all-frees (values (flatten ht.buckets)) s c 0 0 h none e ∙ omega arith)),
    )
