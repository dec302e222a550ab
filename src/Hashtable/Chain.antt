-- ===== src/Hashtable/Chain.antt =====
-- One chain of the table: what the loops of src/hashtable.c find in it, for keys that are compared
-- and hashed by the callbacks of the table.
use netproc.Base.{
  ℕ, ◌+◌, ◌≤◌, ◌≡◌, refl, Bool, true, Option, none, some, [], ◌∷◌, ◌++◌, ◌&&◌, if◌then◌else◌, ◌==◌,
  to_nat, arith, length, Bool-cases, inl, inr,
}
use netproc.Hashtable.{Entry, Chain, matches, find_entry, unlink}

-- The callbacks' own test of two keys.
abbrev pub same {ℓ} : {K : Type ℓ} → (K → ℕ) → (K → K → Bool) → K → K → Bool
same fhash cmp a b = (fhash a == fhash b) && cmp a b

-- What a table asks of its callbacks: together they tell keys apart as an equivalence does.
pub record IsKeying {ℓ} {K : Type ℓ} (fhash : K → ℕ) (cmp : K → K → Bool) : Type ℓ where
  pub same_refl : (a : K) → cmp a a ≡ true
  pub same_symm : (a b : K) → same fhash cmp a b ≡ same fhash cmp b a
  pub same_trans :
      (a b c : K)
      → same fhash cmp a b ≡ true
      → same fhash cmp b c ≡ true
      → same fhash cmp a c ≡ true

module _ {ℓ} {K V : Type ℓ} (fhash : K → ℕ) (cmp : K → K → Bool) where
  -- The test of the table's loops for the key `q`.
  abbrev pub fits : K → Entry K V → Bool
  fits q e = matches cmp q (fhash q) e

  unfoldable pub lookup : K → Chain K V → Option V
  lookup q c = elim (find_entry cmp q (fhash q) c) [ none ↦ none | some e ↦ some e.value ]

  unfoldable pub count : K → Chain K V → ℕ
  count q [] = 0
  count q (e ∷ c) = to_nat (fits q e) + count q c

  -- The entries keep the hash of their key, and stand in the bucket `i` of `n` where it points to.
  abbrev pub Homed : (K → ℕ) → ℕ → Chain K V → Type 0
  Homed index i [] = Unit
  Homed index i (e ∷ c) = (e.key_hash ≡ fhash e.key) × (index e.key ≡ i) × Homed index i c

  -- The entries keep the hash of their key.
  abbrev pub Kept : Chain K V → Type 0
  Kept [] = Unit
  Kept (e ∷ c) = (e.key_hash ≡ fhash e.key) × Kept c

  pub Kept-append :
      (index : K → ℕ) (i : ℕ) (a b : Chain K V) → Homed index i a → Kept b → Kept (a ++ b)
  Kept-append index i [] b h k = k
  Kept-append index i (e ∷ a) b h k = (h.0, Kept-append index i a b h.2 k)

  pub lookup-cons :
      (q : K) (e : Entry K V) (c : Chain K V)
      → lookup q (e ∷ c) ≡ (if fits q e then some e.value else lookup q c)
  unfolding lookup find_entry
  lookup-cons q e c = ground arith

  pub lookup-none : (q : K) (c : Chain K V) → count q c ≡ 0 → lookup q c ≡ none
  unfolding count lookup find_entry
  lookup-none q [] h = refl
  lookup-none q (e ∷ c) h = ground (arith, lookup-none q c)

  pub count_absent : (q : K) (c : Chain K V) → lookup q c ≡ none → count q c ≡ 0
  unfolding count lookup find_entry
  count_absent q [] h = refl
  count_absent q (e ∷ c) h = ground (arith, count_absent q c)

  pub count-append :
      (key : K) (front back : Chain K V)
      → count key (front ++ back) ≡ count key front + count key back
  unfolding count
  count-append key [] back = omega arith
  count-append key (e ∷ front) back = omega (arith, count-append key front back)

  pub lookup-append :
      (q : K) (a b : Chain K V)
      → lookup q (a ++ b) ≡ elim (lookup q a) [ none ↦ lookup q b | some v ↦ some v ]
  unfolding lookup find_entry
  lookup-append q [] b = refl
  lookup-append q (e ∷ a) b = ground (arith, lookup-append q a b)

  pub count-unlink-le : (q k : K) (c : Chain K V) → count q (unlink cmp k (fhash k) c) ≤ count q c
  unfolding count unlink
  count-unlink-le q k [] = omega arith
  count-unlink-le q k (e ∷ c) = ground (arith, count-unlink-le q k c)

  pub length-unlink :
      (k : K) (c : Chain K V) (e : Entry K V)
      → find_entry cmp k (fhash k) c ≡ some e
      → length (unlink cmp k (fhash k) c) + 1 ≡ length c
  unfolding unlink find_entry
  length-unlink k [] e h = cc
  length-unlink k (d ∷ c) e h = ground (arith, length-unlink k c e)

  pub Homed-unlink :
      (index : K → ℕ) (i : ℕ) (k : K) (c : Chain K V)
      → Homed index i c
      → Homed index i (unlink cmp k (fhash k) c)
  unfolding unlink
  Homed-unlink index i k [] h = h
  Homed-unlink index i k (e ∷ c) h = elim (Bool-cases (fits k e)) [
    | inl p ↦ rw p h.2
    | inr p ↦ rw p (h.0, h.1, Homed-unlink index i k c h.2)
  ]

  module _ (laws : IsKeying fhash cmp) where
    -- Equal keys find the same entries.
    pub fits_congr :
        (k q : K) (e : Entry K V)
        → e.key_hash ≡ fhash e.key
        → same fhash cmp k q ≡ true
        → fits q e ≡ fits k e
    fits_congr k q e h s =
        ground (arith, laws.same_symm k q, laws.same_trans e.key k q, laws.same_trans e.key q k)

    -- An entry fits two keys only if they are equal.
    pub fits-same :
        (k q : K) (e : Entry K V)
        → e.key_hash ≡ fhash e.key
        → fits q e ≡ true
        → fits k e ≡ same fhash cmp k q
    fits-same k q e h s = ground (
      arith,
      laws.same_symm e.key k,
      laws.same_symm k q,
      laws.same_trans k e.key q,
      laws.same_trans e.key q k,
    )

    pub count_congr :
        (index : K → ℕ) (i : ℕ) (k q : K) (c : Chain K V)
        → Homed index i c
        → same fhash cmp k q ≡ true
        → count q c ≡ count k c
    unfolding count
    count_congr index i k q [] h s = refl
    count_congr index i k q (e ∷ c) h s =
        rw (fits_congr k q e h.0 s, count_congr index i k q c h.2 s)

    -- Unlinking the entry of a key takes that key away, and no other.
    pub lookup-unlink :
        (index : K → ℕ) (i : ℕ) (k q : K) (c : Chain K V)
        → Homed index i c
        → count q c ≤ 1
        → lookup q (unlink cmp k (fhash k) c) ≡ (if same fhash cmp k q then none else lookup q c)
    unfolding count lookup find_entry unlink
    lookup-unlink index i k q [] h u = ground arith
    lookup-unlink index i k q (e ∷ c) h u = ground (
      arith,
      fits_congr k q e h.0,
      fits-same k q e h.0,
      lookup-unlink index i k q c h.2,
      lookup-none q c,
    )
