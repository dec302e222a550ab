-- ===== src/Hashtable/Buckets.antt =====
-- The array of buckets: where the entries stand, and what a write to one bucket does.
use mathlib.Core.List.{flatten}
use netproc.Base.{
  ℕ, zero, suc, ◌+◌, ◌^◌, ◌≤◌, ◌<◌, ◌≡◌, ◌≢◌, refl, ap, sym, ◌∙◌, Bool, Option, some, List, [], ◌∷◌,
  if◌then◌else◌, ◌==◌, to_nat, arith, length, get_or, set, length-append, length-set, get_or-set,
  Bool-cases, ==_iff, inl, inr, sub64, Returns, at-get_or,
}
use netproc.Base.Bits.{bit_and-le}
use netproc.Hashtable.{Entry, Chain, get_index, prepend}
use netproc.Hashtable.Chain.{
  fits, lookup, count, Homed, lookup-cons, lookup-none, count-append, lookup-append, Kept,
  Kept-append,
}

-- An index lies in the array.
pub get_index-lt : (hash n : ℕ) → 0 < n → n ≤ 2 ^ 64 → get_index hash n < n
unfolding get_index
get_index-lt hash n pos small = omega (arith, bit_and-le hash (sub64 n 1))

pub length-flatten-set {ℓ} :
    {A : Type ℓ} (rows : List (List A)) (index : ℕ) (row : List A)
    → index < length rows
    → length (flatten (set rows index row)) + length (get_or rows index [])
      ≡ length (flatten rows) + length row
unfolding flatten
length-flatten-set [] index row h = absurd (omega arith)
length-flatten-set (x ∷ rows) zero row h =
    omega (arith, length-append row (flatten rows), length-append x (flatten rows))
length-flatten-set (x ∷ rows) (suc index) row h = omega (
  arith,
  length-append x (flatten (set rows index row)),
  length-append x (flatten rows),
  length-flatten-set rows index row (omega arith),
)

-- The index of a key's bucket.
abbrev pub home {ℓ} : {K : Type ℓ} → (K → ℕ) → ℕ → K → ℕ
home fhash n k = get_index (fhash k) n

module _ {ℓ} {K V : Type ℓ} (fhash : K → ℕ) (cmp : K → K → Bool) where
  -- The bucket of a key.
  abbrev pub chain_of : List (Chain K V) → K → Chain K V
  chain_of bs k = get_or bs (home fhash (length bs) k) []

  -- What the table holds for a key.
  unfoldable pub view : List (Chain K V) → K → Option V
  view bs q = lookup fhash cmp q (chain_of bs q)

  -- Every entry stands in the bucket of its key, and no two entries have equal keys.
  pub record IsPlaced (bs : List (Chain K V)) : Type ℓ where
    pub sized : 0 < length bs
    pub bounded : length bs ≤ 2 ^ 63
    pub homed : (i : ℕ) → Homed fhash cmp (home fhash (length bs)) i (get_or bs i [])
    pub unique : (q : K) → count fhash cmp q (flatten bs) ≤ 1

  pub count-flatten-set :
      (bs : List (Chain K V)) (i : ℕ) (c : Chain K V) (q : K)
      → i < length bs
      → count fhash cmp q (flatten (set bs i c)) + count fhash cmp q (get_or bs i [])
        ≡ count fhash cmp q (flatten bs) + count fhash cmp q c
  unfolding flatten count
  count-flatten-set [] i c q h = absurd (omega arith)
  count-flatten-set (x ∷ bs) zero c q h =
      omega
        (arith, count-append fhash cmp q c (flatten bs), count-append fhash cmp q x (flatten bs))
  count-flatten-set (x ∷ bs) (suc i) c q h = omega (
    arith,
    count-append fhash cmp q x (flatten (set bs i c)),
    count-append fhash cmp q x (flatten bs),
    count-flatten-set bs i c q (omega arith),
  )

  -- An entry that stands in its bucket and fits `q` stands in the bucket of `q`.
  Homed-elsewhere :
      (n i : ℕ) (q : K) (c : Chain K V)
      → Homed fhash cmp (home fhash n) i c
      → home fhash n q ≢ i
      → count fhash cmp q c ≡ 0
  unfolding count
  Homed-elsewhere n i q [] h other = refl
  Homed-elsewhere n i q (e ∷ c) h other = elim (Bool-cases (e.key_hash == fhash q)) [
    | inl p ↦
        let hq : fhash e.key ≡ fhash q = sym h.0 ∙ (==_iff _ _).0 p in
        absurd (other (ap (λ k. get_index k n) (sym hq) ∙ h.1))
    | inr p ↦ rw p (omega (arith, Homed-elsewhere n i q c h.2 other))
  ]

  count-flatten_nowhere :
      (q : K) (bs : List (Chain K V))
      → ((i : ℕ) → i < length bs → count fhash cmp q (get_or bs i []) ≡ 0)
      → count fhash cmp q (flatten bs) ≡ 0
  unfolding flatten count
  count-flatten_nowhere q [] h = refl
  count-flatten_nowhere q (c ∷ bs) h = omega (
    arith,
    count-append fhash cmp q c (flatten bs),
    h 0 (omega arith),
    count-flatten_nowhere q bs (λ i l. h (suc i) (omega arith)),
  )

  -- If a key's entries are all in the bucket `j`, the table reads there as all buckets in a row do.
  flatten_only :
      (q : K) (bs : List (Chain K V)) (j : ℕ)
      → ((i : ℕ) → i ≢ j → count fhash cmp q (get_or bs i []) ≡ 0)
      → (count fhash cmp q (flatten bs) ≡ count fhash cmp q (get_or bs j []))
        × (lookup fhash cmp q (flatten bs) ≡ lookup fhash cmp q (get_or bs j []))
  unfolding flatten
  flatten_only q [] j h = (refl, refl)
  flatten_only q (c ∷ bs) zero h =
      let rest = count-flatten_nowhere q bs (λ i l. h (suc i) (omega arith)) in
      (
        omega (arith, count-append fhash cmp q c (flatten bs)),
        ground (
          arith,
          lookup-append fhash cmp q c (flatten bs),
          lookup-none fhash cmp q (flatten bs) rest,
        ),
      )
  flatten_only q (c ∷ bs) (suc j) h =
      let here = h 0 (omega arith) in
      let (counted, found) = flatten_only q bs j (λ i other. h (suc i) (omega arith)) in
      (
        omega (arith, count-append fhash cmp q c (flatten bs)),
        rw (lookup-append fhash cmp q c (flatten bs), lookup-none fhash cmp q c here) found,
      )

  pub Kept-flatten :
      (index : K → ℕ) (i : ℕ) (bs : List (Chain K V))
      → ((j : ℕ) → Homed fhash cmp index (i + j) (get_or bs j []))
      → Kept fhash cmp (flatten bs)
  unfolding flatten
  Kept-flatten index i [] h = tt
  Kept-flatten index i (c ∷ bs) h = Kept-append fhash cmp index (i + 0) c (flatten bs) (h 0) (
      Kept-flatten index (suc i) bs
        (λ j. let e : suc i + j ≡ i + suc j = omega arith in rw e (h (suc j))))

  -- A table reads as all its entries in a row do, since a key's entry can only be in one bucket.
  pub flatten-view :
      (bs : List (Chain K V)) (q : K)
      → IsPlaced bs
      → (count fhash cmp q (chain_of bs q) ≡ count fhash cmp q (flatten bs))
        × (view bs q ≡ lookup fhash cmp q (flatten bs))
  unfolding view
  flatten-view bs q p =
      let (counted, found) = flatten_only q bs (home fhash (length bs) q) λ i other.
        Homed-elsewhere (length bs) i q (get_or bs i []) (p.homed i) (λ e. other (sym e)) in
      (sym counted, sym found)

  module _ (bs : List (Chain K V)) (i : ℕ) (c : Chain K V) (within : i < length bs) where
    pub view-set :
        (q : K)
        → view (set bs i c) q
          ≡ (if i == home fhash (length bs) q then lookup fhash cmp q c else view bs q)
    unfolding view
    view-set q =
        rw (length-set bs i c, get_or-set bs i (home fhash (length bs) q) c [] within)
          (ground arith)

    -- A write to a bucket that keeps its entries at home and keys apart.
    pub set-IsPlaced :
        IsPlaced bs
        → Homed fhash cmp (home fhash (length bs)) i c
        → ((q : K) → count fhash cmp q (flatten (set bs i c)) ≤ 1)
        → IsPlaced (set bs i c)
    set-IsPlaced p h u = record {
      sized = rw (length-set bs i c) p.sized;
      bounded = rw (length-set bs i c) p.bounded;
      homed = λ j.
          rw (length-set bs i c, get_or-set bs i j c [] within)
            (elim (Bool-cases (i == j)) [
              | inl e ↦ rw e (rw ((==_iff _ _).0 e) at h)
              | inr e ↦ rw e (p.homed j)
            ]);
      unique = u;
    }

  -- What `slist_preprend` of an entry to the bucket of its key does.
  pub record Prepended (bs : List (Chain K V)) (e : Entry K V) (r : List (Chain K V)) : Type ℓ where
    pub width : length r ≡ length bs
    pub entries : length (flatten r) ≡ suc (length (flatten bs))
    pub counts :
        (q : K)
        → count fhash cmp q (flatten r)
          ≡ to_nat (fits fhash cmp q e) + count fhash cmp q (flatten bs)
    pub placed :
        ((q : K) → to_nat (fits fhash cmp q e) + count fhash cmp q (flatten bs) ≤ 1) → IsPlaced r
    pub reads : (q : K) → view r q ≡ (if fits fhash cmp q e then some e.value else view bs q)

  prepend-counts :
      (bs : List (Chain K V)) (e : Entry K V) (i : ℕ)
      → i < length bs
      → (q : K)
      → count fhash cmp q (flatten (set bs i (e ∷ get_or bs i [])))
        ≡ to_nat (fits fhash cmp q e) + count fhash cmp q (flatten bs)
  unfolding count
  prepend-counts bs e i within q =
      omega (arith, count-flatten-set bs i (e ∷ get_or bs i []) q within)

  prepend-reads :
      (bs : List (Chain K V)) (e : Entry K V)
      → let i = get_index e.key_hash (length bs) in
        i < length bs
        → (q : K)
        → view (set bs i (e ∷ get_or bs i [])) q
          ≡ (if fits fhash cmp q e then some e.value else view bs q)
  unfolding view
  prepend-reads bs e within q =
      let n = length bs in
      let i = get_index e.key_hash n in
      let c = e ∷ get_or bs i [] in
      view-set bs i c within q ∙ elim (Bool-cases (i == home fhash n q)) [
        | inl here ↦ rw here (lookup-cons fhash cmp q e (get_or bs i []) ∙ rw ((==_iff _ _).0 here))
        | inr other ↦ elim (Bool-cases (e.key_hash == fhash q)) [
          | inl hit ↦
              let at_home : i ≡ home fhash n q = ap (λ k. get_index k n) ((==_iff _ _).0 hit) in
              absurd (ground arith)
          | inr miss ↦ rw (other, miss)
        ]
      ]

  pub prepend-Prepended :
      (bs : List (Chain K V)) (e : Entry K V)
      → IsPlaced bs
      → e.key_hash ≡ fhash e.key
      → Returns (prepend bs e (get_index e.key_hash (length bs))) (Prepended bs e)
  unfolding prepend
  prepend-Prepended bs e p keeps =
      let i = get_index e.key_hash (length bs) in
      let within = get_index-lt e.key_hash (length bs) p.sized (omega (arith, p.bounded)) in
      let c = e ∷ get_or bs i [] in
      (
        set bs i c,
        rw (at-get_or bs i [] within),
        record {
          width = length-set bs i c;
          entries = omega (arith, length-flatten-set bs i c within);
          counts = prepend-counts bs e i within;
          placed = λ u.
              set-IsPlaced bs i c within p
                (keeps, ap (λ k. get_index k (length bs)) (sym keeps), p.homed i)
                (λ q. rw (prepend-counts bs e i within q) (u q));
          reads = prepend-reads bs e within;
        },
      )
