-- ===== src/Hashtable/Contents.antt =====
-- The operations of src/hashtable.c against the entries that stand in the buckets, whose keys are
-- compared by the callbacks themselves.
use mathlib.Core.Logic.{Lift}
use mathlib.Core.List.{flatten}
use mathlib.Core.Option.{some-injective}
use netproc.Base.{
  ℕ, ◌+◌, ◌≤◌, ◌<◌, ◌≡◌, ◌⊎◌, inl, inr, refl, ap, sym, ◌∙◌, Bool, true, false, some, List, [], ◌∷◌,
  ◌++◌, arith, Bool-cases, u64_mod, Returns, length,
}
use netproc.Hashtable.{
  Chain, Table, find_entry, remove_chain, hashtable_get, hashtable_foreach_remove,
}
use netproc.Hashtable.Chain.{same, lookup, count, Kept}
use netproc.Hashtable.Buckets.{home, flatten-view, Kept-flatten}
use netproc.Hashtable.Methods.{IsValid, reads, hashtable_get-reads}
use netproc.Hashtable.Foreach.{values, hashtable_foreach_remove-IsValid}

module _ {ℓ} {K V : Type ℓ} (fhash : K → ℕ) (cmp : K → K → Bool) where
  -- One of these entries has this key, for the callbacks, and this value.
  abbrev pub Holds : K → V → Chain K V → Type ℓ
  Holds q v [] = Lift ⊥
  Holds q v (e ∷ c) = ((same fhash cmp e.key q ≡ true) × (e.value ≡ v)) ⊎ Holds q v c

  lookup-Holds :
      (q : K) (v : V) (c : Chain K V)
      → Kept fhash cmp c
      → lookup fhash cmp q c ≡ some v
      → Holds q v c
  unfolding lookup find_entry
  lookup-Holds q v [] k h = absurd (cc)
  lookup-Holds q v (e ∷ c) (k, ks) h = elim (Bool-cases (same fhash cmp e.key q)) [
    | inl here ↦ inl (here, some-injective e.value v (ground (arith, here, k, h)))
    | inr other ↦ inr (lookup-Holds q v c ks (ground (arith, other, k, h)))
  ]

  Holds-count :
      (q : K) (v : V) (c : Chain K V) → Kept fhash cmp c → Holds q v c → 1 ≤ count fhash cmp q c
  unfolding count
  Holds-count q v [] k h = absurd h.lower
  Holds-count q v (e ∷ c) (k, ks) (inl (here, value)) = ground (arith, here, k)
  Holds-count q v (e ∷ c) (k, ks) (inr there) = omega (arith, Holds-count q v c ks there)

  Holds-lookup :
      (q : K) (v : V) (c : Chain K V)
      → Kept fhash cmp c
      → count fhash cmp q c ≤ 1
      → Holds q v c
      → lookup fhash cmp q c ≡ some v
  unfolding lookup find_entry count
  Holds-lookup q v [] k once h = absurd h.lower
  Holds-lookup q v (e ∷ c) (k, ks) once (inl (here, value)) =
      let first : lookup fhash cmp q (e ∷ c) ≡ some e.value = ground (arith, here, k) in
      first ∙ ap some value
  Holds-lookup q v (e ∷ c) (k, ks) once (inr there) =
      ground
        (arith, once, Holds-count q v c ks there, Holds-lookup q v c ks (omega (arith, once)) there)

  Kept-flat : {t : Table K V} → IsValid fhash cmp t → Kept fhash cmp (flatten t.buckets)
  Kept-flat {t} i =
      let index = home fhash (length t.buckets) in
      let same_index : (k : ℕ) → 0 + k ≡ k = λ k. omega arith in
      Kept-flatten fhash cmp index 0 t.buckets (λ j. rw same_index (i.placed.homed j))

  -- On a valid table `hashtable_get` ends, within the array of buckets, and its result is a value
  -- exactly where an entry of the table has that value and a key that the callbacks, both the hash
  -- and the comparison, do not tell from the one that is asked for.
  pub hashtable_get-Holds :
      {t : Table K V} (q : K)
      → IsValid fhash cmp t
      → Returns (hashtable_get fhash cmp t q) λ o.
        (v : V)
        → (o ≡ some v → Holds q v (flatten t.buckets))
          × (Holds q v (flatten t.buckets) → o ≡ some v)
  hashtable_get-Holds {t} q i =
      let flat = (flatten-view fhash cmp t.buckets q i.placed).1 in
      (
        reads fhash cmp t q,
        hashtable_get-reads fhash cmp q i,
        λ v. (
          (λ h. lookup-Holds q v (flatten t.buckets) (Kept-flat i) (sym flat ∙ h)),
          (λ h. flat ∙ Holds-lookup q v (flatten t.buckets) (Kept-flat i) (i.placed.unique q) h),
        ),
      )

  -- A callback that writes down the values that it is asked about, and whose answer is by the value.
  abbrev pub logged : (V → Bool) → List V → V → List V × Bool
  logged gone seen v = (seen ++ (v ∷ []), gone v)

  append-cons : (a b : List V) (v : V) → (a ++ (v ∷ [])) ++ b ≡ a ++ (v ∷ b)
  append-cons [] b v = refl
  append-cons (x ∷ a) b v = ap (λ l. x ∷ l) (append-cons a b v)

  append-nil : (a : List V) → a ++ [] ≡ a
  append-nil [] = refl
  append-nil (x ∷ a) = ap (λ l. x ∷ l) (append-nil a)

  remove_chain-values :
      (gone : V → Bool) (c : Chain K V) (seen : List V)
      → (remove_chain (logged gone) c seen).0 ≡ seen ++ values c
  unfolding remove_chain
  remove_chain-values gone [] seen = sym (append-nil seen)
  remove_chain-values gone (e ∷ c) seen =
      let rest =
        remove_chain-values gone c (seen ++ (e.value ∷ [])) ∙ append-cons seen (values c) e.value in
      elim (Bool-cases (gone e.value)) [ inl leaves ↦ rw leaves rest | inr stays ↦ rw stays rest ]

  Left : (V → Bool) → K → V → Chain K V → Chain K V → Type ℓ
  Left gone q v c kept =
      (Holds q v kept → Holds q v c × (gone v ≡ false))
      × (Holds q v c → gone v ≡ false → Holds q v kept)

  remove_chain-Left :
      (gone : V → Bool) (q : K) (v : V) (c : Chain K V) (seen : List V)
      → Left gone q v c (remove_chain (logged gone) c seen).1
  unfolding remove_chain Left
  remove_chain-Left gone q v [] seen = ((λ h. absurd h.lower), (λ h f. h))
  remove_chain-Left gone q v (e ∷ c) seen =
      let (only, all) = remove_chain-Left gone q v c (seen ++ (e.value ∷ [])) in
      elim (Bool-cases (gone e.value)) [
        | inl leaves ↦ rw leaves (
          (λ h. (inr (only h).0, (only h).1)),
          (λ h f. elim h [ inl (here, value) ↦ absurd (cc) | inr there ↦ all there f ]),
        )
        | inr stays ↦ rw stays (
          (λ h. elim h [
            | inl (here, value) ↦ (inl (here, value), ap gone (sym value) ∙ stays)
            | inr there ↦ (inr (only there).0, (only there).1)
          ]),
          (λ h f. elim h [ inl own ↦ inl own | inr there ↦ inr (all there f) ]),
        )
      ]

  -- On a valid table of fewer than 2 ^ 64 entries, and with a callback whose answer depends on the
  -- value alone: `hashtable_foreach_remove` asks it about the value of every entry once, in the order
  -- of the buckets, and leaves a valid table with exactly the keys and values of which the callback
  -- does not say that the value is to go.
  pub hashtable_foreach_remove-Holds :
      (gone : V → Bool) {t : Table K V}
      → IsValid fhash cmp t
      → t.nentries < u64_mod
      → let (seen, u) = hashtable_foreach_remove t (logged gone) [] in
        IsValid fhash cmp u
        × (seen ≡ values (flatten t.buckets))
        × ((q : K) (v : V)
            → (Holds q v (flatten u.buckets) → Holds q v (flatten t.buckets) × (gone v ≡ false))
              × (Holds q v (flatten t.buckets) → gone v ≡ false → Holds q v (flatten u.buckets)))
  unfolding Left
  hashtable_foreach_remove-Holds gone {t} i few =
      let (valid, state, row, left, width) =
        hashtable_foreach_remove-IsValid (logged gone) fhash cmp [] i few in
      (
        valid,
        state ∙ remove_chain-values gone (flatten t.buckets) [],
        λ q v. rw row (remove_chain-Left gone q v (flatten t.buckets) []),
      )
