-- ===== src/Vector/Refine.antt =====
-- src/vector.c against a list: what a vector holds, and what its operations do to that.
use native.Mathlib.Nat.{mod-eq_of_lt, mul-div_cancel}
use mathlib.Core.Path.{subst}
use mathlib.Core.Option.{some-injective}
use netproc.Base.{
  ℕ, zero, suc, ◌+◌, ◌-◌, ◌*◌, ◌/◌, ◌≤◌, ◌<◌, ◌≡◌, refl, ap, ◌∙◌, inl, inr, Bool, true, false,
  Option, none, some, List, [], ◌∷◌, ◌++◌, arith, set, get_or, length, length-set, length-append,
  append-last-injective, sym, Bool-cases, add64, sub64, mul64, u64_mod, ◌==◌, ==_iff, if◌then◌else◌,
}
use netproc.Vector.{
  Vector, realloc_cells, vector_new, grow, append_copy, vector_push, vector_pop, vector_clear,
  vector_size,
}

doubled_small : (a e : ℕ) → 0 < e → a * 2 * e < u64_mod → a * 2 < u64_mod
doubled_small a e pos fits = grind arith

-- What a block of so many bytes and the header has after the header.
block_room : (size : ℕ) → size + 24 < u64_mod → add64 size 24 - 24 ≡ size
block_room size fits = omega (arith, fits)

block_cells :
    (a e : ℕ) → 0 < e → a * 2 * e + 24 < u64_mod → (add64 (mul64 (mul64 a 2) e) 24 - 24) / e ≡ a * 2
block_cells a e pos fits =
    let less : a * 2 * e < u64_mod = omega (arith, fits) in
    rw (mod-eq_of_lt (doubled_small a e pos less), mod-eq_of_lt less, block_room (a * 2 * e) fits)
      (mul-div_cancel (a * 2) pos)

module _ {ℓ} {A : Type ℓ} where
  -- The values in the first `n` cells.
  abbrev pub values : ℕ → List (Option A) → List A
  values zero cells = []
  values (suc n) [] = []
  values (suc n) (none ∷ cells) = values n cells
  values (suc n) (some x ∷ cells) = x ∷ values n cells

  length-values-le : (n : ℕ) (cells : List (Option A)) → length (values n cells) ≤ n
  length-values-le zero cells = omega arith
  length-values-le (suc n) [] = omega arith
  length-values-le (suc n) (none ∷ cells) = omega (arith, length-values-le n cells)
  length-values-le (suc n) (some x ∷ cells) = omega (arith, length-values-le n cells)

  values-nil : (n : ℕ) → values n [] ≡ []
  values-nil zero = refl
  values-nil (suc n) = refl

  length-realloc_cells : (cells : List (Option A)) (n : ℕ) → length (realloc_cells cells n) ≡ n
  length-realloc_cells cells zero = refl
  length-realloc_cells [] (suc n) = ap suc (length-realloc_cells [] n)
  length-realloc_cells (c ∷ cells) (suc n) = ap suc (length-realloc_cells cells n)

  values-realloc_cells :
      (u n : ℕ) (cells : List (Option A))
      → u ≤ n
      → u ≤ length cells
      → values u (realloc_cells cells n) ≡ values u cells
  values-realloc_cells zero n cells h k = refl
  values-realloc_cells (suc u) n [] h k = absurd (omega arith)
  values-realloc_cells (suc u) zero (c ∷ cells) h k = absurd (omega arith)
  values-realloc_cells (suc u) (suc n) (none ∷ cells) h k =
      values-realloc_cells u n cells (omega arith) (omega arith)
  values-realloc_cells (suc u) (suc n) (some x ∷ cells) h k =
      ap (λ l. x ∷ l) (values-realloc_cells u n cells (omega arith) (omega arith))

  values-set :
      (u : ℕ) (cells : List (Option A)) (x : A)
      → u < length cells
      → values (suc u) (set cells u (some x)) ≡ values u cells ++ (x ∷ [])
  values-set u [] x h = absurd (omega arith)
  values-set zero (none ∷ cells) x h = refl
  values-set zero (some y ∷ cells) x h = refl
  values-set (suc u) (none ∷ cells) x h = values-set u cells x (omega arith)
  values-set (suc u) (some y ∷ cells) x h = ap (λ l. y ∷ l) (values-set u cells x (omega arith))

  -- All of the first `suc u` cells are written: the last of them holds the last value.
  values-suc :
      (u : ℕ) (cells : List (Option A))
      → length (values (suc u) cells) ≡ suc u
      → (x : A) × (get_or cells u none ≡ some x)
        × (values (suc u) cells ≡ values u cells ++ (x ∷ []))
  values-suc u [] h = absurd (omega arith)
  values-suc u (none ∷ cells) h = absurd (omega (arith, length-values-le u cells))
  values-suc zero (some y ∷ cells) h = (y, refl, refl)
  values-suc (suc u) (some y ∷ cells) h =
      let (x, p, q) = values-suc u cells (omega arith) in (x, p, ap (λ l. y ∷ l) q)

  values-last :
      (u : ℕ) (cells : List (Option A)) (xs : List A) (x : A)
      → length (values (suc u) cells) ≡ suc u
      → values (suc u) cells ≡ xs ++ (x ∷ [])
      → (get_or cells u none ≡ some x) × (values u cells ≡ xs)
  values-last u cells xs x full held =
      let (y, p, q) = values-suc u cells full in
      let (e, f) = append-last-injective (values u cells) xs y x (sym q ∙ held) in
      (p ∙ ap some f, e)

  abbrev pub contents : Vector A → List A
  contents v = values v.elements_used v.cells

  -- The block has the cells that the header says, and the used ones are written.
  pub record IsValid (v : Vector A) : Type ℓ where
    pub sized : length v.cells ≡ v.elements_allocated
    pub written : length (contents v) ≡ v.elements_used
    pub within : v.elements_used ≤ v.elements_allocated
    pub roomy : 0 < v.elements_allocated
    pub member : 0 < v.element_size

  -- Doubling the block, with its header, does not wrap `size_t`.
  abbrev pub Fits : Vector A → Type 0
  Fits v = v.elements_allocated * 2 * v.element_size + 24 < u64_mod

  -- Room is made only in a full block; the values stay.
  grow-some :
      {v : Vector A}
      → IsValid v
      → Fits v
      → let (w, done) = grow true v in
        (done ≡ true)
        × IsValid w
        × (contents w ≡ contents v)
        × (w.elements_used ≡ v.elements_used)
        × (w.elements_allocated ≡ v.elements_allocated * 2)
  grow-some {v} i fits =
      let a2 = doubled_small v.elements_allocated v.element_size i.member (omega (arith, fits)) in
      let kept =
        values-realloc_cells v.elements_used (v.elements_allocated * 2) v.cells (omega arith)
          (omega arith) in
      rw (block_cells v.elements_allocated v.element_size i.member fits, mod-eq_of_lt a2)
        (
          refl,
          record {
            sized = length-realloc_cells v.cells (v.elements_allocated * 2);
            written = ap length kept ∙ i.written;
            within = omega arith;
            roomy = omega arith;
            member = i.member;
          },
          kept,
          refl,
          refl,
        )

  append_copy_lem :
      {v : Vector A} (x : A)
      → IsValid v
      → v.elements_used < v.elements_allocated
      → v.elements_allocated < u64_mod
      → IsValid (append_copy v x) × (contents (append_copy v x) ≡ contents v ++ (x ∷ []))
  append_copy_lem {v} x i room small =
      let e : add64 v.elements_used 1 ≡ suc v.elements_used = omega arith in
      let grown = values-set v.elements_used v.cells x (omega arith) in
      rw e (
        record {
          sized = length-set v.cells v.elements_used (some x) ∙ i.sized;
          written = ap length grown ∙ (length-append (contents v) (x ∷ []) ∙ omega arith);
          within = omega arith;
          roomy = i.roomy;
          member = i.member;
        },
        grown,
      )

  -- What `vector_push` of `x` has done when it returns `r`: the element is appended and the result
  -- is 1, or the block was full, nothing has changed and the result is 0.
  pub data Pushed (memory : Bool) (v : Vector A) (x : A) (r : Vector A × ℕ) : Type ℓ where
    appended :
        r.1 ≡ 1
        → IsValid r.0
        → contents r.0 ≡ contents v ++ (x ∷ [])
        → r.0.elements_used ≡ suc v.elements_used
        → r.0.elements_allocated ≤ v.elements_allocated * 2
        → Pushed memory v x r
    refused :
        r ≡ (v, 0) → memory ≡ false → v.elements_used ≡ v.elements_allocated → Pushed memory v x r

  push_room :
      (memory : Bool) {v : Vector A} (x : A)
      → IsValid v
      → Fits v
      → v.elements_used < v.elements_allocated
      → Pushed memory v x (append_copy v x, 1)
  push_room memory {v} x i fits room =
      let a2 = doubled_small v.elements_allocated v.element_size i.member (omega (arith, fits)) in
      let (valid, held) = append_copy_lem x i room (omega arith) in
      appended refl valid held (omega arith) (omega arith)

  push_full :
      (memory : Bool) {v : Vector A} (x : A)
      → IsValid v
      → Fits v
      → v.elements_used ≡ v.elements_allocated
      → let (w, done) = grow memory v in
        Pushed memory v x (if done then (append_copy w x, 1) else (w, 0))
  push_full false {v} x i fits full =
      let a2 = doubled_small v.elements_allocated v.element_size i.member (omega (arith, fits)) in
      refused (ground arith) refl full
  push_full true {v} x i fits full =
      let a2 = doubled_small v.elements_allocated v.element_size i.member (omega (arith, fits)) in
      let (_, valid, held, used, more) = grow-some i fits in
      let w = (grow true v).0 in
      let roomy = i.roomy in
      let (valid', held') = append_copy_lem {v = w} x valid (omega arith) (omega arith) in
      appended refl valid' (held' ∙ ap (λ l. l ++ (x ∷ [])) held) (omega arith) (omega arith)

  -- On a valid vector whose doubled block, with its header, fits `size_t`, `vector_push` appends the
  -- element and returns 1, or, only where the block is full and there is no memory, changes nothing
  -- and returns 0.
  pub vector_push-Pushed :
      (memory : Bool) {v : Vector A} (x : A)
      → IsValid v
      → Fits v
      → Pushed memory v x (vector_push memory v x)
  unfolding vector_push
  vector_push-Pushed memory {v} x i fits =
      elim (Bool-cases (v.elements_used == v.elements_allocated)) [
        | inr room ↦ rw room (push_room memory x i fits (ground arith))
        | inl full ↦ rw full (push_full memory x i fits ((==_iff _ _).0 full))
      ]

  -- `vector_pop` takes back what `vector_push` appended: the vector is valid and holds the same
  -- elements as before the push.
  pub vector_pop-contents :
      {v : Vector A} (xs : List A) (x : A)
      → IsValid v
      → v.elements_allocated < u64_mod
      → contents v ≡ xs ++ (x ∷ [])
      → let (w, out) = vector_pop v in (out ≡ some x) × (contents w ≡ xs) × IsValid w
  unfolding vector_pop
  vector_pop-contents {v} xs x i small held =
      let n = length-append xs (x ∷ []) in
      let count : length xs + 1 ≡ v.elements_used = omega (arith, ap length held) in
      let last = values-last (v.elements_used - 1) v.cells xs x in
      let e : suc (v.elements_used - 1) ≡ v.elements_used = omega arith in
      let (out, rest) = last (rw e i.written) (rw e held) in
      let f : sub64 v.elements_used 1 ≡ v.elements_used - 1 = omega arith in
      rw f (
        out,
        rest,
        record {
          sized = i.sized;
          written = ap length rest ∙ omega arith;
          within = omega arith;
          roomy = i.roomy;
          member = i.member;
        },
      )

  -- After a successful `vector_push` of `x`, `vector_pop` gives `x` back and leaves what the vector
  -- held before the push; the header's `elements_allocated`, and the doubled block with its header,
  -- fit `size_t`.
  pub vector_pop-vector_push :
      {v : Vector A} (x : A)
      → IsValid v
      → Fits v
      → let (w, out) = vector_pop (vector_push true v x).0 in
        (out ≡ some x) × (contents w ≡ contents v) × IsValid w
  vector_pop-vector_push {v} x i fits = elim (vector_push-Pushed true x i fits) [
    | appended one valid held used more ↦
        let a2 = doubled_small v.elements_allocated v.element_size i.member (omega (arith, fits)) in
        vector_pop-contents (contents v) x valid (omega arith) held
    | refused same dry full ↦ absurd (cc)
  ]

  -- Where `vector_new` returns a vector, there was memory, and the vector has sixteen cells, holds
  -- nothing and is valid, if its block fits `size_t`.
  pub vector_new-IsValid :
      (memory : Bool) (size_member : ℕ) {v : Vector A}
      → 0 < size_member
      → 16 * size_member + 24 < u64_mod
      → vector_new memory size_member ≡ some v
      → (memory ≡ true) × IsValid v × (contents v ≡ []) × (v.elements_allocated ≡ 16)
  unfolding vector_new
  vector_new-IsValid false size_member pos fits h = absurd (cc)
  vector_new-IsValid true size_member {v} pos fits h =
      let cells = realloc_cells {A = A} [] ((add64 (mul64 16 size_member) 24 - 24) / size_member) in
      let less : 16 * size_member < u64_mod = omega (arith, fits) in
      let e : (add64 (mul64 16 size_member) 24 - 24) / size_member ≡ 16 =
        rw (mod-eq_of_lt less, block_room (16 * size_member) fits) (mul-div_cancel 16 pos) in
      let count : length cells ≡ 16 =
        length-realloc_cells [] ((add64 (mul64 16 size_member) 24 - 24) / size_member) ∙ e in
      subst (λ w. (true ≡ true) × IsValid w × (contents w ≡ []) × (w.elements_allocated ≡ 16))
        (some-injective _ _ h)
        (
          refl,
          record {
            sized = count;
            written = refl;
            within = omega arith;
            roomy = omega arith;
            member = pos;
          },
          refl,
          refl,
        )

  -- `vector_clear` keeps the block and forgets the elements.
  pub vector_clear-IsValid :
      {v : Vector A}
      → IsValid v
      → let w = vector_clear v in
        IsValid w × (contents w ≡ []) × (vector_size w ≡ 0) × (w.cells ≡ v.cells)
  unfolding vector_clear vector_size
  vector_clear-IsValid {v} i = (
    record {
      sized = i.sized;
      written = refl;
      within = omega arith;
      roomy = i.roomy;
      member = i.member;
    },
    refl,
    refl,
    refl,
  )
