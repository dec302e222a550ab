-- ===== src/Rate/Slots.antt =====
-- The ring of five samples of src/rate.c, read from the current window backwards.
use netproc.Base.{
  ℕ, zero, suc, ◌+◌, ◌-◌, ◌%◌, ◌<◌, ◌≡◌, refl, List, [], ◌∷◌, arith, length, get_or, set, add64,
  u64_mod,
}
use netproc.Rate.{sum_samples, update_id_buff, add_sample}

-- Five samples, and a current slot among them.
pub record IsRing (idx : ℕ) (xs : List ℕ) : Type 0 where
  pub five : length xs ≡ 5
  pub within : idx < 5

-- The sample of the window `j` windows ago.
abbrev pub ago : ℕ → List ℕ → ℕ → ℕ
ago idx xs j = get_or xs ((idx + 5 - j) % 5) 0

abbrev pub history : ℕ → List ℕ → List ℕ
history idx xs = ago idx xs 0 ∷ ago idx xs 1 ∷ ago idx xs 2 ∷ ago idx xs 3 ∷ ago idx xs 4 ∷ []

abbrev pub sum : List ℕ → ℕ
sum [] = 0
sum (x ∷ xs) = x + sum xs

elements :
    (xs : List ℕ)
    → length xs ≡ 5
    → (a : ℕ) × (b : ℕ) × (c : ℕ) × (d : ℕ) × (e : ℕ) × (xs ≡ a ∷ b ∷ c ∷ d ∷ e ∷ [])
elements (a ∷ b ∷ c ∷ d ∷ e ∷ []) h = (a, b, c, d, e, refl)
elements [] h = absurd (omega arith)
elements (a ∷ []) h = absurd (omega arith)
elements (a ∷ b ∷ []) h = absurd (omega arith)
elements (a ∷ b ∷ c ∷ []) h = absurd (omega arith)
elements (a ∷ b ∷ c ∷ d ∷ []) h = absurd (omega arith)
elements (a ∷ b ∷ c ∷ d ∷ e ∷ f ∷ xs) h = absurd (omega arith)

-- A goal on every slot holds for the current one.
each_slot : (P : ℕ → Type 0) → P 0 → P 1 → P 2 → P 3 → P 4 → (idx : ℕ) → idx < 5 → P idx
each_slot P a b c d e zero h = a
each_slot P a b c d e (suc zero) h = b
each_slot P a b c d e (suc (suc zero)) h = c
each_slot P a b c d e (suc (suc (suc zero))) h = d
each_slot P a b c d e (suc (suc (suc (suc zero)))) h = e
each_slot P a b c d e (suc (suc (suc (suc (suc idx))))) h = absurd (omega arith)

pub history-add_sample :
    (idx : ℕ) (xs : List ℕ) (n : ℕ)
    → IsRing idx xs
    → history idx (add_sample xs idx n)
      ≡ add64 (ago idx xs 0) n ∷ ago idx xs 1 ∷ ago idx xs 2 ∷ ago idx xs 3 ∷ ago idx xs 4 ∷ []
history-add_sample idx xs n r =
    let (a, b, c, d, e, shape) = elements xs r.five in
    rw shape (
      each_slot
        (λ i.
          history i (add_sample (a ∷ b ∷ c ∷ d ∷ e ∷ []) i n)
          ≡ add64 (ago i (a ∷ b ∷ c ∷ d ∷ e ∷ []) 0) n
            ∷ ago i (a ∷ b ∷ c ∷ d ∷ e ∷ []) 1
            ∷ ago i (a ∷ b ∷ c ∷ d ∷ e ∷ []) 2
            ∷ ago i (a ∷ b ∷ c ∷ d ∷ e ∷ []) 3
            ∷ ago i (a ∷ b ∷ c ∷ d ∷ e ∷ []) 4
            ∷ [])
        refl refl refl refl refl idx r.within)

pub history-update :
    (idx : ℕ) (xs : List ℕ)
    → IsRing idx xs
    → history (update_id_buff idx) (set xs (update_id_buff idx) 0)
      ≡ 0 ∷ ago idx xs 0 ∷ ago idx xs 1 ∷ ago idx xs 2 ∷ ago idx xs 3 ∷ []
history-update idx xs r =
    let (a, b, c, d, e, shape) = elements xs r.five in
    rw shape (
      each_slot
        (λ i.
          history (update_id_buff i) (set (a ∷ b ∷ c ∷ d ∷ e ∷ []) (update_id_buff i) 0)
          ≡ 0
            ∷ ago i (a ∷ b ∷ c ∷ d ∷ e ∷ []) 0
            ∷ ago i (a ∷ b ∷ c ∷ d ∷ e ∷ []) 1
            ∷ ago i (a ∷ b ∷ c ∷ d ∷ e ∷ []) 2
            ∷ ago i (a ∷ b ∷ c ∷ d ∷ e ∷ []) 3
            ∷ [])
        refl refl refl refl refl idx r.within)

sum_samples_lem : (xs : List ℕ) (s : ℕ) → s + sum xs < u64_mod → sum_samples xs s ≡ s + sum xs
sum_samples_lem [] s h = omega arith
sum_samples_lem (x ∷ xs) s h = omega (arith, sum_samples_lem xs (add64 s x) (omega arith))

sum-history : (idx : ℕ) (xs : List ℕ) → IsRing idx xs → sum xs ≡ sum (history idx xs)
sum-history idx xs r =
    let (a, b, c, d, e, shape) = elements xs r.five in
    rw shape (
      each_slot (λ i. sum (a ∷ b ∷ c ∷ d ∷ e ∷ []) ≡ sum (history i (a ∷ b ∷ c ∷ d ∷ e ∷ [])))
        (omega arith) (omega arith) (omega arith) (omega arith) (omega arith) idx r.within)

-- The loop over the array adds up the five windows, in whatever slots they stand.
pub sum_samples-history :
    (idx : ℕ) (xs : List ℕ)
    → IsRing idx xs
    → sum (history idx xs) < u64_mod
    → sum_samples xs 0 ≡ sum (history idx xs)
sum_samples-history idx xs r h =
    let e = sum-history idx xs r in omega (arith, e, sum_samples_lem xs 0 (omega (arith, e)))
