-- ===== src/Sort/Tests.antt =====
-- A sort by insertion, and two processes in the order of their rates.
use netproc.Types.{Connection, Process}
use netproc.Base.{
  ℕ, ◌+◌, ◌^◌, ◌≤◌, ◌≡◌, refl, Bool, true, false, none, List, [], ◌∷◌, if◌then◌else◌, to_nat, arith,
  Bool-cases, inl, inr,
}
use netproc.Connection.{zero_stat}
use netproc.Sort.{rate_rx, Sign, minus, nought, plus, compare_process, sort}
use netproc.Sort.Order.{All, Ascending, count_if, Ranks, IsSort, rank, sort-Ascending}

abbrev after : Sign → Bool
after minus = false
after nought = false
after plus = true

module _ {A : Type 0} where
  abbrev insert : (A → A → Sign) → A → List A → List A
  insert cmp x [] = x ∷ []
  insert cmp x (y ∷ ys) =
      let rest = insert cmp x ys in if after (cmp x y) then y ∷ rest else x ∷ y ∷ ys

  abbrev insertion_sort : (A → A → Sign) → List A → List A
  insertion_sort cmp [] = []
  insertion_sort cmp (x ∷ xs) = insert cmp x (insertion_sort cmp xs)

  insert-All :
      (cmp : A → A → Sign) (P : A → Type 0) (x : A) (ys : List A)
      → P x
      → All P ys
      → All P (insert cmp x ys)
  insert-All cmp P x [] p h = (p, tt)
  insert-All cmp P x (y ∷ ys) p h = elim (Bool-cases (after (cmp x y))) [
    | inl e ↦ rw e (h.0, insert-All cmp P x ys p h.1)
    | inr e ↦ rw e (p, h)
  ]

  insertion_sort-All :
      (cmp : A → A → Sign) (P : A → Type 0) (xs : List A) → All P xs → All P (insertion_sort cmp xs)
  insertion_sort-All cmp P [] h = tt
  insertion_sort-All cmp P (x ∷ xs) h =
      insert-All cmp P x (insertion_sort cmp xs) h.0 (insertion_sort-All cmp P xs h.1)

  -- The rank of the first element, or a given one.
  abbrev Above : (A → ℕ) → ℕ → List A → Type 0
  Above rank n [] = Unit
  Above rank n (y ∷ ys) = n ≤ rank y

  Ascending-cons :
      (rank : A → ℕ) (x : A) (ys : List A)
      → Above rank (rank x) ys
      → Ascending rank ys
      → Ascending rank (x ∷ ys)
  Ascending-cons rank x [] a h = tt
  Ascending-cons rank x (y ∷ ys) a h = (a, h)

  Ascending-tail :
      (rank : A → ℕ) (y : A) (ys : List A)
      → Ascending rank (y ∷ ys)
      → Above rank (rank y) ys × Ascending rank ys
  Ascending-tail rank y [] h = (tt, tt)
  Ascending-tail rank y (z ∷ ys) h = h

  insert-Above :
      (cmp : A → A → Sign) (rank : A → ℕ) (n : ℕ) (x : A) (ys : List A)
      → n ≤ rank x
      → Above rank n ys
      → Above rank n (insert cmp x ys)
  insert-Above cmp rank n x [] h a = h
  insert-Above cmp rank n x (y ∷ ys) h a = elim (Bool-cases (after (cmp x y))) [
    | inl e ↦ rw e a
    | inr e ↦ rw e h
  ]

  insert-Ascending :
      (cmp : A → A → Sign) (rank : A → ℕ) (good : A → Type 0)
      → Ranks cmp rank good
      → (x : A) (ys : List A) → good x
      → All good ys
      → Ascending rank ys
      → Ascending rank (insert cmp x ys)
  insert-Ascending cmp rank good agree x [] g all h = tt
  insert-Ascending cmp rank good agree x (y ∷ ys) g all h = elim (Bool-cases (after (cmp x y))) [
    | inl e ↦
        let le : rank y ≤ rank x = ground (arith, e, agree x y g all.0) in
        let rest = Ascending-tail rank y ys h in
        rw e (
          Ascending-cons rank y (insert cmp x ys) (insert-Above cmp rank (rank y) x ys le rest.0)
            (insert-Ascending cmp rank good agree x ys g all.1 rest.1))
    | inr e ↦ let le : rank x ≤ rank y = ground (arith, e, agree x y g all.0) in rw e (le, h)
  ]

  insertion_sort-Ascending :
      (cmp : A → A → Sign) (rank : A → ℕ) (good : A → Type 0)
      → Ranks cmp rank good
      → (xs : List A) → All good xs
      → Ascending rank (insertion_sort cmp xs)
  insertion_sort-Ascending cmp rank good agree [] h = tt
  insertion_sort-Ascending cmp rank good agree (x ∷ xs) h =
      insert-Ascending cmp rank good agree x (insertion_sort cmp xs) h.0
        (insertion_sort-All cmp good xs h.1) (insertion_sort-Ascending cmp rank good agree xs h.1)

  count_if-insert :
      (cmp : A → A → Sign) (p : A → Bool) (x : A) (ys : List A)
      → count_if p (insert cmp x ys) ≡ to_nat (p x) + count_if p ys
  count_if-insert cmp p x [] = refl
  count_if-insert cmp p x (y ∷ ys) = elim (Bool-cases (after (cmp x y))) [
    | inl e ↦ rw e (omega (arith, count_if-insert cmp p x ys))
    | inr e ↦ rw e refl
  ]

  count_if-insertion_sort :
      (cmp : A → A → Sign) (p : A → Bool) (xs : List A)
      → count_if p (insertion_sort cmp xs) ≡ count_if p xs
  count_if-insertion_sort cmp p [] = refl
  count_if-insertion_sort cmp p (x ∷ xs) =
      omega
        (arith, count_if-insert cmp p x (insertion_sort cmp xs), count_if-insertion_sort cmp p xs)

abbrev sorter : (A : Type 0) → (A → A → Sign) → List A → List A
sorter A cmp xs = insertion_sort cmp xs

sorter-IsSort : IsSort sorter
sorter-IsSort = record {
  ordered = λ A cmp rank good agree xs h. insertion_sort-Ascending cmp rank good agree xs h;
  kept = λ A cmp p xs. count_if-insertion_sort cmp p xs;
}

abbrev process : ℕ → ℕ → Process
process pid rx = record {
  net_stat = record zero_stat { avg_bps_rx = rx };
  conections = [];
  name = "nc";
  pid = pid;
  active = true;
}

abbrev conn : ℕ → Connection
conn rx = record {
  net_stat = record zero_stat { avg_bps_rx = rx };
  tuple = record { local_ip = 1; remote_ip = 2; local_port = 3; remote_port = 4; protocol = 6 };
  proc = none;
  inode = 1;
  if_index = 1;
  state = 1;
  refs_active = 3;
  refs_exit = 0;
}

abbrev store : List Connection
store = conn 5 ∷ conn 70 ∷ []

largest_first :
    sort sorter store (conn 0) (process 1 10 ∷ process 2 900 ∷ []) rate_rx false
    ≡ process 2 900 ∷ process 1 10 ∷ []
unfolding sort compare_process
largest_first = refl

-- From a difference of 2 ^ 63 on, the signs are the wrong way round.
wrong_way : compare_process rate_rx (process 1 0) (process 2 (2 ^ 63 + 1)) ≡ minus
unfolding compare_process
wrong_way = refl

sort-Ascending_example :
    let sorted = sort sorter store (conn 0) (process 1 10 ∷ process 2 900 ∷ []) rate_rx true in
    Ascending (rank rate_rx) sorted
    × ((q : ℕ → Bool)
        → count_if (λ p. q p.pid) sorted
          ≡ count_if (λ p. q p.pid) (process 1 10 ∷ process 2 900 ∷ []))
sort-Ascending_example =
    sort-Ascending sorter sorter-IsSort store (conn 0) (process 1 10 ∷ process 2 900 ∷ []) rate_rx
      true (omega arith, (omega arith, tt))

abbrev busy : Process
busy = record (process 7 1) { conections = 0 ∷ 1 ∷ [] }
