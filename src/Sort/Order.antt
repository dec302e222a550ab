-- ===== src/Sort/Order.antt =====
-- The comparators of src/sort.c are orders as long as no counter reaches 2 ^ 63, and so the list is
-- in the order of the column.
use netproc.Types.{Connection, Process}
use netproc.Base.{
  ℕ, ◌+◌, ◌-◌, ◌^◌, ◌<◌, ◌≤◌, ◌≡◌, refl, ◌∙◌, Bool, true, false, List, [], ◌∷◌, map, to_nat, arith,
  get_or,
}
use netproc.Sort.{
  ColsSort, s_pid, pps_tx, pps_rx, rate_tx, rate_rx, tot_tx, tot_rx, Sign, sign_int,
  compare_process, conn_column, compare_connection, sort_conections, sort,
}

module _ {A : Type 0} where
  abbrev pub All : (A → Type 0) → List A → Type 0
  All P [] = Unit
  All P (x ∷ xs) = P x × All P xs

  -- No rank is below the one before it.
  abbrev pub Ascending : (A → ℕ) → List A → Type 0
  Ascending rank [] = Unit
  Ascending rank (x ∷ []) = Unit
  Ascending rank (x ∷ y ∷ xs) = (rank x ≤ rank y) × Ascending rank (y ∷ xs)

  abbrev pub count_if : (A → Bool) → List A → ℕ
  count_if p [] = 0
  count_if p (x ∷ xs) = to_nat (p x) + count_if p xs

  -- On the values that are `good`, the comparator says how their ranks compare.
  abbrev pub Ranks : (A → A → Sign) → (A → ℕ) → (A → Type 0) → Type 0
  Ranks cmp rank good = (a b : A) → good a → good b → cmp a b ≡ sign_int (rank a) (rank b)

-- What the C library says of `qsort_r`: the list keeps its elements, and where the comparator
-- follows an order it is in that order.
pub record IsSort (qsort_r : (A : Type 0) → (A → A → Sign) → List A → List A) : Type 1 where
  pub ordered :
      (A : Type 0) (cmp : A → A → Sign) (rank : A → ℕ) (good : A → Type 0)
      → Ranks cmp rank good
      → (xs : List A) → All good xs
      → Ascending rank (qsort_r A cmp xs)
  pub kept :
      (A : Type 0) (cmp : A → A → Sign) (p : A → Bool) (xs : List A)
      → count_if p (qsort_r A cmp xs) ≡ count_if p xs

-- The counter that a column shows for a process.
abbrev pub column : ColsSort → Process → ℕ
column s_pid p = p.pid
column pps_tx p = p.net_stat.avg_pps_tx
column pps_rx p = p.net_stat.avg_pps_rx
column rate_tx p = p.net_stat.avg_bps_tx
column rate_rx p = p.net_stat.avg_bps_rx
column tot_tx p = p.net_stat.tot_bps_tx
column tot_rx p = p.net_stat.tot_bps_rx

-- The first rank goes to the largest counter, and to the smallest process identifier.
abbrev pub down : ℕ → ℕ
down n = 2 ^ 63 - n

abbrev pub rank : ColsSort → Process → ℕ
rank s_pid p = p.pid
rank pps_tx p = down (column pps_tx p)
rank pps_rx p = down (column pps_rx p)
rank rate_tx p = down (column rate_tx p)
rank rate_rx p = down (column rate_rx p)
rank tot_tx p = down (column tot_tx p)
rank tot_rx p = down (column tot_rx p)

abbrev pub InRange : ColsSort → Process → Type 0
InRange mode p = column mode p < 2 ^ 63

-- While the counters stay below 2 ^ 63, `compare_process` puts the larger counter, or the smaller
-- process identifier, first.
pub compare_process-Ranks :
    (mode : ColsSort) → Ranks (compare_process mode) (rank mode) (InRange mode)
unfolding compare_process
compare_process-Ranks s_pid a b h k = refl
compare_process-Ranks pps_tx a b h k = ground arith
compare_process-Ranks pps_rx a b h k = ground arith
compare_process-Ranks rate_tx a b h k = ground arith
compare_process-Ranks rate_rx a b h k = ground arith
compare_process-Ranks tot_tx a b h k = ground arith
compare_process-Ranks tot_rx a b h k = ground arith

compare_connection-Ranks :
    (mode : ColsSort)
    → Ranks
        (compare_connection mode)
        (λ c. down (conn_column mode c))
        (λ c. conn_column mode c < 2 ^ 63)
unfolding compare_connection
compare_connection-Ranks mode a b h k = ground arith

Ascending-map :
    {A : Type 0} (rank : A → ℕ) (f : A → A)
    → ((a : A) → rank (f a) ≡ rank a)
    → (xs : List A) → Ascending rank xs
    → Ascending rank (map f xs)
Ascending-map rank f same [] h = h
Ascending-map rank f same (x ∷ []) h = h
Ascending-map rank f same (x ∷ y ∷ xs) (le, h) =
    (omega (arith, le, same x, same y), Ascending-map rank f same (y ∷ xs) h)

count_if-map :
    {A : Type 0} (p : A → Bool) (f : A → A)
    → ((a : A) → p (f a) ≡ p a)
    → (xs : List A) → count_if p (map f xs) ≡ count_if p xs
count_if-map p f same [] = refl
count_if-map p f same (x ∷ xs) = rw (same x) (omega (arith, count_if-map p f same xs))

module _ (qsort_r : (A : Type 0) → (A → A → Sign) → List A → List A) (laws : IsSort qsort_r)
    (store : List Connection) (other : Connection) where
  rank-sort_conections :
      (mode : ColsSort) (p : Process)
      → rank mode (sort_conections qsort_r store other mode p) ≡ rank mode p
  rank-sort_conections s_pid p = refl
  rank-sort_conections pps_tx p = refl
  rank-sort_conections pps_rx p = refl
  rank-sort_conections rate_tx p = refl
  rank-sort_conections rate_rx p = refl
  rank-sort_conections tot_tx p = refl
  rank-sort_conections tot_rx p = refl

  -- With a `qsort_r` that sorts, and while the counters of the column stay below 2 ^ 63, `sort` puts
  -- the processes in the order of the column, the largest counter first or the smallest process
  -- identifier, and keeps each process as often as it was there.
  pub sort-Ascending :
      (procs : List Process) (mode : ColsSort) (view_conections : Bool)
      → All (InRange mode) procs
      → Ascending (rank mode) (sort qsort_r store other procs mode view_conections)
        × ((q : ℕ → Bool)
            → count_if (λ p. q p.pid) (sort qsort_r store other procs mode view_conections)
              ≡ count_if (λ p. q p.pid) procs)
  unfolding sort
  sort-Ascending procs mode false h = (
    laws.ordered Process (compare_process mode) (rank mode) (InRange mode)
        (compare_process-Ranks mode) procs h,
    λ q. laws.kept Process (compare_process mode) (λ p. q p.pid) procs,
  )
  sort-Ascending procs mode true h = (
    Ascending-map (rank mode) (sort_conections qsort_r store other mode) (rank-sort_conections mode)
        (qsort_r Process (compare_process mode) procs)
        (laws.ordered Process (compare_process mode) (rank mode) (InRange mode)
          (compare_process-Ranks mode) procs h),
    λ q.
        count_if-map (λ p. q p.pid) (sort_conections qsort_r store other mode) (λ p. refl)
          (qsort_r Process (compare_process mode) procs)
        ∙ laws.kept Process (compare_process mode) (λ p. q p.pid) procs,
  )

  -- Under the same conditions the connections of a process come in the order of the column.
  pub sort_conections-Ascending :
      (mode : ColsSort) (p : Process)
      → All (λ c. conn_column mode (get_or store c other) < 2 ^ 63) p.conections
      → Ascending
          (λ c. down (conn_column mode (get_or store c other)))
          (sort_conections qsort_r store other mode p).conections
  sort_conections-Ascending mode p h =
      laws.ordered ℕ (λ c d. compare_connection mode (get_or store c other) (get_or store d other))
        (λ c. down (conn_column mode (get_or store c other)))
        (λ c. conn_column mode (get_or store c other) < 2 ^ 63)
        (λ a b g k. compare_connection-Ranks mode (get_or store a other) (get_or store b other) g k)
        p.conections h
