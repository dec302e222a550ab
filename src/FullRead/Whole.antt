-- ===== src/FullRead/Whole.antt =====
-- What src/full_read.c has read when it ends.
use Prim.Native.Nat.{min}
use mathlib.Core.Path.{subst}
use mathlib.Core.List.{append_assoc, append-nil}
use netproc.Base.{
  ℕ, zero, suc, ◌+◌, ◌-◌, ◌≤◌, ◌<◌, ◌≡◌, refl, ap, ◌∙◌, Bool, true, false, List, [], ◌∷◌, ◌++◌,
  ◌==◌, ◌&&◌, not, length, take, drop, length-append, length-take, arith,
}
use netproc.FullRead.{
  Read, interrupted, failing, up_to, Outcome, total_read, entry_size_buff, grow, read_loop,
  full_read,
}

-- There is memory in every round, and no call fails but by an interruption.
abbrev pub Fine : List (Bool × Read) → Type 0
Fine [] = Unit
Fine ((memory, interrupted) ∷ reads) = (memory ≡ true) × Fine reads
Fine ((memory, failing) ∷ reads) = ⊥
Fine ((memory, up_to n) ∷ reads) = (memory ≡ true) × Fine reads

-- The calls that are not interrupted.
abbrev pub calls : List (Bool × Read) → ℕ
calls [] = 0
calls ((memory, interrupted) ∷ reads) = calls reads
calls ((memory, failing) ∷ reads) = calls reads
calls ((memory, up_to n) ∷ reads) = suc (calls reads)

-- The whole text is in a buffer that it fits in, with less than one step more room than it takes.
abbrev pub Whole : List ℕ → Outcome → Type 0
Whole text r =
    (size : ℕ) × (r ≡ total_read text size)
    × (length text ≤ size)
    × (size ≤ length text + entry_size_buff)

take-drop : (n : ℕ) (xs : List ℕ) → take n xs ++ drop n xs ≡ xs
take-drop zero xs = refl
take-drop (suc n) [] = refl
take-drop (suc n) (x ∷ xs) = ap (λ r. x ∷ r) (take-drop n xs)

length-drop : (n : ℕ) (xs : List ℕ) → length (drop n xs) ≡ length xs - n
length-drop zero xs = omega arith
length-drop (suc n) [] = omega arith
length-drop (suc n) (x ∷ xs) = omega (arith, length-drop n xs)

no_failure : (b memory : Bool) → memory ≡ true → (b && not memory) ≡ false
no_failure true memory e = ground (arith, e)
no_failure false memory e = refl

grow_room :
    (count size n : ℕ)
    → count + n ≡ size
    → count ≤ 64
    → (0 < (grow count size).0)
      × ((grow count size).0 + n ≡ (grow count size).1)
      × ((grow count size).0 ≤ 64)
grow_room count size n e h = ground (arith, e, h)

read_loop-Whole :
    (reads : List (Bool × Read)) (count size : ℕ) (text content : List ℕ)
    → Fine reads
    → length content < calls reads
    → count + length text ≡ size
    → count ≤ 64
    → Whole (text ++ content) (read_loop reads count size text content)
unfolding read_loop
read_loop-Whole [] count size text content fine more e h = absurd (omega (arith, more))
read_loop-Whole ((memory, interrupted) ∷ reads) count size text content (m, fine) more e h =
    let (pos, e', h') = grow_room count size (length text) e h in
    rw (no_failure (count == 0) memory m)
      (read_loop-Whole reads (grow count size).0 (grow count size).1 text content fine more e' h')
read_loop-Whole ((memory, failing) ∷ reads) count size text content fine more e h = absurd fine
read_loop-Whole ((memory, up_to n) ∷ reads) count size text [] (m, fine) more e h =
    let (pos, e', h') = grow_room count size (length text) e h in
    rw (no_failure (count == 0) memory m, append-nil text)
      ((grow count size).1, refl, omega (arith, e'), omega (arith, e', h'))
read_loop-Whole ((memory, up_to n) ∷ reads) count size text (c ∷ content) (m, fine) more e h =
    let (pos, e', h') = grow_room count size (length text) e h in
    let k = min (suc n) (grow count size).0 in
    let all = c ∷ content in
    let bytes = take k all in
    let taken : length bytes ≡ min k (length all) = length-take k all in
    let whole : (text ++ bytes) ++ drop k all ≡ text ++ all =
      append_assoc text bytes (drop k all) ∙ ap (λ r. text ++ r) (take-drop k all) in
    let i =
      read_loop-Whole reads ((grow count size).0 - length bytes) (grow count size).1 (text ++ bytes)
        (drop k all) fine (omega (arith, more, length-drop k all, pos))
        (omega (arith, e', taken, length-append text bytes)) (omega (arith, h')) in
    rw (no_failure (count == 0) memory m) (
      subst
        (λ xs. Whole xs (
          read_loop reads ((grow count size).0 - length bytes) (grow count size).1 (text ++ bytes)
            (drop k all)))
        whole i)

-- Where no call fails and there is memory, and `read` is called often enough beside its
-- interruptions, once for each byte and once more, the loop ends with the whole file, however the
-- calls cut it, in a buffer that it fits in with at most 64 bytes to spare.
pub full_read-Whole :
    (reads : List (Bool × Read)) (content : List ℕ)
    → Fine reads
    → length content < calls reads
    → Whole content (full_read reads content)
unfolding full_read
full_read-Whole reads content fine more =
    read_loop-Whole reads 0 0 [] content fine more refl (omega arith)
