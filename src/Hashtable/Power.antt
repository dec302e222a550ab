-- ===== src/Hashtable/Power.antt =====
-- `next_power2` of src/hashtable.c: the smearing of the highest bit, step by step.
use Prim.Native.Nat.{bit_or}
use native.Mathlib.Nat.{
  div-eq_of_lt, div-lt_iff_lt-mul, div-eq_of_lt-le, div-le_self, div-one, pow-le-pow_right,
}
use native.Mathlib.Decide.{dec_le}
use netproc.Base.{
  ℕ, zero, suc, ◌+◌, ◌-◌, ◌*◌, ◌/◌, ◌^◌, ◌≤◌, ◌<◌, ◌≡◌, refl, ap, sym, ◌∙◌, ◌⊎◌, inl, inr, arith,
  add64, sub64,
}
use netproc.Base.Bits.{
  bit_or-shift, bit_or_ones, bit_or-zero, zero-bit_or, two_pow-pos, two_pow-suc, two_pow-add,
  div-two_pow-add, ones-shift, highest_bit,
}
use netproc.Hashtable.{smear, next_power2}

-- Of `w` bits all are ones but the low `m`, which are free.
record TopOnes (w m s : ℕ) : Type 0 where
  low : m ≤ w
  small : s < 2 ^ w
  ones : s / 2 ^ m ≡ 2 ^ (w - m) - 1

-- What stands above `m` is ones too.
TopOnes-shift : {w m s : ℕ} (i : ℕ) → TopOnes w m s → m ≤ i → i ≤ w → s / 2 ^ i ≡ 2 ^ (w - i) - 1
TopOnes-shift {w} {m} {s} i t lo hi =
    let e : m + (i - m) ≡ i = omega arith in
    let f : w - m ≡ (w - i) + (i - m) = omega arith in
    sym (div-two_pow-add s m (i - m) ∙ ap (λ k. s / 2 ^ k) e)
    ∙ rw (t.ones, f) (ones-shift (w - i) (i - m))

bit_or-small : (w a b : ℕ) → a < 2 ^ w → b < 2 ^ w → bit_or a b < 2 ^ w
bit_or-small w a b ha hb =
    let none_above : bit_or a b / 2 ^ w ≡ 0 =
      bit_or-shift w a b ∙ rw (div-eq_of_lt ha, div-eq_of_lt hb) (zero-bit_or 0) in
    omega (
      arith,
      (div-lt_iff_lt-mul {k = 2 ^ w} {x = bit_or a b} {y = 1} (two_pow-pos w)).0 (omega arith),
    )

top_regroup : (p q : ℕ) → 0 < p → 0 < q → (p - 1) * q + (q - 1) ≡ p * q - 1
top_regroup p q hp hq =
    let e : p ≡ p - 1 + 1 = omega arith in omega (arith, ap (λ (k : ℕ). k * q) e)

-- One line of `next_power2` doubles the number of ones at the top.
smear-ones :
    {w m s : ℕ} (k : ℕ)
    → TopOnes w m s
    → k ≤ w - m
    → smear k s / 2 ^ (m - k) ≡ 2 ^ (w - (m - k)) - 1
unfolding smear
smear-ones {w} {m} {s} k t h =
    let low = t.low in
    let a = m - k in
    let r = w - (k + a) in
    let e : a + r ≡ w - k = omega arith in
    let f : w - (w - k) ≡ k = omega arith in
    let g : w - a ≡ k + r = omega arith in
    let top = TopOnes-shift (k + a) t (omega arith) (omega arith) in
    let up = TopOnes-shift (w - k) t (omega arith) (omega arith) in
    bit_or-shift a s (s / 2 ^ k)
    ∙ (ap (λ b. bit_or (s / 2 ^ a) b) (div-two_pow-add s k a ∙ top)
        ∙ (bit_or_ones r (s / 2 ^ a)
            ∙ rw (div-two_pow-add s a r, e, up, f, g, two_pow-add k r)
                (top_regroup (2 ^ k) (2 ^ r) (two_pow-pos k) (two_pow-pos r))))

smear_room : {w m s : ℕ} (k : ℕ) → TopOnes w m s → k ≤ w - m → TopOnes w (m - k) (smear k s)
unfolding smear
smear_room {w} {m} {s} k t h =
    let low = t.low in
    record {
      low = omega arith;
      small = bit_or-small w s (s / 2 ^ k) t.small (omega (arith, t.small, div-le_self s (2 ^ k)));
      ones = smear-ones k t h;
    }

smear_wide : {w m s : ℕ} (k : ℕ) → TopOnes w m s → m ≡ 0 → w ≤ k → TopOnes w (m - k) (smear k s)
unfolding smear
smear_wide {w} {m} {s} k t e h =
    let wide : 2 ^ w ≤ 2 ^ k = pow-le-pow_right (omega arith) h in
    let gone : s / 2 ^ k ≡ 0 = div-eq_of_lt (omega (arith, t.small)) in
    let still : m - k ≡ m = omega arith in rw (gone, bit_or-zero s, still) t

-- A line whose shift is at most the number of ones at the top doubles them, and any line keeps a
-- number that is all ones.
smear-TopOnes :
    {w m s : ℕ} (k : ℕ) → TopOnes w m s → (k ≤ w - m) ⊎ (m ≡ 0) → TopOnes w (m - k) (smear k s)
smear-TopOnes k t (inl h) = smear_room k t h
smear-TopOnes {w} {m} {s} k t (inr e) = elim (dec_le k w) [
  | yes h ↦ smear_room k t (omega arith)
  | no h ↦ smear_wide k t e (omega arith)
]

ready : (w m k : ℕ) → m ≤ w - k ⊎ (m ≡ 0) → m ≤ w → (k ≤ w - m) ⊎ (m ≡ 0)
ready w m k h low = grind arith

highest-TopOnes : (n t : ℕ) → 2 ^ n ≤ t → t < 2 ^ suc n → TopOnes (suc n) n t
highest-TopOnes n t lo hi = record {
  low = omega arith;
  small = hi;
  ones =
      let e : suc n - n ≡ 1 = omega arith in
      rw e (div-eq_of_lt-le {k = 1} (2 ^ n) (omega arith) (omega (arith, two_pow-suc n)));
}

smear_all : ℕ → ℕ
smear_all s = smear 32 (smear 16 (smear 8 (smear 4 (smear 2 (smear 1 s)))))

-- The six lines fill every bit below the highest one.
smear_all-ones : (n t : ℕ) → n < 64 → 2 ^ n ≤ t → t < 2 ^ suc n → smear_all t ≡ 2 ^ suc n - 1
unfolding smear_all
smear_all-ones n t w lo hi =
    let a = smear-TopOnes 1 (highest-TopOnes n t lo hi) (inl (omega arith)) in
    let b = smear-TopOnes 2 a (grind arith) in
    let c = smear-TopOnes 4 b (grind arith) in
    let d = smear-TopOnes 8 c (grind arith) in
    let e = smear-TopOnes 16 d (grind arith) in
    let f = smear-TopOnes 32 e (grind arith) in
    let z : n - 1 - 2 - 4 - 8 - 16 - 32 ≡ 0 = omega arith in
    let g : suc n - (n - 1 - 2 - 4 - 8 - 16 - 32) ≡ suc n = omega arith in
    sym (div-one (smear_all t)) ∙ (rw (g, z) at f.ones)

next_power2_eq : (s : ℕ) → next_power2 s ≡ add64 (smear_all (sub64 s 1)) 1
unfolding next_power2 smear_all
next_power2_eq s = refl

next_power2-one : next_power2 1 ≡ 1
unfolding next_power2 smear
next_power2-one = refl

-- The size 0 wraps round and stays 0.
pub next_power2-zero : next_power2 0 ≡ 0
unfolding next_power2 smear
next_power2-zero = refl

-- For a size from 1 to 2 ^ 63, `next_power2` is the least power of two that is not below it.
pub next_power2_lem :
    (s : ℕ)
    → 0 < s
    → s ≤ 2 ^ 63
    → (k : ℕ) × (k ≤ 63) × (next_power2 s ≡ 2 ^ k) × (s ≤ 2 ^ k) × (2 ^ k < 2 * s)
next_power2_lem zero pos hi = absurd (omega arith)
next_power2_lem (suc zero) pos hi = (0, omega arith, next_power2-one, omega arith, omega arith)
next_power2_lem (suc (suc s)) pos hi =
    let t = suc s in
    let (n, w, lo, up) = highest_bit 63 t (omega arith) (omega arith) in
    let filled = smear_all-ones n t (omega arith) lo up in
    let big : 2 ^ suc n ≤ 2 ^ 63 = pow-le-pow_right (omega arith) w in
    (
      suc n,
      w,
      next_power2_eq (suc t)
          ∙ (ap (λ k. add64 (smear_all k) 1) {x = sub64 (suc t) 1} {y = t} (omega arith)
              ∙ (ap (λ k. add64 k 1) filled ∙ omega (arith, two_pow-pos (suc n)))),
      omega arith,
      omega (arith, two_pow-suc n),
    )
