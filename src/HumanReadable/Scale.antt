-- ===== src/HumanReadable/Scale.antt =====
-- The unit that src/human_readable.c chooses.
use Prim.Native.String.{String}
use mathlib.Core.Path.{subst}
use native.Mathlib.Nat.{div-div-eq-div-mul, pow-suc, pow-zero, div-one}
use netproc.Base.{
  ℕ, zero, suc, ◌+◌, ◌-◌, ◌/◌, ◌^◌, ◌<◌, ◌≤◌, ◌≡◌, ◌⊎◌, inl, inr, refl, ap, sym, ◌∙◌, Bool, true,
  false, Option, some, List, ltb, ◌==◌, ◌||◌, get_or, arith, Bool-cases,
}
use netproc.HumanReadable.{
  Units, Mode, Written, nothing, whole, scaled, sufix_of, define_sufix, scale, readable,
  human_readable,
}

-- A number that was divided `i - 1` times by the base is written with the `i`th unit, as a quotient
-- by the base that is at least 1, and below the base unless the unit is the last.
pub record Scaled (base : ℕ) (sufix : List String) (bytes : ℕ) (text : Option Written)
    : Type 0 where
  pub i : ℕ
  pub first : 1 ≤ i
  pub last : i ≤ 5
  pub written : text ≡ some (scaled (bytes / base ^ (i - 1)) base (get_or sufix i ""))
  pub at_least : base ≤ bytes / base ^ (i - 1)
  pub below : (bytes / base ^ i < base) ⊎ (i ≡ 5)

same_index : (i : ℕ) → i + 1 - 1 ≡ i
same_index i = omega arith

div-step : (base bytes i : ℕ) → bytes / base ^ i / base ≡ bytes / base ^ (i + 1)
div-step base bytes i =
    div-div-eq-div-mul bytes (base ^ i) base
    ∙ ap (λ (k : ℕ). bytes / k) (sym (pow-suc base i) ∙ ap (λ (k : ℕ). base ^ k) (omega arith))

scale-Scaled :
    (base : ℕ) (sufix : List String) (bytes left i : ℕ)
    → i + left ≡ 5
    → 0 < left
    → base ≤ bytes / base ^ i
    → Scaled base sufix bytes (scale base sufix left (i + 1) (bytes / base ^ i))
unfolding scale
scale-Scaled base sufix bytes zero i e p h = absurd (omega arith)
scale-Scaled base sufix bytes (suc left) i e p h =
    elim (Bool-cases (ltb (bytes / base ^ i / base) base || (i + 1 == 5))) [
      | inl stop ↦ rw stop (record {
        i = i + 1;
        first = omega arith;
        last = omega arith;
        written =
            ap (λ (k : ℕ). some (scaled (bytes / base ^ k) base (get_or sufix (i + 1) "")))
              (omega arith);
        at_least = rw (same_index i) h;
        below = ground (arith, div-step base bytes i);
      })
      | inr go ↦
          rw (go, div-step base bytes i)
            (scale-Scaled base sufix bytes left (i + 1) (omega arith) (ground arith)
              (ground (arith, div-step base bytes i)))
    ]

-- The three cases of a number.
pub record Readable (u : Units) (mode : Mode) (bytes : ℕ) (text : Option Written) : Type 0 where
  pub none_left : bytes ≡ 0 → text ≡ some nothing
  pub small : 0 < bytes → bytes < u.base → text ≡ some (whole bytes (get_or (sufix_of u mode) 0 ""))
  pub large : u.base ≤ bytes → Scaled u.base (sufix_of u mode) bytes text

define_sufix-base : (si view_bytes : Bool) → 1 < (define_sufix si view_bytes).base
unfolding define_sufix
define_sufix-base true true = omega arith
define_sufix-base true false = omega arith
define_sufix-base false true = omega arith
define_sufix-base false false = omega arith

undivided : (base bytes : ℕ) → bytes / base ^ 0 ≡ bytes
undivided base bytes = ap (λ (k : ℕ). bytes / k) (pow-zero base) ∙ div-one bytes

five_rounds-Scaled :
    (base : ℕ) (sufix : List String) (bytes : ℕ)
    → base ≤ bytes
    → Scaled base sufix bytes (scale base sufix 5 1 bytes)
five_rounds-Scaled base sufix bytes h =
    subst (λ (k : ℕ). Scaled base sufix bytes (scale base sufix 5 1 k)) (undivided base bytes)
      (scale-Scaled base sufix bytes 5 0 refl (omega arith)
        (omega (arith, h, undivided base bytes)))

large-Scaled :
    (u : Units) (mode : Mode) (bytes : ℕ)
    → 1 < u.base
    → u.base ≤ bytes
    → Scaled u.base (sufix_of u mode) bytes (readable u bytes mode)
unfolding readable
large-Scaled u mode bytes big h =
    let positive : (bytes == 0) ≡ false = ground arith in
    let not_below : ltb bytes u.base ≡ false = ground arith in
    rw (positive, not_below) (five_rounds-Scaled u.base (sufix_of u mode) bytes h)

-- With the units of `define_sufix`, `human_readable` always has a text to write, its loop ends in
-- one of its five rounds, and the unit is the one that suits the number: none for 0, the first for
-- a number below the base, and else the one where the quotient is at least 1 and, but for the last
-- unit, below the base.
pub human_readable-Readable :
    (snprintf : Written → ℕ) (len_buff : ℕ) (si view_bytes : Bool) (bytes : ℕ) (mode : Mode)
    → let u = define_sufix si view_bytes in
      Readable u mode bytes (human_readable snprintf u len_buff bytes mode).0
unfolding human_readable readable
human_readable-Readable snprintf len_buff si view_bytes bytes mode =
    let u = define_sufix si view_bytes in
    let big = define_sufix-base si view_bytes in
    record {
      none_left = λ e. ground arith;
      small = λ p h. ground arith;
      large = large-Scaled u mode bytes big;
    }
