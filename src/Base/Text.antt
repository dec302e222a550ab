-- ===== src/Base/Text.antt =====
-- C's strings as their bytes, without the one that ends them, and what the source calls on them.
use Prim.Native.Nat.{ℕ, ◌+◌, ◌-◌, ◌*◌, ◌%◌}
use Prim.Native.Char.{code}
use Prim.Native.String as Native
use mathlib.Core.Bool.{Bool, true, false, ◌&&◌, ◌||◌}
use mathlib.Core.List.{List, [], ◌∷◌, map}
use netproc.Base.Tests.{leb, ◌==◌, if◌then◌else◌}
use netproc.Base.Words.{u32_mod, sub32}

abbrev pub codes : Native.String → List ℕ
codes Native.String.[] = []
codes (Native.String.◌∷◌ c s) = code c ∷ codes s

-- `!strcmp`
abbrev pub str_eq : List ℕ → List ℕ → Bool
str_eq [] [] = true
str_eq [] (y ∷ ys) = false
str_eq (x ∷ xs) [] = false
str_eq (x ∷ xs) (y ∷ ys) = (x == y) && str_eq xs ys

-- `tolower` of the C locale
abbrev pub to_lower : ℕ → ℕ
to_lower c = if leb b'A' c && leb c b'Z' then c + 32 else c

-- `!strcasecmp`
abbrev pub str_case_eq : List ℕ → List ℕ → Bool
str_case_eq s t = str_eq (map to_lower s) (map to_lower t)

-- `isspace`, `isdigit`
abbrev pub is_space : ℕ → Bool
is_space c = (c == 32) || (leb 9 c && leb c 13)

abbrev pub is_digit : ℕ → Bool
is_digit c = leb b'0' c && leb c b'9'

abbrev pub digits_value : ℕ → List ℕ → ℕ
digits_value n [] = n
digits_value n (c ∷ s) =
    let rest = digits_value (n * 10 + (c - b'0')) s in if is_digit c then rest else n

abbrev pub signed_value : List ℕ → ℕ
signed_value [] = 0
signed_value (c ∷ s) =
    if c == b'-'
    then sub32 0 (digits_value 0 s % u32_mod)
    else if c == b'+'
    then digits_value 0 s % u32_mod
    else digits_value 0 (c ∷ s) % u32_mod

-- `atoi`, as the 32 bits of its result; C leaves open what a number too large for them gives.
unfoldable pub atoi : List ℕ → ℕ
atoi [] = 0
atoi (c ∷ s) = let rest = atoi s in if is_space c then rest else signed_value (c ∷ s)
