-- ===== src/HumanReadable.antt =====
-- src/human_readable.c: a number of bytes or bits as a text with a unit. What `snprintf` is asked to
-- write is a value here; the length that it says it has written is a parameter, since it is no part
-- of the program.
pub mod Scale
mod Tests
use Prim.Native.String.{String}
use netproc.Base.{
  ℕ, zero, suc, ◌+◌, ◌-◌, ◌*◌, ◌/◌, ◌<◌, ◌≤◌, Bool, true, false, not, Option, none, some, List, [],
  ◌∷◌, if◌then◌else◌, ltb, ◌==◌, ◌&&◌, ◌||◌, get_or,
}

abbrev pub base_iec : ℕ
base_iec = 1024

abbrev pub base_si : ℕ
base_si = 1000

abbrev pub tot_elements_sufix : ℕ
tot_elements_sufix = 6

pub data SufixType : Type 0 where
  iec_byte : SufixType
  iec_bit : SufixType
  si_byte : SufixType
  si_bit : SufixType
  iec_byte_tot : SufixType
  iec_bit_tot : SufixType
  si_byte_tot : SufixType
  si_bit_tot : SufixType

abbrev pub sufix_schemes : SufixType → List String
sufix_schemes iec_byte = "B/s" ∷ "KiB/s" ∷ "MiB/s" ∷ "GiB/s" ∷ "TiB/s" ∷ "PiB/s" ∷ []
sufix_schemes iec_bit = "b/s" ∷ "Kib/s" ∷ "Mib/s" ∷ "Gib/s" ∷ "Tib/s" ∷ "Pib/s" ∷ []
sufix_schemes si_byte = "B/s" ∷ "KB/s" ∷ "MB/s" ∷ "GB/s" ∷ "TB/s" ∷ "PB/s" ∷ []
sufix_schemes si_bit = "b/s" ∷ "Kb/s" ∷ "Mb/s" ∷ "Gb/s" ∷ "Tb/s" ∷ "Pb/s" ∷ []
sufix_schemes iec_byte_tot = "B" ∷ "KiB" ∷ "MiB" ∷ "GiB" ∷ "TiB" ∷ "PiB" ∷ []
sufix_schemes iec_bit_tot = "b" ∷ "Kib" ∷ "Mib" ∷ "Gib" ∷ "Tib" ∷ "Pib" ∷ []
sufix_schemes si_byte_tot = "B" ∷ "KB" ∷ "MB" ∷ "GB" ∷ "TB" ∷ "PB" ∷ []
sufix_schemes si_bit_tot = "b" ∷ "Kb" ∷ "Mb" ∷ "Gb" ∷ "Tb" ∷ "Pb" ∷ []

-- The three static variables of the file.
pub record Units : Type 0 where
  pub base : ℕ
  pub sufix_rate : SufixType
  pub sufix_total : SufixType

unfoldable pub define_sufix : Bool → Bool → Units
define_sufix true true = record { base = base_si; sufix_rate = si_byte; sufix_total = si_byte_tot }
define_sufix true false = record { base = base_si; sufix_rate = si_bit; sufix_total = si_bit_tot }
define_sufix false true = record {
  base = base_iec;
  sufix_rate = iec_byte;
  sufix_total = iec_byte_tot;
}
define_sufix false false = record {
  base = base_iec;
  sufix_rate = iec_bit;
  sufix_total = iec_bit_tot;
}

pub data Mode : Type 0 where
  rate : Mode
  total : Mode

-- What is written: the digit 0, a whole number, or the quotient of two numbers with two decimals.
pub data Written : Type 0 where
  nothing : Written
  whole : ℕ → String → Written
  scaled : ℕ → ℕ → String → Written

-- The loop from `i` on, with `left` rounds to come; after the last round it has no result.
unfoldable pub scale : ℕ → List String → ℕ → ℕ → ℕ → Option Written
scale base sufix zero i bytes = none
scale base sufix (suc left) i bytes =
    let rest = scale base sufix left (i + 1) (bytes / base) in
    if ltb (bytes / base) base || (i == tot_elements_sufix - 1)
    then some (scaled bytes base (get_or sufix i ""))
    else rest

abbrev pub sufix_of : Units → Mode → List String
sufix_of u rate = sufix_schemes u.sufix_rate
sufix_of u total = sufix_schemes u.sufix_total

-- The text, if any, before the length of it is looked at.
unfoldable pub readable : Units → ℕ → Mode → Option Written
unfolding scale
readable u bytes mode =
    let sufix = sufix_of u mode in
    if bytes == 0
    then some nothing
    else if ltb bytes u.base
    then some (whole bytes (get_or sufix 0 ""))
    else scale u.base sufix (tot_elements_sufix - 1) 1 bytes

module _ (snprintf : Written → ℕ) where
  -- The result for what was written.
  abbrev pub fits : ℕ → Option Written → Bool
  fits len_buff none = false
  fits len_buff (some nothing) = snprintf nothing == 1
  fits len_buff (some (whole n s)) =
      ltb 0 (snprintf (whole n s)) && ltb (snprintf (whole n s)) len_buff
  fits len_buff (some (scaled m b s)) =
      ltb 0 (snprintf (scaled m b s)) && ltb (snprintf (scaled m b s)) len_buff

  unfoldable pub human_readable : Units → ℕ → ℕ → Mode → Option Written × Bool
  unfolding readable
  human_readable u len_buff bytes mode =
      let text = readable u bytes mode in (text, fits len_buff text)
