-- ===== src/Config.antt =====
-- src/config.c and config.h: the options of the command line. A string is its bytes; `argv` is the
-- list of the arguments after the program's name, whose end stands for the NULL there, and `argc` is
-- counted beside it, as in the code.
pub mod Options
pub mod Written
mod Tests
use Prim.Native.Nat.{bit_and}
use netproc.Filter.{tcp, udp}
use netproc.Base.{
  ℕ, zero, suc, ◌+◌, ◌-◌, Bool, true, false, ◌||◌, Option, none, some, List, [], ◌∷◌, if◌then◌else◌,
  ◌==◌, to_nat, not, codes, str_eq, str_case_eq, atoi,
}

abbrev pub prog_name_log : List ℕ
prog_name_log = codes "netproc.log"

-- `struct config_op`, but for `running`, which the main loop counts.
pub record ConfigOp : Type 0 where
  pub iface : Option (List ℕ)
  pub path_log : List ℕ
  pub proto : ℕ
  pub color_scheme : ℕ
  pub log : Bool
  pub view_si : Bool
  pub view_bytes : Bool
  pub view_conections : Bool
  pub translate_host : Bool
  pub translate_service : Bool
  pub verbose : Bool

-- `co`
abbrev pub default_config : ConfigOp
default_config = record {
  iface = none;
  path_log = prog_name_log;
  proto = 3;
  color_scheme = 0;
  log = false;
  view_si = false;
  view_bytes = false;
  view_conections = false;
  translate_host = true;
  translate_service = true;
  verbose = false;
}

-- How a function of the table ends: it returns, exits with a failure, or exits after it has printed
-- what was asked for. The last is no end of the program: NULL is read as a string, or the count of
-- the arguments runs below 0.
pub data Outcome : Type 0 where
  returns : ConfigOp → Outcome
  exit_failure : Outcome
  exit_success : Outcome
  overrun : Outcome

abbrev pub and_then : Outcome → (ConfigOp → Outcome) → Outcome
and_then (returns co) f = f co
and_then exit_failure f = exit_failure
and_then exit_success f = exit_success
and_then overrun f = overrun

abbrev pub set_view_bytes : Option (List ℕ) → ConfigOp → Outcome
set_view_bytes arg co = returns (record co { view_bytes = true })

abbrev pub set_view_conections : Option (List ℕ) → ConfigOp → Outcome
set_view_conections arg co = returns (record co { view_conections = true })

-- `value &= 0x3`, and the scheme from it.
abbrev pub scheme_of : ℕ → ℕ
scheme_of value = bit_and value 3 - to_nat (not (bit_and value 3 == 0))

unfoldable pub set_color_scheme : Option (List ℕ) → ConfigOp → Outcome
unfolding atoi
set_color_scheme none co = exit_failure
set_color_scheme (some arg) co =
    let value = atoi arg in
    if value == 0 then exit_failure else returns (record co { color_scheme = scheme_of value })

abbrev pub log_file : Option (List ℕ) → ConfigOp → Outcome
log_file none co = returns (record co { log = true })
log_file (some arg) co = returns (record co { log = true; path_log = arg })

abbrev pub show_help : Option (List ℕ) → ConfigOp → Outcome
show_help arg co = exit_success

abbrev pub set_iface : Option (List ℕ) → ConfigOp → Outcome
set_iface none co = exit_failure
set_iface (some arg) co = returns (record co { iface = some arg })

abbrev pub show_numeric_host : Option (List ℕ) → ConfigOp → Outcome
show_numeric_host arg co = returns (record co { view_conections = true; translate_host = false })

abbrev pub show_numeric_port : Option (List ℕ) → ConfigOp → Outcome
show_numeric_port arg co = returns (record co { view_conections = true; translate_service = false })

abbrev pub show_numeric : Option (List ℕ) → ConfigOp → Outcome
show_numeric arg co = and_then (show_numeric_host none co) (show_numeric_port none)

abbrev pub set_proto : Option (List ℕ) → ConfigOp → Outcome
set_proto none co = exit_failure
set_proto (some arg) co =
    if str_case_eq arg (codes "tcp")
    then returns (record co { proto = bit_and co.proto tcp })
    else if str_case_eq arg (codes "udp")
    then returns (record co { proto = bit_and co.proto udp })
    else exit_failure

abbrev pub set_view_si : Option (List ℕ) → ConfigOp → Outcome
set_view_si arg co = returns (record co { view_si = true })

abbrev pub set_verbose : Option (List ℕ) → ConfigOp → Outcome
set_verbose arg co = returns (record co { verbose = true })

abbrev pub version : Option (List ℕ) → ConfigOp → Outcome
version arg co = exit_success

-- The values of `cmd.req_arg`.
pub data ReqArg : Type 0 where
  no_arg : ReqArg
  req_arg : ReqArg
  opt_arg : ReqArg

-- `struct cmd`
pub record Cmd : Type 0 where
  pub cur_opt : List ℕ
  pub long_opt : List ℕ
  pub func : Option (List ℕ) → ConfigOp → Outcome
  pub req : ReqArg

abbrev pub entry : List ℕ → List ℕ → (Option (List ℕ) → ConfigOp → Outcome) → ReqArg → Cmd
entry short long f r = record { cur_opt = short; long_opt = long; func = f; req = r }

abbrev pub cmd : List Cmd
cmd =
    entry (codes "-B") (codes "--bytes") set_view_bytes no_arg
    ∷ entry (codes "-c") [] set_view_conections no_arg
    ∷ entry [] (codes "--color") set_color_scheme req_arg
    ∷ entry (codes "-f") (codes "--file") log_file opt_arg
    ∷ entry (codes "-h") (codes "--help") show_help no_arg
    ∷ entry (codes "-i") (codes "--interface") set_iface req_arg
    ∷ entry (codes "-n") [] show_numeric no_arg
    ∷ entry (codes "-nh") [] show_numeric_host no_arg
    ∷ entry (codes "-np") [] show_numeric_port no_arg
    ∷ entry (codes "-p") (codes "--protocol") set_proto req_arg
    ∷ entry [] (codes "--si") set_view_si no_arg
    ∷ entry (codes "-v") (codes "--verbose") set_verbose no_arg
    ∷ entry (codes "-V") (codes "--version") version no_arg
    ∷ []

unfoldable pub check_cmd : List ℕ → Cmd → Bool
check_cmd arg c = str_eq arg c.cur_opt || str_eq arg c.long_opt

-- The loop over the table.
unfoldable pub find_cmd : List ℕ → List Cmd → Option Cmd
unfolding check_cmd
find_cmd arg [] = none
find_cmd arg (c ∷ cs) = let rest = find_cmd arg cs in if check_cmd arg c then some c else rest

-- `*argv == NULL || **argv == '-'`, of what comes after an option.
abbrev pub no_value : List (List ℕ) → Bool
no_value [] = true
no_value ([] ∷ argv) = false
no_value ((c ∷ arg) ∷ argv) = c == b'-'

-- The call of the function and the rest of the loop. The rest comes for an option without a value,
-- and for one with: then one argument less is left to count.
abbrev pub dispatch :
    Cmd → ReqArg → List (List ℕ) → ConfigOp → (ConfigOp → Outcome) → (ConfigOp → Outcome) → Outcome
dispatch c no_arg argv co rest after = and_then (c.func none co) rest
dispatch c req_arg [] co rest after = and_then (c.func none co) after
dispatch c req_arg (arg ∷ argv) co rest after = and_then (c.func (some arg) co) after
dispatch c opt_arg [] co rest after = and_then (c.func none co) rest
dispatch c opt_arg (arg ∷ argv) co rest after =
    if no_value (arg ∷ argv)
    then and_then (c.func none co) rest
    else and_then (c.func (some arg) co) after

abbrev pub find_result :
    Option Cmd → List (List ℕ) → ConfigOp → (ConfigOp → Outcome) → (ConfigOp → Outcome) → Outcome
find_result none argv co rest after = exit_failure
find_result (some c) argv co rest after = dispatch c c.req argv co rest after

-- `while ( --argc )`, where so many arguments are left to count.
unfoldable pub parse_loop : ℕ → List (List ℕ) → ConfigOp → Outcome
unfolding find_cmd
parse_loop zero argv co = returns co
parse_loop (suc argc) [] co = overrun
parse_loop (suc zero) (arg ∷ []) co =
    find_result (find_cmd arg cmd) [] co (λ co. returns co) (λ co. overrun)
parse_loop (suc zero) (arg ∷ next ∷ argv) co =
    find_result (find_cmd arg cmd) (next ∷ argv) co (λ co. returns co) (λ co. overrun)
parse_loop (suc (suc argc)) (arg ∷ []) co =
    find_result (find_cmd arg cmd) [] co (λ co. overrun) (parse_loop argc [])
parse_loop (suc (suc argc)) (arg ∷ next ∷ argv) co =
    find_result (find_cmd arg cmd) (next ∷ argv) co (parse_loop (suc argc) (next ∷ argv))
      (parse_loop argc argv)

-- `argc` counts the program's name too.
unfoldable pub parse_options : ℕ → List (List ℕ) → Outcome
unfolding parse_loop
parse_options zero argv = overrun
parse_options (suc argc) argv = parse_loop argc argv default_config
