-- ===== src/Config/Written.antt =====
-- The options of src/config.c as they are written on the command line, and what each is to do.
use Prim.Native.Nat.{bit_and}
use netproc.Base.{
  ℕ, suc, ◌-◌, ◌*◌, ◌/◌, ◌%◌, ◌≡◌, refl, ap, ◌∙◌, true, false, Option, none, some, List, [], ◌∷◌,
  codes, length, if◌then◌else◌, ◌==◌, str_case_eq, atoi, arith,
}
use netproc.Base.Bits.{bit_and_step, bit_and_ones}
use netproc.Config.{
  ConfigOp, default_config, Outcome, returns, exit_failure, exit_success, overrun, and_then,
  scheme_of, set_color_scheme, set_proto, ReqArg, no_arg, req_arg, opt_arg, entry, cmd, find_cmd,
  no_value, check_cmd, parse_loop, parse_options,
}

-- An option may have a name of one letter and a long one.
pub data Form : Type 0 where
  short : Form
  long : Form

-- What the usage text offers; a name of a file does not begin with a dash.
pub data Given : Type 0 where
  bytes : Form → Given
  connections : Given
  color : List ℕ → Given
  file : Form → Given
  file_named : Form → (name : List ℕ) → no_value (name ∷ []) ≡ false → Given
  help : Form → Given
  interface : Form → List ℕ → Given
  numeric : Given
  numeric_host : Given
  numeric_port : Given
  protocol : Form → List ℕ → Given
  si : Given
  verbosely : Form → Given
  version_asked : Form → Given

-- The word that begins the option.
abbrev pub first : Given → List ℕ
first (bytes short) = codes "-B"
first (bytes long) = codes "--bytes"
first connections = codes "-c"
first (color scheme) = codes "--color"
first (file short) = codes "-f"
first (file long) = codes "--file"
first (file_named short name dashless) = codes "-f"
first (file_named long name dashless) = codes "--file"
first (help short) = codes "-h"
first (help long) = codes "--help"
first (interface short name) = codes "-i"
first (interface long name) = codes "--interface"
first numeric = codes "-n"
first numeric_host = codes "-nh"
first numeric_port = codes "-np"
first (protocol short name) = codes "-p"
first (protocol long name) = codes "--protocol"
first si = codes "--si"
first (verbosely short) = codes "-v"
first (verbosely long) = codes "--verbose"
first (version_asked short) = codes "-V"
first (version_asked long) = codes "--version"

-- The value after it, put before other words.
abbrev pub with_value : Given → List (List ℕ) → List (List ℕ)
with_value (bytes form) rest = rest
with_value connections rest = rest
with_value (color scheme) rest = scheme ∷ rest
with_value (file form) rest = rest
with_value (file_named form name dashless) rest = name ∷ rest
with_value (help form) rest = rest
with_value (interface form name) rest = name ∷ rest
with_value numeric rest = rest
with_value numeric_host rest = rest
with_value numeric_port rest = rest
with_value (protocol form name) rest = name ∷ rest
with_value si rest = rest
with_value (verbosely form) rest = rest
with_value (version_asked form) rest = rest

-- The words of an option on the command line, put before others.
abbrev pub words : Given → List (List ℕ) → List (List ℕ)
words o rest = first o ∷ with_value o rest

abbrev pub command_line : List Given → List (List ℕ)
command_line [] = []
command_line (o ∷ os) = words o (command_line os)

-- What an option is to do. The colour scheme is the low two bits of the number, from 1 on, and both
-- 0 and 1 there are the first; a protocol that is named takes the bit of the other away.
abbrev pub effect : Given → ConfigOp → Outcome
effect (bytes form) co = returns (record co { view_bytes = true })
effect connections co = returns (record co { view_conections = true })
effect (color scheme) co =
    if atoi scheme == 0
    then exit_failure
    else returns (record co { color_scheme = atoi scheme % 4 - 1 })
effect (file form) co = returns (record co { log = true })
effect (file_named form name dashless) co = returns (record co { log = true; path_log = name })
effect (help form) co = exit_success
effect (interface form name) co = returns (record co { iface = some name })
effect numeric co =
    returns
      (record co { view_conections = true; translate_host = false; translate_service = false })
effect numeric_host co = returns (record co { view_conections = true; translate_host = false })
effect numeric_port co = returns (record co { view_conections = true; translate_service = false })
effect (protocol form name) co =
    if str_case_eq name (codes "tcp")
    then returns (record co { proto = co.proto % 2 })
    else if str_case_eq name (codes "udp")
    then returns (record co { proto = co.proto / 2 % 2 * 2 })
    else exit_failure
effect si co = returns (record co { view_si = true })
effect (verbosely form) co = returns (record co { verbose = true })
effect (version_asked form) co = exit_success

-- Their effects, one after another.
abbrev pub effects : List Given → ConfigOp → Outcome
effects [] co = returns co
effects (o ∷ os) co = and_then (effect o co) (effects os)

no_value-words : (o : Given) (rest : List (List ℕ)) → no_value (words o rest) ≡ true
no_value-words (bytes short) rest = refl
no_value-words (bytes long) rest = refl
no_value-words connections rest = refl
no_value-words (color scheme) rest = refl
no_value-words (file short) rest = refl
no_value-words (file long) rest = refl
no_value-words (file_named short name dashless) rest = refl
no_value-words (file_named long name dashless) rest = refl
no_value-words (help short) rest = refl
no_value-words (help long) rest = refl
no_value-words (interface short name) rest = refl
no_value-words (interface long name) rest = refl
no_value-words numeric rest = refl
no_value-words numeric_host rest = refl
no_value-words numeric_port rest = refl
no_value-words (protocol short name) rest = refl
no_value-words (protocol long name) rest = refl
no_value-words si rest = refl
no_value-words (verbosely short) rest = refl
no_value-words (verbosely long) rest = refl
no_value-words (version_asked short) rest = refl
no_value-words (version_asked long) rest = refl

no_value-command_line : (os : List Given) → no_value (command_line os) ≡ true
no_value-command_line [] = refl
no_value-command_line (o ∷ os) = no_value-words o (command_line os)

no_value-first :
    (name : List ℕ) (rest : List (List ℕ)) → no_value (name ∷ rest) ≡ no_value (name ∷ [])
no_value-first [] rest = refl
no_value-first (c ∷ name) rest = refl

-- The loop at an option that the table has, with these names and this function.
module _ (arg s l : List ℕ) (f : Option (List ℕ) → ConfigOp → Outcome) (co : ConfigOp) where
  Listed : ReqArg → Type 0
  Listed req = find_cmd arg cmd ≡ some (entry s l f req)

  loop_flag :
      (rest : List (List ℕ))
      → Listed no_arg
      → parse_loop (suc (length rest)) (arg ∷ rest) co
        ≡ and_then (f none co) (parse_loop (length rest) rest)
  unfolding parse_loop Listed
  loop_flag [] h = rw h refl
  loop_flag (next ∷ rest) h = rw h refl

  loop_value :
      (value : List ℕ) (rest : List (List ℕ))
      → Listed req_arg
      → parse_loop (suc (suc (length rest))) (arg ∷ value ∷ rest) co
        ≡ and_then (f (some value) co) (parse_loop (length rest) rest)
  unfolding parse_loop Listed
  loop_value value rest h = rw h refl

  loop_absent :
      (rest : List (List ℕ))
      → no_value rest ≡ true
      → Listed opt_arg
      → parse_loop (suc (length rest)) (arg ∷ rest) co
        ≡ and_then (f none co) (parse_loop (length rest) rest)
  unfolding parse_loop Listed
  loop_absent [] dash h = rw h refl
  loop_absent (next ∷ rest) dash h = rw (h, dash) refl

  loop_present :
      (value : List ℕ) (rest : List (List ℕ))
      → no_value (value ∷ []) ≡ false
      → Listed opt_arg
      → parse_loop (suc (suc (length rest))) (arg ∷ value ∷ rest) co
        ≡ and_then (f (some value) co) (parse_loop (length rest) rest)
  unfolding parse_loop Listed
  loop_present value rest dashless h = rw (h, no_value-first value rest, dashless) refl

scheme_of_lem : (value : ℕ) → scheme_of value ≡ value % 4 - 1
scheme_of_lem value = rw (bit_and_ones 2 value) (ground arith)

set_color_scheme_lem :
    (scheme : List ℕ) (co : ConfigOp) → set_color_scheme (some scheme) co ≡ effect (color scheme) co
unfolding set_color_scheme
set_color_scheme_lem scheme co = rw (scheme_of_lem (atoi scheme)) refl

udp_bit : (proto : ℕ) → bit_and proto 2 ≡ proto / 2 % 2 * 2
udp_bit proto = omega (arith, bit_and_step proto 2, bit_and_ones 1 (proto / 2))

set_proto_lem :
    (form : Form) (name : List ℕ) (co : ConfigOp)
    → set_proto (some name) co ≡ effect (protocol form name) co
set_proto_lem form name co = rw (bit_and_ones 1 co.proto, udp_bit co.proto) refl

-- The loop at one option.
parse_loop-words :
    (o : Given) (rest : List (List ℕ)) (co : ConfigOp)
    → no_value rest ≡ true
    → parse_loop (length (words o rest)) (words o rest) co
      ≡ and_then (effect o co) (parse_loop (length rest) rest)
unfolding find_cmd check_cmd Listed
parse_loop-words (bytes short) rest co h = loop_flag _ _ _ _ co rest refl
parse_loop-words (bytes long) rest co h = loop_flag _ _ _ _ co rest refl
parse_loop-words connections rest co h = loop_flag _ _ _ _ co rest refl
parse_loop-words (help short) rest co h = loop_flag _ _ _ _ co rest refl
parse_loop-words (help long) rest co h = loop_flag _ _ _ _ co rest refl
parse_loop-words numeric rest co h = loop_flag _ _ _ _ co rest refl
parse_loop-words numeric_host rest co h = loop_flag _ _ _ _ co rest refl
parse_loop-words numeric_port rest co h = loop_flag _ _ _ _ co rest refl
parse_loop-words si rest co h = loop_flag _ _ _ _ co rest refl
parse_loop-words (verbosely short) rest co h = loop_flag _ _ _ _ co rest refl
parse_loop-words (verbosely long) rest co h = loop_flag _ _ _ _ co rest refl
parse_loop-words (version_asked short) rest co h = loop_flag _ _ _ _ co rest refl
parse_loop-words (version_asked long) rest co h = loop_flag _ _ _ _ co rest refl
parse_loop-words (file short) rest co h = loop_absent _ _ _ _ co rest h refl
parse_loop-words (file_named short name dashless) rest co h =
    loop_present _ _ _ _ co name rest dashless refl
parse_loop-words (interface short name) rest co h = loop_value _ _ _ _ co name rest refl
parse_loop-words (protocol short name) rest co h =
    loop_value _ _ _ _ co name rest refl
    ∙ ap (λ o. and_then o (parse_loop (length rest) rest)) (set_proto_lem short name co)
parse_loop-words (file long) rest co h = loop_absent _ _ _ _ co rest h refl
parse_loop-words (file_named long name dashless) rest co h =
    loop_present _ _ _ _ co name rest dashless refl
parse_loop-words (interface long name) rest co h = loop_value _ _ _ _ co name rest refl
parse_loop-words (protocol long name) rest co h =
    loop_value _ _ _ _ co name rest refl
    ∙ ap (λ o. and_then o (parse_loop (length rest) rest)) (set_proto_lem long name co)
parse_loop-words (color scheme) rest co h =
    loop_value _ _ _ _ co scheme rest refl
    ∙ ap (λ o. and_then o (parse_loop (length rest) rest)) (set_color_scheme_lem scheme co)

and_then-ap :
    (o : Outcome) (f g : ConfigOp → Outcome)
    → ((co : ConfigOp) → f co ≡ g co)
    → and_then o f ≡ and_then o g
and_then-ap (returns co) f g h = h co
and_then-ap exit_failure f g h = refl
and_then-ap exit_success f g h = refl
and_then-ap overrun f g h = refl

parse_loop-command_line :
    (os : List Given) (co : ConfigOp)
    → parse_loop (length (command_line os)) (command_line os) co ≡ effects os co
unfolding parse_loop
parse_loop-command_line [] co = refl
parse_loop-command_line (o ∷ os) co =
    parse_loop-words o (command_line os) co (no_value-command_line os)
    ∙ and_then-ap (effect o co) _ _ (λ co'. parse_loop-command_line os co')

-- Options written as the usage text says, by their short or their long names and in any order and
-- number, have their effects one after another on the defaults: each sets the fields that `effect`
-- lists, or ends the program.
pub parse_options-command_line :
    (os : List Given)
    → parse_options (suc (length (command_line os))) (command_line os) ≡ effects os default_config
unfolding parse_options
parse_options-command_line os = parse_loop-command_line os default_config
