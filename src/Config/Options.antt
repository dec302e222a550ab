-- ===== src/Config/Options.antt =====
-- What src/config.c makes of any arguments.
use Prim.Native.Nat.{bit_and}
use mathlib.Core.Path.{subst, sym, ◌∙◌}
use mathlib.Core.Option.{some-injective}
use netproc.Base.{
  ℕ, zero, suc, ◌≤◌, ◌<◌, ◌≡◌, inl, inr, refl, true, false, Bool-cases, Option, none, some, List,
  [], ◌∷◌, ◌==◌, codes, str_case_eq, atoi, arith, length,
}
use netproc.Base.Bits.{bit_and-le}
use netproc.Filter.{tcp, udp}
use netproc.Config.{
  ConfigOp, default_config, Outcome, returns, exit_failure, exit_success, overrun, and_then,
  scheme_of, set_color_scheme, log_file, set_iface, set_proto, ReqArg, no_arg, req_arg, opt_arg,
  Cmd, cmd, check_cmd, find_cmd, no_value, dispatch, find_result, parse_loop, parse_options, tcp,
  udp,
}

-- What the rest of the program relies on: three colour schemes, a set of protocols, and connections
-- that are shown where their names are not translated.
pub record IsValid (co : ConfigOp) : Type 0 where
  pub scheme : co.color_scheme ≤ 2
  pub protocols : co.proto ≤ 3
  pub hosts : co.translate_host ≡ false → co.view_conections ≡ true
  pub services : co.translate_service ≡ false → co.view_conections ≡ true

-- The options that come out are valid, and nothing is read past the end.
pub data Sound : Outcome → Type 0 where
  sound_returns : (co : ConfigOp) → IsValid co → Sound (returns co)
  sound_failure : Sound exit_failure
  sound_success : Sound exit_success

and_then-Sound :
    (o : Outcome) (f : ConfigOp → Outcome)
    → Sound o
    → ((co : ConfigOp) → IsValid co → Sound (f co))
    → Sound (and_then o f)
and_then-Sound (returns co) f (sound_returns _ v) h = h co v
and_then-Sound exit_failure f s h = sound_failure
and_then-Sound exit_success f s h = sound_success
and_then-Sound overrun f s h = s

-- A function of the table keeps the options valid, and one that needs a value exits without one.
record Keeps (c : Cmd) : Type 0 where
  keeps : (arg : Option (List ℕ)) (co : ConfigOp) → IsValid co → Sound (c.func arg co)
  needs : c.req ≡ req_arg → (co : ConfigOp) → c.func none co ≡ exit_failure

scheme_of-le : (value : ℕ) → scheme_of value ≤ 2
scheme_of-le value = ground (arith, bit_and-le value 3)

set_color_scheme-keeps :
    (arg : Option (List ℕ)) (co : ConfigOp) → IsValid co → Sound (set_color_scheme arg co)
unfolding set_color_scheme
set_color_scheme-keeps none co v = sound_failure
set_color_scheme-keeps (some arg) co v = elim (Bool-cases (atoi arg == 0)) [
  | inl e ↦ rw e sound_failure
  | inr e ↦ rw e (
      sound_returns _ record {
        scheme = scheme_of-le (atoi arg);
        protocols = v.protocols;
        hosts = v.hosts;
        services = v.services;
      })
]

proto-keeps :
    (co : ConfigOp) (mask : ℕ)
    → mask ≤ 3
    → IsValid co
    → IsValid (record co { proto = bit_and co.proto mask })
proto-keeps co mask h v = record {
  scheme = v.scheme;
  protocols = omega (arith, v.protocols, bit_and-le co.proto mask);
  hosts = v.hosts;
  services = v.services;
}

set_proto-keeps : (arg : Option (List ℕ)) (co : ConfigOp) → IsValid co → Sound (set_proto arg co)
set_proto-keeps none co v = sound_failure
set_proto-keeps (some arg) co v = elim (Bool-cases (str_case_eq arg (codes "tcp"))) [
  | inl e ↦ rw e (sound_returns _ (proto-keeps co tcp (ground arith) v))
  | inr e ↦ rw e (elim (Bool-cases (str_case_eq arg (codes "udp"))) [
    | inl d ↦ rw d (sound_returns _ (proto-keeps co udp (ground arith) v))
    | inr d ↦ rw d sound_failure
  ])
]

-- A change of the other options alone.
kept :
    (co co' : ConfigOp)
    → IsValid co
    → co'.color_scheme ≡ co.color_scheme
    → co'.proto ≡ co.proto
    → (co'.translate_host ≡ false → co'.view_conections ≡ true)
    → (co'.translate_service ≡ false → co'.view_conections ≡ true)
    → Sound (returns co')
kept co co' v c p h s = sound_returns co' record {
  scheme = omega (arith, v.scheme, c);
  protocols = omega (arith, v.protocols, p);
  hosts = h;
  services = s;
}

log_file-keeps : (arg : Option (List ℕ)) (co : ConfigOp) → IsValid co → Sound (log_file arg co)
log_file-keeps none co v = kept co _ v refl refl v.hosts v.services
log_file-keeps (some arg) co v = kept co _ v refl refl v.hosts v.services

set_iface-keeps : (arg : Option (List ℕ)) (co : ConfigOp) → IsValid co → Sound (set_iface arg co)
set_iface-keeps none co v = sound_failure
set_iface-keeps (some arg) co v = kept co _ v refl refl v.hosts v.services

All : (Cmd → Type 0) → List Cmd → Type 0
All P [] = Unit
All P (c ∷ cs) = P c × All P cs

cmd-Keeps : All Keeps cmd
unfolding All set_color_scheme
cmd-Keeps = (
  record { keeps = λ arg co v. kept co _ v refl refl v.hosts v.services; needs = λ e. absurd (cc) },
  (
    record {
      keeps = λ arg co v. kept co _ v refl refl (λ z. refl) (λ z. refl);
      needs = λ e. absurd (cc);
    },
    (
      record { keeps = set_color_scheme-keeps; needs = λ e co. refl },
      (
        record { keeps = log_file-keeps; needs = λ e. absurd (cc) },
        (
          record { keeps = λ arg co v. sound_success; needs = λ e. absurd (cc) },
          (
            record { keeps = set_iface-keeps; needs = λ e co. refl },
            (
              record {
                keeps = λ arg co v. kept co _ v refl refl (λ z. refl) (λ z. refl);
                needs = λ e. absurd (cc);
              },
              (
                record {
                  keeps = λ arg co v. kept co _ v refl refl (λ z. refl) (λ z. refl);
                  needs = λ e. absurd (cc);
                },
                (
                  record {
                    keeps = λ arg co v. kept co _ v refl refl (λ z. refl) (λ z. refl);
                    needs = λ e. absurd (cc);
                  },
                  (
                    record { keeps = set_proto-keeps; needs = λ e co. refl },
                    (
                      record {
                        keeps = λ arg co v. kept co _ v refl refl v.hosts v.services;
                        needs = λ e. absurd (cc);
                      },
                      (
                        record {
                          keeps = λ arg co v. kept co _ v refl refl v.hosts v.services;
                          needs = λ e. absurd (cc);
                        },
                        (
                          record { keeps = λ arg co v. sound_success; needs = λ e. absurd (cc) },
                          tt,
                        ),
                      ),
                    ),
                  ),
                ),
              ),
            ),
          ),
        ),
      ),
    ),
  ),
)

-- What the loop needs of what it finds.
found-Keeps :
    (arg : List ℕ) (cs : List Cmd) (c : Cmd) → All Keeps cs → find_cmd arg cs ≡ some c → Keeps c
unfolding find_cmd All
found-Keeps arg [] c all e = absurd (cc)
found-Keeps arg (d ∷ cs) c (k, all) e = elim (Bool-cases (check_cmd arg d)) [
  | inl b ↦ subst Keeps (some-injective d c (sym (rw b refl) ∙ e)) k
  | inr b ↦ found-Keeps arg cs c all (sym (rw b refl) ∙ e)
]

dispatch-Sound :
    (c : Cmd) (r : ReqArg) (argv : List (List ℕ)) (co : ConfigOp) (rest after : ConfigOp → Outcome)
    → Keeps c
    → c.req ≡ r
    → IsValid co
    → ((co' : ConfigOp) → IsValid co' → Sound (rest co'))
    → (0 < length argv → (co' : ConfigOp) → IsValid co' → Sound (after co'))
    → Sound (dispatch c r argv co rest after)
dispatch-Sound c no_arg argv co rest after k e v f g =
    and_then-Sound (c.func none co) rest (k.keeps none co v) f
dispatch-Sound c req_arg [] co rest after k e v f g = rw (k.needs e co) sound_failure
dispatch-Sound c req_arg (arg ∷ argv) co rest after k e v f g =
    and_then-Sound (c.func (some arg) co) after (k.keeps (some arg) co v) (g (omega arith))
dispatch-Sound c opt_arg [] co rest after k e v f g =
    and_then-Sound (c.func none co) rest (k.keeps none co v) f
dispatch-Sound c opt_arg (arg ∷ argv) co rest after k e v f g =
    elim (Bool-cases (no_value (arg ∷ argv))) [
      | inl b ↦ rw b (and_then-Sound (c.func none co) rest (k.keeps none co v) f)
      | inr b ↦
          rw b (
            and_then-Sound (c.func (some arg) co) after (k.keeps (some arg) co v) (g (omega arith)))
    ]

find_result-Sound :
    (arg : List ℕ) (o : Option Cmd) (argv : List (List ℕ)) (co : ConfigOp)
    (rest after : ConfigOp → Outcome)
    → find_cmd arg cmd ≡ o
    → IsValid co
    → ((co' : ConfigOp) → IsValid co' → Sound (rest co'))
    → (0 < length argv → (co' : ConfigOp) → IsValid co' → Sound (after co'))
    → Sound (find_result o argv co rest after)
find_result-Sound arg none argv co rest after e v f g = sound_failure
find_result-Sound arg (some c) argv co rest after e v f g =
    dispatch-Sound c c.req argv co rest after (found-Keeps arg cmd c cmd-Keeps e) refl v f g

parse_loop-Sound :
    (argc : ℕ) (argv : List (List ℕ)) (co : ConfigOp)
    → argc ≡ length argv
    → IsValid co
    → Sound (parse_loop argc argv co)
unfolding parse_loop
parse_loop-Sound zero argv co e v = sound_returns co v
parse_loop-Sound (suc argc) [] co e v = absurd (omega (arith, e))
parse_loop-Sound (suc zero) (arg ∷ []) co e v =
    find_result-Sound arg (find_cmd arg cmd) [] co _ _ refl v (λ co' w. sound_returns co' w)
      (λ z. absurd (omega (arith, z)))
parse_loop-Sound (suc zero) (arg ∷ next ∷ argv) co e v = absurd (omega (arith, e))
parse_loop-Sound (suc (suc argc)) (arg ∷ []) co e v = absurd (omega (arith, e))
parse_loop-Sound (suc (suc argc)) (arg ∷ next ∷ argv) co e v =
    find_result-Sound arg (find_cmd arg cmd) (next ∷ argv) co _ _ refl v
      (λ co' w. parse_loop-Sound (suc argc) (next ∷ argv) co' (omega (arith, e)) w)
      (λ z co' w. parse_loop-Sound argc argv co' (omega (arith, e)) w)

default_config-IsValid : IsValid default_config
default_config-IsValid = record {
  scheme = ground arith;
  protocols = ground arith;
  hosts = λ e. absurd (cc);
  services = λ e. absurd (cc);
}

-- Whatever the arguments are, as long as `argc` counts them: the loop ends without reading NULL as
-- a string or counting below 0, and the options it returns have a colour scheme of the three,
-- protocols among the two, and connections shown where hosts or services are shown as numbers.
pub parse_options-Sound : (argv : List (List ℕ)) → Sound (parse_options (suc (length argv)) argv)
unfolding parse_options
parse_options-Sound argv =
    parse_loop-Sound (length argv) argv default_config refl default_config-IsValid
