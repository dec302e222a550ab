-- ===== src/Config/Tests.antt =====
-- Command lines of src/config.c, and the theorems at them.
use netproc.Base.{suc, ◌≡◌, refl, true, false, some, List, [], ◌∷◌, codes, length, atoi}
use netproc.Config.{
  default_config, returns, exit_failure, parse_options, parse_loop, find_cmd, check_cmd,
  set_color_scheme,
}
use netproc.Config.Options.{Sound, parse_options-Sound}
use netproc.Config.Written.{
  Given, short, long, color, numeric, file, bytes, interface, protocol, effects, command_line,
  parse_options-command_line,
}

-- netproc --color 3 -n -f --bytes --interface eth0 --protocol UDP
abbrev options : List Given
options =
    color (codes "3")
    ∷ numeric
    ∷ file short
    ∷ bytes long
    ∷ interface long (codes "eth0")
    ∷ protocol long (codes "UDP")
    ∷ []

options_test :
    parse_options (suc (length (command_line options))) (command_line options)
    ≡ returns record default_config {
      color_scheme = 2;
      view_conections = true;
      translate_host = false;
      translate_service = false;
      log = true;
      view_bytes = true;
      iface = some (codes "eth0");
      proto = 2;
    }
unfolding parse_options parse_loop find_cmd check_cmd set_color_scheme atoi
options_test = refl

-- An option that needs a value, at the end.
missing_test : parse_options 2 (codes "-i" ∷ []) ≡ exit_failure
unfolding parse_options parse_loop find_cmd check_cmd
missing_test = refl

-- An empty argument is taken for `-c`, the first entry without a long name.
empty_test : parse_options 2 ([] ∷ []) ≡ returns (record default_config { view_conections = true })
unfolding parse_options parse_loop find_cmd check_cmd
empty_test = refl

-- Two protocols leave none.
two_protocols_test :
    parse_options 5 (codes "-p" ∷ codes "tcp" ∷ codes "-p" ∷ codes "udp" ∷ [])
    ≡ returns (record default_config { proto = 0 })
unfolding parse_options parse_loop find_cmd check_cmd
two_protocols_test = refl

-- The fourth scheme is the first.
fourth_test : parse_options 3 (codes "--color" ∷ codes "4" ∷ []) ≡ returns default_config
unfolding parse_options parse_loop find_cmd check_cmd set_color_scheme atoi
fourth_test = refl

parse_options-Sound_example : Sound (parse_options 3 (codes "--color" ∷ codes "4" ∷ []))
parse_options-Sound_example = parse_options-Sound (codes "--color" ∷ codes "4" ∷ [])

parse_options-command_line_example :
    parse_options (suc (length (command_line options))) (command_line options)
    ≡ effects options default_config
parse_options-command_line_example = parse_options-command_line options
