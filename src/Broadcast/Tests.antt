-- ===== src/Broadcast/Tests.antt =====
-- The command lines of the unit tests of sos_broadcast.rs.
use rlstatsapi.Prelude.{◌≡◌, refl, true, some, [], ◌∷◌}
use rlstatsapi.Text.{parse_unsigned, digits_value, is_ascii_digit}
use rlstatsapi.Arguments.{left, refused, message, parsed, parse_all}
use rlstatsapi.Broadcast.Options.{defaults, parse_args_from}

parse_nothing : parse_args_from [] ≡ parsed defaults
unfolding parse_args_from parse_all
parse_nothing = refl

parse_help : parse_args_from ("--debug" ∷ "-h" ∷ "--nonsense" ∷ []) ≡ left "help"
unfolding parse_args_from parse_all
parse_help = refl

parse_alias :
    parse_args_from ("--port" ∷ "50000" ∷ "-d" ∷ [])
    ≡ parsed (record defaults { rl_port = some 50000; debug = true })
unfolding parse_args_from parse_all parse_unsigned digits_value is_ascii_digit
parse_alias = refl

parse_end : parse_args_from ("--ws-host" ∷ []) ≡ refused (message "--ws-host requires a value")
unfolding parse_args_from parse_all
parse_end = refl
