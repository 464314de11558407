-- ===== src/Sender/Tests.antt =====
-- rl_command.rs at command lines, where every text of JSON is taken for one command.
use rlstatsapi.Prelude.{◌≡◌, refl, String, List, [], ◌∷◌, true}
use rlstatsapi.Text.{parse_unsigned, digits_value, is_ascii_digit}
use rlstatsapi.Error.{ok}
use rlstatsapi.Json.{JsonLib, string, bool, object, field, end, get}
use rlstatsapi.Samples.{Num, sample_lib}
use rlstatsapi.Commands.Defs.{set_match_paused, command_name, validate}
use rlstatsapi.Commands.Wire.{read_command, from_value}
use rlstatsapi.Arguments.{refused, message, parsed, parse_all, unknown_message}
use rlstatsapi.Arguments.Reading.{WhenParsed}
use rlstatsapi.Sender.Options.{parse_args, read_stats_command}
use rlstatsapi.Sender.Sound.{IsSendable, parse_args-IsSendable}

abbrev lib : JsonLib Num
lib = record sample_lib {
  from_str = λ s. ok (
      object (
        field "Command" (string "SetMatchPaused")
          (field "Data" (object (field "bPaused" (bool true) end)) end)));
}

abbrev arguments : List String
arguments = "--port" ∷ "50000" ∷ "{}" ∷ "--watch" ∷ "5" ∷ []

parse_args-IsSendable_example : WhenParsed IsSendable (parse_args lib arguments)
parse_args-IsSendable_example = parse_args-IsSendable lib arguments

parser : Unit {0}
unfolding parse_args parse_all parse_unsigned digits_value is_ascii_digit read_stats_command
    from_value read_command validate get command_name
parser = tt

parse_sent :
    parse_args lib arguments
    ≡ parsed (record {
      host = "127.0.0.1";
      port = 50000;
      watch_seconds = 5;
      command = set_match_paused true;
    })
unfolding parser
parse_sent = refl

parse_twice : parse_args lib ("{}" ∷ "[]" ∷ []) ≡ refused (unknown_message "[]")
unfolding parser
parse_twice = refl

parse_nothing : parse_args lib [] ≡ refused (message "missing command JSON")
unfolding parser
parse_nothing = refl
