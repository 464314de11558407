-- ===== src/Sender/Options.antt =====
-- rl_command.rs: the command line, whose one argument without a name is the command.
use rlstatsapi.Prelude.{
  ℕ, ◌^◌, String, ◌&&◌, not, Option, none, some, List, [], ◌∷◌, is_some, if◌then◌else◌,
}
use rlstatsapi.Text.{codes, parse_unsigned}
use rlstatsapi.Error.{RlStatsError, json, Result, ok, err}
use rlstatsapi.Json.{Value, JsonLib}
use rlstatsapi.Commands.Defs.{StatsCommand}
use rlstatsapi.Commands.Wire.{from_value}
use rlstatsapi.Arguments.{
  message, about, library, CliError, Cli, refuse, accept, ◌>>=◌, Arm, sets, takes, exits,
  unknown_argument, Outcome, left, refused, parsed, parse_all, choose,
}
use rlstatsapi.Relay.Target.{starts_with}

pub record CliOptions : Type 0 where
  pub host : String
  pub port : ℕ
  pub watch_seconds : ℕ
  pub command : StatsCommand

-- the locals of `parse_args`
pub record CommandLocals : Type 0 where
  pub host : String
  pub port : ℕ
  pub watch_seconds : ℕ
  pub raw_command : Option String

-- the `let mut` lines of `parse_args`
abbrev pub initial_locals : CommandLocals
initial_locals = record { host = "127.0.0.1"; port = 49123; watch_seconds = 3; raw_command = none }

-- `.map_err(|_| refusal)?` on the number of a value
abbrev pub number_or : String → Option ℕ → (ℕ → CommandLocals) → Cli CommandLocals
number_or refusal none set = refuse (message refusal)
number_or refusal (some n) set = accept (set n)

-- the arms of the `match` that have a name
abbrev pub arms : CommandLocals → List (List String × Arm CommandLocals)
arms o =
    (("--host" ∷ [], takes "--host requires a value" (λ v. accept (record o { host = v })))
      ∷ (
        "--port" ∷ [],
        takes "--port requires a value" (λ v.
            number_or "--port must be a number" (parse_unsigned (2 ^ 16) (codes v))
              (λ n. record o { port = n })),
      )
      ∷ (
        "--watch" ∷ [],
        takes "--watch requires seconds" (λ v.
            number_or "--watch must be a number" (parse_unsigned (2 ^ 64) (codes v))
              (λ n. record o { watch_seconds = n })),
      )
      ∷ ("-h" ∷ "--help" ∷ [], exits "help")
      ∷ [])

-- the two arms behind them
abbrev pub positional : String → CommandLocals → Arm CommandLocals → Arm CommandLocals
positional other o unknown_argument =
    if not (is_some o.raw_command) && not (starts_with "--" other)
    then sets (record o { raw_command = some other })
    else unknown_argument
positional other o named = named

abbrev pub at_argument : String → CommandLocals → Arm CommandLocals
at_argument arg o = positional arg o (choose arg (arms o))

-- the error of `from_str`, by its text
abbrev not_json : RlStatsError → CliError
not_json (json source) = about "command is not valid JSON: " (codes source) ""
not_json other = library other

abbrev pub map_error : {T : Type 0} → (RlStatsError → CliError) → Result T → Cli T
map_error show (err e) = refuse (show e)
map_error show (ok t) = accept t

abbrev pub ok_or_message : Option String → String → Cli String
ok_or_message none missing = refuse (message missing)
ok_or_message (some s) missing = accept s

abbrev pub with_command : CommandLocals → Cli StatsCommand → Outcome CliOptions
with_command o (refuse e) = refused e
with_command o (accept command) =
    parsed
      (record { host = o.host; port = o.port; watch_seconds = o.watch_seconds; command = command })

module _ {N : Type 0} (lib : JsonLib N) where
  -- the two calls behind the text; the error of `from_value` stands for its text
  abbrev pub read_value : Result (Value N) → Cli StatsCommand
  read_value read = do
    value ← map_error not_json read
    map_error library (from_value ⦃lib = lib⦄ value)

  -- the lines from `let raw_command =`
  unfoldable pub read_stats_command : Option String → Cli StatsCommand
  read_stats_command raw = do
    raw_command ← ok_or_message raw "missing command JSON"
    read_value (lib.from_str raw_command)

  abbrev pub settle_command : Outcome CommandLocals → Outcome CliOptions
  settle_command (left prints) = left prints
  settle_command (refused e) = refused e
  settle_command (parsed o) = with_command o (read_stats_command o.raw_command)

  unfoldable pub parse_args : List String → Outcome CliOptions
  parse_args args = settle_command (parse_all at_argument args initial_locals)
