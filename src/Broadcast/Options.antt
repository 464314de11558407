-- ===== src/Broadcast/Options.antt =====
-- sos_broadcast.rs: the options of the command line.
use rlstatsapi.Prelude.{ℕ, ◌^◌, String, Bool, true, false, Option, none, some, List, [], ◌∷◌}
use rlstatsapi.Text.{codes, parse_unsigned}
use rlstatsapi.Arguments.{accept, number_of, Arm, sets, takes, exits, Outcome, parse_all, choose}

pub record CliOptions : Type 0 where
  pub ini_path : Option String
  pub rl_host : Option String
  pub rl_port : Option ℕ
  pub ws_host : String
  pub ws_port : ℕ
  pub reconnect_ms : ℕ
  pub max_events : Option ℕ
  pub debug : Bool

-- the `let mut` lines of `parse_args_from`
abbrev pub defaults : CliOptions
defaults = record {
  ini_path = none;
  rl_host = none;
  rl_port = none;
  ws_host = "0.0.0.0";
  ws_port = 49122;
  reconnect_ms = 500;
  max_events = none;
  debug = false;
}

-- the arms of the `match`
abbrev pub arms : CliOptions → List (List String × Arm CliOptions)
arms o =
    ((
      "--ini" ∷ [],
      takes "--ini requires a file path" (λ v. accept (record o { ini_path = some v })),
    )
      ∷ (
        "--host" ∷ "--rl-host" ∷ [],
        takes "--rl-host requires a value" (λ v. accept (record o { rl_host = some v })),
      )
      ∷ (
        "--port" ∷ "--rl-port" ∷ [],
        takes "--rl-port requires a value" (λ v.
            number_of (parse_unsigned (2 ^ 16) (codes v)) (λ n. record o { rl_port = some n })),
      )
      ∷ (
        "--ws-host" ∷ [],
        takes "--ws-host requires a value" (λ v. accept (record o { ws_host = v })),
      )
      ∷ (
        "--ws-port" ∷ [],
        takes "--ws-port requires a value"
            (λ v. number_of (parse_unsigned (2 ^ 16) (codes v)) (λ n. record o { ws_port = n })),
      )
      ∷ (
        "--reconnect-ms" ∷ [],
        takes "--reconnect-ms requires a value" (λ v.
            number_of (parse_unsigned (2 ^ 64) (codes v)) (λ n. record o { reconnect_ms = n })),
      )
      ∷ (
        "--max-events" ∷ [],
        takes "--max-events requires a value" (λ v.
            number_of (parse_unsigned (2 ^ 64) (codes v)) (λ n. record o { max_events = some n })),
      )
      ∷ ("-d" ∷ "--debug" ∷ [], sets (record o { debug = true }))
      ∷ ("-h" ∷ "--help" ∷ [], exits "help")
      ∷ [])

unfoldable pub parse_args_from : List String → Outcome CliOptions
parse_args_from args = parse_all (λ arg o. choose arg (arms o)) args defaults
