-- ===== src/Relay/Options.antt =====
-- sos_relay.rs: the options of the command line.
use rlstatsapi.Prelude.{ℕ, ◌^◌, String, Bool, true, false, Option, none, some, List, [], ◌∷◌}
use rlstatsapi.Text.{codes, parse_unsigned}
use rlstatsapi.Arguments.{
  Cli, refuse, accept, number_of, Arm, sets, takes, exits, Outcome, left, refused, parsed,
  parse_all, choose,
}
use rlstatsapi.Relay.Target.{WsTarget, UrlLib, normalize_ws_path, build_ws_target}

-- the local variables of `parse_args`
pub record Locals : Type 0 where
  pub ini_path : Option String
  pub rl_host : Option String
  pub rl_port : Option ℕ
  pub ws_host : String
  pub ws_port : Option ℕ
  pub ws_path : Option String
  pub debug : Bool
  pub reconnect_ms : ℕ
  pub max_events : Option ℕ

pub record CliOptions : Type 0 where
  pub ini_path : Option String
  pub rl_host : Option String
  pub rl_port : Option ℕ
  pub ws_target : WsTarget
  pub debug : Bool
  pub reconnect_ms : ℕ
  pub max_events : Option ℕ

abbrev pub initial : Locals
initial = record {
  ini_path = none;
  rl_host = none;
  rl_port = none;
  ws_host = "127.0.0.1";
  ws_port = none;
  ws_path = none;
  debug = false;
  reconnect_ms = 500;
  max_events = none;
}

-- the arms of the `match`
abbrev pub arms : Locals → List (List String × Arm Locals)
arms o =
    ((
      "--ini" ∷ [],
      takes "--ini requires a file path" (λ v. accept (record o { ini_path = some v })),
    )
      ∷ (
        "--host" ∷ "--rl-host" ∷ [],
        takes "--rl-host requires a value" (λ v. accept (record o { rl_host = some v })),
      )
      ∷ (
        "--port" ∷ "--rl-port" ∷ [],
        takes "--rl-port requires a value" (λ v.
            number_of (parse_unsigned (2 ^ 16) (codes v)) (λ n. record o { rl_port = some n })),
      )
      ∷ (
        "--ws-host" ∷ [],
        takes "--ws-host requires a value" (λ v. accept (record o { ws_host = v })),
      )
      ∷ (
        "--ws-port" ∷ [],
        takes "--ws-port requires a value" (λ v.
            number_of (parse_unsigned (2 ^ 16) (codes v)) (λ n. record o { ws_port = some n })),
      )
      ∷ (
        "--ws-path" ∷ [],
        takes "--ws-path requires a value"
            (λ v. accept (record o { ws_path = some (normalize_ws_path v) })),
      )
      ∷ (
        "--reconnect-ms" ∷ [],
        takes "--reconnect-ms requires a value" (λ v.
            number_of (parse_unsigned (2 ^ 64) (codes v)) (λ n. record o { reconnect_ms = n })),
      )
      ∷ ("-d" ∷ "--debug" ∷ [], sets (record o { debug = true }))
      ∷ (
        "--max-events" ∷ [],
        takes "--max-events requires a value" (λ v.
            number_of (parse_unsigned (2 ^ 64) (codes v)) (λ n. record o { max_events = some n })),
      )
      ∷ ("-h" ∷ "--help" ∷ [], exits "help")
      ∷ [])

abbrev pub with_target : Locals → Cli WsTarget → Outcome CliOptions
with_target o (refuse e) = refused e
with_target o (accept target) = parsed (record {
  ini_path = o.ini_path;
  rl_host = o.rl_host;
  rl_port = o.rl_port;
  ws_target = target;
  debug = o.debug;
  reconnect_ms = o.reconnect_ms;
  max_events = o.max_events;
})

module _ ⦃urls : UrlLib⦄ where
  abbrev pub settle : Outcome Locals → Outcome CliOptions
  settle (left prints) = left prints
  settle (refused e) = refused e
  settle (parsed o) = with_target o (build_ws_target o.ws_host o.ws_port o.ws_path)

  unfoldable pub parse_args : List String → Outcome CliOptions
  parse_args args = settle (parse_all (λ arg o. choose arg (arms o)) args initial)
