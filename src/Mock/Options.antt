-- ===== src/Mock/Options.antt =====
-- mock_broadcast.rs: the options of the command line.
use rlstatsapi.Prelude.{
  ℕ, ◌^◌, String, Bool, true, false, Option, none, some, List, [], ◌∷◌, ◌++◌, ◌==◌, is_empty,
  if◌then◌else◌,
}
use rlstatsapi.Text.{Text, codes, trim, parse_unsigned}
use rlstatsapi.Text.Trimmed.{split_commas}
use rlstatsapi.Arguments.{
  message, bad_number, Cli, refuse, accept, number_of, Arm, sets, takes, exits, Outcome, parse_all,
  choose,
}

-- The filters are texts of code points.
pub record CliOptions : Type 0 where
  pub ws_host : String
  pub ws_port : ℕ
  pub interval_ms : ℕ
  pub max_events : Option ℕ
  pub event_filters : List Text
  pub loop_events : Bool
  pub debug : Bool

abbrev pub defaults : CliOptions
defaults = record {
  ws_host = "0.0.0.0";
  ws_port = 49122;
  interval_ms = 1000;
  max_events = none;
  event_filters = [];
  loop_events = true;
  debug = false;
}

abbrev trimmed_tokens : List Text → List Text
trimmed_tokens [] = []
trimmed_tokens (raw ∷ more) =
    if is_empty (trim raw) then trimmed_tokens more else trim raw ∷ trimmed_tokens more

-- What `parse_event_filter_value` pushes.
unfoldable pub filters_of : Text → List Text
filters_of value = trimmed_tokens (split_commas value)

abbrev pub interval_of : Option ℕ → CliOptions → Cli CliOptions
interval_of none o = refuse bad_number
interval_of (some n) o =
    if n == 0
    then refuse (message "--interval-ms must be at least 1")
    else accept (record o { interval_ms = n })

-- the arms of the `match` of `parse_args_from`
abbrev pub arms : CliOptions → List (List String × Arm CliOptions)
arms o =
    (("--ws-host" ∷ [], takes "--ws-host requires a value" (λ v. accept (record o { ws_host = v })))
      ∷ (
        "--ws-port" ∷ [],
        takes "--ws-port requires a value"
            (λ v. number_of (parse_unsigned (2 ^ 16) (codes v)) (λ n. record o { ws_port = n })),
      )
      ∷ (
        "--interval-ms" ∷ [],
        takes "--interval-ms requires a value"
            (λ v. interval_of (parse_unsigned (2 ^ 64) (codes v)) o),
      )
      ∷ (
        "--max-events" ∷ [],
        takes "--max-events requires a value" (λ v.
            number_of (parse_unsigned (2 ^ 64) (codes v)) (λ n. record o { max_events = some n })),
      )
      ∷ (
        "--event" ∷ "--events" ∷ [],
        takes "--event requires a value"
            (λ v. accept (record o { event_filters = o.event_filters ++ filters_of (codes v) })),
      )
      ∷ ("--no-loop" ∷ [], sets (record o { loop_events = false }))
      ∷ ("--loop" ∷ [], sets (record o { loop_events = true }))
      ∷ ("--list-events" ∷ [], exits "event list")
      ∷ ("-d" ∷ "--debug" ∷ [], sets (record o { debug = true }))
      ∷ ("-h" ∷ "--help" ∷ [], exits "help")
      ∷ [])

unfoldable pub parse_args_from : List String → Outcome CliOptions
parse_args_from args = parse_all (λ arg o. choose arg (arms o)) args defaults
