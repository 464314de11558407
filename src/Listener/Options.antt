-- ===== src/Listener/Options.antt =====
-- rl_events.rs: the options of the command line, and the filter and the client's options made of them.
use rlstatsapi.Prelude.{
  ℕ, ◌^◌, String, ℤ, Bool, true, false, Option, none, some, List, [], ◌∷◌, map, is_empty,
  if◌then◌else◌,
}
use rlstatsapi.Text.{codes, parse_unsigned, parse_i64, to_ascii_lowercase}
use rlstatsapi.Arguments.{
  about, bad_number, Cli, refuse, accept, ◌>>=◌, number_of, Arm, sets, takes, exits, Outcome,
  parse_all, choose,
}
use rlstatsapi.Filters.Kind.{EventKind}
use rlstatsapi.Filters.Matching.{
  EventFilter, new, include_kinds, with_player_name, with_player_primary_id, with_team_num,
  with_match_guid,
}
use rlstatsapi.Config.Prepare.{ClientOptions, default_options}
use rlstatsapi.Listener.Kinds.{is, parse_event_filter_value}

pub data OutputFormat : Type 0 where
  pretty compact json_lines : OutputFormat

pub data InputMode : Type 0 where
  stream : InputMode
  stdin : (strict : Bool) → InputMode

pub record CliOptions : Type 0 where
  pub ini_path : Option String
  pub host : Option String
  pub port : Option ℕ
  pub event_kinds : List EventKind
  pub player_name : Option String
  pub player_primary_id : Option String
  pub team_num : Option ℤ
  pub match_guid : Option String
  pub output_format : OutputFormat
  pub input_mode : InputMode
  pub max_events : Option ℕ

unfoldable pub parse_output_format : String → Cli OutputFormat
parse_output_format value =
    let lower = map to_ascii_lowercase (codes value) in
    if is lower "pretty"
    then accept pretty
    else if is lower "compact"
    then accept compact
    else if is lower "json"
    then accept json_lines
    else refuse (about "unknown format '" lower "'. Use --list-formats to see valid values.")

unfoldable pub output_format_name : OutputFormat → String
output_format_name pretty = "pretty"
output_format_name compact = "compact"
output_format_name json_lines = "json"

-- the `let mut` lines of `parse_args`
abbrev pub no_arguments : CliOptions
no_arguments = record {
  ini_path = none;
  host = none;
  port = none;
  event_kinds = [];
  player_name = none;
  player_primary_id = none;
  team_num = none;
  match_guid = none;
  output_format = pretty;
  input_mode = stream;
  max_events = none;
}

abbrev pub team_of : Option ℤ → (ℤ → CliOptions) → Cli CliOptions
team_of none set = refuse bad_number
team_of (some team) set = accept (set team)

-- the arms of the `match` of `parse_args`
abbrev pub arms : CliOptions → List (List String × Arm CliOptions)
arms o =
    ((
      "--ini" ∷ [],
      takes "--ini requires a file path" (λ v. accept (record o { ini_path = some v })),
    )
      ∷ ("--host" ∷ [], takes "--host requires a value" (λ v. accept (record o { host = some v })))
      ∷ (
        "--port" ∷ [],
        takes "--port requires a value"
            (λ v. number_of (parse_unsigned (2 ^ 16) (codes v)) (λ n. record o { port = some n })),
      )
      ∷ (
        "--event" ∷ [],
        takes "--event requires a value" (λ v.
            parse_event_filter_value (codes v) o.event_kinds
            >>= (λ kinds. accept (record o { event_kinds = kinds }))),
      )
      ∷ (
        "--player" ∷ [],
        takes "--player requires a value" (λ v. accept (record o { player_name = some v })),
      )
      ∷ (
        "--player-id" ∷ [],
        takes "--player-id requires a value"
            (λ v. accept (record o { player_primary_id = some v })),
      )
      ∷ (
        "--team" ∷ [],
        takes "--team requires a value"
            (λ v. team_of (parse_i64 (codes v)) (λ team. record o { team_num = some team })),
      )
      ∷ (
        "--match" ∷ [],
        takes "--match requires a value" (λ v. accept (record o { match_guid = some v })),
      )
      ∷ (
        "--format" ∷ [],
        takes "--format requires a value" (λ v.
            parse_output_format v >>= (λ format. accept (record o { output_format = format }))),
      )
      ∷ ("--stdin" ∷ [], sets (record o { input_mode = stdin false }))
      ∷ ("--strict-stdin" ∷ [], sets (record o { input_mode = stdin true }))
      ∷ (
        "--max-events" ∷ [],
        takes "--max-events requires a value" (λ v.
            number_of (parse_unsigned (2 ^ 64) (codes v)) (λ n. record o { max_events = some n })),
      )
      ∷ ("--list-events" ∷ [], exits "event list")
      ∷ ("--list-formats" ∷ [], exits "format list")
      ∷ ("-h" ∷ "--help" ∷ [], exits "help")
      ∷ [])

unfoldable pub read_argument : String → CliOptions → Arm CliOptions
read_argument arg o = choose arg (arms o)

unfoldable pub parse_args : List String → Outcome CliOptions
parse_args args = parse_all read_argument args no_arguments

-- `if let Some(a) = option { filter = with(filter, a); }`
abbrev pub with_some :
    {A : Type 0} → (A → EventFilter → EventFilter) → Option A → EventFilter → EventFilter
with_some set none f = f
with_some set (some a) f = set a f

unfoldable pub build_event_filter : CliOptions → EventFilter
build_event_filter cli = with_some with_match_guid cli.match_guid (
    with_some with_team_num cli.team_num (
      with_some with_player_primary_id cli.player_primary_id (
        with_some with_player_name cli.player_name
          (if is_empty cli.event_kinds then new else include_kinds cli.event_kinds new))))

-- the start of `run_stream_mode`
unfoldable pub client_options : CliOptions → ClientOptions
client_options cli = set_port cli.port (set_host cli.host (set_ini cli.ini_path default_options))
  where
    set_ini : Option String → ClientOptions → ClientOptions
    set_ini none o = record o { auto_enable_packet_rate = false }
    set_ini (some path) o = record o { stats_api_ini_path = some path }

    set_host : Option String → ClientOptions → ClientOptions
    set_host none o = o
    set_host (some host) o = record o { host = host }

    set_port : Option ℕ → ClientOptions → ClientOptions
    set_port none o = o
    set_port (some port) o = record o { port_override = some port }
