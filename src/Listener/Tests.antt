-- ===== src/Listener/Tests.antt =====
-- The listener on sample arguments and lines.
use rlstatsapi.Prelude.{
  pos, Option, none, ℕ, ◌≡◌, ◌↔◌, refl, ap, String, true, false, some, List, [], ◌∷◌, map,
}
use rlstatsapi.Text.{
  codes, eq_text, trim, trim_start, trim_end, keep_unless_blank, is_whitespace, to_ascii_lowercase,
}
use rlstatsapi.Text.Trimmed.{split_commas, trim_str, trim_start_str, trim_end_str}
use rlstatsapi.Error.{ok}
use rlstatsapi.Config.Run.{done}
use rlstatsapi.Arguments.{accept}
use rlstatsapi.Samples.{Num, sample_lib, sample_derived, default_match_ended_data}
use rlstatsapi.Events.Data.{StatsEvent, match_ended}
use rlstatsapi.Events.Wire.{
  parse_stats_event, parse_event_envelope, normalize_event_data, event_of, stats_event_name,
}
use rlstatsapi.Filters.Kind.{kind_of, eq_kind, goal_scored, match_ended as ended, match_paused}
use rlstatsapi.Filters.Matching.{new, matches, contains, insert_kind}
use rlstatsapi.Filters.Selecting.{Accepts}
use rlstatsapi.Listener.Kinds.{
  event_kind_from_token, event_kind_name, filter_by_tokens, parse_event_filter_value,
}
use rlstatsapi.Listener.Tokens.{
  Selects, from_token-event_kind_name, parse_event_filter_value-Selects,
}
use rlstatsapi.Listener.Options.{
  CliOptions, compact, no_arguments, output_format_name, build_event_filter,
}
use rlstatsapi.Listener.Choosing.{asked, build_event_filter-Accepts}
use rlstatsapi.Listener.Printing.{FixedText, print_event, compact_text, stamped}
use rlstatsapi.Listener.Stdin.{Session, finished, read_line, read_lines, is_reached, run_stdin_mode}
use rlstatsapi.Listener.Emitting.{Printed, selected, run_stdin_mode-Printed}
use rlstatsapi.Float.{zero_f64}
use rlstatsapi.Error.{Result}
use rlstatsapi.Config.Run.{returns}
use rlstatsapi.Client.Connection.{
  Network, RocketLeagueStatsClient, connect_socket, reconnect, socket_address,
}
use rlstatsapi.Listener.Streaming.{back_off, reconnect_with_backoff, stream_loop}
use rlstatsapi.Listener.Reconnecting.{heard, Prints, stream_loop-Prints}
use rlstatsapi.Commands.Defs.{show_u32, show_onto, digit_char}
use rlstatsapi.Sos.Players.{show_i64}
use rlstatsapi.Listener.Describing.{
  leb_text, insert_sorted, sort_unstable, describe_filters, announcement,
}
use rlstatsapi.Listener.Strictness.{run_stdin_mode-strict}

instance abbrev fixed : FixedText
fixed = record { format_1 = λ x. "0.0"; display_f64 = λ x. "0" }

from_token-event_kind_name_example :
    event_kind_from_token (map to_ascii_lowercase (trim (codes (event_kind_name match_paused))))
    ≡ some match_paused
from_token-event_kind_name_example = from_token-event_kind_name match_paused

parse_event_filter_value-Selects_example :
    Selects
      (split_commas (codes "goal,all, Ended"))
      (goal_scored ∷ [])
      (parse_event_filter_value (codes "goal,all, Ended") (goal_scored ∷ []))
parse_event_filter_value-Selects_example =
    parse_event_filter_value-Selects (codes "goal,all, Ended") (goal_scored ∷ [])

-- Only the kind behind "all" is left.
ended_left :
    parse_event_filter_value (codes "goal,all, Ended,") (goal_scored ∷ []) ≡ accept (ended ∷ [])
unfolding parse_event_filter_value filter_by_tokens split_commas event_kind_from_token eq_text trim
    trim_start trim_end keep_unless_blank is_whitespace to_ascii_lowercase insert_kind contains
    eq_kind
ended_left = refl

abbrev brief : CliOptions
brief = record no_arguments {
  event_kinds = match_paused ∷ [];
  output_format = compact;
  max_events = some 1;
}

abbrev final_event : StatsEvent Num
final_event = match_ended default_match_ended_data

build_event_filter-Accepts_example :
    (matches (build_event_filter brief) final_event ≡ true) ↔ Accepts (asked brief) final_event
build_event_filter-Accepts_example = build_event_filter-Accepts brief final_event

abbrev clock : ℕ → String
clock n = "12.000"

abbrev brief_line : ℕ → StatsEvent Num → String
brief_line i e = stamped (clock i) (compact_text e)

brief_prints : (i : ℕ) (e : StatsEvent Num) → print_event (clock i) compact e ≡ ok (brief_line i e)
unfolding print_event
brief_prints i e = refl

abbrev lines : List String
lines = "pause" ∷ "" ∷ "oops" ∷ " pause " ∷ []

run_stdin_mode-Printed_example :
    Printed clock brief new brief_line brief_prints 0
      (selected new (map read_line lines))
      (run_stdin_mode Num clock brief new false (map done lines))
run_stdin_mode-Printed_example =
    run_stdin_mode-Printed clock brief new brief_line brief_prints lines

abbrev strict_session : Session
strict_session = run_stdin_mode Num clock brief new true (map done lines)

strict_session_lem :
    strict_session
    ≡ record { printed = "[12.000] MatchPaused" ∷ []; warned = []; ending = finished }
unfolding run_stdin_mode read_lines read_line trim_str trim_start_str trim_end_str is_whitespace
    parse_stats_event parse_event_envelope normalize_event_data event_of matches is_reached
    print_event compact_text stats_event_name kind_of
strict_session_lem = refl

run_stdin_mode-strict_example :
    (run_stdin_mode Num clock brief new true (map done lines)
      ≡ run_stdin_mode Num clock brief new false (map done lines))
    × ((run_stdin_mode Num clock brief new true (map done lines)).warned ≡ [])
run_stdin_mode-strict_example =
    run_stdin_mode-strict Num clock brief new (map done lines)
      (ap (λ s. s.ending) strict_session_lem)

-- A network on which every connection succeeds.
instance abbrev net : Network (Unit {0})
net = record {
  connect = λ s address. (s, done tt);
  write_all = λ s payload. (s, done tt);
  flush = λ s. (s, done tt);
  shutdown = λ s. (s, done tt);
  sleep = λ s. s;
}

abbrev client : RocketLeagueStatsClient
client = record {
  read_buffer = [];
  connection = record {
    host = "127.0.0.1";
    port = 49123;
    web_port = 49124;
    packet_send_rate = zero_f64;
    ini_path = none;
    ini_mutated = false;
  };
}

reconnects :
    (c : RocketLeagueStatsClient) (s : Unit {0})
    → (out : Unit {0} × RocketLeagueStatsClient) × (reconnect_with_backoff c s
        ≡ (out.0, returns out.1))
unfolding reconnect_with_backoff back_off reconnect connect_socket
reconnects c s = ((s, record c { read_buffer = [] }), refl)

-- The stream closes between two events.
abbrev given : List (Result (Option (StatsEvent Num)))
given = ok (some final_event) ∷ ok none ∷ ok (some final_event) ∷ []

stream_loop-Prints_example :
    Prints clock brief new brief_line brief_prints reconnects 0
      (heard new given)
      (stream_loop clock brief new 0 client tt given)
stream_loop-Prints_example =
    stream_loop-Prints clock brief new brief_line brief_prints reconnects 0 client tt given

-- The names are sorted, whatever the order in which the kinds were given.
announced :
    announcement
      (record no_arguments {
        event_kinds = match_paused ∷ goal_scored ∷ [];
        team_num = some (pos 1);
      })
      client
    ≡ "Listening on 127.0.0.1:49123 (format=pretty, filters=events=goal_scored,match_paused team=1)"
unfolding announcement describe_filters sort_unstable insert_sorted leb_text event_kind_name
    output_format_name socket_address show_u32 show_onto digit_char show_i64
announced = refl
