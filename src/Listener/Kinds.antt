-- ===== src/Listener/Kinds.antt =====
-- rl_events.rs: the names of the kinds of events on the command line.
use rlstatsapi.Prelude.{String, Bool, ◌||◌, Option, none, some, List, [], ◌∷◌, map, if◌then◌else◌}
use rlstatsapi.Text.{Text, codes, eq_text, trim, to_ascii_lowercase}
use rlstatsapi.Text.Trimmed.{split_commas}
use rlstatsapi.Arguments.{about, Cli, refuse, accept}
use rlstatsapi.Filters.Kind.{
  EventKind, update_state, ball_hit, boost_pickup, clock_updated_seconds, countdown_begin,
  crossbar_hit, goal_replay_end, goal_replay_start, goal_replay_will_end, goal_scored,
  match_created, match_initialized, match_destroyed, match_ended, match_paused, match_unpaused,
  player_joined, player_left, podium_start, replay_created, round_started, statfeed_event, unknown,
}
use rlstatsapi.Filters.Matching.{insert_kind}

abbrev pub is : Text → String → Bool
is token name = eq_text token (codes name)

unfoldable pub event_kind_from_token : Text → Option EventKind
event_kind_from_token token =
    if is token "update_state" || is token "update" || is token "state" || is token "tick"
    then some update_state
    else if is token "ball_hit" || is token "ballhit"
    then some ball_hit
    else if is token "boost_pickup" || is token "boost"
    then some boost_pickup
    else if is token "clock_updated_seconds" || is token "clock"
    then some clock_updated_seconds
    else if is token "countdown_begin" || is token "countdown"
    then some countdown_begin
    else if is token "crossbar_hit" || is token "crossbar"
    then some crossbar_hit
    else if is token "goal_replay_end"
    then some goal_replay_end
    else if is token "goal_replay_start"
    then some goal_replay_start
    else if is token "goal_replay_will_end"
    then some goal_replay_will_end
    else if is token "goal_scored" || is token "goal"
    then some goal_scored
    else if is token "match_created"
    then some match_created
    else if is token "match_initialized"
    then some match_initialized
    else if is token "match_destroyed"
    then some match_destroyed
    else if is token "match_ended" || is token "ended"
    then some match_ended
    else if is token "match_paused" || is token "paused" || is token "pause"
    then some match_paused
    else if is token "match_unpaused" || is token "unpaused" || is token "unpause"
    then some match_unpaused
    else if is token "player_joined" || is token "joined"
    then some player_joined
    else if is token "player_left" || is token "left"
    then some player_left
    else if is token "podium_start"
    then some podium_start
    else if is token "replay_created"
    then some replay_created
    else if is token "round_started" || is token "round"
    then some round_started
    else if is token "statfeed_event" || is token "statfeed"
    then some statfeed_event
    else if is token "unknown"
    then some unknown
    else none

unfoldable pub event_kind_name : EventKind → String
event_kind_name update_state = "update_state"
event_kind_name ball_hit = "ball_hit"
event_kind_name boost_pickup = "boost_pickup"
event_kind_name clock_updated_seconds = "clock_updated_seconds"
event_kind_name countdown_begin = "countdown_begin"
event_kind_name crossbar_hit = "crossbar_hit"
event_kind_name goal_replay_end = "goal_replay_end"
event_kind_name goal_replay_start = "goal_replay_start"
event_kind_name goal_replay_will_end = "goal_replay_will_end"
event_kind_name goal_scored = "goal_scored"
event_kind_name match_created = "match_created"
event_kind_name match_initialized = "match_initialized"
event_kind_name match_destroyed = "match_destroyed"
event_kind_name match_ended = "match_ended"
event_kind_name match_paused = "match_paused"
event_kind_name match_unpaused = "match_unpaused"
event_kind_name player_joined = "player_joined"
event_kind_name player_left = "player_left"
event_kind_name podium_start = "podium_start"
event_kind_name replay_created = "replay_created"
event_kind_name round_started = "round_started"
event_kind_name statfeed_event = "statfeed_event"
event_kind_name unknown = "unknown"

-- The array of `print_event_list`.
abbrev pub listed_events : List EventKind
listed_events =
    update_state ∷ ball_hit ∷ boost_pickup ∷ clock_updated_seconds ∷ countdown_begin ∷ crossbar_hit
    ∷ goal_replay_end ∷ goal_replay_start ∷ goal_replay_will_end ∷ goal_scored ∷ match_created
    ∷ match_initialized ∷ match_destroyed ∷ match_ended ∷ match_paused ∷ match_unpaused
    ∷ player_joined ∷ player_left ∷ podium_start ∷ replay_created ∷ round_started ∷ statfeed_event
    ∷ unknown ∷ []

-- `token.trim().to_ascii_lowercase()`
abbrev pub normalized_token : Text → Text
normalized_token token = map to_ascii_lowercase (trim token)

abbrev pub insert_or_refuse :
    Text → Option EventKind → (EventKind → Cli (List EventKind)) → Cli (List EventKind)
insert_or_refuse token none next =
    refuse (about "unknown event filter '" token "'. Use --list-events to see valid values.")
insert_or_refuse token (some kind) next = next kind

abbrev pub is_blank_token : Text → Bool
is_blank_token t = is t ""

-- the body of the loop at a normalized token, with the rest of the loop
abbrev pub at_token :
    Text → List EventKind → (List EventKind → Cli (List EventKind)) → Cli (List EventKind)
at_token token filters next =
    if is_blank_token token
    then next filters
    else if is token "all"
    then next []
    else insert_or_refuse token (event_kind_from_token token)
        (λ kind. next (insert_kind filters kind))

unfoldable pub filter_by_tokens : List Text → List EventKind → Cli (List EventKind)
filter_by_tokens [] filters = accept filters
filter_by_tokens (token ∷ tokens) filters =
    at_token (normalized_token token) filters (λ f. filter_by_tokens tokens f)

-- The set of kinds is a list without repetition, which the call returns.
unfoldable pub parse_event_filter_value : Text → List EventKind → Cli (List EventKind)
unfolding filter_by_tokens
parse_event_filter_value value filters = filter_by_tokens (split_commas value) filters
