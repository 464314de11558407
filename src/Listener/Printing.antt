-- ===== src/Listener/Printing.antt =====
-- rl_events.rs: `print_event`, the line it prints for an event in each format.
use rlstatsapi.Prelude.{
  ℕ, String, ℤ, pos, negsuc, Bool, true, false, Option, List, [], ◌∷◌, find, length, is_some_and,
  and_then, map_some, unwrap_or, eqb_ℤ, if◌then◌else◌,
}
use rlstatsapi.Float.{F64, zero_f64}
use rlstatsapi.Error.{Result, ok, ◌>>=◌}
use rlstatsapi.Json.{JsonLib}
use rlstatsapi.Commands.Defs.{show_onto}
use rlstatsapi.Commands.Wire.{join}
use rlstatsapi.Text.Trimmed.{is_nothing}
use rlstatsapi.Sos.Players.{show_i64}
use rlstatsapi.Sos.Translate.{is_no_contest}
use rlstatsapi.Events.Data.{
  PlayerRef, MatchEndedData, UpdateStateData, StatsEvent, update_state, boost_pickup,
  clock_updated_seconds, goal_scored, match_ended, player_joined, player_left, replay_created,
  statfeed_event, unknown,
}
use rlstatsapi.Events.Wire.{Derived, stats_event_name, stats_event_to_value}
use rlstatsapi.Listener.Options.{OutputFormat, pretty, compact, json_lines}

-- How a double is printed: with one digit behind the point, `{:.1}`, and in full.
pub record FixedText : Type 0 where
  pub format_1 : F64 → String
  -- `{}`
  pub display_f64 : F64 → String

-- `format!`
abbrev pub concat : List String → String
concat [] = ""
concat (s ∷ parts) = join s (concat parts)

abbrev pub show_bool : Bool → String
show_bool true = "true"
show_bool false = "false"

-- `usize`, which has at most twenty digits
abbrev pub show_usize : ℕ → String
show_usize n = show_onto 20 n ""

abbrev pub or_minus_one : Option ℤ → String
or_minus_one o = show_i64 (unwrap_or o (negsuc 0))

abbrev pub or_dash : Option String → String
or_dash o = unwrap_or o "-"

abbrev pub stamped : String → String → String
stamped ts text = concat ("[" ∷ ts ∷ "] " ∷ text ∷ [])

module _ {N : Type 0} where
  unfoldable pub winner_label : MatchEndedData N → String
  winner_label d = if is_no_contest d then "none (no contest)" else show_i64 d.winner_team_num

  unfoldable pub team_score : UpdateStateData N → ℤ → Option ℤ
  team_score d team_num =
      and_then (find (λ team. is_some_and (eqb_ℤ team_num) team.team_num) d.game.teams)
        (λ team. team.score)

  abbrev pub or_unknown : PlayerRef N → String
  or_unknown player = if is_nothing player.name then "unknown" else player.name

  module _ ⦃lib : JsonLib N⦄ ⦃fixed : FixedText⦄ where
    -- The text behind `[{ts}] `.
    unfoldable pub pretty_text : StatsEvent N → String
    unfolding winner_label team_score stats_event_name
    pretty_text (goal_scored d) = concat (
        "GOAL team="
        ∷ show_i64 d.scorer.team_num
        ∷ " scorer="
        ∷ or_unknown d.scorer
        ∷ " assister="
        ∷ or_dash (map_some or_unknown d.assister)
        ∷ " speed="
        ∷ fixed.format_1 d.goal_speed
        ∷ " time="
        ∷ fixed.format_1 d.goal_time
        ∷ "s match="
        ∷ or_dash d.match_guid
        ∷ [])
    pretty_text (update_state d) = concat (
        "UPDATE frame="
        ∷ or_minus_one d.game.frame
        ∷ " time="
        ∷ or_minus_one d.game.time_seconds
        ∷ "s score="
        ∷ or_minus_one (team_score d (pos 0))
        ∷ "-"
        ∷ or_minus_one (team_score d (pos 1))
        ∷ " players="
        ∷ show_usize (length d.players)
        ∷ " ball_speed="
        ∷ fixed.format_1 (unwrap_or (and_then d.game.ball (λ ball. ball.speed)) zero_f64)
        ∷ [])
    pretty_text (clock_updated_seconds d) = concat (
        "CLOCK time="
        ∷ show_i64 d.time_seconds
        ∷ "s overtime="
        ∷ show_bool d.b_overtime
        ∷ " match="
        ∷ or_dash d.match_guid
        ∷ [])
    pretty_text (match_ended d) =
        concat ("MATCH_ENDED winner_team=" ∷ winner_label d ∷ " match=" ∷ or_dash d.match_guid ∷ [])
    pretty_text (statfeed_event d) = concat (
        "STATFEED type="
        ∷ d.type_label
        ∷ " event="
        ∷ d.event_name
        ∷ " main="
        ∷ d.main_target.name
        ∷ " secondary="
        ∷ or_dash (map_some (λ player. player.name) d.secondary_target)
        ∷ [])
    pretty_text (boost_pickup d) = concat (
        "BOOST player="
        ∷ d.player.name
        ∷ " team="
        ∷ show_i64 d.player.team_num
        ∷ " amount="
        ∷ fixed.display_f64 d.boost_amount
        ∷ " type="
        ∷ d.boost_type
        ∷ " replay="
        ∷ show_bool d.b_replay
        ∷ [])
    pretty_text (player_joined d) =
        concat ("PLAYER_JOINED name=" ∷ d.player_name ∷ " id=" ∷ d.primary_id ∷ [])
    pretty_text (player_left d) =
        concat ("PLAYER_LEFT name=" ∷ d.player_name ∷ " id=" ∷ d.primary_id ∷ [])
    pretty_text (replay_created d) =
        concat ("REPLAY_CREATED file=" ∷ d.file_name ∷ " date=" ∷ d.date ∷ [])
    pretty_text (unknown d) =
        concat ("UNKNOWN event=" ∷ d.event ∷ " data=" ∷ lib.display d.payload ∷ [])
    pretty_text other = stats_event_name other

    unfoldable pub compact_text : StatsEvent N → String
    unfolding winner_label stats_event_name
    compact_text (goal_scored d) = concat (
        "GOAL team="
        ∷ show_i64 d.scorer.team_num
        ∷ " scorer="
        ∷ d.scorer.name
        ∷ " match="
        ∷ or_dash d.match_guid
        ∷ [])
    compact_text (match_ended d) =
        concat ("MATCH_ENDED winner_team=" ∷ winner_label d ∷ " match=" ∷ or_dash d.match_guid ∷ [])
    compact_text (update_state d) = concat (
        "UPDATE frame="
        ∷ or_minus_one d.game.frame
        ∷ " time="
        ∷ or_minus_one d.game.time_seconds
        ∷ " players="
        ∷ show_usize (length d.players)
        ∷ [])
    compact_text other = stats_event_name other

    -- The line that is printed, or the error of printing JSON.
    unfoldable pub print_event :
        ⦃serde : Derived N⦄ → String → OutputFormat → StatsEvent N → Result String
    print_event ts pretty event = ok (stamped ts (pretty_text event))
    print_event ts compact event = ok (stamped ts (compact_text event))
    print_event ts json_lines event = stats_event_to_value event >>= lib.to_string
