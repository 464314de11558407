-- ===== src/Sos/Tests.antt =====
-- The translation at sample events.
use rlstatsapi.Prelude.{
  ◌≡◌, refl, String, ℤ, pos, negsuc, none, some, List, [], ◌∷◌, All, map, map_some, and_then,
}
use rlstatsapi.Error.{ok}
use rlstatsapi.Json.{Value, array, string, nil, cons, end, get, as_object}
use rlstatsapi.Samples.{
  Num, sample_lib, sample_derived, sample_floats, default_update_state_data,
  default_update_state_player,
}
use rlstatsapi.Events.Data.{StatsEvent, TeamState, UpdateStateData, countdown_begin, unknown}
use rlstatsapi.Events.Wire.{Derived, stats_event_name, stats_event_to_value, tagged}
use rlstatsapi.Events.Effective.{is_blank_name}
use rlstatsapi.Commands.Defs.{show_onto, digit_char}
use rlstatsapi.Text.{trim, trim_start, trim_end, keep_unless_blank, is_whitespace}
use rlstatsapi.Filters.Matching.{event_match_guid}
use rlstatsapi.Sos.Players.{player_value, translate_players, format_player_id, show_i64}
use rlstatsapi.Sos.Teams.{team_value, translate_teams}
use rlstatsapi.Sos.Translate.{SosEnvelope, envelope, translate_stats_event}
use rlstatsapi.Sos.Guids.{
  fate, about_match, passed, Carries, names_for, sos_names, translate-Carries, translate-passed,
  wire_name,
}
use rlstatsapi.Sos.Lookup.{last_team, last_player, translate_teams_lem, translate_players_lem}

instance abbrev derived : Derived Num
derived = sample_derived

abbrev countdown : StatsEvent Num
countdown = countdown_begin (record { match_guid = some "M1"; extra = end })

countdown_about : fate countdown ≡ about_match
unfolding fate
countdown_about = refl

translate-Carries_example :
    (messages : List (SosEnvelope Num)) × (translate_stats_event countdown ≡ ok messages)
    × (map (λ message. message.event) messages ≡ names_for (stats_event_name countdown) sos_names)
    × All (Carries (event_match_guid countdown)) messages
translate-Carries_example = translate-Carries countdown countdown_about

abbrev other : StatsEvent Num
other = unknown (record { event = "NewEvent"; payload = string "x" })

other_passed : fate other ≡ passed
unfolding fate
other_passed = refl

translate-passed_example :
    (payload : Value Num) × (stats_event_to_value other ≡ ok (tagged (wire_name other) payload))
    × (translate_stats_event other ≡ ok (envelope (wire_name other) payload ∷ []))
translate-passed_example = translate-passed other other_passed

abbrev team : ℤ → String → TeamState Num
team number name = record {
  name = some name;
  team_num = some number;
  score = some (pos 2);
  color_primary = none;
  color_secondary = none;
  extra = end;
}

abbrev teams : List (TeamState Num)
teams = team (pos 1) "A" ∷ team (pos 1) "B" ∷ team (pos 3) "C" ∷ []

translate_teams_lem_example :
    translate_teams teams
    ≡ array (
        cons
          (team_value "Blue" "1873FF" (last_team (pos 0) teams))
          (cons (team_value "Orange" "C26418" (last_team (pos 1) teams)) nil))
translate_teams_lem_example = translate_teams_lem teams

abbrev update : UpdateStateData Num
update = record default_update_state_data {
  players = record default_update_state_player { name = some "Ann"; shortcut = some (pos 3) } ∷ [];
}

translate_players_lem_example :
    and_then (as_object (translate_players update)) (λ players. get players "Ann_3")
    ≡ map_some player_value (last_player "Ann_3" update.players)
translate_players_lem_example = translate_players_lem update "Ann_3"

id_runs : (format_player_id "Ann" (negsuc 11) ≡ "Ann_-12") × (format_player_id " " (pos 3) ≡ "")
unfolding format_player_id show_i64 show_onto digit_char is_blank_name trim trim_start trim_end
    keep_unless_blank is_whitespace
id_runs = (refl, refl)
