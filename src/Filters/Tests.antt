-- ===== src/Filters/Tests.antt =====
-- Filters and trackers at sample events.
use rlstatsapi.Prelude.{
  ◌≡◌, ◌↔◌, pos, refl, true, false, none, some, [], ◌∷◌, none-ne-some, some-injective, map_some,
}
use mathlib.Core.Path.{subst}
use rlstatsapi.Text.{eq_ignore_ascii_case}
use rlstatsapi.Float.{eq_f64, of_ℕ}
use rlstatsapi.Samples.{
  Num, sample_lib, sample_floats, default_update_state_data, default_update_state_player,
  default_match_ended_data,
}
use rlstatsapi.Events.Data.{StatsEvent, UpdateStatePlayer, update_state, match_ended}
use rlstatsapi.Events.Effective.{
  effective_speed, effective_boost, effective_boosting, effective_supersonic,
}
use rlstatsapi.Filters.Kind.{EventKind, kind_of, eq_kind}
use rlstatsapi.Filters.Matching.{
  EventFilter, new, contains, include_kind, include_kinds, insert_kind, extend_kinds,
  with_player_name, with_team_num, event_match_guid, event_has_team, event_has_player_name,
  event_has_player_primary_id, matches,
}
use rlstatsapi.Filters.Selecting.{Accepts, matches_iff}
use rlstatsapi.Filters.Tracker.{
  by_name, from_update, record_snapshot, eq_snapshot, update_from_event,
}
use rlstatsapi.Filters.Following.{
  HasNumberSpeed, IsFaithful, update_from_event-IsFaithful, update_from_event_twice,
}

filters : Unit {0}
unfolding matches contains include_kind include_kinds insert_kind extend_kinds with_player_name
    with_team_num kind_of eq_kind event_match_guid event_has_team event_has_player_name
    event_has_player_primary_id eq_ignore_ascii_case
filters = tt

trackers : Unit {0}
unfolding filters update_from_event record_snapshot from_update eq_snapshot effective_speed
    effective_boost effective_boosting effective_supersonic eq_f64 of_ℕ
trackers = tt

abbrev nick : UpdateStatePlayer Num
nick = record default_update_state_player {
  name = some "Nick";
  team_num = some (pos 1);
  speed = some (of_ℕ 1410);
  boost = some (pos 33);
  b_boosting = some false;
  b_supersonic = some false;
}

abbrev frame : StatsEvent Num
frame = update_state (record default_update_state_data { players = nick ∷ [] })

abbrev for_nick : EventFilter
for_nick = with_team_num (pos 1) (with_player_name "NICK" (include_kind EventKind.update_state new))

filter_runs :
    (matches for_nick frame ≡ true)
    × (matches (with_team_num (pos 0) for_nick) frame ≡ false)
    × (matches for_nick (match_ended default_match_ended_data) ≡ false)
unfolding filters
filter_runs = (refl, refl, refl)

matches_iff_example : (matches for_nick frame ≡ true) ↔ Accepts for_nick frame
matches_iff_example = matches_iff for_nick frame

tracker_reports : map_some (λ s. s.name) (update_from_event (by_name "nick") frame).1 ≡ some "Nick"
unfolding trackers
tracker_reports = refl

update_from_event-IsFaithful_example :
    IsFaithful (update_from_event (by_name "nick") frame).0
    × ((update_from_event (by_name "nick") frame).0.player_name ≡ "nick")
update_from_event-IsFaithful_example =
    update_from_event-IsFaithful (by_name "nick") frame (λ s h. absurd (none-ne-some s h))

update_from_event_twice_example :
    update_from_event (update_from_event (by_name "nick") frame).0 frame
    ≡ ((update_from_event (by_name "nick") frame).0, none)
unfolding trackers
update_from_event_twice_example =
    update_from_event_twice (by_name "nick") frame
      (λ s h. subst HasNumberSpeed (some-injective _ _ h) refl)
