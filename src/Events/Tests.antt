-- ===== src/Events/Tests.antt =====
-- Events at sample data: printing, parsing and the names of the wire.
use rlstatsapi.Prelude.{pos, ◌≡◌, refl, none, some}
use rlstatsapi.Error.{ok, ◌>>=◌}
use rlstatsapi.Json.{get, number, null, string, end, object, field}
use rlstatsapi.Samples.{
  sample_floats, int, default_update_state_player, Num, sample_lib, sample_derived, sample_reads,
}
use rlstatsapi.Events.Data.{
  UpdateStatePlayer, StatsEvent, goal_replay_start, unknown, UnknownEvent, EventEnvelope,
}
use rlstatsapi.Events.Wire.{
  stats_event_name, stats_event_to_value, parse_event_envelope, parse_stats_event_value,
  normalize_event_data,
}
use rlstatsapi.Events.Effective.{
  value_as_i64, effective_speed, effective_boost, effective_boosting, effective_supersonic,
}
use rlstatsapi.Events.Meanings.{MeansF64, MeansI64, MeansBool}
use rlstatsapi.Events.Places.{
  IsFirstBehind, speed_places, boost_places, boosting_places, supersonic_places,
}
use rlstatsapi.Events.Fallbacks.{effective-IsFirstBehind}
use rlstatsapi.Events.Naming.{canonical_name, parse-name, parse-unknown}
use rlstatsapi.Events.RoundTrip.{parse-to_value}

abbrev started : StatsEvent Num
started = goal_replay_start (record { match_guid = some "M1"; extra = end })

abbrev novel : UnknownEvent Num
novel = record { event = "DemoSmash"; payload = object (field "Force" null end) }

-- The alias of the wire.
abbrev replay_envelope : EventEnvelope Num
replay_envelope = record {
  event = "ReplayStart";
  payload = object (field "MatchGuid" (string "M1") end);
}

parse_alias : parse_event_envelope replay_envelope ≡ ok started
unfolding parse_event_envelope get
parse_alias = refl

parse-name_example : stats_event_name started ≡ canonical_name "ReplayStart"
parse-name_example = parse-name replay_envelope started parse_alias

parse-unknown_example :
    parse_event_envelope (record { event = novel.event; payload = novel.payload })
    ≡ ok (unknown novel)
unfolding normalize_event_data canonical_name
parse-unknown_example =
    parse-unknown (record { event = novel.event; payload = novel.payload }) novel.payload refl refl

parse-to_value_example : (stats_event_to_value started >>= parse_stats_event_value) ≡ ok started
unfolding get
parse-to_value_example =
    parse-to_value sample_reads started (field "MatchGuid" (string "M1") end, refl, refl)

-- A player whose boost stands only in an object under "Car".
abbrev driver : UpdateStatePlayer Num
driver = record default_update_state_player {
  extra = field "Car" (object (field "BoostAmount" (number (int (pos 33))) end)) end;
}

driver_boost : effective_boost driver ≡ some (pos 33)
unfolding effective_boost get value_as_i64
driver_boost = refl

effective-IsFirstBehind_example :
    IsFirstBehind MeansF64 none driver.extra speed_places (effective_speed driver)
    × IsFirstBehind MeansI64 none driver.extra boost_places (effective_boost driver)
    × IsFirstBehind MeansBool none driver.extra boosting_places (effective_boosting driver)
    × IsFirstBehind MeansBool none driver.extra supersonic_places (effective_supersonic driver)
effective-IsFirstBehind_example = effective-IsFirstBehind driver
