-- ===== src/Events/Wire.antt =====
-- events.rs: the wire form of events, `stats_event_to_value` and `parse_stats_event`.
-- The readers and printers that serde derives for the structs are the interface `Derived`.
use text.Mathlib.Text.{◌==◌}
use rlstatsapi.Prelude.{String, ◌||◌, if◌then◌else◌}
use rlstatsapi.Error.{Result, ok, ◌>>=◌, map_ok}
use rlstatsapi.Json.{Value, string, object, end, field, JsonLib}
use rlstatsapi.Events.Data.{
  UpdateStateData, BallHitData, BoostPickupData, ClockUpdatedSecondsData, MatchOnlyData,
  CrossbarHitData, GoalScoredData, MatchEndedData, PlayerPresenceData, ReplayCreatedData,
  StatfeedEventData, EventEnvelope, StatsEvent, update_state, ball_hit, boost_pickup,
  clock_updated_seconds, countdown_begin, crossbar_hit, goal_replay_end, goal_replay_start,
  goal_replay_will_end, goal_scored, match_created, match_initialized, match_destroyed, match_ended,
  match_paused, match_unpaused, player_joined, player_left, podium_start, replay_created,
  round_started, statfeed_event, unknown,
}

pub record Codec (N A : Type 0) : Type 0 where
  pub encode : A → Value N
  pub decode : Value N → Result A

pub record Derived (N : Type 0) : Type 0 where
  pub update_state_data : Codec N (UpdateStateData N)
  pub ball_hit_data : Codec N (BallHitData N)
  pub boost_pickup_data : Codec N (BoostPickupData N)
  pub clock_updated_seconds_data : Codec N (ClockUpdatedSecondsData N)
  pub match_only_data : Codec N (MatchOnlyData N)
  pub crossbar_hit_data : Codec N (CrossbarHitData N)
  pub goal_scored_data : Codec N (GoalScoredData N)
  pub match_ended_data : Codec N (MatchEndedData N)
  pub player_presence_data : Codec N (PlayerPresenceData N)
  pub replay_created_data : Codec N (ReplayCreatedData N)
  pub statfeed_event_data : Codec N (StatfeedEventData N)
  -- `from_value` and `from_str` at `EventEnvelope<Value>`
  pub decode_envelope : Value N → Result (EventEnvelope N)
  pub envelope_of_str : String → Result (EventEnvelope N)

module _ {N : Type 0} where
  unfoldable pub stats_event_name : StatsEvent N → String
  stats_event_name (update_state d) = "UpdateState"
  stats_event_name (ball_hit d) = "BallHit"
  stats_event_name (boost_pickup d) = "BoostPickup"
  stats_event_name (clock_updated_seconds d) = "ClockUpdatedSeconds"
  stats_event_name (countdown_begin d) = "CountdownBegin"
  stats_event_name (crossbar_hit d) = "CrossbarHit"
  stats_event_name (goal_replay_end d) = "GoalReplayEnd"
  stats_event_name (goal_replay_start d) = "GoalReplayStart"
  stats_event_name (goal_replay_will_end d) = "GoalReplayWillEnd"
  stats_event_name (goal_scored d) = "GoalScored"
  stats_event_name (match_created d) = "MatchCreated"
  stats_event_name (match_initialized d) = "MatchInitialized"
  stats_event_name (match_destroyed d) = "MatchDestroyed"
  stats_event_name (match_ended d) = "MatchEnded"
  stats_event_name (match_paused d) = "MatchPaused"
  stats_event_name (match_unpaused d) = "MatchUnpaused"
  stats_event_name (player_joined d) = "PlayerJoined"
  stats_event_name (player_left d) = "PlayerLeft"
  stats_event_name (podium_start d) = "PodiumStart"
  stats_event_name (replay_created d) = "ReplayCreated"
  stats_event_name (round_started d) = "RoundStarted"
  stats_event_name (statfeed_event d) = "StatfeedEvent"
  stats_event_name (unknown d) = "Unknown"

  -- `json!({"event": name, "data": data})`
  abbrev pub tagged : String → Value N → Value N
  tagged name d = object (field "event" (string name) (field "data" d end))

module _ {N : Type 0} ⦃lib : JsonLib N⦄ where
  unfoldable pub normalize_event_data : Value N → Result (Value N)
  normalize_event_data (string raw) = lib.from_str raw
  normalize_event_data other = ok other

module _ {N : Type 0} ⦃serde : Derived N⦄ where
  unfoldable pub stats_event_to_value : StatsEvent N → Result (Value N)
  stats_event_to_value (update_state d) =
      ok (tagged "UpdateState" (serde.update_state_data.encode d))
  stats_event_to_value (ball_hit d) = ok (tagged "BallHit" (serde.ball_hit_data.encode d))
  stats_event_to_value (boost_pickup d) =
      ok (tagged "BoostPickup" (serde.boost_pickup_data.encode d))
  stats_event_to_value (clock_updated_seconds d) =
      ok (tagged "ClockUpdatedSeconds" (serde.clock_updated_seconds_data.encode d))
  stats_event_to_value (countdown_begin d) =
      ok (tagged "CountdownBegin" (serde.match_only_data.encode d))
  stats_event_to_value (crossbar_hit d) =
      ok (tagged "CrossbarHit" (serde.crossbar_hit_data.encode d))
  stats_event_to_value (goal_replay_end d) =
      ok (tagged "GoalReplayEnd" (serde.match_only_data.encode d))
  stats_event_to_value (goal_replay_start d) =
      ok (tagged "GoalReplayStart" (serde.match_only_data.encode d))
  stats_event_to_value (goal_replay_will_end d) =
      ok (tagged "GoalReplayWillEnd" (serde.match_only_data.encode d))
  stats_event_to_value (goal_scored d) = ok (tagged "GoalScored" (serde.goal_scored_data.encode d))
  stats_event_to_value (match_created d) =
      ok (tagged "MatchCreated" (serde.match_only_data.encode d))
  stats_event_to_value (match_initialized d) =
      ok (tagged "MatchInitialized" (serde.match_only_data.encode d))
  stats_event_to_value (match_destroyed d) =
      ok (tagged "MatchDestroyed" (serde.match_only_data.encode d))
  stats_event_to_value (match_ended d) = ok (tagged "MatchEnded" (serde.match_ended_data.encode d))
  stats_event_to_value (match_paused d) = ok (tagged "MatchPaused" (serde.match_only_data.encode d))
  stats_event_to_value (match_unpaused d) =
      ok (tagged "MatchUnpaused" (serde.match_only_data.encode d))
  stats_event_to_value (player_joined d) =
      ok (tagged "PlayerJoined" (serde.player_presence_data.encode d))
  stats_event_to_value (player_left d) =
      ok (tagged "PlayerLeft" (serde.player_presence_data.encode d))
  stats_event_to_value (podium_start d) = ok (tagged "PodiumStart" (serde.match_only_data.encode d))
  stats_event_to_value (replay_created d) =
      ok (tagged "ReplayCreated" (serde.replay_created_data.encode d))
  stats_event_to_value (round_started d) =
      ok (tagged "RoundStarted" (serde.match_only_data.encode d))
  stats_event_to_value (statfeed_event d) =
      ok (tagged "StatfeedEvent" (serde.statfeed_event_data.encode d))
  stats_event_to_value (unknown d) = ok (tagged d.event d.payload)

  -- The `match` of `parse_event_envelope`, on the event's name.
  unfoldable pub event_of : String → Value N → Result (StatsEvent N)
  event_of name d =
      if name == "UpdateState"
      then map_ok update_state (serde.update_state_data.decode d)
      else if name == "BallHit"
      then map_ok ball_hit (serde.ball_hit_data.decode d)
      else if name == "BoostPickup"
      then map_ok boost_pickup (serde.boost_pickup_data.decode d)
      else if name == "ClockUpdatedSeconds"
      then map_ok clock_updated_seconds (serde.clock_updated_seconds_data.decode d)
      else if name == "CountdownBegin"
      then map_ok countdown_begin (serde.match_only_data.decode d)
      else if name == "CrossbarHit"
      then map_ok crossbar_hit (serde.crossbar_hit_data.decode d)
      else if name == "GoalReplayEnd" || name == "ReplayEnd"
      then map_ok goal_replay_end (serde.match_only_data.decode d)
      else if name == "GoalReplayStart" || name == "ReplayStart"
      then map_ok goal_replay_start (serde.match_only_data.decode d)
      else if name == "GoalReplayWillEnd" || name == "ReplayWillEnd"
      then map_ok goal_replay_will_end (serde.match_only_data.decode d)
      else if name == "GoalScored"
      then map_ok goal_scored (serde.goal_scored_data.decode d)
      else if name == "MatchCreated"
      then map_ok match_created (serde.match_only_data.decode d)
      else if name == "MatchInitialized"
      then map_ok match_initialized (serde.match_only_data.decode d)
      else if name == "MatchDestroyed"
      then map_ok match_destroyed (serde.match_only_data.decode d)
      else if name == "MatchEnded"
      then map_ok match_ended (serde.match_ended_data.decode d)
      else if name == "MatchPaused"
      then map_ok match_paused (serde.match_only_data.decode d)
      else if name == "MatchUnpaused"
      then map_ok match_unpaused (serde.match_only_data.decode d)
      else if name == "PlayerJoined"
      then map_ok player_joined (serde.player_presence_data.decode d)
      else if name == "PlayerLeft"
      then map_ok player_left (serde.player_presence_data.decode d)
      else if name == "PodiumStart"
      then map_ok podium_start (serde.match_only_data.decode d)
      else if name == "ReplayCreated"
      then map_ok replay_created (serde.replay_created_data.decode d)
      else if name == "RoundStarted"
      then map_ok round_started (serde.match_only_data.decode d)
      else if name == "StatfeedEvent"
      then map_ok statfeed_event (serde.statfeed_event_data.decode d)
      else ok (unknown (record { event = name; payload = d }))

module _ {N : Type 0} ⦃lib : JsonLib N⦄ ⦃serde : Derived N⦄ where
  unfoldable pub parse_event_envelope : EventEnvelope N → Result (StatsEvent N)
  unfolding normalize_event_data event_of
  parse_event_envelope envelope = do
    d ← normalize_event_data envelope.payload
    event_of envelope.event d

  unfoldable pub parse_stats_event_value : Value N → Result (StatsEvent N)
  unfolding parse_event_envelope
  parse_stats_event_value value = do
    envelope ← serde.decode_envelope value
    parse_event_envelope envelope

  unfoldable pub parse_stats_event : String → Result (StatsEvent N)
  unfolding parse_event_envelope
  parse_stats_event input = do envelope ← serde.envelope_of_str input; parse_event_envelope envelope
