-- ===== src/Events/RoundTrip.antt =====
-- Printing an event and parsing the result.
use rlstatsapi.Prelude.{String, ◌≡◌, ◌≢◌, refl, none}
use rlstatsapi.Error.{ok, ◌>>=◌, map_ok}
use rlstatsapi.Json.{Value, null, string, object, Fields, JsonLib}
use rlstatsapi.Events.Data.{
  StatsEvent, UnknownEvent, update_state, ball_hit, boost_pickup, clock_updated_seconds,
  countdown_begin, crossbar_hit, goal_replay_end, goal_replay_start, goal_replay_will_end,
  goal_scored, match_created, match_initialized, match_destroyed, match_ended, match_paused,
  match_unpaused, player_joined, player_left, podium_start, replay_created, round_started,
  statfeed_event, unknown,
}
use rlstatsapi.Events.Wire.{
  Codec, Derived, tagged, normalize_event_data, stats_event_to_value, event_of,
  parse_stats_event_value,
}
use rlstatsapi.Events.Naming.{known_names, find_name, parse-unknown}

-- What serde derives reads back what it wrote at this value, which it wrote as an object.
abbrev pub ReadsBack : {N A : Type 0} → Codec N A → A → Type 0
ReadsBack {N} c a =
    (fields : Fields N) × (c.encode a ≡ object fields) × (c.decode (object fields) ≡ ok a)

module _ {N : Type 0} ⦃serde : Derived N⦄ where
  -- An unknown event must not have a known name, nor a text for its data.
  abbrev pub Survives : StatsEvent N → Type 0
  Survives (update_state d) = ReadsBack serde.update_state_data d
  Survives (ball_hit d) = ReadsBack serde.ball_hit_data d
  Survives (boost_pickup d) = ReadsBack serde.boost_pickup_data d
  Survives (clock_updated_seconds d) = ReadsBack serde.clock_updated_seconds_data d
  Survives (countdown_begin d) = ReadsBack serde.match_only_data d
  Survives (crossbar_hit d) = ReadsBack serde.crossbar_hit_data d
  Survives (goal_replay_end d) = ReadsBack serde.match_only_data d
  Survives (goal_replay_start d) = ReadsBack serde.match_only_data d
  Survives (goal_replay_will_end d) = ReadsBack serde.match_only_data d
  Survives (goal_scored d) = ReadsBack serde.goal_scored_data d
  Survives (match_created d) = ReadsBack serde.match_only_data d
  Survives (match_initialized d) = ReadsBack serde.match_only_data d
  Survives (match_destroyed d) = ReadsBack serde.match_only_data d
  Survives (match_ended d) = ReadsBack serde.match_ended_data d
  Survives (match_paused d) = ReadsBack serde.match_only_data d
  Survives (match_unpaused d) = ReadsBack serde.match_only_data d
  Survives (player_joined d) = ReadsBack serde.player_presence_data d
  Survives (player_left d) = ReadsBack serde.player_presence_data d
  Survives (podium_start d) = ReadsBack serde.match_only_data d
  Survives (replay_created d) = ReadsBack serde.replay_created_data d
  Survives (round_started d) = ReadsBack serde.match_only_data d
  Survives (statfeed_event d) = ReadsBack serde.statfeed_event_data d
  Survives (unknown d) =
      (find_name d.event known_names ≡ none) × ((raw : String) → d.payload ≢ string raw)

-- The envelope that serde derives reads an object with the two keys.
abbrev pub ReadsEnvelopes : {N : Type 0} → Derived N → Type 0
ReadsEnvelopes {N} serde =
    (name : String) (d : Value N)
    → serde.decode_envelope (tagged name d) ≡ ok (record { event = name; payload = d })

module _ {N : Type 0} ⦃lib : JsonLib N⦄ ⦃serde : Derived N⦄ (reads : ReadsEnvelopes serde) where
  parse-tagged :
      (name : String) (fields : Fields N)
      → parse_stats_event_value (tagged name (object fields)) ≡ event_of name (object fields)
  unfolding parse_stats_event_value
  parse-tagged name fields = rw (reads name (object fields))

normalize_unless_text :
    {N : Type 0} ⦃lib : JsonLib N⦄ (v : Value N)
    → ((raw : String) → v ≢ string raw)
    → normalize_event_data v ≡ ok v
unfolding normalize_event_data
normalize_unless_text (string raw) h = absurd (h raw refl)
normalize_unless_text null h = refl
normalize_unless_text _ h = refl

module _ {N : Type 0} ⦃lib : JsonLib N⦄ ⦃serde : Derived N⦄ (reads : ReadsEnvelopes serde) where
  reads_back :
      {A : Type 0} (name : String) (arm : A → StatsEvent N) (codec : Codec N A) (a : A)
      → ((fields : Fields N)
          → event_of name (object fields) ≡ map_ok arm (codec.decode (object fields)))
      → ReadsBack codec a
      → parse_stats_event_value (tagged name (codec.encode a)) ≡ ok (arm a)
  reads_back name arm codec a picks (fields, written, read) =
      rw (written, parse-tagged reads name fields, picks fields, read)

  reads_unknown :
      (d : UnknownEvent N)
      → Survives (unknown d)
      → parse_stats_event_value (tagged d.event d.payload) ≡ ok (unknown d)
  unfolding parse_stats_event_value
  reads_unknown d (missing, plain) = rw (reads d.event d.payload) (
      parse-unknown (record { event = d.event; payload = d.payload }) d.payload missing
        (normalize_unless_text d.payload plain))

  -- Printing an event and parsing the value gives the event back, if serde reads back the data of
  -- the event; an unknown event must have a name that the table lacks, and data that is no text.
  pub parse-to_value :
      (e : StatsEvent N) → Survives e → (stats_event_to_value e >>= parse_stats_event_value) ≡ ok e
  unfolding stats_event_to_value event_of
  parse-to_value (update_state d) h =
      reads_back "UpdateState" update_state serde.update_state_data d (λ fields. refl) h
  parse-to_value (ball_hit d) h =
      reads_back "BallHit" ball_hit serde.ball_hit_data d (λ fields. refl) h
  parse-to_value (boost_pickup d) h =
      reads_back "BoostPickup" boost_pickup serde.boost_pickup_data d (λ fields. refl) h
  parse-to_value (clock_updated_seconds d) h =
      reads_back "ClockUpdatedSeconds" clock_updated_seconds serde.clock_updated_seconds_data d
        (λ fields. refl) h
  parse-to_value (countdown_begin d) h =
      reads_back "CountdownBegin" countdown_begin serde.match_only_data d (λ fields. refl) h
  parse-to_value (crossbar_hit d) h =
      reads_back "CrossbarHit" crossbar_hit serde.crossbar_hit_data d (λ fields. refl) h
  parse-to_value (goal_replay_end d) h =
      reads_back "GoalReplayEnd" goal_replay_end serde.match_only_data d (λ fields. refl) h
  parse-to_value (goal_replay_start d) h =
      reads_back "GoalReplayStart" goal_replay_start serde.match_only_data d (λ fields. refl) h
  parse-to_value (goal_replay_will_end d) h =
      reads_back "GoalReplayWillEnd" goal_replay_will_end serde.match_only_data d (λ fields. refl) h
  parse-to_value (goal_scored d) h =
      reads_back "GoalScored" goal_scored serde.goal_scored_data d (λ fields. refl) h
  parse-to_value (match_created d) h =
      reads_back "MatchCreated" match_created serde.match_only_data d (λ fields. refl) h
  parse-to_value (match_initialized d) h =
      reads_back "MatchInitialized" match_initialized serde.match_only_data d (λ fields. refl) h
  parse-to_value (match_destroyed d) h =
      reads_back "MatchDestroyed" match_destroyed serde.match_only_data d (λ fields. refl) h
  parse-to_value (match_ended d) h =
      reads_back "MatchEnded" match_ended serde.match_ended_data d (λ fields. refl) h
  parse-to_value (match_paused d) h =
      reads_back "MatchPaused" match_paused serde.match_only_data d (λ fields. refl) h
  parse-to_value (match_unpaused d) h =
      reads_back "MatchUnpaused" match_unpaused serde.match_only_data d (λ fields. refl) h
  parse-to_value (player_joined d) h =
      reads_back "PlayerJoined" player_joined serde.player_presence_data d (λ fields. refl) h
  parse-to_value (player_left d) h =
      reads_back "PlayerLeft" player_left serde.player_presence_data d (λ fields. refl) h
  parse-to_value (podium_start d) h =
      reads_back "PodiumStart" podium_start serde.match_only_data d (λ fields. refl) h
  parse-to_value (replay_created d) h =
      reads_back "ReplayCreated" replay_created serde.replay_created_data d (λ fields. refl) h
  parse-to_value (round_started d) h =
      reads_back "RoundStarted" round_started serde.match_only_data d (λ fields. refl) h
  parse-to_value (statfeed_event d) h =
      reads_back "StatfeedEvent" statfeed_event serde.statfeed_event_data d (λ fields. refl) h
  parse-to_value (unknown d) h = reads_unknown d h
