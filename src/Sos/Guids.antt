-- ===== src/Sos/Guids.antt =====
-- What `translate_stats_event` keeps of an event: its match, or all of it.
use text.Mathlib.Text.{◌==◌}
use rlstatsapi.Prelude.{
  ◌≡◌, refl, ◌⊎◌, inl, inr, String, Option, none, some, List, [], ◌∷◌, map, All, if◌then◌else◌,
}
use rlstatsapi.Text.{codes}
use rlstatsapi.Text.Blank.{IsBlank, trim_cases}
use rlstatsapi.Events.Effective.{is_blank_name}
use rlstatsapi.Float.{FloatText}
use rlstatsapi.Error.{ok}
use rlstatsapi.Json.{Value, null, string, JsonLib, get, get_value}
use rlstatsapi.Events.Data.{
  StatsEvent, update_state, ball_hit, boost_pickup, clock_updated_seconds, countdown_begin,
  crossbar_hit, goal_replay_end, goal_replay_start, goal_replay_will_end, goal_scored,
  match_created, match_initialized, match_destroyed, match_ended, match_paused, match_unpaused,
  player_joined, player_left, podium_start, replay_created, round_started, statfeed_event, unknown,
}
use rlstatsapi.Events.Wire.{Derived, tagged, stats_event_name, stats_event_to_value}
use rlstatsapi.Filters.Matching.{event_match_guid}
use rlstatsapi.Sos.Players.{json_option, normalized_match_guid}
use rlstatsapi.Sos.Translate.{
  SosEnvelope, envelope, match_guid_payload, ball_hit_payload, statfeed_payload,
  goal_scored_payload, translate_update_state, passthrough_envelope, translate_stats_event,
}

-- What becomes of an event in SOS: messages about its match, a fixed message, or the event itself.
pub data Fate : Type 0 where
  about_match fixed passed : Fate

-- The messages of SOS for an event about a match, by the name of the event.
abbrev pub sos_names : List (String × List String)
sos_names =
    ("MatchCreated", "game:match_created" ∷ [])
    ∷ ("MatchInitialized", "game:initialized" ∷ [])
    ∷ ("CountdownBegin", "game:pre_countdown_begin" ∷ "game:post_countdown_begin" ∷ [])
    ∷ ("UpdateState", "game:update_state" ∷ [])
    ∷ ("BallHit", "game:ball_hit" ∷ [])
    ∷ ("StatfeedEvent", "game:statfeed_event" ∷ [])
    ∷ ("GoalScored", "game:goal_scored" ∷ [])
    ∷ ("GoalReplayStart", "game:replay_start" ∷ [])
    ∷ ("GoalReplayWillEnd", "game:replay_will_end" ∷ [])
    ∷ ("GoalReplayEnd", "game:replay_end" ∷ [])
    ∷ ("MatchEnded", "game:match_ended" ∷ [])
    ∷ ("PodiumStart", "game:podium_start" ∷ [])
    ∷ ("MatchDestroyed", "game:match_destroyed" ∷ [])
    ∷ ("ReplayCreated", "game:replay_created" ∷ [])
    ∷ []

abbrev pub names_for : String → List (String × List String) → List String
names_for name [] = []
names_for name (row ∷ rows) = if row.0 == name then row.1 else names_for name rows

module _ {N : Type 0} where
  unfoldable pub fate : StatsEvent N → Fate
  fate (boost_pickup d) = passed
  fate (clock_updated_seconds d) = passed
  fate (crossbar_hit d) = passed
  fate (match_paused d) = passed
  fate (match_unpaused d) = passed
  fate (player_joined d) = passed
  fate (player_left d) = passed
  fate (unknown d) = passed
  fate (round_started d) = fixed
  fate _ = about_match

  -- The value that stands for a guid: itself, or null where there is none but white space.
  abbrev pub Means : Option String → Value N → Type 0
  Means none v = v ≡ null
  Means (some guid) v =
      (IsBlank (codes guid) × (v ≡ null)) ⊎ (¬ IsBlank (codes guid) × (v ≡ string guid))

  pub Carries : Option String → SosEnvelope N → Type 0
  Carries guid e = (v : Value N) × (get_value e.payload "match_guid" ≡ some v) × Means guid v

  -- The name under which an event goes over the wire.
  abbrev pub wire_name : StatsEvent N → String
  wire_name (unknown d) = d.event
  wire_name event = stats_event_name event

normalized-Means :
    (N : Type 0) (guid : Option String)
    → Means {N = N} guid (json_option (normalized_match_guid guid))
unfolding normalized_match_guid is_blank_name
normalized-Means N none = refl
normalized-Means N (some guid) = elim (trim_cases (codes guid)) [
  | inl (blank, e) ↦ inl (blank, rw e refl)
  | inr (other, e) ↦ inr (other, rw e refl)
]

module _ {N : Type 0} ⦃lib : JsonLib N⦄ ⦃floats : FloatText⦄ ⦃serde : Derived N⦄ where
  -- An event about a match is translated into the messages that SOS has for it, named in their
  -- order, and every message says the match: the guid, or null where there is none but white
  -- space.
  pub translate-Carries :
      (event : StatsEvent N)
      → fate event ≡ about_match
      → (messages : List (SosEnvelope N)) × (translate_stats_event event ≡ ok messages)
        × (map (λ message. message.event) messages ≡ names_for (stats_event_name event) sos_names)
        × All (Carries (event_match_guid event)) messages
  unfolding fate translate_stats_event event_match_guid match_guid_payload ball_hit_payload
      statfeed_payload goal_scored_payload translate_update_state get Carries stats_event_name
  translate-Carries (update_state d) h =
      (_, refl, refl, ((_, refl, normalized-Means N d.match_guid), tt))
  translate-Carries (ball_hit d) h =
      (_, refl, refl, ((_, refl, normalized-Means N d.match_guid), tt))
  translate-Carries (boost_pickup d) h = cc
  translate-Carries (clock_updated_seconds d) h = cc
  translate-Carries (countdown_begin d) h = (
    _,
    refl,
    refl,
    ((_, refl, normalized-Means N d.match_guid), ((_, refl, normalized-Means N d.match_guid), tt)),
  )
  translate-Carries (crossbar_hit d) h = cc
  translate-Carries (goal_replay_end d) h =
      (_, refl, refl, ((_, refl, normalized-Means N d.match_guid), tt))
  translate-Carries (goal_replay_start d) h =
      (_, refl, refl, ((_, refl, normalized-Means N d.match_guid), tt))
  translate-Carries (goal_replay_will_end d) h =
      (_, refl, refl, ((_, refl, normalized-Means N d.match_guid), tt))
  translate-Carries (goal_scored d) h =
      (_, refl, refl, ((_, refl, normalized-Means N d.match_guid), tt))
  translate-Carries (match_created d) h =
      (_, refl, refl, ((_, refl, normalized-Means N d.match_guid), tt))
  translate-Carries (match_initialized d) h =
      (_, refl, refl, ((_, refl, normalized-Means N d.match_guid), tt))
  translate-Carries (match_destroyed d) h =
      (_, refl, refl, ((_, refl, normalized-Means N d.match_guid), tt))
  translate-Carries (match_ended d) h =
      (_, refl, refl, ((_, refl, normalized-Means N d.match_guid), tt))
  translate-Carries (match_paused d) h = cc
  translate-Carries (match_unpaused d) h = cc
  translate-Carries (player_joined d) h = cc
  translate-Carries (player_left d) h = cc
  translate-Carries (podium_start d) h =
      (_, refl, refl, ((_, refl, normalized-Means N d.match_guid), tt))
  translate-Carries (replay_created d) h =
      (_, refl, refl, ((_, refl, normalized-Means N d.match_guid), tt))
  translate-Carries (round_started d) h = cc
  translate-Carries (statfeed_event d) h =
      (_, refl, refl, ((_, refl, normalized-Means N d.match_guid), tt))
  translate-Carries (unknown d) h = cc

  -- An event that SOS has no message for is passed on as it goes over the wire, with its name and
  -- its data.
  pub translate-passed :
      (event : StatsEvent N)
      → fate event ≡ passed
      → (payload : Value N) × (stats_event_to_value event ≡ ok (tagged (wire_name event) payload))
        × (translate_stats_event event ≡ ok (envelope (wire_name event) payload ∷ []))
  unfolding fate translate_stats_event passthrough_envelope stats_event_to_value stats_event_name
      get
  translate-passed (update_state d) h = cc
  translate-passed (ball_hit d) h = cc
  translate-passed (boost_pickup d) h = (_, refl, refl)
  translate-passed (clock_updated_seconds d) h = (_, refl, refl)
  translate-passed (countdown_begin d) h = cc
  translate-passed (crossbar_hit d) h = (_, refl, refl)
  translate-passed (goal_replay_end d) h = cc
  translate-passed (goal_replay_start d) h = cc
  translate-passed (goal_replay_will_end d) h = cc
  translate-passed (goal_scored d) h = cc
  translate-passed (match_created d) h = cc
  translate-passed (match_initialized d) h = cc
  translate-passed (match_destroyed d) h = cc
  translate-passed (match_ended d) h = cc
  translate-passed (match_paused d) h = (_, refl, refl)
  translate-passed (match_unpaused d) h = (_, refl, refl)
  translate-passed (player_joined d) h = (_, refl, refl)
  translate-passed (player_left d) h = (_, refl, refl)
  translate-passed (podium_start d) h = cc
  translate-passed (replay_created d) h = cc
  translate-passed (round_started d) h = cc
  translate-passed (statfeed_event d) h = cc
  translate-passed (unknown d) h = (_, refl, refl)
