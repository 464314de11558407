-- ===== src/Sos/Translate.antt =====
-- sos.rs: `translate_stats_event`.
use rlstatsapi.Prelude.{
  String, pos, Bool, true, Option, none, some, List, [], ◌∷◌, and_then, map_some, unwrap_or, ltb_ℤ,
}
use rlstatsapi.Float.{FloatText, round_i64}
use rlstatsapi.Error.{Result, ok, map_ok}
use rlstatsapi.Json.{
  Value, null, bool, string, object, Fields, end, field, get_value, as_str, JsonLib,
}
use rlstatsapi.Events.Data.{
  PlayerRef, BallHitData, GoalScoredData, MatchOnlyData, MatchEndedData, StatfeedEventData,
  UpdateStateData, UpdateStateGame, BallState, StatsEvent, update_state, ball_hit, countdown_begin,
  goal_replay_end, goal_replay_start, goal_replay_will_end, goal_scored, match_created,
  match_initialized, match_destroyed, match_ended, podium_start, replay_created, round_started,
  statfeed_event,
}
use rlstatsapi.Events.Wire.{Derived, stats_event_to_value}
use rlstatsapi.Sos.Players.{
  json_option, normalized_match_guid, normalize_statfeed_event_name, int_or_0, text_or_empty,
  bool_or_false, vector3_value, player_ref_id, target_ref_value, statfeed_secondary_target,
  extract_ball_location, translate_players,
}
use rlstatsapi.Sos.Teams.{translate_teams}

pub record SosEnvelope (N : Type 0) : Type 0 where
  pub event : String
  pub payload : Value N

-- `players.first()`
abbrev pub first : {A : Type 0} → List A → Option A
first [] = none
first (a ∷ more) = some a

-- `SosEnvelope::new`
abbrev pub envelope : {N : Type 0} → String → Value N → SosEnvelope N
envelope event payload = record { event = event; payload = payload }

module _ {N : Type 0} where
  -- the entry "match_guid", before the other entries
  abbrev pub with_guid : Option String → Fields N → Value N
  with_guid match_guid entries =
      object (field "match_guid" (json_option (normalized_match_guid match_guid)) entries)

  unfoldable pub match_guid_payload : MatchOnlyData N → Value N
  match_guid_payload d = with_guid d.match_guid end

  unfoldable pub is_no_contest : MatchEndedData N → Bool
  is_no_contest d = ltb_ℤ d.winner_team_num (pos 0)

module _ {N : Type 0} ⦃lib : JsonLib N⦄ where
  unfoldable pub ball_hit_payload : BallHitData N → Value N
  ball_hit_payload d =
      let player = first d.players in
      with_guid d.match_guid (
        field "player"
          (object (
            field "name" (text_or_empty (map_some PlayerRef.name player))
              (field "id" (text_or_empty (map_some player_ref_id player)) end)))
          (field "ball"
            (object (
              field "location" (vector3_value d.ball.location.x d.ball.location.y d.ball.location.z)
                (field "pre_hit_speed" (lib.of_i64 (round_i64 d.ball.pre_hit_speed))
                  (field "post_hit_speed" (lib.of_i64 (round_i64 d.ball.post_hit_speed)) end))))
            end))

  unfoldable pub statfeed_payload : StatfeedEventData N → Value N
  statfeed_payload d = with_guid d.match_guid (
      field "event_name" (string (normalize_statfeed_event_name d.event_name d.type_label)) (
        field "type" (string d.type_label) (
          field "main_target"
            (object (
              field "name" (string d.main_target.name) (
                field "id" (string (player_ref_id d.main_target))
                  (field "team_num" (lib.of_i64 d.main_target.team_num) end))))
            (field "secondary_target" (statfeed_secondary_target d.secondary_target) end))))

  -- a player of a goal
  abbrev pub goal_player : PlayerRef N → Value N
  goal_player player = object (
      field "name" (string player.name) (
        field "id" (string (player_ref_id player))
          (field "teamnum" (lib.of_i64 player.team_num) end)))

  abbrev pub goal_assister : Option (PlayerRef N) → Value N
  goal_assister (some player) = goal_player player
  goal_assister none =
      object (field "name" (string "") (field "id" (string "") (field "teamnum" null end)))

  unfoldable pub goal_scored_payload : GoalScoredData N → Value N
  goal_scored_payload d = with_guid d.match_guid (
      field "goalspeed" (lib.of_i64 (round_i64 d.goal_speed)) (
        field "goaltime" (lib.of_f64 d.goal_time) (
          field "impact_location"
            (object (
              field "X" (lib.of_f64 d.impact_location.x)
                (field "Y" (lib.of_f64 d.impact_location.y) end)))
            (field "scorer" (goal_player d.scorer) (
              field "assister" (goal_assister d.assister) (
                field "ball_last_touch"
                  (object (
                    field "player" (string (player_ref_id d.ball_last_touch.player))
                      (field "speed" (lib.of_i64 (round_i64 d.ball_last_touch.speed)) end)))
                  end))))))

  module _ ⦃floats : FloatText⦄ where
    abbrev pub ball_value : Option (BallState N) → Value N
    ball_value ball = object (
        field "location" (extract_ball_location (map_some BallState.extra ball)) (
          field "speed" (int_or_0 (map_some round_i64 (and_then ball BallState.speed))) (
            field "team" (lib.of_i64 (unwrap_or (and_then ball BallState.team_num) (pos 255)))
              end)))

    abbrev pub game_value : UpdateStateGame N → Value N
    game_value game = object (
        field "arena" (text_or_empty game.arena) (
          field "time" (int_or_0 game.time_seconds) (
            field "time_seconds" (int_or_0 game.time_seconds) (
              field "isOT" (bool_or_false game.b_overtime) (
                field "isReplay" (bool_or_false game.b_replay) (
                  field "hasWinner" (bool_or_false game.b_has_winner) (
                    field "winner" (text_or_empty game.winner) (
                      field "hasTarget" (bool_or_false game.b_has_target) (
                        field "target" (text_or_empty (map_some target_ref_value game.target)) (
                          field "ball" (ball_value game.ball)
                            (field "teams" (translate_teams game.teams) end)))))))))))

    unfoldable pub translate_update_state : UpdateStateData N → Value N
    translate_update_state d = with_guid d.match_guid (
        field "hasGame" (bool true)
          (field "game" (game_value d.game) (field "players" (translate_players d) end)))

    module _ ⦃serde : Derived N⦄ where
      unfoldable pub passthrough_envelope : StatsEvent N → Result (SosEnvelope N)
      passthrough_envelope event =
          map_ok
            (λ value.
              envelope (unwrap_or (and_then (get_value value "event") as_str) "Unknown")
                (unwrap_or (get_value value "data") null))
            (stats_event_to_value event)

      unfoldable pub translate_stats_event : StatsEvent N → Result (List (SosEnvelope N))
      translate_stats_event (match_created d) =
          ok (envelope "game:match_created" (match_guid_payload d) ∷ [])
      translate_stats_event (match_initialized d) =
          ok (envelope "game:initialized" (match_guid_payload d) ∷ [])
      translate_stats_event (countdown_begin d) = ok (
          envelope "game:pre_countdown_begin" (match_guid_payload d)
          ∷ envelope "game:post_countdown_begin" (match_guid_payload d)
          ∷ [])
      translate_stats_event (update_state d) =
          ok (envelope "game:update_state" (translate_update_state d) ∷ [])
      translate_stats_event (ball_hit d) = ok (envelope "game:ball_hit" (ball_hit_payload d) ∷ [])
      translate_stats_event (statfeed_event d) =
          ok (envelope "game:statfeed_event" (statfeed_payload d) ∷ [])
      translate_stats_event (goal_scored d) =
          ok (envelope "game:goal_scored" (goal_scored_payload d) ∷ [])
      translate_stats_event (goal_replay_start d) =
          ok (envelope "game:replay_start" (match_guid_payload d) ∷ [])
      translate_stats_event (goal_replay_will_end d) =
          ok (envelope "game:replay_will_end" (match_guid_payload d) ∷ [])
      translate_stats_event (goal_replay_end d) =
          ok (envelope "game:replay_end" (match_guid_payload d) ∷ [])
      translate_stats_event (match_ended d) = ok (
          envelope "game:match_ended" (
            with_guid d.match_guid (
              field "winner_team_num" (lib.of_i64 d.winner_team_num)
                (field "no_contest" (bool (is_no_contest d)) end)))
          ∷ [])
      translate_stats_event (podium_start d) =
          ok (envelope "game:podium_start" (match_guid_payload d) ∷ [])
      translate_stats_event (match_destroyed d) =
          ok (envelope "game:match_destroyed" (match_guid_payload d) ∷ [])
      translate_stats_event (replay_created d) = ok (
          envelope "game:replay_created" (
            with_guid d.match_guid
              (field "file_name" (string d.file_name) (field "date" (string d.date) end)))
          ∷ [])
      translate_stats_event (round_started d) =
          ok (envelope "game:round_started_go" (string "game_round_started_go") ∷ [])
      translate_stats_event event = map_ok (λ e. e ∷ []) (passthrough_envelope event)
