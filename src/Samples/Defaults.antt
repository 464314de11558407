-- ===== src/Samples/Defaults.antt =====
-- The derived `Default` of the data of events, from which the samples are made.
use rlstatsapi.Prelude.{pos, none, []}
use rlstatsapi.Float.{zero_f64}
use rlstatsapi.Json.{end}
use rlstatsapi.Events.Data.{
  Vector3, PlayerRef, LastTouch, MatchOnlyData, BallState, TeamState, UpdateStateGame,
  UpdateStatePlayer, UpdateStateData, GoalScoredData, MatchEndedData, StatfeedEventData,
  BallHitBall, BallHitData,
}
use rlstatsapi.Samples.Numbers.{Num}

abbrev pub default_vector3 : Vector3
default_vector3 = record { x = zero_f64; y = zero_f64; z = zero_f64 }

abbrev pub default_player_ref : PlayerRef Num
default_player_ref = record { name = ""; shortcut = pos 0; team_num = pos 0; extra = end }

abbrev pub default_last_touch : LastTouch Num
default_last_touch = record { player = default_player_ref; speed = zero_f64; extra = end }

abbrev pub default_match_only_data : MatchOnlyData Num
default_match_only_data = record { match_guid = none; extra = end }

abbrev pub default_ball_state : BallState Num
default_ball_state = record { speed = none; team_num = none; extra = end }

abbrev pub default_team_state : TeamState Num
default_team_state = record {
  name = none;
  team_num = none;
  score = none;
  color_primary = none;
  color_secondary = none;
  extra = end;
}

abbrev pub default_update_state_game : UpdateStateGame Num
default_update_state_game = record {
  teams = [];
  playlist_id = none;
  time_seconds = none;
  b_overtime = none;
  frame = none;
  elapsed = none;
  ball = none;
  b_replay = none;
  b_has_winner = none;
  winner = none;
  arena = none;
  b_has_target = none;
  target = none;
  extra = end;
}

abbrev pub default_update_state_player : UpdateStatePlayer Num
default_update_state_player = record {
  name = none;
  primary_id = none;
  shortcut = none;
  team_num = none;
  score = none;
  goals = none;
  shots = none;
  assists = none;
  saves = none;
  touches = none;
  car_touches = none;
  demos = none;
  loadout = none;
  b_has_car = none;
  speed = none;
  boost = none;
  b_boosting = none;
  b_on_ground = none;
  b_on_wall = none;
  b_powersliding = none;
  b_demolished = none;
  b_supersonic = none;
  pickup_class = none;
  attacker = none;
  extra = end;
}

abbrev pub default_update_state_data : UpdateStateData Num
default_update_state_data = record {
  match_guid = none;
  players = [];
  game = default_update_state_game;
  extra = end;
}

abbrev pub default_goal_scored_data : GoalScoredData Num
default_goal_scored_data = record {
  match_guid = none;
  goal_speed = zero_f64;
  goal_time = zero_f64;
  impact_location = default_vector3;
  scorer = default_player_ref;
  assister = none;
  ball_last_touch = default_last_touch;
  extra = end;
}

abbrev pub default_match_ended_data : MatchEndedData Num
default_match_ended_data = record { match_guid = none; winner_team_num = pos 0; extra = end }

abbrev pub default_statfeed_event_data : StatfeedEventData Num
default_statfeed_event_data = record {
  match_guid = none;
  event_name = "";
  type_label = "";
  main_target = default_player_ref;
  secondary_target = none;
  extra = end;
}

abbrev pub default_ball_hit_ball : BallHitBall Num
default_ball_hit_ball = record {
  pre_hit_speed = zero_f64;
  post_hit_speed = zero_f64;
  location = default_vector3;
  extra = end;
}

abbrev pub default_ball_hit_data : BallHitData Num
default_ball_hit_data = record {
  match_guid = none;
  players = [];
  ball = default_ball_hit_ball;
  extra = end;
}
