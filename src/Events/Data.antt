-- ===== src/Events/Data.antt =====
-- events.rs: the data of the events. A `HashMap<String, Value>` of what serde found beyond the named
-- fields is a list of entries; `N` is the type of JSON numbers.
use rlstatsapi.Prelude.{String, ℤ, Bool, Option, List}
use rlstatsapi.Float.{F64}
use rlstatsapi.Json.{Value, Fields}

pub record Vector3 : Type 0 where
  pub x : F64
  pub y : F64
  pub z : F64

pub record PlayerRef (N : Type 0) : Type 0 where
  pub name : String
  pub shortcut : ℤ
  pub team_num : ℤ
  pub extra : Fields N

pub record LastTouch (N : Type 0) : Type 0 where
  pub player : PlayerRef N
  pub speed : F64
  pub extra : Fields N

pub record TeamState (N : Type 0) : Type 0 where
  pub name : Option String
  pub team_num : Option ℤ
  pub score : Option ℤ
  pub color_primary : Option String
  pub color_secondary : Option String
  pub extra : Fields N

pub record BallState (N : Type 0) : Type 0 where
  pub speed : Option F64
  pub team_num : Option ℤ
  pub extra : Fields N

pub record EventEnvelope (N : Type 0) : Type 0 where
  pub event : String
  pub payload : Value N

pub record MatchOnlyData (N : Type 0) : Type 0 where
  pub match_guid : Option String
  pub extra : Fields N

pub record BallHitBall (N : Type 0) : Type 0 where
  pub pre_hit_speed : F64
  pub post_hit_speed : F64
  pub location : Vector3
  pub extra : Fields N

pub record BallHitData (N : Type 0) : Type 0 where
  pub match_guid : Option String
  pub players : List (PlayerRef N)
  pub ball : BallHitBall N
  pub extra : Fields N

pub record BoostPickupData (N : Type 0) : Type 0 where
  pub match_guid : Option String
  pub player : PlayerRef N
  pub location : Vector3
  pub boost_amount : F64
  pub boost_type : String
  pub b_replay : Bool
  pub extra : Fields N

pub record ClockUpdatedSecondsData (N : Type 0) : Type 0 where
  pub match_guid : Option String
  pub time_seconds : ℤ
  pub b_overtime : Bool
  pub extra : Fields N

pub record CrossbarHitData (N : Type 0) : Type 0 where
  pub match_guid : Option String
  pub ball_location : Vector3
  pub ball_speed : F64
  pub impact_force : F64
  pub ball_last_touch : LastTouch N
  pub extra : Fields N

pub record GoalScoredData (N : Type 0) : Type 0 where
  pub match_guid : Option String
  pub goal_speed : F64
  pub goal_time : F64
  pub impact_location : Vector3
  pub scorer : PlayerRef N
  pub assister : Option (PlayerRef N)
  pub ball_last_touch : LastTouch N
  pub extra : Fields N

pub record MatchEndedData (N : Type 0) : Type 0 where
  pub match_guid : Option String
  pub winner_team_num : ℤ
  pub extra : Fields N

pub record PlayerPresenceData (N : Type 0) : Type 0 where
  pub match_guid : Option String
  pub player_name : String
  pub primary_id : String
  pub extra : Fields N

pub record ReplayCreatedData (N : Type 0) : Type 0 where
  pub match_guid : Option String
  pub file_name : String
  pub date : String
  pub extra : Fields N

pub record StatfeedEventData (N : Type 0) : Type 0 where
  pub match_guid : Option String
  pub event_name : String
  pub type_label : String
  pub main_target : PlayerRef N
  pub secondary_target : Option (PlayerRef N)
  pub extra : Fields N

pub record UpdateStateGame (N : Type 0) : Type 0 where
  pub teams : List (TeamState N)
  pub playlist_id : Option ℤ
  pub time_seconds : Option ℤ
  pub b_overtime : Option Bool
  pub frame : Option ℤ
  pub elapsed : Option F64
  pub ball : Option (BallState N)
  pub b_replay : Option Bool
  pub b_has_winner : Option Bool
  pub winner : Option String
  pub arena : Option String
  pub b_has_target : Option Bool
  pub target : Option (PlayerRef N)
  pub extra : Fields N

pub record UpdateStatePlayer (N : Type 0) : Type 0 where
  pub name : Option String
  pub primary_id : Option String
  pub shortcut : Option ℤ
  pub team_num : Option ℤ
  pub score : Option ℤ
  pub goals : Option ℤ
  pub shots : Option ℤ
  pub assists : Option ℤ
  pub saves : Option ℤ
  pub touches : Option ℤ
  pub car_touches : Option ℤ
  pub demos : Option ℤ
  pub loadout : Option (List String)
  pub b_has_car : Option Bool
  pub speed : Option F64
  pub boost : Option ℤ
  pub b_boosting : Option Bool
  pub b_on_ground : Option Bool
  pub b_on_wall : Option Bool
  pub b_powersliding : Option Bool
  pub b_demolished : Option Bool
  pub b_supersonic : Option Bool
  pub pickup_class : Option String
  pub attacker : Option (PlayerRef N)
  pub extra : Fields N

pub record UpdateStateData (N : Type 0) : Type 0 where
  pub match_guid : Option String
  pub players : List (UpdateStatePlayer N)
  pub game : UpdateStateGame N
  pub extra : Fields N

pub record UnknownEvent (N : Type 0) : Type 0 where
  pub event : String
  pub payload : Value N

pub data StatsEvent (N : Type 0) : Type 0 where
  update_state : UpdateStateData N → StatsEvent N
  ball_hit : BallHitData N → StatsEvent N
  boost_pickup : BoostPickupData N → StatsEvent N
  clock_updated_seconds : ClockUpdatedSecondsData N → StatsEvent N
  countdown_begin : MatchOnlyData N → StatsEvent N
  crossbar_hit : CrossbarHitData N → StatsEvent N
  goal_replay_end : MatchOnlyData N → StatsEvent N
  goal_replay_start : MatchOnlyData N → StatsEvent N
  goal_replay_will_end : MatchOnlyData N → StatsEvent N
  goal_scored : GoalScoredData N → StatsEvent N
  match_created : MatchOnlyData N → StatsEvent N
  match_initialized : MatchOnlyData N → StatsEvent N
  match_destroyed : MatchOnlyData N → StatsEvent N
  match_ended : MatchEndedData N → StatsEvent N
  match_paused : MatchOnlyData N → StatsEvent N
  match_unpaused : MatchOnlyData N → StatsEvent N
  player_joined : PlayerPresenceData N → StatsEvent N
  player_left : PlayerPresenceData N → StatsEvent N
  podium_start : MatchOnlyData N → StatsEvent N
  replay_created : ReplayCreatedData N → StatsEvent N
  round_started : MatchOnlyData N → StatsEvent N
  statfeed_event : StatfeedEventData N → StatsEvent N
  unknown : UnknownEvent N → StatsEvent N
