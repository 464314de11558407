-- ===== src/Filters/Tracker.antt =====
-- filters.rs: `PlayerSnapshot`, `PlayerTracker` and the signals of a match.
use text.Mathlib.Text.{◌==◌}
use rlstatsapi.Prelude.{
  String, ℤ, Bool, true, false, not, ◌&&◌, Option, none, some, find, is_some_and, map_some,
  unwrap_or, eqb_ℤ, if◌then◌else◌,
}
use rlstatsapi.Float.{F64, FloatText, eq_f64}
use rlstatsapi.Json.{JsonLib}
use rlstatsapi.Events.Data.{
  StatsEvent, GoalScoredData, MatchEndedData, UpdateStateData, UpdateStatePlayer, update_state,
  goal_scored, match_ended,
}
use rlstatsapi.Events.Effective.{
  effective_speed, effective_boost, effective_boosting, effective_supersonic,
}
use rlstatsapi.Filters.Matching.{same_name}

pub record PlayerSnapshot : Type 0 where
  pub match_guid : Option String
  pub frame : Option ℤ
  pub time_seconds : Option ℤ
  pub name : String
  pub primary_id : Option String
  pub team_num : Option ℤ
  pub score : Option ℤ
  pub goals : Option ℤ
  pub shots : Option ℤ
  pub assists : Option ℤ
  pub saves : Option ℤ
  pub touches : Option ℤ
  pub demos : Option ℤ
  pub speed : Option F64
  pub boost : Option ℤ
  pub b_boosting : Option Bool
  pub b_supersonic : Option Bool

-- The derived `==`, field by field; doubles compare as doubles.
abbrev pub eq_option : {A : Type 0} → (A → A → Bool) → Option A → Option A → Bool
eq_option eq none none = true
eq_option eq (some a) (some b) = eq a b
eq_option eq _ _ = false

abbrev pub eq_bool : Bool → Bool → Bool
eq_bool true b = b
eq_bool false b = not b

unfoldable pub eq_snapshot : PlayerSnapshot → PlayerSnapshot → Bool
eq_snapshot a b =
    eq_option ◌==◌ a.match_guid b.match_guid
    && eq_option eqb_ℤ a.frame b.frame
    && eq_option eqb_ℤ a.time_seconds b.time_seconds
    && a.name == b.name
    && eq_option ◌==◌ a.primary_id b.primary_id
    && eq_option eqb_ℤ a.team_num b.team_num
    && eq_option eqb_ℤ a.score b.score
    && eq_option eqb_ℤ a.goals b.goals
    && eq_option eqb_ℤ a.shots b.shots
    && eq_option eqb_ℤ a.assists b.assists
    && eq_option eqb_ℤ a.saves b.saves
    && eq_option eqb_ℤ a.touches b.touches
    && eq_option eqb_ℤ a.demos b.demos
    && eq_option eq_f64 a.speed b.speed
    && eq_option eqb_ℤ a.boost b.boost
    && eq_option eq_bool a.b_boosting b.b_boosting
    && eq_option eq_bool a.b_supersonic b.b_supersonic

pub record PlayerTracker : Type 0 where
  pub player_name : String
  pub latest : Option PlayerSnapshot

-- `PlayerTracker::by_name`
abbrev pub by_name : String → PlayerTracker
by_name name = record { player_name = name; latest = none }

-- `self.latest.as_ref() != Some(&snapshot)`, the write, and the result
unfoldable pub record_snapshot :
    PlayerTracker → PlayerSnapshot → PlayerTracker × Option PlayerSnapshot
record_snapshot t snapshot =
    let changed = not (eq_option eq_snapshot t.latest (some snapshot)) in
    (record t { latest = some snapshot }, if changed then some snapshot else none)

abbrev pub is_tracked : {N : Type 0} → String → UpdateStatePlayer N → Bool
is_tracked player_name player = is_some_and (same_name player_name) player.name

abbrev pub record_some :
    PlayerTracker → Option PlayerSnapshot → PlayerTracker × Option PlayerSnapshot
record_some t none = (t, none)
record_some t (some snapshot) = record_snapshot t snapshot

module _ {N : Type 0} ⦃lib : JsonLib N⦄ ⦃floats : FloatText⦄ where
  -- `PlayerSnapshot::from_update`
  unfoldable pub from_update : UpdateStateData N → UpdateStatePlayer N → PlayerSnapshot
  from_update update player = record {
    match_guid = update.match_guid;
    frame = update.game.frame;
    time_seconds = update.game.time_seconds;
    name = unwrap_or player.name "";
    primary_id = player.primary_id;
    team_num = player.team_num;
    score = player.score;
    goals = player.goals;
    shots = player.shots;
    assists = player.assists;
    saves = player.saves;
    touches = player.touches;
    demos = player.demos;
    speed = effective_speed player;
    boost = effective_boost player;
    b_boosting = effective_boosting player;
    b_supersonic = effective_supersonic player;
  }

  abbrev pub snapshot_of : String → StatsEvent N → Option PlayerSnapshot
  snapshot_of player_name (update_state update) =
      map_some (from_update update) (find (is_tracked player_name) update.players)
  snapshot_of player_name _ = none

  unfoldable pub update_from_event :
      PlayerTracker → StatsEvent N → PlayerTracker × Option PlayerSnapshot
  update_from_event t event = record_some t (snapshot_of t.player_name event)

pub data MatchSignal (N : Type 0) : Type 0 where
  goal : GoalScoredData N → MatchSignal N
  match_concluded : MatchEndedData N → MatchSignal N

module _ {N : Type 0} where
  unfoldable pub to_match_signal : StatsEvent N → Option (MatchSignal N)
  to_match_signal (goal_scored d) = some (goal d)
  to_match_signal (match_ended d) = some (match_concluded d)
  to_match_signal _ = none

  unfoldable pub winner_team_num : StatsEvent N → Option ℤ
  winner_team_num (match_ended d) = some d.winner_team_num
  winner_team_num _ = none
