-- ===== src/Filters/Matching.antt =====
-- filters.rs: `EventFilter`, its builder methods and the tests on an event.
use text.Mathlib.Text.{◌==◌}
use rlstatsapi.Prelude.{
  String, ℤ, Bool, true, false, not, ◌&&◌, ◌||◌, Option, none, some, List, [], ◌∷◌, any, is_empty,
  is_some_and, and_then, or_else, eqb_ℤ, if◌then◌else◌,
}
use rlstatsapi.Text.{codes, eq_ignore_ascii_case}
use rlstatsapi.Json.{get_value, get, as_str}
use rlstatsapi.Events.Data.{
  StatsEvent, update_state, ball_hit, boost_pickup, clock_updated_seconds, countdown_begin,
  crossbar_hit, goal_replay_end, goal_replay_start, goal_replay_will_end, goal_scored,
  match_created, match_initialized, match_destroyed, match_ended, match_paused, match_unpaused,
  player_joined, player_left, podium_start, replay_created, round_started, statfeed_event, unknown,
}
use rlstatsapi.Filters.Kind.{EventKind, kind_of, eq_kind}

-- The kinds are a set, kept as a list without repetition.
pub record EventFilter : Type 0 where
  pub kinds : List EventKind
  pub player_name : Option String
  pub player_primary_id : Option String
  pub team_num : Option ℤ
  pub match_guid : Option String

-- `EventFilter::new`
abbrev pub new : EventFilter
new = record {
  kinds = [];
  player_name = none;
  player_primary_id = none;
  team_num = none;
  match_guid = none;
}

-- `kinds.contains(kind)`
unfoldable pub contains : List EventKind → EventKind → Bool
contains kinds kind = any (eq_kind kind) kinds

-- `kinds.insert(kind)`
unfoldable pub insert_kind : List EventKind → EventKind → List EventKind
insert_kind kinds kind = if contains kinds kind then kinds else kind ∷ kinds

-- `kinds.extend(kinds)`
unfoldable pub extend_kinds : List EventKind → List EventKind → List EventKind
extend_kinds kinds [] = kinds
extend_kinds kinds (kind ∷ more) = extend_kinds (insert_kind kinds kind) more

unfoldable pub include_kind : EventKind → EventFilter → EventFilter
include_kind kind f = record f { kinds = insert_kind f.kinds kind }

unfoldable pub include_kinds : List EventKind → EventFilter → EventFilter
include_kinds kinds f = record f { kinds = extend_kinds f.kinds kinds }

unfoldable pub with_player_name : String → EventFilter → EventFilter
with_player_name name f = record f { player_name = some name }

unfoldable pub with_player_primary_id : String → EventFilter → EventFilter
with_player_primary_id id f = record f { player_primary_id = some id }

unfoldable pub with_team_num : ℤ → EventFilter → EventFilter
with_team_num team f = record f { team_num = some team }

unfoldable pub with_match_guid : String → EventFilter → EventFilter
with_match_guid guid f = record f { match_guid = some guid }

-- `a.eq_ignore_ascii_case(b)`
abbrev pub same_name : String → String → Bool
same_name expected name = eq_ignore_ascii_case (codes name) (codes expected)

-- `if let Some(expected) = field && !test(event, expected) { return false; }`
abbrev pub fails : {A : Type 0} → Option A → (A → Bool) → Bool
fails none test = false
fails (some expected) test = not (test expected)

module _ {N : Type 0} where
  unfoldable pub event_match_guid : StatsEvent N → Option String
  unfolding get
  event_match_guid (update_state d) = d.match_guid
  event_match_guid (ball_hit d) = d.match_guid
  event_match_guid (boost_pickup d) = d.match_guid
  event_match_guid (clock_updated_seconds d) = d.match_guid
  event_match_guid (countdown_begin d) = d.match_guid
  event_match_guid (crossbar_hit d) = d.match_guid
  event_match_guid (goal_replay_end d) = d.match_guid
  event_match_guid (goal_replay_start d) = d.match_guid
  event_match_guid (goal_replay_will_end d) = d.match_guid
  event_match_guid (goal_scored d) = d.match_guid
  event_match_guid (match_created d) = d.match_guid
  event_match_guid (match_initialized d) = d.match_guid
  event_match_guid (match_destroyed d) = d.match_guid
  event_match_guid (match_ended d) = d.match_guid
  event_match_guid (match_paused d) = d.match_guid
  event_match_guid (match_unpaused d) = d.match_guid
  event_match_guid (player_joined d) = d.match_guid
  event_match_guid (player_left d) = d.match_guid
  event_match_guid (podium_start d) = d.match_guid
  event_match_guid (replay_created d) = d.match_guid
  event_match_guid (round_started d) = d.match_guid
  event_match_guid (statfeed_event d) = d.match_guid
  event_match_guid (unknown d) =
      and_then
        (or_else (get_value d.payload "MatchGuid")
          (or_else (get_value d.payload "matchGuid") (get_value d.payload "match_guid")))
        as_str

  unfoldable pub event_has_team : StatsEvent N → ℤ → Bool
  event_has_team (update_state d) team =
      any (λ player. is_some_and (eqb_ℤ team) player.team_num) d.players
      || any (λ t. is_some_and (eqb_ℤ team) t.team_num) d.game.teams
  event_has_team (goal_scored d) team =
      eqb_ℤ team d.scorer.team_num
      || is_some_and (λ assister. eqb_ℤ team assister.team_num) d.assister
      || eqb_ℤ team d.ball_last_touch.player.team_num
  event_has_team (ball_hit d) team = any (λ player. eqb_ℤ team player.team_num) d.players
  event_has_team (boost_pickup d) team = eqb_ℤ team d.player.team_num
  event_has_team (statfeed_event d) team =
      eqb_ℤ team d.main_target.team_num
      || is_some_and (λ target. eqb_ℤ team target.team_num) d.secondary_target
  event_has_team (match_ended d) team = eqb_ℤ team d.winner_team_num
  event_has_team _ team = false

  unfoldable pub event_has_player_name : StatsEvent N → String → Bool
  event_has_player_name (update_state d) expected =
      any (λ player. is_some_and (same_name expected) player.name) d.players
  event_has_player_name (goal_scored d) expected =
      same_name expected d.scorer.name
      || is_some_and (λ assister. same_name expected assister.name) d.assister
      || same_name expected d.ball_last_touch.player.name
  event_has_player_name (ball_hit d) expected =
      any (λ player. same_name expected player.name) d.players
  event_has_player_name (boost_pickup d) expected = same_name expected d.player.name
  event_has_player_name (player_joined d) expected = same_name expected d.player_name
  event_has_player_name (player_left d) expected = same_name expected d.player_name
  event_has_player_name (statfeed_event d) expected =
      same_name expected d.main_target.name
      || is_some_and (λ target. same_name expected target.name) d.secondary_target
  event_has_player_name _ expected = false

  unfoldable pub event_has_player_primary_id : StatsEvent N → String → Bool
  event_has_player_primary_id (update_state d) expected =
      any (λ player. is_some_and (λ id. id == expected) player.primary_id) d.players
  event_has_player_primary_id (player_joined d) expected = d.primary_id == expected
  event_has_player_primary_id (player_left d) expected = d.primary_id == expected
  event_has_player_primary_id _ expected = false

  unfoldable pub matches : EventFilter → StatsEvent N → Bool
  matches f event =
      if not (is_empty f.kinds) && not (contains f.kinds (kind_of event))
      then false
      else if fails f.match_guid
          (λ expected. is_some_and (λ guid. guid == expected) (event_match_guid event))
      then false
      else if fails f.team_num (event_has_team event)
      then false
      else if fails f.player_name (event_has_player_name event)
      then false
      else if fails f.player_primary_id (event_has_player_primary_id event)
      then false
      else true
