-- ===== src/Sos/Teams.antt =====
-- sos.rs: `translate_teams`.

use rlstatsapi.Prelude.{
  String, ℤ, pos, Bool, false, Option, none, some, List, [], ◌∷◌, unwrap_or, eqb_ℤ, if◌then◌else◌,
}
use rlstatsapi.Json.{Value, string, array, object, nil, cons, end, field, JsonLib}
use rlstatsapi.Events.Data.{TeamState}
use rlstatsapi.Sos.Players.{int_or_0}

abbrev pub team_is : ℤ → Option ℤ → Bool
team_is n none = false
team_is n (some m) = eqb_ℤ m n

-- the loop of `translate_teams`: the last team of each number is kept
unfoldable pub index_teams :
    {N : Type 0}
    → Option (TeamState N) × Option (TeamState N)
    → List (TeamState N)
    → Option (TeamState N) × Option (TeamState N)
index_teams indexed [] = indexed
index_teams (blue, orange) (team ∷ more) =
    let as_blue = index_teams (some team, orange) more in
    let as_orange = index_teams (blue, some team) more in
    let as_none = index_teams (blue, orange) more in
    if team_is (pos 0) team.team_num
    then as_blue
    else if team_is (pos 1) team.team_num
    then as_orange
    else as_none

module _ {N : Type 0} ⦃lib : JsonLib N⦄ where
  -- The defaults stand for a team that is not there, and for what a team does not say.
  abbrev pub team_value : String → String → Option (TeamState N) → Value N
  team_value default_name default_primary (some team) = object (
      field "name" (string (unwrap_or team.name default_name)) (
        field "score" (int_or_0 team.score) (
          field "color_primary" (string (unwrap_or team.color_primary default_primary))
            (field "color_secondary" (string (unwrap_or team.color_secondary "E5E5E5")) end))))
  team_value default_name default_primary none = object (
      field "name" (string default_name) (
        field "score" (lib.of_i64 (pos 0)) (
          field "color_primary" (string default_primary)
            (field "color_secondary" (string "E5E5E5") end))))

  unfoldable pub translate_teams : List (TeamState N) → Value N
  unfolding index_teams
  translate_teams teams =
      let (blue, orange) = index_teams (none, none) teams in
      array
        (cons (team_value "Blue" "1873FF" blue) (cons (team_value "Orange" "C26418" orange) nil))
