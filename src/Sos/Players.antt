-- ===== src/Sos/Players.antt =====
-- sos.rs: identifiers, locations and players.

use rlstatsapi.Prelude.{
  String, ℤ, pos, negsuc, suc, Bool, false, not, ◌&&◌, Option, none, some, List, [], ◌∷◌, is_empty,
  and_then, or_else, map_some, filter_some, find_map, unwrap_or, is_some, eqb_ℤ, if◌then◌else◌,
}
use rlstatsapi.Float.{F64, FloatText, zero_f64, of_i64, round_i64}
use rlstatsapi.Text.{codes, parse_i64, eq_ignore_ascii_case}
use rlstatsapi.Json.{
  Value, null, bool, number, string, object, Fields, end, field, get, insert, as_str, as_object,
  JsonLib, value_i64,
}
use rlstatsapi.Events.Data.{PlayerRef, UpdateStatePlayer, UpdateStateData}
use rlstatsapi.Events.Effective.{
  is_blank_name, effective_boost, effective_speed, effective_supersonic,
}
use rlstatsapi.Commands.Defs.{show_onto}
use rlstatsapi.Commands.Wire.{join}

-- `to_string` of an `i64`, which has at most nineteen digits
unfoldable pub show_i64 : ℤ → String
show_i64 (pos n) = show_onto 19 n ""
show_i64 (negsuc n) = join "-" (show_onto 19 (suc n) "")

unfoldable pub format_player_id : String → ℤ → String
format_player_id name shortcut =
    if is_blank_name name then "" else join name (join "_" (show_i64 shortcut))

-- `Option<&str>` of a name as a value
abbrev pub json_option : {N : Type 0} → Option String → Value N
json_option none = null
json_option (some s) = string s

unfoldable pub normalized_match_guid : Option String → Option String
normalized_match_guid = filter_some (λ guid. not (is_blank_name guid))

unfoldable pub normalize_statfeed_event_name : String → String → String
normalize_statfeed_event_name event_name type_label =
    if eq_ignore_ascii_case (codes event_name) (codes "demolition")
    then "Demolish"
    else if is_empty (codes event_name)
        && eq_ignore_ascii_case (codes type_label) (codes "demolish")
    then "Demolish"
    else event_name

module _ {N : Type 0} ⦃lib : JsonLib N⦄ where
  abbrev pub int_or_0 : Option ℤ → Value N
  int_or_0 z = lib.of_i64 (unwrap_or z (pos 0))

  abbrev pub text_or_empty : Option String → Value N
  text_or_empty s = string (unwrap_or s "")

  abbrev pub bool_or_false : Option Bool → Value N
  bool_or_false b = bool (unwrap_or b false)

  unfoldable pub vector3_value : F64 → F64 → F64 → Value N
  vector3_value x y z =
      object (field "X" (lib.of_f64 x) (field "Y" (lib.of_f64 y) (field "Z" (lib.of_f64 z) end)))

  unfoldable pub location_value : F64 → F64 → F64 → F64 → F64 → F64 → Value N
  location_value x y z pitch roll yaw = object (
      field "X" (lib.of_f64 x) (
        field "Y" (lib.of_f64 y) (
          field "Z" (lib.of_f64 z) (
            field "pitch" (lib.of_f64 pitch)
              (field "roll" (lib.of_f64 roll) (field "yaw" (lib.of_f64 yaw) end))))))

  -- a number, or a text that is one
  abbrev pub i64_or_text : Value N → Option ℤ
  i64_or_text value =
      or_else (value_i64 value) (and_then (as_str value) (λ text. parse_i64 (codes text)))

  unfoldable pub first_i64 : Fields N → List String → Option ℤ
  first_i64 map keys = find_map (λ key. and_then (get map key) i64_or_text) keys

  unfoldable pub player_ref_shortcut : PlayerRef N → Option ℤ
  player_ref_shortcut player =
      or_else (first_i64 player.extra ("Shortcut" ∷ "shortcut" ∷ []))
        (if eqb_ℤ player.shortcut (pos 0) then none else some player.shortcut)

  unfoldable pub player_ref_id : PlayerRef N → String
  player_ref_id player =
      format_player_id player.name (unwrap_or (player_ref_shortcut player) (pos 0))

  unfoldable pub target_ref_value : PlayerRef N → String
  target_ref_value target =
      if is_some (player_ref_shortcut target) then player_ref_id target else target.name

  unfoldable pub statfeed_secondary_target : Option (PlayerRef N) → Value N
  statfeed_secondary_target (some player) = object (
      field "name" (string player.name) (
        field "id" (string (player_ref_id player))
          (field "team_num" (lib.of_i64 player.team_num) end)))
  statfeed_secondary_target none = object (
      field "name" (string "")
        (field "id" (string "") (field "team_num" (lib.of_i64 (negsuc 0)) end)))

  module _ ⦃floats : FloatText⦄ where
    unfoldable pub value_to_f64 : Option (Value N) → Option F64
    value_to_f64 (some (number n)) = or_else (lib.as_f64 n) (map_some of_i64 (lib.as_i64 n))
    value_to_f64 (some (string text)) = floats.parse_f64 (codes text)
    value_to_f64 _ = none

    -- `value_to_f64(object.get(key)).unwrap_or_default()`
    abbrev pub coordinate : Fields N → String → F64
    coordinate map key = unwrap_or (value_to_f64 (get map key)) zero_f64

    unfoldable pub vector3_from_object : Fields N → Value N
    vector3_from_object map =
        vector3_value (coordinate map "X") (coordinate map "Y") (coordinate map "Z")

    unfoldable pub location_from_object : Fields N → Value N
    location_from_object map =
        location_value (coordinate map "X") (coordinate map "Y") (coordinate map "Z")
          (coordinate map "pitch") (coordinate map "roll") (coordinate map "yaw")

    -- the object under "Location" or "location", if there is one
    abbrev pub location_object : Fields N → Option (Fields N)
    location_object extra =
        or_else (and_then (get extra "Location") as_object)
          (and_then (get extra "location") as_object)

    unfoldable pub extract_ball_location : Option (Fields N) → Value N
    extract_ball_location extra =
        unwrap_or (map_some vector3_from_object (and_then extra location_object))
          (vector3_value zero_f64 zero_f64 zero_f64)

    unfoldable pub extract_location : Option (Fields N) → Value N
    extract_location extra =
        unwrap_or (map_some location_from_object (and_then extra location_object))
          (location_value zero_f64 zero_f64 zero_f64 zero_f64 zero_f64 zero_f64)

    unfoldable pub player_id : UpdateStatePlayer N → String
    player_id player = format_player_id (unwrap_or player.name "") (
        unwrap_or (or_else player.shortcut (first_i64 player.extra ("Shortcut" ∷ "shortcut" ∷ [])))
          (pos 0))

    unfoldable pub player_value : UpdateStatePlayer N → Value N
    player_value player = object (
        field "name" (text_or_empty player.name) (
          field "id" (string (player_id player)) (
            field "primaryID" (text_or_empty player.primary_id) (
              field "team" (int_or_0 player.team_num) (
                field "score" (int_or_0 player.score) (
                  field "goals" (int_or_0 player.goals) (
                    field "shots" (int_or_0 player.shots) (
                      field "assists" (int_or_0 player.assists) (
                        field "saves" (int_or_0 player.saves) (
                          field "touches" (int_or_0 player.touches) (
                            field "cartouches" (int_or_0 player.car_touches) (
                              field "demos" (int_or_0 player.demos)
                                (player_state player)))))))))))))
      where
        player_motion : UpdateStatePlayer N → Fields N
        player_motion p = field "attacker" (text_or_empty (map_some PlayerRef.name p.attacker)) (
            field "shortcut" (int_or_0 p.shortcut) (
              field "onGround" (bool_or_false p.b_on_ground) (
                field "onWall" (bool_or_false p.b_on_wall)
                  (field "location" (extract_location (some p.extra)) end))))

        player_state : UpdateStatePlayer N → Fields N
        player_state p = field "boost" (int_or_0 (effective_boost p)) (
            field "speed" (int_or_0 (map_some round_i64 (effective_speed p))) (
              field "hasCar" (bool_or_false p.b_has_car) (
                field "isSonic" (bool_or_false (effective_supersonic p)) (
                  field "isPowersliding" (bool_or_false p.b_powersliding)
                    (field "isDead" (bool_or_false p.b_demolished) (player_motion p))))))

    -- the loop of `translate_players`, from the players that it has inserted
    unfoldable pub insert_players : Fields N → List (UpdateStatePlayer N) → Fields N
    insert_players players [] = players
    insert_players players (player ∷ more) =
        insert_players (insert players (player_id player) (player_value player)) more

    unfoldable pub translate_players : UpdateStateData N → Value N
    translate_players d = object (insert_players end d.players)
