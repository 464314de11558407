-- ===== src/Commands/Wire.antt =====
-- commands.rs: `to_value`, `to_json` and `from_value`.
use Prim.Native.String
use text.Mathlib.Text.{◌==◌}
use rlstatsapi.Prelude.{
  String, Bool, Option, none, some, and_then, filter_some, unwrap_or, not, if◌then◌else◌,
}
use rlstatsapi.Float.{F64}
use rlstatsapi.Error.{RlStatsError, invalid_command, Result, ok, err, ◌>>=◌, ◌>>◌, map_ok, ok_or}
use rlstatsapi.Json.{
  Value, bool, string, object, Fields, end, field, get, insert, as_str, as_bool, as_object,
  get_value, JsonLib, value_u64, value_f64,
}
use rlstatsapi.Commands.Defs.{
  perspective_name, perspective_from_name, to_wire, from_wire, StatsCommand, change_pov,
  load_replay, seek_replay, set_game_speed, set_hud_visibility, set_match_paused, command_name,
  validate,
}

-- `if let Some(a) = value { map.insert(key, json!(a)); }`
abbrev pub insert_some : {N A : Type 0} → Fields N → String → (A → Value N) → Option A → Fields N
insert_some m key to none = m
insert_some m key to (some a) = insert m key (to a)

abbrev pub join : String → String → String
join a b = String.◌++◌ a b

module _ {N : Type 0} ⦃lib : JsonLib N⦄ where
  -- the `match` of `to_value`
  unfoldable pub command_data : StatsCommand → Fields N
  unfolding insert
  command_data (change_pov focus perspective) =
      insert_some (insert_some end "Focus" (λ f. string (to_wire f)) focus) "Perspective"
        (λ p. string (perspective_name p)) perspective
  command_data (load_replay file_name path) =
      insert_some (insert_some end "FileName" string (filter_some (λ v. not (v == "")) file_name))
        "Path" string (filter_some (λ v. not (v == "")) path)
  command_data (seek_replay frame time_seconds) =
      insert_some (insert_some end "Frame" lib.of_u64 frame) "TimeSeconds" lib.of_f64 time_seconds
  command_data (set_game_speed speed) = insert end "Speed" (lib.of_f64 speed)
  command_data (set_hud_visibility visible) = insert end "bVisible" (bool visible)
  command_data (set_match_paused paused) = insert end "bPaused" (bool paused)

  -- `json!({"Command": self.name(), "Data": data})`
  abbrev pub wire_form : StatsCommand → Value N
  wire_form c =
      object
        (field "Command" (string (command_name c)) (field "Data" (object (command_data c)) end))

  unfoldable pub to_value : StatsCommand → Result (Value N)
  to_value c = do validate c; ok (wire_form c)

  -- `match data.get(key) { None => None, Some(raw) => Some(read(raw).ok_or_else(...)?) }`
  abbrev pub optional :
      {A : Type 0}
      → (Value N → Option A)
      → (Value N → RlStatsError)
      → Option (Value N)
      → Result (Option A)
  optional read error none = ok none
  optional read error (some raw) = map_ok some (ok_or (read raw) (error raw))

  unfoldable pub optional_string :
      Fields N → String → (String → RlStatsError) → Result (Option String)
  unfolding get
  optional_string d key invalid =
      optional as_str (λ raw. invalid (join key " must be a string")) (get d key)

  unfoldable pub optional_f64 : Fields N → String → (String → RlStatsError) → Result (Option F64)
  unfolding get
  optional_f64 d key invalid =
      optional value_f64 (λ raw. invalid (join key " must be a number")) (get d key)

  unfoldable pub required_bool : Fields N → String → (String → RlStatsError) → Result Bool
  unfolding get
  required_bool d key invalid =
      ok_or (and_then (get d key) as_bool) (invalid (join key " must be a boolean"))

  -- the `match` of `from_value` on the command's name
  unfoldable pub read_command : String → Fields N → Result StatsCommand
  unfolding get optional_string optional_f64 required_bool
  read_command name d =
      let invalid : String → RlStatsError = λ reason. invalid_command name reason in
      if name == "ChangePOV"
      then (do
        focus ←
            optional (λ raw. and_then (as_str raw) from_wire)
              (λ raw. invalid (
                join "Focus must be \"Ball\" or a spectator shortcut written as digits, received "
                  (lib.display raw)))
              (get d "Focus")
        perspective ←
            optional (λ raw. and_then (as_str raw) perspective_from_name)
              (λ raw. invalid (
                join
                  "Perspective must be one of Fly, SoftAttach, HardAttach, PlayerView, AutoCam, Camera_Director, received "
                  (lib.display raw)))
              (get d "Perspective")
        ok (change_pov focus perspective))
      else if name == "LoadReplay"
      then (do
        file_name ← optional_string d "FileName" invalid
        path ← optional_string d "Path" invalid
        ok (load_replay file_name path))
      else if name == "SeekReplay"
      then (do
        frame ←
            optional value_u64 (λ raw. invalid "Frame must be a non-negative integer")
              (get d "Frame")
        time_seconds ← optional_f64 d "TimeSeconds" invalid
        ok (seek_replay frame time_seconds))
      else if name == "SetGameSpeed"
      then (do
        given ← optional_f64 d "Speed" invalid
        speed ← ok_or given (invalid "Speed is required")
        ok (set_game_speed speed))
      else if name == "SetHUDVisibility"
      then map_ok set_hud_visibility (required_bool d "bVisible" invalid)
      else if name == "SetMatchPaused"
      then map_ok set_match_paused (required_bool d "bPaused" invalid)
      else err (
          invalid
            "unsupported command; expected one of ChangePOV, LoadReplay, SeekReplay, SetGameSpeed, SetHUDVisibility, SetMatchPaused")

  unfoldable pub from_value : Value N → Result StatsCommand
  unfolding get
  from_value value = do
    name ←
        ok_or (and_then (get_value value "Command") as_str)
          (invalid_command "" "missing Command string")
    command ← read_command name (unwrap_or (and_then (get_value value "Data") as_object) end)
    validate command
    ok command

unfoldable pub to_json : {N : Type 0} (lib : JsonLib N) → StatsCommand → Result String
unfolding to_value
to_json lib c = do v ← to_value ⦃lib = lib⦄ c; lib.to_string v
