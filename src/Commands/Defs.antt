-- ===== src/Commands/Defs.antt =====
-- commands.rs: the commands, camera perspectives and camera targets.
use text.Mathlib.Text.{◌==◌ as eq_str}
use Prim.Native.Char.{Char}
use rlstatsapi.Prelude.{
  ℕ, zero, suc, ◌/◌, ◌%◌, ◌^◌, String, Bool, not, ◌&&◌, ◌||◌, Option, none, some, List, [], ◌∷◌,
  find, all, is_empty, is_none_or, map_some, ltb, if◌then◌else◌,
}
use rlstatsapi.Text.{codes, is_ascii_digit, parse_unsigned}
use rlstatsapi.Float.{F64, is_finite, lt_f64, zero_f64}
use rlstatsapi.Error.{invalid_command, Result, ok, err}

pub data Perspective : Type 0 where
  fly soft_attach hard_attach player_view auto_cam camera_director : Perspective

abbrev pub all_perspectives : List Perspective
all_perspectives = fly ∷ soft_attach ∷ hard_attach ∷ player_view ∷ auto_cam ∷ camera_director ∷ []

unfoldable pub perspective_name : Perspective → String
perspective_name fly = "Fly"
perspective_name soft_attach = "SoftAttach"
perspective_name hard_attach = "HardAttach"
perspective_name player_view = "PlayerView"
perspective_name auto_cam = "AutoCam"
perspective_name camera_director = "Camera_Director"

-- `Perspective::from_name`
unfoldable pub perspective_from_name : String → Option Perspective
unfolding perspective_name
perspective_from_name name = find (λ p. eq_str (perspective_name p) name) all_perspectives

pub data PovFocus : Type 0 where
  ball : PovFocus
  player : (shortcut : ℕ) → PovFocus

unfoldable pub digit_char : ℕ → Char
digit_char zero = "0"
digit_char (suc zero) = "1"
digit_char (suc (suc zero)) = "2"
digit_char (suc (suc (suc zero))) = "3"
digit_char (suc (suc (suc (suc zero)))) = "4"
digit_char (suc (suc (suc (suc (suc zero))))) = "5"
digit_char (suc (suc (suc (suc (suc (suc zero)))))) = "6"
digit_char (suc (suc (suc (suc (suc (suc (suc zero))))))) = "7"
digit_char (suc (suc (suc (suc (suc (suc (suc (suc zero)))))))) = "8"
digit_char _ = "9"

-- The decimal digits of a number, before the digits that follow. The fuel bounds their count.
unfoldable pub show_onto : ℕ → ℕ → String → String
unfolding digit_char
show_onto zero n after = after
show_onto (suc fuel) n after =
    let here = String.◌∷◌ (digit_char (n % 10)) after in
    let more = show_onto fuel (n / 10) here in if ltb n 10 then here else more

-- `to_string` of a `u32`, which has at most ten digits
unfoldable pub show_u32 : ℕ → String
show_u32 n = show_onto 10 n ""

unfoldable pub to_wire : PovFocus → String
to_wire ball = "Ball"
to_wire (player shortcut) = show_u32 shortcut

unfoldable pub from_wire : String → Option PovFocus
from_wire raw =
    if eq_str raw "Ball"
    then some ball
    else if is_empty (codes raw) || not (all is_ascii_digit (codes raw))
    then none
    else map_some player (parse_unsigned (2 ^ 32) (codes raw))

pub data StatsCommand : Type 0 where
  change_pov : (focus : Option PovFocus) → (perspective : Option Perspective) → StatsCommand
  load_replay : (file_name : Option String) → (path : Option String) → StatsCommand
  seek_replay : (frame : Option ℕ) → (time_seconds : Option F64) → StatsCommand
  set_game_speed : (speed : F64) → StatsCommand
  set_hud_visibility : (visible : Bool) → StatsCommand
  set_match_paused : (paused : Bool) → StatsCommand

unfoldable pub command_name : StatsCommand → String
command_name (change_pov focus perspective) = "ChangePOV"
command_name (load_replay file_name path) = "LoadReplay"
command_name (seek_replay frame time_seconds) = "SeekReplay"
command_name (set_game_speed speed) = "SetGameSpeed"
command_name (set_hud_visibility visible) = "SetHUDVisibility"
command_name (set_match_paused paused) = "SetMatchPaused"

unfoldable pub is_blank : Option String → Bool
is_blank = is_none_or (λ s. eq_str s "")

-- the guard `!x.is_finite() || *x < 0.0`
unfoldable pub is_bad_number : F64 → Bool
unfolding is_finite lt_f64
is_bad_number x = not (is_finite x) || lt_f64 x zero_f64

unfoldable pub validate : StatsCommand → Result (Unit {0})
unfolding command_name is_blank is_bad_number
validate (change_pov none none) =
    err (invalid_command "ChangePOV" "at least one of Focus or Perspective is required")
validate (load_replay file_name path) =
    if is_blank file_name && is_blank path
    then err (invalid_command "LoadReplay" "one of FileName or Path is required")
    else ok tt
validate (seek_replay none none) =
    err (invalid_command "SeekReplay" "one of Frame or TimeSeconds is required")
validate (seek_replay frame (some time)) =
    if is_bad_number time
    then err (invalid_command "SeekReplay" "TimeSeconds must be a finite, non-negative number")
    else ok tt
validate (set_game_speed speed) =
    if is_bad_number speed
    then err (invalid_command "SetGameSpeed" "Speed must be a finite, non-negative number")
    else ok tt
validate _ = ok tt
