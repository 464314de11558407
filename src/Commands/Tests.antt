-- ===== src/Commands/Tests.antt =====
-- Commands at sample inputs.
use text.Mathlib.TextEquality.{eq_iff}
use rlstatsapi.Prelude.{String, ◌≡◌, ◌⊎◌, inl, refl, none, some, true, all, arith}
use rlstatsapi.Text.{codes, is_ascii_digit, digits_value, parse_unsigned}
use rlstatsapi.Error.{RlStatsError, invalid_command, ok, err, ◌>>=◌}
use rlstatsapi.Json.{Value, null, string, end, object, field, get, insert}
use rlstatsapi.Samples.{Num, sample_lib, sample_laws}
use rlstatsapi.Commands.Defs.{
  camera_director, perspective_name, perspective_from_name, player, show_onto, show_u32, to_wire,
  from_wire, StatsCommand, change_pov, load_replay, command_name, validate,
}
use rlstatsapi.Commands.Wire.{to_value, wire_form, command_data, read_command, from_value}
use rlstatsapi.Commands.Camera.{InRange, from_wire-to_wire, from_wire_sound}
use rlstatsapi.Commands.Validity.{IsValid, blames, to_value_cases}
use rlstatsapi.Commands.Reading.{named_command, from_value_sound, from_value-blames}
use rlstatsapi.Commands.RoundTrip.{from_value-to_value}

commands : Unit {0}
unfolding to_value command_data read_command from_value validate command_name to_wire from_wire
    show_u32 show_onto perspective_name perspective_from_name digits_value parse_unsigned
    is_ascii_digit get insert
commands = tt

-- `{"Command":"ChangePOV","Data":{"Focus":"12","Perspective":"Camera_Director"}}`
abbrev pov : StatsCommand
pov = change_pov (some (player 12)) (some camera_director)

abbrev pov_value : Value Num
pov_value = object (
    field "Command" (string "ChangePOV") (
      field "Data"
        (object (field "Focus" (string "12") (field "Perspective" (string "Camera_Director") end)))
        end))

written_pov : to_value pov ≡ ok pov_value
unfolding commands
written_pov = refl

read_pov : from_value pov_value ≡ ok pov
unfolding commands
read_pov = refl

from_wire-to_wire_example : from_wire (to_wire (player 4294967295)) ≡ some (player 4294967295)
from_wire-to_wire_example = from_wire-to_wire (player 4294967295) (omega arith)

abbrev padded : String
padded = "007"

from_wire_sound_example :
    InRange (player 7) × ((padded ≡ "Ball") ⊎ (all is_ascii_digit (codes padded) ≡ true))
unfolding commands
from_wire_sound_example = from_wire_sound padded (player 7) refl

to_value_cases_example :
    (IsValid pov × (to_value {N = Num} pov ≡ ok (wire_form pov)))
    ⊎ (¬ IsValid pov
        × ((e : RlStatsError) × (to_value {N = Num} pov ≡ err e)
            × (blames e ≡ some (command_name pov))))
to_value_cases_example = to_value_cases pov

from_value_sound_example : IsValid pov × (named_command pov_value ≡ some (command_name pov))
from_value_sound_example = from_value_sound pov_value pov read_pov

-- `{"Command":"SetMatchPaused","Data":{"bPaused":null}}`
abbrev bad_pause : Value Num
bad_pause = object (
    field "Command" (string "SetMatchPaused")
      (field "Data" (object (field "bPaused" null end)) end))

read_bad_pause :
    from_value bad_pause ≡ err (invalid_command "SetMatchPaused" "bPaused must be a boolean")
unfolding commands
read_bad_pause = refl

from_value-blames_example :
    blames (invalid_command "SetMatchPaused" "bPaused must be a boolean") ≡ some "SetMatchPaused"
unfolding commands
from_value-blames_example =
    from_value-blames bad_pause (invalid_command "SetMatchPaused" "bPaused must be a boolean")
      read_bad_pause

from_value-to_value_example :
    (to_value {N = Num} (load_replay (some "a.replay") (some "")) >>= from_value)
    ≡ ok (load_replay (some "a.replay") none)
from_value-to_value_example =
    from_value-to_value sample_laws (load_replay (some "a.replay") (some ""))
      (inl (ground (arith, eq_iff "a.replay" ""))) tt
