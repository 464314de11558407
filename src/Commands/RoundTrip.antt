-- ===== src/Commands/RoundTrip.antt =====
-- A valid command is read back from its wire form, less the empty texts that are not written.
use text.Mathlib.TextEquality.{eq_iff}
use text.Mathlib.Text.{◌==◌}
use rlstatsapi.Prelude.{
  ◌^◌, ◌<◌, String, ◌≡◌, refl, true, not, Option, none, some, arith, filter_some, inl, inr,
  Bool-cases,
}
use rlstatsapi.Float.{F64, nan, inf, fin, is_finite}
use rlstatsapi.Error.{ok, ◌>>=◌}
use rlstatsapi.Json.{JsonLib, JsonLaws, value_f64}
use rlstatsapi.Commands.Defs.{
  Perspective, perspective_name, perspective_from_name, StatsCommand, change_pov, load_replay,
  seek_replay, set_game_speed, set_hud_visibility, set_match_paused, command_name,
}
use rlstatsapi.Commands.Wire.{to_value, command_data, read_command, from_value}
use rlstatsapi.Commands.Camera.{InRange, from_wire-to_wire, perspective_from_name_iff}
use rlstatsapi.Commands.Validity.{IsText, IsValid, IsNonNegative, validate_iff}

-- An empty text is not written.
abbrev pub written : Option String → Option String
written = filter_some (λ v. not (v == ""))

abbrev pub normal : StatsCommand → StatsCommand
normal (load_replay file_name path) = load_replay (written file_name) (written path)
normal c = c

-- The integers fit their Rust types.
abbrev pub Fits : StatsCommand → Type 0
Fits (change_pov (some focus) perspective) = InRange focus
Fits (seek_replay (some frame) time) = frame < 2 ^ 64
Fits _ = Unit

IsNonNegative-finite : (x : F64) → IsNonNegative x → is_finite x ≡ true
unfolding is_finite
IsNonNegative-finite nan h = absurd h
IsNonNegative-finite (inf s) h = absurd h
IsNonNegative-finite (fin s u) h = refl

IsText-written : (o : Option String) → IsText o → IsText (written o)
IsText-written none h = h
IsText-written (some s) h = elim (Bool-cases (s == "")) [
  | inl same ↦ absurd (h ((eq_iff s "").0 same))
  | inr other ↦ rw other h
]

normal-IsValid : (c : StatsCommand) → IsValid c → IsValid (normal c)
normal-IsValid (load_replay file_name path) v = elim v [
  | inl h ↦ inl (IsText-written file_name h)
  | inr h ↦ inr (IsText-written path h)
]
normal-IsValid _ v = v

module _ {N : Type 0} ⦃lib : JsonLib N⦄ (laws : JsonLaws lib) where
  read_time : (x : F64) → IsNonNegative x → value_f64 (lib.of_f64 x) ≡ some x
  read_time x h = laws.read_f64 x (IsNonNegative-finite x h)

  read_perspective : (p : Perspective) → perspective_from_name (perspective_name p) ≡ some p
  read_perspective p = (perspective_from_name_iff (perspective_name p) p).1 refl

  read_command-command_data :
      (c : StatsCommand)
      → IsValid c
      → Fits c
      → read_command (command_name c) (command_data {N = N} c) ≡ ok (normal c)
  unfolding read_command command_data command_name
  read_command-command_data (change_pov none none) v r = elim v [
    | inl x ↦ absurd x
    | inr x ↦ absurd x
  ]
  read_command-command_data (change_pov (some f) none) v r = rw (from_wire-to_wire f r)
  read_command-command_data (change_pov none (some p)) v r = rw (read_perspective p)
  read_command-command_data (change_pov (some f) (some p)) v r =
      rw (from_wire-to_wire f r, read_perspective p)
  read_command-command_data (load_replay file_name path) v r = ground arith
  read_command-command_data (seek_replay none none) v r = refl
  read_command-command_data (seek_replay (some n) none) v r = rw (laws.read_u64 n r)
  read_command-command_data (seek_replay none (some t)) v r = rw (read_time t v.1)
  read_command-command_data (seek_replay (some n) (some t)) v r =
      rw (laws.read_u64 n r, read_time t v.1)
  read_command-command_data (set_game_speed speed) v r = rw (read_time speed v)
  read_command-command_data (set_hud_visibility visible) v r = refl
  read_command-command_data (set_match_paused paused) v r = refl

  -- Reading what was written gives a valid command back, with `none` for an empty text, if its
  -- integers fit their types, by the documented laws of the JSON numbers.
  pub from_value-to_value :
      (c : StatsCommand) → IsValid c → Fits c → (to_value {N = N} c >>= from_value) ≡ ok (normal c)
  unfolding to_value from_value
  from_value-to_value c v r = rw (
    (validate_iff c).1 v,
    read_command-command_data c v r,
    (validate_iff (normal c)).1 (normal-IsValid c v),
  )
