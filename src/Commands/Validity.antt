-- ===== src/Commands/Validity.antt =====
-- Which commands are valid, stated without the order of the tests in `validate`.
use text.Mathlib.TextEquality.{eq_iff}
use rlstatsapi.Prelude.{
  zero, suc, String, ◌≡◌, ◌≢◌, ◌↔◌, ◌⊎◌, inl, inr, refl, true, false, Option, none, some, arith,
}
use rlstatsapi.Float.{F64, nan, inf, fin}
use rlstatsapi.Error.{RlStatsError, invalid_command, Result, ok, err}
use rlstatsapi.Json.{JsonLib}
use rlstatsapi.Commands.Defs.{
  StatsCommand, change_pov, load_replay, seek_replay, set_game_speed, set_hud_visibility,
  set_match_paused, command_name, validate, is_bad_number, is_blank,
}
use rlstatsapi.Commands.Wire.{to_value, wire_form}

-- A finite number that is not below zero; the negative zero is one.
abbrev pub IsNonNegative : F64 → Type 0
IsNonNegative nan = ⊥
IsNonNegative (inf s) = ⊥
IsNonNegative (fin false u) = Unit
IsNonNegative (fin true u) = u ≡ 0

abbrev pub IsTime : Option F64 → Type 0
IsTime none = Unit
IsTime (some t) = IsNonNegative t

abbrev pub IsGiven {ℓ} : {A : Type ℓ} → Option A → Type 0
IsGiven none = ⊥
IsGiven (some a) = Unit

abbrev pub IsText : Option String → Type 0
IsText none = ⊥
IsText (some s) = s ≢ ""

abbrev pub IsValid : StatsCommand → Type 0
IsValid (change_pov focus perspective) = IsGiven focus ⊎ IsGiven perspective
IsValid (load_replay file_name path) = IsText file_name ⊎ IsText path
IsValid (seek_replay frame time) = (IsGiven frame ⊎ IsGiven time) × IsTime time
IsValid (set_game_speed speed) = IsNonNegative speed
IsValid (set_hud_visibility visible) = Unit
IsValid (set_match_paused paused) = Unit

is_bad_number_iff : (x : F64) → (is_bad_number x ≡ false) ↔ IsNonNegative x
unfolding is_bad_number
is_bad_number_iff nan = ground arith
is_bad_number_iff (inf s) = ground arith
is_bad_number_iff (fin true zero) = ground arith
is_bad_number_iff (fin true (suc u)) = ground arith
is_bad_number_iff (fin false u) = ground arith

is_blank_iff : (o : Option String) → (is_blank o ≡ false) ↔ IsText o
unfolding is_blank
is_blank_iff none = ground arith
is_blank_iff (some s) = ground (arith, eq_iff s "")

-- `validate` accepts exactly the valid commands.
pub validate_iff : (c : StatsCommand) → (validate c ≡ ok tt) ↔ IsValid c
unfolding validate
validate_iff (change_pov none none) =
    ((λ h. cc), λ h. elim h [ inl x ↦ absurd x | inr x ↦ absurd x ])
validate_iff (change_pov none (some p)) = ((λ h. inr tt), λ h. refl)
validate_iff (change_pov (some f) perspective) = ((λ h. inl tt), λ h. refl)
validate_iff (load_replay file_name path) =
    ground (arith, is_blank_iff file_name, is_blank_iff path)
validate_iff (seek_replay none none) =
    ((λ h. cc), λ h. elim h.0 [ inl x ↦ absurd x | inr x ↦ absurd x ])
validate_iff (seek_replay none (some t)) = ground (arith, is_bad_number_iff t)
validate_iff (seek_replay (some f) none) = ((λ h. (inl tt, tt)), λ h. refl)
validate_iff (seek_replay (some f) (some t)) = ground (arith, is_bad_number_iff t)
validate_iff (set_game_speed speed) = ground (arith, is_bad_number_iff speed)
validate_iff (set_hud_visibility visible) = ((λ h. tt), λ h. refl)
validate_iff (set_match_paused paused) = ((λ h. tt), λ h. refl)

-- The command that an error is about.
abbrev pub blames : RlStatsError → Option String
blames (invalid_command command reason) = some command
blames _ = none

validate-blames :
    (c : StatsCommand) (e : RlStatsError) → validate c ≡ err e → blames e ≡ some (command_name c)
unfolding validate
validate-blames (change_pov none none) e h = ground arith
validate-blames (load_replay file_name path) e h = ground arith
validate-blames (seek_replay none none) e h = ground arith
validate-blames (seek_replay none (some t)) e h = ground arith
validate-blames (seek_replay (some f) (some t)) e h = ground arith
validate-blames (set_game_speed speed) e h = ground arith
validate-blames _ e h = cc

pub validate_cases :
    (c : StatsCommand)
    → (validate c ≡ ok tt)
      ⊎ ((e : RlStatsError) × (validate c ≡ err e) × (blames e ≡ some (command_name c)))
validate_cases c = go (validate c) refl
  where
    go :
        (r : Result (Unit {0}))
        → validate c ≡ r
        → (validate c ≡ ok tt)
          ⊎ ((e : RlStatsError) × (validate c ≡ err e) × (blames e ≡ some (command_name c)))
    go (ok tt) h = inl h
    go (err e) h = inr (e, h, validate-blames c e h)

module _ {N : Type 0} ⦃lib : JsonLib N⦄ where
  -- A valid command is written as an object with its name and its data; any other is an error that
  -- names the command.
  pub to_value_cases :
      (c : StatsCommand)
      → (IsValid c × (to_value {N = N} c ≡ ok (wire_form c)))
        ⊎ (¬ IsValid c
            × ((e : RlStatsError) × (to_value {N = N} c ≡ err e)
                × (blames e ≡ some (command_name c))))
  unfolding to_value
  to_value_cases c = elim (validate_cases c) [
    | inl valid ↦ inl ((validate_iff c).0 valid, rw valid refl)
    | inr (e, h, b) ↦ inr (λ v. clash e h ((validate_iff c).1 v), (e, rw h refl, b))
  ]
    where
      clash : (e : RlStatsError) → validate c ≡ err e → validate c ≡ ok tt → ⊥
      clash e h k = cc
