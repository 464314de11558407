-- ===== src/Ticks.antt =====
-- tick_listener.rs: the tool that prints a line for each tick.
mod Tests
use text.Mathlib.Text.{◌==◌}
use rlstatsapi.Prelude.{
  String, false, Option, none, some, List, [], ◌∷◌, pos, length, and_then, unwrap_or, if◌then◌else◌,
}
use rlstatsapi.Float.{zero_f64}
use rlstatsapi.Error.{Result, ok, err}
use rlstatsapi.Events.Data.{UpdateStateData, StatsEvent, update_state}
use rlstatsapi.Arguments.{accept, Arm, takes, exits, Outcome, parse_all, choose}
use rlstatsapi.Listener.Printing.{
  FixedText, concat, show_bool, show_usize, or_minus_one, team_score,
}

-- the arms of the `match` of `parse_ini_arg`
abbrev pub arms : Option String → List (List String × Arm (Option String))
arms ini_path =
    (("--ini" ∷ [], takes "--ini requires a file path" (λ v. accept (some v)))
      ∷ ("-h" ∷ "--help" ∷ [], exits "help")
      ∷ [])

unfoldable pub parse_ini_arg : List String → Outcome (Option String)
parse_ini_arg args = parse_all (λ arg o. choose arg (arms o)) args none

module _ {N : Type 0} ⦃fixed : FixedText⦄ where
  unfoldable pub tick_line : UpdateStateData N → String
  tick_line d = concat (
      "tick frame="
      ∷ or_minus_one d.game.frame
      ∷ " time="
      ∷ or_minus_one d.game.time_seconds
      ∷ "s ot="
      ∷ show_bool (unwrap_or d.game.b_overtime false)
      ∷ " score="
      ∷ or_minus_one (team_score d (pos 0))
      ∷ "-"
      ∷ or_minus_one (team_score d (pos 1))
      ∷ " players="
      ∷ show_usize (length d.players)
      ∷ " ball_speed="
      ∷ fixed.format_1 (unwrap_or (and_then d.game.ball (λ ball. ball.speed)) zero_f64)
      ∷ [])

  abbrev at_update : StatsEvent N → List String → List String
  at_update (update_state d) lines = tick_line d ∷ lines
  at_update _ lines = lines

  -- The `while` loop of `run` on what `next_event` gives, with the error that ends it.
  unfoldable pub ticks : List (Result (Option (StatsEvent N))) → List String × Result (Unit {0})
  ticks [] = ([], ok tt)
  ticks (err e ∷ rest) = ([], err e)
  ticks (ok none ∷ rest) = ([], ok tt)
  ticks (ok (some event) ∷ rest) =
      let (lines, result) = ticks rest in (at_update event lines, result)
