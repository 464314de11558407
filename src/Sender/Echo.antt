-- ===== src/Sender/Echo.antt =====
-- rl_command.rs: `run`, behind the sending of the command.
use text.Mathlib.Text.{◌==◌}
use rlstatsapi.Prelude.{String, false, Option, none, some, List, [], ◌∷◌, if◌then◌else◌}
use rlstatsapi.Error.{Result, ok, err}
use rlstatsapi.Commands.Wire.{join}
use rlstatsapi.Config.Prepare.{ClientOptions, default_options}
use rlstatsapi.Events.Data.{StatsEvent}
use rlstatsapi.Events.Wire.{stats_event_name}
use rlstatsapi.Sender.Options.{CliOptions}

unfoldable pub connect_options : CliOptions → ClientOptions
connect_options cli = record default_options {
  host = cli.host;
  port_override = some cli.port;
  auto_enable_packet_rate = false;
}

-- What was printed, and how the loop ended.
pub record Echoed : Type 0 where
  pub lines : List String
  pub result : Result (Unit {0})

abbrev line : String → List String → List String
line name lines = if name == "UpdateState" then lines else join "  <- " name ∷ lines

module _ {N : Type 0} where
  -- The `while` loop, on what `next_event` gives before the deadline.
  unfoldable pub echo : List (Result (Option (StatsEvent N))) → Echoed
  echo [] = record { lines = []; result = ok tt }
  echo (err e ∷ rest) = record { lines = []; result = err e }
  echo (ok none ∷ rest) = record { lines = []; result = ok tt }
  echo (ok (some event) ∷ rest) = record {
    lines = line (stats_event_name event) (echo rest).lines;
    result = (echo rest).result;
  }
