-- ===== src/Listener/Stdin.antt =====
-- rl_events.rs: `run_stdin_mode`.
use rlstatsapi.Prelude.{
  ℕ, suc, String, Bool, Option, List, [], ◌∷◌, is_some_and, leb, if◌then◌else◌,
}
use rlstatsapi.Text.Trimmed.{trim_str, is_nothing}
use rlstatsapi.Error.{RlStatsError, Result, ok, err}
use rlstatsapi.Json.{JsonLib}
use rlstatsapi.Config.Run.{Outcome, done, failed}
use rlstatsapi.Events.Data.{StatsEvent}
use rlstatsapi.Events.Wire.{Derived, parse_stats_event}
use rlstatsapi.Filters.Matching.{EventFilter, matches}
use rlstatsapi.Listener.Options.{CliOptions}
use rlstatsapi.Listener.Printing.{FixedText, print_event}

-- How a loop over events ends.
pub data Ending : Type 0 where
  finished : Ending
  -- the stream has given no more so far
  waits : Ending
  -- the last error of reconnecting, or its panic
  unconnected : RlStatsError → Ending
  panicked : Ending
  -- the error of reading a line, and of printing an event
  unreadable : (source : String) → Ending
  unprintable : RlStatsError → Ending
  -- `stdin parse error at line {line}: {error}`
  bad_line : (line : ℕ) → RlStatsError → Ending

-- The lines on stdout, the warnings on stderr with their line numbers, and the end.
pub record Session : Type 0 where
  pub printed : List String
  pub warned : List (ℕ × RlStatsError)
  pub ending : Ending

abbrev pub ends : Ending → Session
ends e = record { printed = []; warned = []; ending = e }

abbrev pub print_line : String → Session → Session
print_line line s = record s { printed = line ∷ s.printed }

abbrev pub warn : ℕ → RlStatsError → Session → Session
warn line error s = record s { warned = (line, error) ∷ s.warned }

-- `max_events.is_some_and(|max| emitted >= max)`
unfoldable pub is_reached : Option ℕ → ℕ → Bool
is_reached max_events emitted = is_some_and (λ max. leb max emitted) max_events

-- behind `print_event`, with what follows once one more event is emitted
abbrev pub after_print : Option ℕ → ℕ → Result String → (ℕ → Session) → Session
after_print max_events emitted (err why) next = ends (unprintable why)
after_print max_events emitted (ok line) next =
    print_line line
      (if is_reached max_events (suc emitted) then ends finished else next (suc emitted))

-- What a line holds.
pub data Line (N : Type 0) : Type 0 where
  blank : Line N
  invalid : RlStatsError → Line N
  event : StatsEvent N → Line N

abbrev pub of_parsed : {N : Type 0} → Result (StatsEvent N) → Line N
of_parsed (ok e) = event e
of_parsed (err why) = invalid why

module _ {N : Type 0} ⦃lib : JsonLib N⦄ ⦃serde : Derived N⦄ where
  unfoldable pub read_line : String → Line N
  unfolding trim_str
  read_line line =
      if is_nothing (trim_str line) then blank else of_parsed (parse_stats_event (trim_str line))

-- `clock` gives the timestamp at each printed event.
module _ (N : Type 0) ⦃lib : JsonLib N⦄ ⦃fixed : FixedText⦄ ⦃serde : Derived N⦄ (clock : ℕ → String)
    (cli : CliOptions) (filter : EventFilter) where
  abbrev pub at_line : Bool → ℕ → ℕ → Line N → (ℕ → Session) → Session
  at_line strict line_number emitted blank next = next emitted
  at_line strict line_number emitted (invalid why) next =
      if strict
      then ends (bad_line (suc line_number) why)
      else warn (suc line_number) why (next emitted)
  at_line strict line_number emitted (event e) next =
      if matches filter e
      then after_print cli.max_events emitted (print_event (clock emitted) cli.output_format e) next
      else next emitted

  -- the loop, from a line number and a count of events on
  unfoldable pub read_lines : Bool → ℕ → ℕ → List (Outcome String) → Session
  read_lines strict line_number emitted [] = ends finished
  read_lines strict line_number emitted (failed source ∷ reads) = ends (unreadable source)
  read_lines strict line_number emitted (done line ∷ reads) =
      at_line strict line_number emitted (read_line line)
        (λ count. read_lines strict (suc line_number) count reads)

  unfoldable pub run_stdin_mode : Bool → List (Outcome String) → Session
  unfolding read_lines
  run_stdin_mode strict reads = read_lines strict 0 0 reads
