-- ===== src/Listener/Strictness.antt =====
-- How the strict and the lenient mode of the standard input differ.
use rlstatsapi.Prelude.{
  ℕ, suc, String, ◌≡◌, refl, ap, inl, inr, true, false, Option, List, [], ◌∷◌, Bool-cases,
}
use rlstatsapi.Error.{Result, ok, err}
use rlstatsapi.Json.{JsonLib}
use rlstatsapi.Config.Run.{Outcome, done, failed}
use rlstatsapi.Events.Wire.{Derived}
use rlstatsapi.Filters.Matching.{EventFilter, matches}
use rlstatsapi.Listener.Options.{CliOptions}
use rlstatsapi.Listener.Printing.{FixedText, print_event}
use rlstatsapi.Listener.Stdin.{
  finished, Session, print_line, is_reached, Line, blank, invalid, event, read_line, after_print,
  at_line, read_lines, run_stdin_mode,
}

-- If the strict session ends well, the lenient one is the same, and it has no warnings.
abbrev Agree : Session → Session → Type 0
Agree strict lenient = strict.ending ≡ finished → (strict ≡ lenient) × (strict.warned ≡ [])

after_print-Agree :
    (max : Option ℕ) (i : ℕ) (r : Result String) (next next2 : ℕ → Session)
    → ((j : ℕ) → Agree (next j) (next2 j))
    → Agree (after_print max i r next) (after_print max i r next2)
after_print-Agree max i (err why) next next2 h = λ bad. cc
after_print-Agree max i (ok line) next next2 h = elim (Bool-cases (is_reached max (suc i))) [
  | inl last ↦ rw last (λ well. (refl, refl))
  | inr more ↦
      rw more (λ well. let (same, quiet) = h (suc i) well in (ap (print_line line) same, quiet))
]

module _ (N : Type 0) ⦃lib : JsonLib N⦄ ⦃fixed : FixedText⦄ ⦃serde : Derived N⦄ (clock : ℕ → String)
    (cli : CliOptions) (filter : EventFilter) where
  at_line-Agree :
      (n i : ℕ) (l : Line N) (next next2 : ℕ → Session)
      → ((j : ℕ) → Agree (next j) (next2 j))
      → Agree
          (at_line N clock cli filter true n i l next)
          (at_line N clock cli filter false n i l next2)
  at_line-Agree n i blank next next2 h = h i
  at_line-Agree n i (invalid why) next next2 h = λ bad. cc
  at_line-Agree n i (event e) next next2 h = elim (Bool-cases (matches filter e)) [
    | inl passes ↦ rw passes (
        after_print-Agree cli.max_events i (print_event (clock i) cli.output_format e) next next2 h)
    | inr other ↦ rw other (h i)
  ]

  read_lines-Agree :
      (n i : ℕ) (reads : List (Outcome String))
      → Agree
          (read_lines N clock cli filter true n i reads)
          (read_lines N clock cli filter false n i reads)
  unfolding read_lines
  read_lines-Agree n i [] = λ well. (refl, refl)
  read_lines-Agree n i (failed source ∷ reads) = λ bad. cc
  read_lines-Agree n i (done line ∷ reads) =
      at_line-Agree n i (read_line line) _ _ (λ j. read_lines-Agree (suc n) j reads)

  -- Where the strict mode ends without an error, the lenient mode prints the same, and there was
  -- no line to warn of.
  pub run_stdin_mode-strict :
      (reads : List (Outcome String))
      → (run_stdin_mode N clock cli filter true reads).ending ≡ finished
      → (run_stdin_mode N clock cli filter true reads
          ≡ run_stdin_mode N clock cli filter false reads)
        × ((run_stdin_mode N clock cli filter true reads).warned ≡ [])
  unfolding run_stdin_mode
  run_stdin_mode-strict reads = read_lines-Agree 0 0 reads
