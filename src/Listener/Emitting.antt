-- ===== src/Listener/Emitting.antt =====
-- Which events the loop over the lines of the standard input prints.
use rlstatsapi.Prelude.{
  ℕ, suc, ◌-◌, String, ◌≡◌, refl, ap, ◌⊎◌, inl, inr, false, Option, none, some, List, [], ◌∷◌, map,
  take, Bool-cases, leb, if◌then◌else◌, arith,
}
use rlstatsapi.Error.{RlStatsError, ok}
use rlstatsapi.Json.{JsonLib}
use rlstatsapi.Config.Run.{done}
use rlstatsapi.Events.Data.{StatsEvent}
use rlstatsapi.Events.Wire.{Derived}
use rlstatsapi.Filters.Matching.{EventFilter, matches}
use rlstatsapi.Listener.Options.{CliOptions}
use rlstatsapi.Listener.Printing.{FixedText, print_event}
use rlstatsapi.Listener.Stdin.{
  finished, Session, is_reached, Line, blank, invalid, event, read_line, after_print, at_line,
  read_lines, run_stdin_mode,
}

-- How many more events a limit allows, of which the loop prints at least one.
abbrev pub quota : ℕ → ℕ → ℕ
quota max emitted = if leb max (suc emitted) then 1 else max - emitted

abbrev pub wanted {ℓ} : {A : Type ℓ} → Option ℕ → ℕ → List A → List A
wanted none emitted xs = xs
wanted (some max) emitted xs = take (quota max emitted) xs

-- The lines printed for some events, each under its number.
abbrev pub numbered {ℓ} : {A : Type ℓ} → (ℕ → A → String) → ℕ → List A → List String
numbered line i [] = []
numbered line i (x ∷ xs) = line i x ∷ numbered line (suc i) xs

quota_next : (max i : ℕ) → leb max (suc i) ≡ false → max - i ≡ suc (quota max (suc i))
quota_next max i h = ground arith

pub wanted-cons {ℓ} :
    {A : Type ℓ} (max : Option ℕ) (i : ℕ) (x : A) (xs : List A)
    → wanted max i (x ∷ xs) ≡ x ∷ (if is_reached max (suc i) then [] else wanted max (suc i) xs)
unfolding is_reached
wanted-cons none i x xs = refl
wanted-cons (some max) i x xs = elim (Bool-cases (leb max (suc i))) [
  | inl last ↦ rw last refl
  | inr more ↦ rw (more, quota_next max i more) refl
]

pub numbered-nothing {ℓ} :
    {A : Type ℓ} (line : ℕ → A → String) (i : ℕ) (max : Option ℕ)
    → [] ≡ numbered line i (wanted max i [])
numbered-nothing line i none = refl
numbered-nothing line i (some m) = elim (Bool-cases (leb m (suc i))) [
  | inl last ↦ rw last refl
  | inr more ↦ rw (more, quota_next m i more) refl
]

Line-cases :
    {N : Type 0} (l : Line N)
    → (l ≡ blank)
      ⊎ (((why : RlStatsError) × (l ≡ invalid why)) ⊎ ((e : StatsEvent N) × (l ≡ event e)))
Line-cases blank = inl refl
Line-cases (invalid why) = inr (inl (why, refl))
Line-cases (event e) = inr (inr (e, refl))

module _ {N : Type 0} (filter : EventFilter) where
  -- The events of some lines that pass a filter.
  abbrev pub passing_of : Line N → List (StatsEvent N) → List (StatsEvent N)
  passing_of blank later = later
  passing_of (invalid why) later = later
  passing_of (event e) later = if matches filter e then e ∷ later else later

  abbrev pub selected : List (Line N) → List (StatsEvent N)
  selected [] = []
  selected (l ∷ lines) = passing_of l (selected lines)

module _ {N : Type 0} ⦃lib : JsonLib N⦄ ⦃fixed : FixedText⦄ ⦃serde : Derived N⦄ (clock : ℕ → String)
    (cli : CliOptions) (filter : EventFilter) (line : ℕ → StatsEvent N → String)
    (prints : (i : ℕ) (e : StatsEvent N)
      → print_event (clock i) cli.output_format e ≡ ok (line i e)) where
  -- The session printed the lines of these events, the first under the given number.
  abbrev pub Printed : ℕ → List (StatsEvent N) → Session → Type 0
  Printed i events s =
      (s.printed ≡ numbered line i (wanted cli.max_events i events)) × (s.ending ≡ finished)

  after_print-Printed :
      (i : ℕ) (e : StatsEvent N) (events : List (StatsEvent N)) (next : ℕ → Session)
      → Printed (suc i) events (next (suc i))
      → Printed i (e ∷ events) (after_print cli.max_events i (ok (line i e)) next)
  after_print-Printed i e events next (printed, ending) =
      rw (wanted-cons cli.max_events i e events)
        (elim (Bool-cases (is_reached cli.max_events (suc i))) [
          | inl last ↦ rw last (refl, refl)
          | inr more ↦ rw more (ap (λ later. line i e ∷ later) printed, ending)
        ])

  at_line-Printed :
      (n i : ℕ) (l : Line N) (lines : List (Line N)) (next : ℕ → Session)
      → ((j : ℕ) → Printed j (selected filter lines) (next j))
      → Printed i (selected filter (l ∷ lines)) (at_line N clock cli filter false n i l next)
  at_line-Printed n i blank lines next h = h i
  at_line-Printed n i (invalid why) lines next h = h i
  at_line-Printed n i (event e) lines next h = elim (Bool-cases (matches filter e)) [
    | inl passes ↦
        rw (passes, prints i e) (after_print-Printed i e (selected filter lines) next (h (suc i)))
    | inr other ↦ rw other (h i)
  ]

  read_lines-Printed :
      (n i : ℕ) (lines : List String)
      → Printed i
          (selected filter (map read_line lines))
          (read_lines N clock cli filter false n i (map done lines))
  unfolding read_lines
  read_lines-Printed n i [] = (numbered-nothing line i cli.max_events, refl)
  read_lines-Printed n i (here ∷ lines) =
      at_line-Printed n i (read_line here) (map read_line lines) _
        (λ j. read_lines-Printed (suc n) j lines)

  -- When every line can be read and every event printed, the lenient mode prints the events that
  -- lines hold and that pass, in their order, all of them or as many as the limit says but at
  -- least one, and then ends without an error.
  pub run_stdin_mode-Printed :
      (lines : List String)
      → Printed 0
          (selected filter (map read_line lines))
          (run_stdin_mode N clock cli filter false (map done lines))
  unfolding run_stdin_mode
  run_stdin_mode-Printed lines = read_lines-Printed 0 0 lines
