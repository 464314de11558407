-- ===== src/Arguments.antt =====
-- The loop `while let Some(arg) = args.next() { match arg.as_str() { ... } }` of the programs.
pub mod Reading
use text.Mathlib.Text.{◌==◌}
use rlstatsapi.Prelude.{String, ℕ, Option, none, some, List, [], ◌∷◌, any, if◌then◌else◌}
use rlstatsapi.Text.{Text, codes, parse_unsigned}
use rlstatsapi.Error.{RlStatsError}

-- The errors of the programs, `Box<dyn Error>`.
pub data CliError : Type 0 where
  message : String → CliError
  -- `format!("{before}{subject}{after}")`
  about : (before : String) (subject : Text) (after : String) → CliError
  -- the error of `parse` at an integer type
  bad_number : CliError
  library : RlStatsError → CliError

pub data Cli (T : Type 0) : Type 0 where
  refuse : CliError → Cli T
  accept : T → Cli T

module _ {T U : Type 0} where
  infixl 5 ◌>>=◌
  abbrev pub ◌>>=◌ : Cli T → (T → Cli U) → Cli U
  refuse e >>= next = refuse e
  accept t >>= next = next t

-- `value.parse::<uN>()?`
abbrev pub number_of : {T : Type 0} → Option ℕ → (ℕ → T) → Cli T
number_of none set = refuse bad_number
number_of (some n) set = accept (set n)

-- What an argument does to the options read so far.
pub data Arm (O : Type 0) : Type 0 where
  sets : O → Arm O
  takes : (missing : String) → (String → Cli O) → Arm O
  -- leaves the loop for a text that is printed instead, of the given name
  exits : (prints : String) → Arm O
  unknown_argument : Arm O

pub data Outcome (O : Type 0) : Type 0 where
  left : (prints : String) → Outcome O
  refused : CliError → Outcome O
  parsed : O → Outcome O

abbrev pub unknown_message : String → CliError
unknown_message arg = about "Unknown argument: " (codes arg) ""

module _ {O : Type 0} where
  abbrev pub then_parse : Cli O → (O → Outcome O) → Outcome O
  then_parse (refuse e) next = refused e
  then_parse (accept o) next = next o

  -- The last argument, which no value follows.
  abbrev pub at_end : String → Arm O → Outcome O
  at_end arg (sets o) = parsed o
  at_end arg (takes missing set) = refused (message missing)
  at_end arg (exits prints) = left prints
  at_end arg unknown_argument = refused (unknown_message arg)

  abbrev pub before_more : String → Arm O → String → (O → Outcome O) → (O → Outcome O) → Outcome O
  before_more arg (sets o) value from_value behind_value = from_value o
  before_more arg (takes missing set) value from_value behind_value =
      then_parse (set value) behind_value
  before_more arg (exits prints) value from_value behind_value = left prints
  before_more arg unknown_argument value from_value behind_value = refused (unknown_message arg)

  -- `match arg.as_str()`: the patterns of each arm, and the arm that answers to every other text.
  abbrev pub choose : String → List (List String × Arm O) → Arm O
  choose arg [] = unknown_argument
  choose arg ((patterns, arm) ∷ arms) =
      if any (λ pattern. arg == pattern) patterns then arm else choose arg arms

  -- `arm` is the `match` on the argument.
  unfoldable pub parse_all : (arm : String → O → Arm O) → List String → O → Outcome O
  parse_all arm [] o = parsed o
  parse_all arm (arg ∷ []) o = at_end arg (arm arg o)
  parse_all arm (arg ∷ value ∷ rest) o =
      before_more arg (arm arg o) value (λ p. parse_all arm (value ∷ rest) p)
        (λ p. parse_all arm rest p)
