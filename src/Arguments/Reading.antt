-- ===== src/Arguments/Reading.antt =====
-- What holds of the options however many arguments were read.
use text.Mathlib.Text.{◌==◌}
use rlstatsapi.Prelude.{
  ℕ, ◌<◌, String, Bool, true, false, Option, none, some, List, [], ◌∷◌, inl, inr, Option-cases,
  if◌then◌else◌, All, any,
}
use rlstatsapi.Text.{Text, parse_unsigned}
use rlstatsapi.Commands.Camera.{parse_unsigned-lt}
use rlstatsapi.Arguments.{
  Cli, refuse, accept, number_of, Arm, sets, takes, exits, unknown_argument, Outcome, left, refused,
  parsed, then_parse, at_end, before_more, parse_all, choose,
}

module _ {O : Type 0} (P : O → Type 0) where
  abbrev pub WhenAccepted : Cli O → Type 0
  WhenAccepted (refuse e) = Unit
  WhenAccepted (accept o) = P o

  abbrev pub ArmKeeps : Arm O → Type 0
  ArmKeeps (sets o) = P o
  ArmKeeps (takes missing set) = (value : String) → WhenAccepted (set value)
  ArmKeeps (exits prints) = Unit
  ArmKeeps unknown_argument = Unit

  abbrev pub WhenParsed : Outcome O → Type 0
  WhenParsed (left prints) = Unit
  WhenParsed (refused e) = Unit
  WhenParsed (parsed o) = P o

  then-WhenParsed :
      (c : Cli O) (next : O → Outcome O)
      → WhenAccepted c
      → ((o : O) → P o → WhenParsed (next o))
      → WhenParsed (then_parse c next)
  then-WhenParsed (refuse e) next h k = tt
  then-WhenParsed (accept o) next h k = k o h

  at_end-WhenParsed : (arg : String) (a : Arm O) → ArmKeeps a → WhenParsed (at_end arg a)
  at_end-WhenParsed arg (sets o) h = h
  at_end-WhenParsed arg (takes missing set) h = tt
  at_end-WhenParsed arg (exits prints) h = tt
  at_end-WhenParsed arg unknown_argument h = tt

  before_more-WhenParsed :
      (arg : String) (a : Arm O) (value : String) (from_value behind_value : O → Outcome O)
      → ArmKeeps a
      → ((o : O) → P o → WhenParsed (from_value o))
      → ((o : O) → P o → WhenParsed (behind_value o))
      → WhenParsed (before_more arg a value from_value behind_value)
  before_more-WhenParsed arg (sets o) value f b h hf hb = hf o h
  before_more-WhenParsed arg (takes missing set) value f b h hf hb =
      then-WhenParsed (set value) b (h value) hb
  before_more-WhenParsed arg (exits prints) value f b h hf hb = tt
  before_more-WhenParsed arg unknown_argument value f b h hf hb = tt

  -- What every argument keeps holds of the options at the end.
  pub parse_all-WhenParsed :
      (arm : String → O → Arm O)
      → ((arg : String) (o : O) → P o → ArmKeeps (arm arg o))
      → (args : List String) (o : O) → P o
      → WhenParsed (parse_all arm args o)
  unfolding parse_all
  parse_all-WhenParsed arm keeps [] o h = h
  parse_all-WhenParsed arm keeps (arg ∷ []) o h = at_end-WhenParsed arg (arm arg o) (keeps arg o h)
  parse_all-WhenParsed arm keeps (arg ∷ value ∷ rest) o h =
      before_more-WhenParsed arg (arm arg o) value _ _ (keeps arg o h)
        (λ p hp. parse_all-WhenParsed arm keeps (value ∷ rest) p hp)
        (λ p hp. parse_all-WhenParsed arm keeps rest p hp)

  either-ArmKeeps :
      (b : Bool) (now later : Arm O)
      → ArmKeeps now
      → ArmKeeps later
      → ArmKeeps (if b then now else later)
  either-ArmKeeps true now later h k = h
  either-ArmKeeps false now later h k = k

  pub choose-ArmKeeps :
      (arg : String) (arms : List (List String × Arm O))
      → All (λ arm. ArmKeeps arm.1) arms
      → ArmKeeps (choose arg arms)
  choose-ArmKeeps arg [] h = tt
  choose-ArmKeeps arg (arm ∷ arms) (here, later) =
      either-ArmKeeps (any (λ pattern. arg == pattern) arm.0) arm.1 (choose arg arms) here
        (choose-ArmKeeps arg arms later)

  pub number_of-WhenAccepted :
      (bound : ℕ) (s : Text) (set : ℕ → O)
      → ((n : ℕ) → n < bound → P (set n))
      → WhenAccepted (number_of (parse_unsigned bound s) set)
  number_of-WhenAccepted bound s set h = elim (Option-cases (parse_unsigned bound s)) [
    | inl e ↦ rw e tt
    | inr (n, e) ↦ rw e (h n (parse_unsigned-lt bound n s e))
  ]

-- A number that was given is below a bound.
abbrev pub Below : ℕ → Option ℕ → Type 0
Below bound none = Unit
Below bound (some n) = n < bound
