-- ===== src/Sender/Sound.antt =====
-- What `parse_args` of rl_command.rs lets through.
use rlstatsapi.Prelude.{
  ℕ, ◌^◌, ◌<◌, String, ◌≡◌, refl, Bool, true, false, ◌&&◌, not, Option, none, some, List, inl, inr,
  Option-cases, is_some, if◌then◌else◌, arith,
}
use rlstatsapi.Text.{Text, codes, parse_unsigned}
use rlstatsapi.Error.{Result, ok, err}
use rlstatsapi.Json.{Value, JsonLib}
use rlstatsapi.Commands.Defs.{StatsCommand}
use rlstatsapi.Commands.Wire.{from_value}
use rlstatsapi.Commands.Validity.{IsValid}
use rlstatsapi.Commands.Reading.{from_value_sound}
use rlstatsapi.Commands.Camera.{parse_unsigned-lt}
use rlstatsapi.Arguments.{
  library, Cli, refuse, accept, Arm, sets, takes, exits, unknown_argument, Outcome, left, refused,
  parsed, choose,
}
use rlstatsapi.Arguments.Reading.{
  WhenAccepted, WhenParsed, ArmKeeps, parse_all-WhenParsed, choose-ArmKeeps,
}
use rlstatsapi.Relay.Target.{starts_with}
use rlstatsapi.Sender.Options.{
  CliOptions, CommandLocals, initial_locals, number_or, arms, positional, at_argument, map_error,
  read_value, read_stats_command, with_command, settle_command, parse_args,
}

abbrev NumbersBelow : CommandLocals → Type 0
NumbersBelow o = (o.port < 2 ^ 16) × (o.watch_seconds < 2 ^ 64)

abbrev pub IsSendable : CliOptions → Type 0
IsSendable cli = IsValid cli.command × (cli.port < 2 ^ 16) × (cli.watch_seconds < 2 ^ 64)

number_or-WhenAccepted :
    (refusal : String) (bound : ℕ) (s : Text) (set : ℕ → CommandLocals)
    → ((n : ℕ) → n < bound → NumbersBelow (set n))
    → WhenAccepted NumbersBelow (number_or refusal (parse_unsigned bound s) set)
number_or-WhenAccepted refusal bound s set h = elim (Option-cases (parse_unsigned bound s)) [
  | inl e ↦ rw e tt
  | inr (n, e) ↦ rw e (h n (parse_unsigned-lt bound n s e))
]

kept_or_unknown :
    (b : Bool) (o : CommandLocals)
    → NumbersBelow o
    → ArmKeeps NumbersBelow (if b then sets o else unknown_argument)
kept_or_unknown true o h = h
kept_or_unknown false o h = tt

positional-ArmKeeps :
    (arg : String) (o : CommandLocals) (a : Arm CommandLocals)
    → NumbersBelow o
    → ArmKeeps NumbersBelow a
    → ArmKeeps NumbersBelow (positional arg o a)
positional-ArmKeeps arg o (sets p) h k = k
positional-ArmKeeps arg o (takes missing set) h k = k
positional-ArmKeeps arg o (exits prints) h k = k
positional-ArmKeeps arg o unknown_argument h k =
    kept_or_unknown (not (is_some o.raw_command) && not (starts_with "--" arg)) _ h

at_argument-ArmKeeps :
    (arg : String) (o : CommandLocals) → NumbersBelow o → ArmKeeps NumbersBelow (at_argument arg o)
at_argument-ArmKeeps arg o h = positional-ArmKeeps arg o (choose arg (arms o)) h (
    choose-ArmKeeps NumbersBelow arg (arms o) (
      (λ v. h),
      (
        (λ v. number_or-WhenAccepted _ (2 ^ 16) (codes v) _ (λ n lt. (lt, h.1))),
        ((λ v. number_or-WhenAccepted _ (2 ^ 64) (codes v) _ (λ n lt. (h.0, lt))), (tt, tt)),
      ),
    ))

with_command-IsSendable :
    (o : CommandLocals) (c : Cli StatsCommand)
    → NumbersBelow o
    → WhenAccepted IsValid c
    → WhenParsed IsSendable (with_command o c)
with_command-IsSendable o (refuse e) h k = tt
with_command-IsSendable o (accept c) h k = (k, h.0, h.1)

map_error-IsValid :
    (r : Result StatsCommand)
    → ((c : StatsCommand) → r ≡ ok c → IsValid c)
    → WhenAccepted IsValid (map_error library r)
map_error-IsValid (err e) h = tt
map_error-IsValid (ok c) h = h c refl

module _ {N : Type 0} (lib : JsonLib N) where
  read_stats_command-IsValid :
      (raw : Option String) → WhenAccepted IsValid (read_stats_command lib raw)
  unfolding read_stats_command
  read_stats_command-IsValid none = tt
  read_stats_command-IsValid (some text) = go (lib.from_str text)
    where
      go : (r : Result (Value N)) → WhenAccepted IsValid (read_value lib r)
      go (err e) = tt
      go (ok value) =
          map_error-IsValid (from_value ⦃lib = lib⦄ value)
            (λ c h. (from_value_sound ⦃lib = lib⦄ value c h).0)

  settle_command-IsSendable :
      (out : Outcome CommandLocals)
      → WhenParsed NumbersBelow out
      → WhenParsed IsSendable (settle_command lib out)
  settle_command-IsSendable (left prints) h = tt
  settle_command-IsSendable (refused e) h = tt
  settle_command-IsSendable (parsed o) h =
      with_command-IsSendable o _ h (read_stats_command-IsValid o.raw_command)

  -- Whatever the arguments, options that were read have a valid command, a port below 2^16 and a
  -- watching time below 2^64.
  pub parse_args-IsSendable : (args : List String) → WhenParsed IsSendable (parse_args lib args)
  unfolding parse_args
  parse_args-IsSendable args = settle_command-IsSendable _ (
      parse_all-WhenParsed NumbersBelow at_argument (λ arg o h. at_argument-ArmKeeps arg o h) args
        initial_locals ((omega arith), (omega arith)))
