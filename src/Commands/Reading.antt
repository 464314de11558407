-- ===== src/Commands/Reading.antt =====
-- What `from_value` makes of a value: a valid command with the name that the wire gives, or an error
-- that names it.
use text.Mathlib.TextEquality.{eq_iff}
use text.Mathlib.Text.{◌==◌}
use rlstatsapi.Prelude.{
  String, ◌≡◌, refl, sym, ap, ◌∙◌, Option, none, some, arith, and_then, unwrap_or, inl, inr,
  Bool-cases, Option-cases, if◌then◌else◌,
}
use rlstatsapi.Error.{
  >>=-eq-ok, err-injective, err≢ok, ok-injective, RlStatsError, invalid_command, Result, ok, err,
  ◌>>=◌, ◌>>◌, map_ok, ok_or,
}
use rlstatsapi.Json.{Value, Fields, as_str, get_value, JsonLib}
use rlstatsapi.Commands.Defs.{StatsCommand, command_name, validate}
use rlstatsapi.Commands.Wire.{optional, read_command, from_value}
use rlstatsapi.Commands.Validity.{IsValid, blames, validate_iff, validate_cases}

-- Every error of a result is about the command of this name.
record Blames {A : Type 0} (name : String) (r : Result A) : Type 0 where
  fails : (e : RlStatsError) → r ≡ err e → blames e ≡ some name

-- Moreover a command that it makes is called so.
record Reads (name : String) (r : Result StatsCommand) : Type 0 where
  blamed : Blames name r
  makes : (c : StatsCommand) → r ≡ ok c → command_name c ≡ name

module _ {name : String} where
  Blames-ok_or :
      {A : Type 0} (o : Option A) (reason : String)
      → Blames name (ok_or o (invalid_command name reason))
  Blames-ok_or o reason = record { fails = λ e h. ground arith }

  Blames-map_ok :
      {A B : Type 0} (f : A → B) (r : Result A) → Blames name r → Blames name (map_ok f r)
  Blames-map_ok f (ok a) h = record { fails = λ e p. cc }
  Blames-map_ok f (err x) h = record { fails = λ e p. h.fails e (ground arith) }

  Blames-optional :
      {N A : Type 0} ⦃lib : JsonLib N⦄ (read : Value N → Option A) (reason : Value N → String)
      (o : Option (Value N))
      → Blames name (optional read (λ raw. invalid_command name (reason raw)) o)
  Blames-optional read reason none = record { fails = λ e p. cc }
  Blames-optional read reason (some raw) =
      Blames-map_ok some (ok_or (read raw) (invalid_command name (reason raw)))
        (Blames-ok_or (read raw) (reason raw))

  Reads-bind :
      {A : Type 0} (m : Result A) (f : A → Result StatsCommand)
      → Blames name m
      → ((a : A) → Reads name (f a))
      → Reads name (m >>= f)
  Reads-bind (ok a) f h k = k a
  Reads-bind (err x) f h k = record {
    blamed = record { fails = λ e p. h.fails e (ground arith) };
    makes = λ c p. cc;
  }

  Reads-map_ok :
      {A : Type 0} (f : A → StatsCommand) (r : Result A)
      → Blames name r
      → ((a : A) → command_name (f a) ≡ name)
      → Reads name (map_ok f r)
  Reads-map_ok f (ok a) h k = record {
    blamed = record { fails = λ e p. cc };
    makes = λ c p. ap command_name (sym (ok-injective p)) ∙ k a;
  }
  Reads-map_ok f (err x) h k = record {
    blamed = record { fails = λ e p. h.fails e (ground arith) };
    makes = λ c p. cc;
  }

  Reads-ok : (c : StatsCommand) → command_name c ≡ name → Reads name (ok c)
  Reads-ok c k = record {
    blamed = record { fails = λ e p. cc };
    makes = λ d p. ap command_name (sym (ok-injective p)) ∙ k;
  }

  Reads-err : (reason : String) → Reads name (err (invalid_command name reason))
  Reads-err reason = record { blamed = record { fails = λ e p. ground arith }; makes = λ c p. cc }

  -- An arm of the `match` is read under the name that it matches.
  Reads-arm :
      (literal : String) {x y : Result StatsCommand}
      → (name ≡ literal → Reads name x)
      → Reads name y
      → Reads name (if name == literal then x else y)
  Reads-arm literal {x} {y} h k = elim (Bool-cases (name == literal)) [
    | inl same ↦ rw same (h ((eq_iff name literal).0 same))
    | inr other ↦ rw other k
  ]

ruleset reading = (
  Blames-ok_or, Blames-map_ok, Blames-optional, Reads-bind, Reads-map_ok, Reads-ok, Reads-err,
  Reads-arm,
)

module _ {N : Type 0} ⦃lib : JsonLib N⦄ where
  read_command-Reads : (name : String) (d : Fields N) → Reads name (read_command name d)
  unfolding read_command command_name
  read_command-Reads name d = search (reading, sym) depth 30

  -- the text under "Command"
  abbrev pub named_command : Value N → Option String
  named_command v = and_then (get_value v "Command") as_str

  -- the reading and the validation, once the name is known
  abbrev read_valid : String → Fields N → Result StatsCommand
  read_valid name d = do command ← read_command name d; validate command; ok command

  read_valid_sound :
      (name : String) (d : Fields N) (c : StatsCommand)
      → read_valid name d ≡ ok c
      → IsValid c × (command_name c ≡ name)
  read_valid_sound name d c h =
      let (made, read, rest) = >>=-eq-ok (read_command name d) _ h in
      let (u, valid, same) = >>=-eq-ok (validate made) _ rest in
      let e : made ≡ c = ok-injective same in
      (
        rw (← e) ((validate_iff made).0 valid),
        rw (← e) ((read_command-Reads name d).makes made read),
      )

  read_valid-blames :
      (name : String) (d : Fields N) (e : RlStatsError)
      → read_valid name d ≡ err e
      → blames e ≡ some name
  read_valid-blames name d e h = go (read_command name d) refl
    where
      reads : Reads name (read_command name d)
      reads = read_command-Reads name d

      clash :
          (c : StatsCommand) (x : RlStatsError)
          → read_command name d ≡ ok c
          → validate c ≡ err x
          → blames x ≡ some (command_name c)
          → blames e ≡ some name
      clash c x p bad about =
          let same : x ≡ e = cc (rw (p, bad) at h) in
          rw (← same) (about ∙ ap some (reads.makes c p))

      go : (r : Result StatsCommand) → read_command name d ≡ r → blames e ≡ some name
      go (err x) p = reads.blamed.fails e (p ∙ rw p at h)
      go (ok c) p = elim (validate_cases c) [
        | inl valid ↦ cc (rw (p, valid) at h)
        | inr (x, bad, about) ↦ clash c x p bad about
      ]

  -- A command that is read is valid, and has the name that stands under "Command".
  pub from_value_sound :
      (v : Value N) (c : StatsCommand)
      → from_value v ≡ ok c
      → IsValid c × (named_command v ≡ some (command_name c))
  unfolding from_value
  from_value_sound v c h = elim (Option-cases (named_command v)) [
    | inl missing ↦ absurd (err≢ok (rw missing at h))
    | inr (name, given) ↦
        let (valid, called) = read_valid_sound name _ c (rw given at h) in
        (valid, given ∙ ap some (sym called))
  ]

  -- Every error of reading is about the command that stands under "Command", or about "" where
  -- none does.
  pub from_value-blames :
      (v : Value N) (e : RlStatsError)
      → from_value v ≡ err e
      → blames e ≡ some (unwrap_or (named_command v) "")
  unfolding from_value
  from_value-blames v e h = elim (Option-cases (named_command v)) [
    | inl missing ↦ rw missing (ap blames (sym (err-injective (rw missing at h))))
    | inr (name, given) ↦ rw given (read_valid-blames name _ e (rw given at h))
  ]
