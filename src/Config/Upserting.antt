-- ===== src/Config/Upserting.antt =====
-- A key that `upsert_key` has written is found again, and the other keys say what they said.
use rlstatsapi.Prelude.{
  ◌≡◌, refl, sym, ap, inl, inr, Bool-cases, Option-cases, Bool, true, false, Option, some, none,
  List, [], ◌∷◌, ◌++◌, if◌then◌else◌, arith, some-injective,
}
use rlstatsapi.Text.{Text, eq_ignore_ascii_case}
use rlstatsapi.Text.Equal.{same_text_trade, same_text_trade_right}
use rlstatsapi.Config.Ini.{
  KeyValue, find_turn, find_in, format_line, upsert_turn, upsert_in, read_pair, is_skipped,
  split_once,
}
use rlstatsapi.Config.Plain.{
  plain, is_plain, blanks, pair_of, split_key_value-plain, all-append, all-blanks,
  all-blanks-is_whitespace,
}
use rlstatsapi.Config.Formatted.{IsKey, IsValue, pair_of-format_line}
use rlstatsapi.Config.Breaking.{all_plain, lines_head, lines_tail}

-- `find_in` and `upsert_in` without the panics
abbrev pub found_turn : Text → Option KeyValue → Option Text → Option Text
found_turn key none later = later
found_turn key (some pair) later =
    if eq_ignore_ascii_case pair.lhs key then some pair.rhs else later

unfoldable pub found_in : List Text → Text → Option Text
found_in [] key = none
found_in (line ∷ more) key = found_turn key (pair_of line) (found_in more key)

unfoldable pub output_in : List Text → Text → Text → List Text × Bool
output_in [] key value = ([], false)
output_in (line ∷ more) key value =
    upsert_turn key value line (pair_of line) (output_in more key value)

pub find_in-plain :
    (ls : List Text) (key : Text) → all_plain ls ≡ true → find_in ls key ≡ some (found_in ls key)
unfolding find_in found_in
find_in-plain [] key h = refl
find_in-plain (line ∷ more) key h =
    rw
      (
        split_key_value-plain line (lines_head line more h),
        find_in-plain more key (lines_tail line more h),
      )
      (turn (pair_of line))
  where
    turn :
        (o : Option KeyValue)
        → find_turn key (some o) (some (found_in more key))
          ≡ some (found_turn key o (found_in more key))
    turn none = refl
    turn (some pair) = ground arith

pub upsert_in-plain :
    (ls : List Text) (key value : Text)
    → all_plain ls ≡ true
    → upsert_in ls key value ≡ some (output_in ls key value)
unfolding upsert_in output_in
upsert_in-plain [] key value h = refl
upsert_in-plain (line ∷ more) key value h = rw (
  split_key_value-plain line (lines_head line more h),
  upsert_in-plain more key value (lines_tail line more h),
)

read_pair-indent : (i t : Text) (p : KeyValue) → read_pair i t ≡ some p → p.indent ≡ i
unfolding read_pair
read_pair-indent i t p h = elim (Bool-cases (is_skipped t)) [
  | inl skipped ↦ cc (rw skipped at h)
  | inr read ↦ elim (Option-cases (split_once t)) [
    | inl missing ↦ cc (rw (read, missing) at h)
    | inr (parts, e) ↦ ap KeyValue.indent (sym (some-injective _ _ (rw (read, e) at h)))
  ]
]

pair_of-indent : (line : Text) (p : KeyValue) → pair_of line ≡ some p → p.indent ≡ blanks line
unfolding pair_of
pair_of-indent line p h = read_pair-indent _ _ p h

-- A line that was written for a key says its value.
pair_of-written :
    (line key value : Text) (p : KeyValue)
    → pair_of line ≡ some p
    → IsKey key
    → IsValue value
    → pair_of (format_line p.indent key value)
      ≡ some (record { lhs = key; rhs = value; indent = p.indent })
pair_of-written line key value p h k v =
    pair_of-format_line p.indent key value
      (rw (pair_of-indent line p h) (all-blanks-is_whitespace line)) k v

pub format_line-plain :
    (indent key value : Text)
    → plain indent ≡ true
    → IsKey key
    → IsValue value
    → plain (format_line indent key value) ≡ true
unfolding is_plain
format_line-plain indent key value h k v =
    all-append is_plain indent (key ++ b'=' ∷ value) h
      (all-append is_plain key (b'=' ∷ value) k.plain_text v.plain_text)

module _ (key value : Text) (k : IsKey key) (v : IsValue value) where
  written_plain :
      (line : Text) (p : KeyValue)
      → pair_of line ≡ some p
      → plain line ≡ true
      → plain (format_line p.indent key value) ≡ true
  written_plain line p e h =
      format_line-plain p.indent key value
        (rw (pair_of-indent line p e) (all-blanks is_plain line h)) k v

  pub output_in-plain :
      (ls : List Text) → all_plain ls ≡ true → all_plain (output_in ls key value).0 ≡ true
  unfolding output_in
  output_in-plain [] h = refl
  output_in-plain (line ∷ more) h =
      let here : plain line ≡ true = lines_head line more h in
      let later = output_in-plain more (lines_tail line more h) in
      elim (Option-cases (pair_of line)) [
        | inl e ↦ rw (e, here, later)
        | inr (p, e) ↦ elim (Bool-cases (eq_ignore_ascii_case p.lhs key)) [
          | inl named ↦ rw (e, named, written_plain line p e here, later)
          | inr other ↦ rw (e, other, here, later)
        ]
      ]

  -- Behind the loop, the key says the value where a line had the key.
  pub found_in-output_in :
      (q : Text)
      → eq_ignore_ascii_case key q ≡ true
      → (ls : List Text)
      → found_in (output_in ls key value).0 q
        ≡ (if (output_in ls key value).1 then some value else none)
  unfolding found_in output_in
  found_in-output_in q same [] = refl
  found_in-output_in q same (line ∷ more) = elim (Option-cases (pair_of line)) [
    | inl e ↦ rw (e, e) (found_in-output_in q same more)
    | inr (p, e) ↦ elim (Bool-cases (eq_ignore_ascii_case p.lhs key)) [
      | inl here ↦ rw (e, here, pair_of-written line key value p e k v, same)
      | inr other ↦
          rw (e, other, e, same_text_trade_right p.lhs key q same, other)
            (found_in-output_in q same more)
    ]
  ]

  -- Another key says what it said.
  pub found_in-output_in_other :
      (q : Text)
      → eq_ignore_ascii_case key q ≡ false
      → (ls : List Text) → found_in (output_in ls key value).0 q ≡ found_in ls q
  unfolding found_in output_in
  found_in-output_in_other q differs [] = refl
  found_in-output_in_other q differs (line ∷ more) = elim (Option-cases (pair_of line)) [
    | inl e ↦ rw (e, e) (found_in-output_in_other q differs more)
    | inr (p, e) ↦ elim (Bool-cases (eq_ignore_ascii_case p.lhs key)) [
      | inl here ↦
          rw
            (
              e,
              here,
              pair_of-written line key value p e k v,
              differs,
              same_text_trade p.lhs key q here,
              differs,
            )
            (found_in-output_in_other q differs more)
      | inr other ↦
          rw (e, other, e) (ap (found_turn q (some p)) (found_in-output_in_other q differs more))
    ]
  ]
