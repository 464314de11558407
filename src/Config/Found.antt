-- ===== src/Config/Found.antt =====
-- What an INI file says after `upsert_key`.
use rlstatsapi.Prelude.{
  ◌≡◌, refl, ap, ◌∙◌, inl, inr, Bool-cases, Bool, true, false, Option, some, none, or_else, List,
  [], ◌∷◌, ◌++◌, if◌then◌else◌, arith,
}
use rlstatsapi.Text.{Text, eq_ignore_ascii_case, trim, trim_start, trim_end}
use rlstatsapi.Config.Ini.{
  lines, join_lines, find_string_value, format_line, needs_gap, with_missing, upsert_key, read_pair,
  is_skipped, KeyValue,
}
use rlstatsapi.Config.Plain.{pair_of, blanks}
use rlstatsapi.Config.Formatted.{IsKey, IsValue, pair_of-format_line}
use rlstatsapi.Config.Breaking.{all_plain, lines_head, lines_tail, find_in-lines}
use rlstatsapi.Config.Upserting.{
  found_turn, found_in, output_in, find_in-plain, upsert_in-plain, format_line-plain,
  output_in-plain, found_in-output_in, found_in-output_in_other,
}

found_in-append :
    (q : Text) (a b : List Text) → found_in (a ++ b) q ≡ or_else (found_in a q) (found_in b q)
unfolding found_in
found_in-append q [] b = refl
found_in-append q (line ∷ a) b = rw (found_in-append q a b) (turn (pair_of line))
  where
    turn :
        (o : Option KeyValue)
        → found_turn q o (or_else (found_in a q) (found_in b q))
          ≡ or_else (found_turn q o (found_in a q)) (found_in b q)
    turn none = refl
    turn (some pair) = ground arith

all_plain-append :
    (a b : List Text) → all_plain a ≡ true → all_plain b ≡ true → all_plain (a ++ b) ≡ true
all_plain-append [] b ha hb = hb
all_plain-append (l ∷ a) b ha hb =
    rw (lines_head l a ha, all_plain-append a b (lines_tail l a ha) hb)

gap_says_nothing :
    (q line : Text) (gap : Bool)
    → found_in (if gap then [] ∷ line ∷ [] else line ∷ []) q ≡ found_turn q (pair_of line) none
unfolding found_in pair_of blanks read_pair is_skipped trim trim_start trim_end
gap_says_nothing q line true = refl
gap_says_nothing q line false = refl

module _ (key value : Text) (k : IsKey key) (v : IsValue value) where
  abbrev written : Text
  written = format_line [] key value

  gap_plain : (gap : Bool) → all_plain (if gap then [] ∷ written ∷ [] else written ∷ []) ≡ true
  gap_plain true = rw (format_line-plain [] key value refl k v)
  gap_plain false = rw (format_line-plain [] key value refl k v)

  with_missing-plain :
      (r : List Text × Bool) → all_plain r.0 ≡ true → all_plain (with_missing written r) ≡ true
  unfolding with_missing
  with_missing-plain (out, true) h = h
  with_missing-plain (out, false) h = all_plain-append out _ h (gap_plain (needs_gap out))

  found_in-missing :
      (q : Text) (out : List Text)
      → found_in (with_missing written (out, false)) q
        ≡ or_else (found_in out q) (if eq_ignore_ascii_case key q then some value else none)
  unfolding with_missing
  found_in-missing q out =
      found_in-append q out _
      ∙ ap (or_else (found_in out q)) (
          gap_says_nothing q written (needs_gap out)
          ∙ ap (λ o. found_turn q o none) (pair_of-format_line [] key value refl k v))

  says_value :
      (q : Text) (r : List Text × Bool)
      → eq_ignore_ascii_case key q ≡ true
      → found_in r.0 q ≡ (if r.1 then some value else none)
      → found_in (with_missing written r) q ≡ some value
  unfolding with_missing
  says_value q (out, true) same h = h
  says_value q (out, false) same h = found_in-missing q out ∙ rw (h, same)

  says_as_before :
      (q : Text) (r : List Text × Bool)
      → eq_ignore_ascii_case key q ≡ false
      → found_in (with_missing written r) q ≡ found_in r.0 q
  unfolding with_missing
  says_as_before q (out, true) differs = refl
  says_as_before q (out, false) differs =
      found_in-missing q out ∙ rw differs (or_none (found_in out q))
    where
      or_none : (o : Option Text) → or_else o none ≡ o
      or_none none = refl
      or_none (some t) = refl

  result_says :
      (q : Text) (ls : List Text)
      → found_in (with_missing written (output_in ls key value)) q
        ≡ (if eq_ignore_ascii_case key q then some value else found_in ls q)
  result_says q ls = elim (Bool-cases (eq_ignore_ascii_case key q)) [
    | inl same ↦
        rw same
          (says_value q (output_in ls key value) same (found_in-output_in key value k v q same ls))
    | inr differs ↦ rw differs (
        says_as_before q (output_in ls key value) differs
        ∙ found_in-output_in_other key value k v q differs ls)
  ]

  -- In a file of plain lines, setting a proper key to a trimmed plain value does not panic, and
  -- the file that it gives says that value under the key, in whatever case it is asked for, and
  -- under every other key what the old file said.
  pub upsert_key-find_string_value :
      (contents q : Text)
      → all_plain (lines contents) ≡ true
      → (after : Text) × (upsert_key contents key value ≡ some after)
        × (find_string_value after q ≡ (
            if eq_ignore_ascii_case key q then some (some value) else find_string_value contents q))
  unfolding upsert_key find_string_value
  upsert_key-find_string_value contents q h =
      let ls = lines contents in
      let result : List Text = with_missing written (output_in ls key value) in
      let clean : all_plain result ≡ true =
        with_missing-plain (output_in ls key value) (output_in-plain key value k v ls h) in
      (
        join_lines result,
        rw (upsert_in-plain ls key value h),
        find_in-lines result q clean
            ∙ find_in-plain result q clean
            ∙ ap some (result_says q ls)
            ∙ rw (find_in-plain ls q h) (some_if (eq_ignore_ascii_case key q) (found_in ls q)),
      )
    where
      some_if :
          (b : Bool) (o : Option Text)
          → some (if b then some value else o) ≡ (if b then some (some value) else some o)
      some_if true o = refl
      some_if false o = refl
