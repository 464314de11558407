-- ===== src/Config/Ini.antt =====
-- config.rs: keys and values in the text of an INI file. A slice that does not fall on a character's
-- boundary panics, which is `none` of the outer option.
use rlstatsapi.Prelude.{
  ℕ, suc, ◌-◌, Bool, true, false, not, ◌&&◌, ◌||◌, Option, none, some, and_then, map_some, List, [],
  ◌∷◌, ◌++◌, is_empty, ltb, leb, ◌==◌, if◌then◌else◌,
}
use rlstatsapi.Text.{Text, is_whitespace, trim, eq_ignore_ascii_case}

-- The bytes of a code point in UTF-8.
unfoldable pub utf8_len : ℕ → ℕ
utf8_len c = if ltb c 0x80 then 1 else if ltb c 0x800 then 2 else if ltb c 0x10000 then 3 else 4

abbrev pub cons_left : ℕ → Text × Text → Text × Text
cons_left c (before, after) = (c ∷ before, after)

-- `(&s[..n], &s[n..])`, n in bytes
unfoldable pub split_bytes : ℕ → Text → Option (Text × Text)
unfolding utf8_len
split_bytes n [] = if n == 0 then some ([], []) else none
split_bytes n (c ∷ s) =
    if n == 0
    then some ([], c ∷ s)
    else if leb (utf8_len c) n
    then map_some (cons_left c) (split_bytes (n - utf8_len c) s)
    else none

-- `chars().take_while(|ch| ch.is_whitespace()).count()`
unfoldable pub leading_blanks : Text → ℕ
leading_blanks [] = 0
leading_blanks (c ∷ s) = if is_whitespace c then suc (leading_blanks s) else 0

-- `split_once('=')`
unfoldable pub split_once : Text → Option (Text × Text)
split_once [] = none
split_once (c ∷ s) = if c == b'=' then some ([], s) else map_some (cons_left c) (split_once s)

-- `is_empty`, or one of the three `starts_with`
unfoldable pub is_skipped : Text → Bool
is_skipped [] = true
is_skipped (c ∷ s) = c == b';' || c == b'#' || c == b'['

pub record KeyValue : Type 0 where
  pub lhs : Text
  pub rhs : Text
  pub indent : Text

abbrev pub key_value : Text → Text × Text → KeyValue
key_value indent (lhs, rhs) = record { lhs = trim lhs; rhs = trim rhs; indent = indent }

-- What a line says once its indentation is off.
unfoldable pub read_pair : Text → Text → Option KeyValue
read_pair indent trimmed =
    if is_skipped trimmed then none else map_some (key_value indent) (split_once trimmed)

unfoldable pub split_key_value : Text → Option (Option KeyValue)
unfolding split_bytes leading_blanks split_once read_pair
split_key_value line =
    and_then (split_bytes (leading_blanks line) line)
      (λ parts. some (read_pair parts.0 (trim parts.1)))

abbrev pub prepend : ℕ → List Text → List Text
prepend c [] = (c ∷ []) ∷ []
prepend c (line ∷ lines) = (c ∷ line) ∷ lines

abbrev pub starts_line : Text → Bool
starts_line [] = false
starts_line (c ∷ s) = c == b'\n'

-- `lines()`: a line ends at "\n" or "\r\n", and no empty line follows the last of them
unfoldable pub lines : Text → List Text
lines [] = []
lines (c ∷ s) =
    if c == b'\n'
    then [] ∷ lines s
    else if c == b'\r' && starts_line s
    then lines s
    else prepend c (lines s)

-- `join("\n")`
unfoldable pub join_lines : List Text → Text
join_lines [] = []
join_lines (line ∷ []) = line
join_lines (line ∷ next ∷ more) = line ++ b'\n' ∷ join_lines (next ∷ more)

-- One turn of the loop of `find_string_value`: the outcome of the later turns comes last.
abbrev pub find_turn : Text → Option (Option KeyValue) → Option (Option Text) → Option (Option Text)
find_turn key none later = none
find_turn key (some none) later = later
find_turn key (some (some pair)) later =
    if eq_ignore_ascii_case pair.lhs key then some (some pair.rhs) else later

unfoldable pub find_in : List Text → Text → Option (Option Text)
unfolding split_key_value
find_in [] key = some none
find_in (line ∷ more) key = find_turn key (split_key_value line) (find_in more key)

unfoldable pub find_string_value : Text → Text → Option (Option Text)
unfolding find_in lines
find_string_value contents key = find_in (lines contents) key

-- `format!("{indent}{key}={value}")`
abbrev pub format_line : Text → Text → Text → Text
format_line indent key value = indent ++ (key ++ b'=' ∷ value)

-- One turn of the loop of `upsert_key`, with the output lines of the later turns.
abbrev pub upsert_turn : Text → Text → Text → Option KeyValue → List Text × Bool → List Text × Bool
upsert_turn key value line none (output, found) = (line ∷ output, found)
upsert_turn key value line (some pair) (output, found) =
    if eq_ignore_ascii_case pair.lhs key
    then (format_line pair.indent key value ∷ output, true)
    else (line ∷ output, found)

-- the loop of `upsert_key`: the output lines, and whether the key was found
unfoldable pub upsert_in : List Text → Text → Text → Option (List Text × Bool)
unfolding split_key_value
upsert_in [] key value = some ([], false)
upsert_in (line ∷ more) key value =
    and_then (split_key_value line)
      (λ pair. map_some (upsert_turn key value line pair) (upsert_in more key value))

-- `!lines.is_empty() && !lines.last().is_some_and(|line| line.is_empty())`
unfoldable pub needs_gap : List Text → Bool
needs_gap [] = false
needs_gap (line ∷ []) = not (is_empty line)
needs_gap (line ∷ next ∷ more) = needs_gap (next ∷ more)

unfoldable pub with_missing : Text → List Text × Bool → List Text
with_missing line (output, true) = output
with_missing line (output, false) =
    output ++ (if needs_gap output then [] ∷ line ∷ [] else line ∷ [])

unfoldable pub upsert_key : Text → Text → Text → Option Text
unfolding upsert_in lines with_missing join_lines
upsert_key contents key value =
    map_some (λ result. join_lines (with_missing (format_line [] key value) result))
      (upsert_in (lines contents) key value)
