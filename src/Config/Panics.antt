-- ===== src/Config/Panics.antt =====
-- Where the reading of an INI file panics: `split_key_value` slices at a count of characters.
use rlstatsapi.Prelude.{◌≡◌, ℕ, ◌<◌, arith, true, false, none, List, ◌∷◌, leb}
use rlstatsapi.Text.{Text, is_whitespace}
use rlstatsapi.Config.Ini.{utf8_len, split_bytes, leading_blanks, split_key_value, find_in}

leading_blanks-one :
    (c : ℕ) (s : Text) → is_whitespace c ≡ true → leading_blanks s ≡ 0 → leading_blanks (c ∷ s) ≡ 1
unfolding leading_blanks
leading_blanks-one c s h none_later = rw (h, none_later)

split_bytes-panics : (c : ℕ) (s : Text) → 1 < utf8_len c → split_bytes 1 (c ∷ s) ≡ none
unfolding split_bytes
split_bytes-panics c s h = let wide : leb (utf8_len c) 1 ≡ false = ground arith in rw wide

-- A search panics at a line that starts with one white space of several bytes, such as a no-break
-- space, before a character that is none.
pub find_in-panics :
    (c : ℕ) (s : Text) (more : List Text) (key : Text)
    → is_whitespace c ≡ true
    → 1 < utf8_len c
    → leading_blanks s ≡ 0
    → find_in ((c ∷ s) ∷ more) key ≡ none
unfolding find_in split_key_value
find_in-panics c s more key blank wide later =
    rw (leading_blanks-one c s blank later, split_bytes-panics c s wide)
