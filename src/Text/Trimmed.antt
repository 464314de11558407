-- ===== src/Text/Trimmed.antt =====
-- `trim` of a string that stays a string, and `split(',')` of the code points of one.
use Prim.Native.Char.{code}
use rlstatsapi.Prelude.{ℕ, String, Bool, true, false, ◌&&◌, List, [], ◌∷◌, ◌==◌, if◌then◌else◌}
use rlstatsapi.Text.{Text, is_whitespace}

unfoldable pub trim_start_str : String → String
unfolding is_whitespace
trim_start_str String.[] = ""
trim_start_str (String.◌∷◌ c s) =
    let rest = trim_start_str s in if is_whitespace (code c) then rest else String.◌∷◌ c s

abbrev pub is_nothing : String → Bool
is_nothing String.[] = true
is_nothing (String.◌∷◌ c s) = false

unfoldable pub trim_end_str : String → String
unfolding is_whitespace
trim_end_str String.[] = ""
trim_end_str (String.◌∷◌ c s) =
    let rest = trim_end_str s in
    if is_whitespace (code c) && is_nothing rest then "" else String.◌∷◌ c rest

unfoldable pub trim_str : String → String
unfolding trim_start_str trim_end_str
trim_str s = trim_end_str (trim_start_str s)

abbrev onto_first : ℕ → List Text → List Text
onto_first c [] = (c ∷ []) ∷ []
onto_first c (token ∷ tokens) = (c ∷ token) ∷ tokens

-- `split(',')`, which has one item more than there are commas
unfoldable pub split_commas : Text → List Text
split_commas [] = [] ∷ []
split_commas (c ∷ s) =
    let rest = split_commas s in if c == b',' then [] ∷ rest else onto_first c rest
