-- ===== src/Config/Breaking.antt =====
-- Lines joined by "\n" and taken apart again: a search does not see the difference.
use rlstatsapi.Prelude.{
  ◌≡◌, refl, sym, ap, ◌∙◌, ℕ, Bool, true, false, some, none, List, [], ◌∷◌, ◌++◌, all, ◌==◌, arith,
}
use rlstatsapi.Text.{Text, trim, trim_start, trim_end}
use rlstatsapi.Config.Ini.{
  split_bytes, leading_blanks, read_pair, is_skipped, split_key_value, lines, join_lines, prepend,
  find_turn, find_in,
}
use rlstatsapi.Config.Plain.{is_plain, plain, all-head, all-tail}

abbrev pub all_plain : List Text → Bool
all_plain ls = all plain ls

pub lines_head : (l : Text) (ls : List Text) → all_plain (l ∷ ls) ≡ true → plain l ≡ true
lines_head l ls h = ground arith

pub lines_tail : (l : Text) (ls : List Text) → all_plain (l ∷ ls) ≡ true → all_plain ls ≡ true
lines_tail l ls h = ground arith

no_newline : (c : ℕ) → is_plain c ≡ true → (c == b'\n') ≡ false
unfolding is_plain
no_newline c h = ground arith

no_return : (c : ℕ) → is_plain c ≡ true → (c == b'\r') ≡ false
unfolding is_plain
no_return c h = ground arith

lines-step : (c : ℕ) (s : Text) → is_plain c ≡ true → lines (c ∷ s) ≡ prepend c (lines s)
unfolding lines
lines-step c s h = rw (no_newline c h, no_return c h)

lines-newline : (s : Text) → lines (b'\n' ∷ s) ≡ [] ∷ lines s
unfolding lines
lines-newline s = refl

lines-first : (l s : Text) → plain l ≡ true → lines (l ++ b'\n' ∷ s) ≡ l ∷ lines s
lines-first [] s h = lines-newline s
lines-first (c ∷ l) s h = rw (
  lines-step c (l ++ b'\n' ∷ s) (all-head is_plain c l h),
  lines-first l s (all-tail is_plain c l h),
)

lines-[] : lines [] ≡ []
unfolding lines
lines-[] = refl

lines-last : (c : ℕ) (l : Text) → plain (c ∷ l) ≡ true → lines (c ∷ l) ≡ (c ∷ l) ∷ []
lines-last c [] h = lines-step c [] (all-head is_plain c [] h) ∙ ap (prepend c) lines-[]
lines-last c (d ∷ l) h = rw (
  lines-step c (d ∷ l) (all-head is_plain c (d ∷ l) h),
  lines-last d l (all-tail is_plain c (d ∷ l) h),
)

blank_line : split_key_value [] ≡ some none
unfolding split_key_value split_bytes leading_blanks read_pair is_skipped trim trim_start trim_end
blank_line = refl

-- An empty line at the end is lost, and says nothing.
pub find_in-lines :
    (ls : List Text) (key : Text)
    → all_plain ls ≡ true
    → find_in (lines (join_lines ls)) key ≡ find_in ls key
unfolding join_lines find_in
find_in-lines [] key h = rw lines-[]
find_in-lines ([] ∷ []) key h = rw lines-[] (sym (ap (λ p. find_turn key p (some none)) blank_line))
find_in-lines ((c ∷ l) ∷ []) key h = rw (lines-last c l (lines_head (c ∷ l) [] h))
find_in-lines (l ∷ m ∷ more) key h = rw (
  lines-first l (join_lines (m ∷ more)) (lines_head l (m ∷ more) h),
  find_in-lines (m ∷ more) key (lines_tail l (m ∷ more) h),
)
