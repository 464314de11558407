-- ===== src/Config/Formatted.antt =====
-- The line that `upsert_key` writes reads back as its key and value.
use rlstatsapi.Prelude.{
  ◌≡◌, refl, ap, ◌∙◌, ℕ, Bool, true, false, not, ◌&&◌, ◌||◌, some, [], ◌∷◌, ◌++◌, all, ◌==◌, arith,
}
use rlstatsapi.Text.{Text, is_whitespace, trim, trim_start, trim_end, keep_unless_blank}
use rlstatsapi.Config.Ini.{split_once, is_skipped, read_pair, format_line}
use rlstatsapi.Config.Plain.{plain, blanks, pair_of, all-head, all-tail}

unfoldable pub starts_key : Text → Bool
starts_key [] = false
starts_key (c ∷ s) = not (is_whitespace c) && not (c == b';' || c == b'#' || c == b'[')

abbrev pub no_equals : ℕ → Bool
no_equals c = not (c == b'=')

-- A text that can stand before the `=` of a line.
pub record IsKey (key : Text) : Type 0 where
  pub starts : starts_key key ≡ true
  pub plain_text : plain key ≡ true
  pub apart : all no_equals key ≡ true
  pub ends : trim_end key ≡ key

-- A text that can stand behind it.
pub record IsValue (value : Text) : Type 0 where
  pub plain_text : plain value ≡ true
  pub starts : trim_start value ≡ value
  pub ends : trim_end value ≡ value

trim_start-starts_key : (k s : Text) → starts_key k ≡ true → trim_start (k ++ s) ≡ k ++ s
unfolding starts_key trim_start
trim_start-starts_key [] s h = cc
trim_start-starts_key (c ∷ k) s h = ground arith

trim_start-blanks : (b s : Text) → all is_whitespace b ≡ true → trim_start (b ++ s) ≡ trim_start s
unfolding trim_start
trim_start-blanks [] s h = refl
trim_start-blanks (c ∷ b) s h =
    rw (all-head is_whitespace c b h) (trim_start-blanks b s (all-tail is_whitespace c b h))

blanks-starts_key : (k s : Text) → starts_key k ≡ true → blanks (k ++ s) ≡ []
unfolding starts_key blanks
blanks-starts_key [] s h = cc
blanks-starts_key (c ∷ k) s h = ground arith

blanks-append :
    (b k s : Text) → all is_whitespace b ≡ true → starts_key k ≡ true → blanks (b ++ (k ++ s)) ≡ b
unfolding blanks
blanks-append [] k s h g = blanks-starts_key k s g
blanks-append (c ∷ b) k s h g =
    rw (all-head is_whitespace c b h, blanks-append b k s (all-tail is_whitespace c b h) g)

keep_unless_blank-equals : (t : Text) → keep_unless_blank b'=' t ≡ b'=' ∷ t
unfolding keep_unless_blank is_whitespace
keep_unless_blank-equals [] = refl
keep_unless_blank-equals (c ∷ t) = refl

keep_unless_blank-before :
    (c : ℕ) (s t : Text) → keep_unless_blank c (s ++ b'=' ∷ t) ≡ c ∷ s ++ b'=' ∷ t
unfolding keep_unless_blank
keep_unless_blank-before c [] t = refl
keep_unless_blank-before c (d ∷ s) t = refl

trim_end-equals : (s t : Text) → trim_end (s ++ b'=' ∷ t) ≡ s ++ b'=' ∷ trim_end t
unfolding trim_end
trim_end-equals [] t = keep_unless_blank-equals (trim_end t)
trim_end-equals (c ∷ s) t = rw (trim_end-equals s t) (keep_unless_blank-before c s (trim_end t))

trim_start-key : (k : Text) → starts_key k ≡ true → trim_start k ≡ k
unfolding starts_key trim_start
trim_start-key [] h = cc
trim_start-key (c ∷ k) h = ground arith

not_skipped : (k s : Text) → starts_key k ≡ true → is_skipped (k ++ s) ≡ false
unfolding starts_key is_skipped
not_skipped [] s h = cc
not_skipped (c ∷ k) s h = ground arith

split_once-equals : (k s : Text) → all no_equals k ≡ true → split_once (k ++ b'=' ∷ s) ≡ some (k, s)
unfolding split_once
split_once-equals [] s h = refl
split_once-equals (c ∷ k) s h =
    let here : (c == b'=') ≡ false = ground (arith, all-head no_equals c k h) in
    rw (here, split_once-equals k s (all-tail no_equals c k h))

trim-key : (k : Text) → IsKey k → trim k ≡ k
unfolding trim
trim-key k h = ap trim_end (trim_start-key k h.starts) ∙ h.ends

trim-value : (v : Text) → IsValue v → trim v ≡ v
unfolding trim
trim-value v h = ap trim_end h.starts ∙ h.ends

trim-format_line :
    (indent key value : Text)
    → all is_whitespace indent ≡ true
    → IsKey key
    → IsValue value
    → trim (trim_start (format_line indent key value)) ≡ key ++ b'=' ∷ value
unfolding trim
trim-format_line indent key value blank k v =
    let line : Text = key ++ b'=' ∷ value in
    let front : trim_start line ≡ line = trim_start-starts_key key (b'=' ∷ value) k.starts in
    let inner : trim_start (format_line indent key value) ≡ line =
      trim_start-blanks indent line blank ∙ front in
    ap (λ s. trim_end (trim_start s)) inner
    ∙ ap trim_end front
    ∙ trim_end-equals key value
    ∙ ap (λ w. key ++ b'=' ∷ w) v.ends

pub pair_of-format_line :
    (indent key value : Text)
    → all is_whitespace indent ≡ true
    → IsKey key
    → IsValue value
    → pair_of (format_line indent key value)
      ≡ some (record { lhs = key; rhs = value; indent = indent })
unfolding pair_of read_pair
pair_of-format_line indent key value blank k v = rw (
  blanks-append indent key (b'=' ∷ value) blank k.starts,
  trim-format_line indent key value blank k v,
  not_skipped key (b'=' ∷ value) k.starts,
  split_once-equals key value k.apart,
  trim-key key k,
  trim-value value v,
)
