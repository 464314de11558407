-- ===== src/Config/Plain.antt =====
-- Plain lines, whose characters are ASCII and no line breaks: there the reading of a key cannot panic.
use rlstatsapi.Prelude.{
  ◌≡◌, refl, inl, inr, Bool-cases, ℕ, suc, ◌-◌, Bool, true, false, not, ◌&&◌, Option, some,
  map_some, [], ◌∷◌, ◌++◌, all, ltb, leb, ◌==◌, if◌then◌else◌, arith,
}
use rlstatsapi.Text.{Text, is_whitespace, trim, trim_start}
use rlstatsapi.Config.Ini.{
  utf8_len, cons_left, split_bytes, leading_blanks, read_pair, KeyValue, split_key_value,
}

unfoldable pub is_plain : ℕ → Bool
is_plain c = ltb c 0x80 && not (c == b'\n') && not (c == b'\r')

abbrev pub plain : Text → Bool
plain s = all is_plain s

pub plain-one_byte : (c : ℕ) → is_plain c ≡ true → utf8_len c ≡ 1
unfolding is_plain utf8_len
plain-one_byte c h = ground arith

pub all-head : (p : ℕ → Bool) (c : ℕ) (s : Text) → all p (c ∷ s) ≡ true → p c ≡ true
all-head p c s h = ground arith

pub all-tail : (p : ℕ → Bool) (c : ℕ) (s : Text) → all p (c ∷ s) ≡ true → all p s ≡ true
all-tail p c s h = ground arith

pub all-append :
    (p : ℕ → Bool) (s t : Text) → all p s ≡ true → all p t ≡ true → all p (s ++ t) ≡ true
all-append p [] t hs ht = ht
all-append p (c ∷ s) t hs ht = rw (all-head p c s hs, all-append p s t (all-tail p c s hs) ht)

-- the white space before a text
unfoldable pub blanks : Text → Text
blanks [] = []
blanks (c ∷ s) = if is_whitespace c then c ∷ blanks s else []

pub all-blanks : (p : ℕ → Bool) (s : Text) → all p s ≡ true → all p (blanks s) ≡ true
unfolding blanks
all-blanks p [] h = refl
all-blanks p (c ∷ s) h = elim (Bool-cases (is_whitespace c)) [
  | inl blank ↦ rw (blank, all-head p c s h, all-blanks p s (all-tail p c s h))
  | inr other ↦ rw other
]

pub all-blanks-is_whitespace : (s : Text) → all is_whitespace (blanks s) ≡ true
unfolding blanks
all-blanks-is_whitespace [] = refl
all-blanks-is_whitespace (c ∷ s) = elim (Bool-cases (is_whitespace c)) [
  | inl blank ↦ rw (blank, blank, all-blanks-is_whitespace s)
  | inr other ↦ rw other
]

split_bytes-one_byte :
    (c n : ℕ) (s : Text)
    → utf8_len c ≡ 1
    → split_bytes (suc n) (c ∷ s) ≡ map_some (cons_left c) (split_bytes n s)
unfolding split_bytes
split_bytes-one_byte c n s h =
    let some_left : (suc n == 0) ≡ false = ground arith in
    let fits : leb 1 (suc n) ≡ true = ground arith in
    let left : suc n - 1 ≡ n = omega arith in rw (h, some_left, fits, left)

split_bytes-zero : (s : Text) → split_bytes 0 s ≡ some ([], s)
unfolding split_bytes
split_bytes-zero [] = refl
split_bytes-zero (c ∷ s) = refl

pub split-leading_blanks :
    (s : Text) → plain s ≡ true → split_bytes (leading_blanks s) s ≡ some (blanks s, trim_start s)
unfolding leading_blanks blanks trim_start
split-leading_blanks [] h = split_bytes-zero []
split-leading_blanks (c ∷ s) h = elim (Bool-cases (is_whitespace c)) [
  | inl blank ↦ rw (
    blank,
    split_bytes-one_byte c (leading_blanks s) s (plain-one_byte c (all-head is_plain c s h)),
    split-leading_blanks s (all-tail is_plain c s h),
  )
  | inr other ↦ rw other (split_bytes-zero (c ∷ s))
]

-- What a plain line says.
unfoldable pub pair_of : Text → Option KeyValue
pair_of line = read_pair (blanks line) (trim (trim_start line))

pub split_key_value-plain :
    (line : Text) → plain line ≡ true → split_key_value line ≡ some (pair_of line)
unfolding split_key_value pair_of
split_key_value-plain line h = rw (split-leading_blanks line h)
