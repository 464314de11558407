-- ===== src/Commands/Camera.antt =====
-- The camera's perspectives and targets, written to the wire and read back.
use Prim.Native.Char.{code}
use text.Mathlib.TextEquality.{eq_iff}
use native.Mathlib.Nat.{pow-suc}
use text.Mathlib.Text.{◌==◌ as eq_str}
use rlstatsapi.Prelude.{
  ◌⊎◌, find_sound, ltb, ℕ, zero, suc, ◌+◌, ◌*◌, ◌/◌, ◌%◌, ◌^◌, ◌<◌, String, ◌≡◌, ◌↔◌, refl, ap, ◌∙◌,
  true, false, some, all, is_empty, [], ◌∷◌, arith, inl, inr, Bool-cases,
}
use rlstatsapi.Text.{Text, codes, is_ascii_digit, digits_value, parse_unsigned}
use rlstatsapi.Commands.Defs.{
  all_perspectives, fly, Perspective, perspective_name, perspective_from_name, PovFocus, ball,
  player, digit_char, show_onto, show_u32, to_wire, from_wire,
}

-- A name is read as a perspective exactly when it is that perspective's name.
pub perspective_from_name_iff :
    (name : String) (p : Perspective)
    → (perspective_from_name name ≡ some p) ↔ (perspective_name p ≡ name)
unfolding perspective_from_name
perspective_from_name_iff name p = (
  λ h. (eq_iff _ name).0 (find_sound (λ q. eq_str (perspective_name q) name) all_perspectives h),
  λ e. rw (← e) (found p),
)
  where
    found : (p : Perspective) → perspective_from_name (perspective_name p) ≡ some p
    found fly = refl
    found _ = refl

-- A shortcut is a `u32`.
abbrev pub InRange : PovFocus → Type 0
InRange ball = Unit
InRange (player shortcut) = shortcut < 2 ^ 32

code-digit_char : (d : ℕ) → d < 10 → code (digit_char d) ≡ 48 + d
unfolding digit_char
code-digit_char zero h = refl
code-digit_char (suc zero) h = refl
code-digit_char (suc (suc zero)) h = refl
code-digit_char (suc (suc (suc zero))) h = refl
code-digit_char (suc (suc (suc (suc zero)))) h = refl
code-digit_char (suc (suc (suc (suc (suc zero))))) h = refl
code-digit_char (suc (suc (suc (suc (suc (suc zero)))))) h = refl
code-digit_char (suc (suc (suc (suc (suc (suc (suc zero))))))) h = refl
code-digit_char (suc (suc (suc (suc (suc (suc (suc (suc zero)))))))) h = refl
code-digit_char (suc (suc (suc (suc (suc (suc (suc (suc (suc zero))))))))) h = refl
code-digit_char (suc (suc (suc (suc (suc (suc (suc (suc (suc (suc d)))))))))) h =
    absurd (omega arith)

digits_value-digit :
    (acc d : ℕ) (s : Text)
    → d < 10
    → digits_value acc ((48 + d) ∷ s) ≡ digits_value (acc * 10 + d) s
unfolding digits_value
digits_value-digit acc d s h = ground arith

quotient_fits : (f n : ℕ) → n < 10 ^ suc f → n / 10 < 10 ^ f
quotient_fits f n h = omega (arith, pow-suc 10 f)

-- The digits that are put before a text are read before it.
rounds_left : (f n : ℕ) → n < 10 ^ suc f → ltb n 10 ≡ false → 0 < f
rounds_left zero n h large = ground arith
rounds_left (suc f) n h large = omega arith

-- One digit more.
digits_value-digit_char :
    (acc n : ℕ) (after : String)
    → digits_value acc (codes (String.◌∷◌ (digit_char (n % 10)) after))
      ≡ digits_value (acc * 10 + n % 10) (codes after)
digits_value-digit_char acc n after =
    rw (code-digit_char (n % 10) (omega arith))
      (digits_value-digit acc (n % 10) (codes after) (omega arith))

digits_value-show_onto :
    (f n : ℕ) (after : String)
    → n < 10 ^ f
    → 0 < f
    → digits_value 0 (codes (show_onto f n after)) ≡ digits_value n (codes after)
unfolding show_onto
digits_value-show_onto zero n after h p = absurd (omega arith)
digits_value-show_onto (suc f) n after h p = elim (Bool-cases (ltb n 10)) [
  | inl small ↦
      rw small
        (digits_value-digit_char 0 n after ∙ ap (λ k. digits_value k (codes after)) (ground arith))
  | inr large ↦ rw large (
      digits_value-show_onto f (n / 10) _ (quotient_fits f n h) (rounds_left f n h large)
      ∙ digits_value-digit_char (n / 10) n after
      ∙ ap (λ k. digits_value k (codes after)) (ground arith))
]

is_ascii_digit-digit_char : (d : ℕ) → d < 10 → is_ascii_digit (code (digit_char d)) ≡ true
unfolding is_ascii_digit
is_ascii_digit-digit_char d h = rw (code-digit_char d h) (ground arith)

show_onto-digits :
    (f n : ℕ) (after : String)
    → all is_ascii_digit (codes after) ≡ true
    → all is_ascii_digit (codes (show_onto f n after)) ≡ true
unfolding show_onto
show_onto-digits zero n after h = h
show_onto-digits (suc f) n after h =
    let here : all is_ascii_digit (codes (String.◌∷◌ (digit_char (n % 10)) after)) ≡ true =
      rw (is_ascii_digit-digit_char (n % 10) (omega arith)) h in
    elim (Bool-cases (ltb n 10)) [
      | inl small ↦ rw small here
      | inr large ↦ rw large (show_onto-digits f (n / 10) _ here)
    ]

show_onto-ne-empty :
    (f n : ℕ) (after : String)
    → is_empty (codes after) ≡ false
    → is_empty (codes (show_onto f n after)) ≡ false
unfolding show_onto
show_onto-ne-empty zero n after h = h
show_onto-ne-empty (suc f) n after h = elim (Bool-cases (ltb n 10)) [
  | inl small ↦ rw small refl
  | inr large ↦ rw large (show_onto-ne-empty f (n / 10) _ refl)
]

-- At least one digit is written.
show_onto-ne-empty_suc : (f n : ℕ) → is_empty (codes (show_onto (suc f) n "")) ≡ false
unfolding show_onto
show_onto-ne-empty_suc f n = elim (Bool-cases (ltb n 10)) [
  | inl small ↦ rw small refl
  | inr large ↦ rw large (show_onto-ne-empty f (n / 10) _ refl)
]

pub parse_unsigned-lt : (bound n : ℕ) (s : Text) → parse_unsigned bound s ≡ some n → n < bound
unfolding parse_unsigned
parse_unsigned-lt bound n [] h = cc
parse_unsigned-lt bound n (c ∷ []) h = ground arith
parse_unsigned-lt bound n (c ∷ d ∷ s) h = ground arith

-- A text of digits has no sign before them.
parse_unsigned-digits :
    (bound n : ℕ) (s : Text)
    → all is_ascii_digit s ≡ true
    → is_empty s ≡ false
    → digits_value 0 s ≡ some n
    → n < bound
    → parse_unsigned bound s ≡ some n
unfolding parse_unsigned is_ascii_digit
parse_unsigned-digits bound n [] h e v lt = cc
parse_unsigned-digits bound n (c ∷ s) h e v lt = ground arith

from_wire-digits :
    (raw : String) (n : ℕ)
    → all is_ascii_digit (codes raw) ≡ true
    → is_empty (codes raw) ≡ false
    → digits_value 0 (codes raw) ≡ some n
    → n < 2 ^ 32
    → from_wire raw ≡ some (player n)
unfolding from_wire
from_wire-digits raw n h e v lt = elim (Bool-cases (eq_str raw "Ball")) [
  | inl same ↦
      let is_ball : raw ≡ "Ball" = (eq_iff raw "Ball").0 same in absurd (letters (rw is_ball at h))
  | inr other ↦ rw (other, e, h, parse_unsigned-digits (2 ^ 32) n (codes raw) h e v lt)
]
  where
    letters : all is_ascii_digit (codes "Ball") ≡ true → ⊥
    letters k = unfold is_ascii_digit in cc

from_wire-show_u32 : (n : ℕ) → n < 2 ^ 32 → from_wire (show_u32 n) ≡ some (player n)
unfolding show_u32
from_wire-show_u32 n h =
    from_wire-digits (show_onto 10 n "") n (show_onto-digits 10 n "" refl)
      (show_onto-ne-empty_suc 9 n)
      (digits_value-show_onto 10 n "" (omega arith) (omega arith) ∙ unfold digits_value in refl) h

-- A camera target is read back from its wire form; a shortcut is a `u32`.
pub from_wire-to_wire : (focus : PovFocus) → InRange focus → from_wire (to_wire focus) ≡ some focus
unfolding to_wire
from_wire-to_wire ball h = unfold from_wire in refl
from_wire-to_wire (player n) h = from_wire-show_u32 n h

-- Only "Ball" and texts of decimal digits are read as a target, and a shortcut is in range.
pub from_wire_sound :
    (raw : String) (focus : PovFocus)
    → from_wire raw ≡ some focus
    → InRange focus × ((raw ≡ "Ball") ⊎ (all is_ascii_digit (codes raw) ≡ true))
unfolding from_wire
from_wire_sound raw ball h = (tt, ground (arith, eq_iff raw "Ball"))
from_wire_sound raw (player n) h =
    (ground (arith, parse_unsigned-lt (2 ^ 32) n (codes raw)), ground (arith, eq_iff raw "Ball"))
