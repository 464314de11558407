-- ===== src/Float.antt =====
-- The Rust type `f64` and the operations on it that the program uses.
use rlstatsapi.Prelude.{
  List, Option, ℕ, zero, suc, ◌+◌, ◌-◌, ◌*◌, ◌/◌, ◌%◌, ◌^◌, Bool, true, false, ◌&&◌, ◌||◌, not, ltb,
  ◌==◌, if◌then◌else◌, ℤ, pos, negsuc, ltb_ℤ, eqb_ℤ, signed,
}

-- Every finite double is a whole number of units of 2^-1074, with a sign (there is a negative zero).
pub data F64 : Type 0 where
  nan : F64
  inf : (negative : Bool) → F64
  fin : (negative : Bool) → (units : ℕ) → F64

-- 1.0 in units of 2^-1074
unfoldable pub one_units : ℕ
one_units = 2 ^ 1074

-- `f64::EPSILON`, 2^-52, in the same units
unfoldable pub epsilon_units : ℕ
epsilon_units = 2 ^ 1022

abbrev pub zero_f64 : F64
zero_f64 = fin false 0

unfoldable pub of_ℕ : ℕ → F64
unfolding one_units
of_ℕ n = fin false (n * one_units)

unfoldable pub is_finite : F64 → Bool
is_finite nan = false
is_finite (inf s) = false
is_finite (fin s u) = true

-- `a < b`: false where one of them is not a number
unfoldable pub lt_f64 : F64 → F64 → Bool
lt_f64 nan b = false
lt_f64 (inf s) nan = false
lt_f64 (inf s) (inf t) = if s then not t else false
lt_f64 (inf s) (fin t v) = s
lt_f64 (fin s u) nan = false
lt_f64 (fin s u) (inf true) = false
lt_f64 (fin s u) (inf false) = true
lt_f64 (fin s u) (fin t v) = ltb_ℤ (signed s u) (signed t v)

-- `a == b`
unfoldable pub eq_f64 : F64 → F64 → Bool
eq_f64 (inf true) (inf true) = true
eq_f64 (inf false) (inf false) = true
eq_f64 (fin s u) (fin t v) = eqb_ℤ (signed s u) (signed t v)
eq_f64 _ _ = false

-- `a <= b`
unfoldable pub le_f64 : F64 → F64 → Bool
unfolding lt_f64 eq_f64
le_f64 a b = lt_f64 a b || eq_f64 a b

unfoldable pub abs : F64 → F64
abs nan = nan
abs (inf s) = inf false
abs (fin s u) = fin false u

-- `a.clamp(lo, hi)`: not a number stays so
unfoldable pub clamp : F64 → F64 → F64 → F64
unfolding lt_f64
clamp a lo hi = if lt_f64 a lo then lo else if lt_f64 hi a then hi else a

-- `as i64` on a whole number: it saturates
unfoldable pub saturate : ℤ → ℤ
saturate (pos n) = if ltb n (2 ^ 63) then pos n else pos (2 ^ 63 - 1)
saturate (negsuc n) = if ltb n (2 ^ 63) then negsuc n else negsuc (2 ^ 63 - 1)

-- The largest and the least `i64` for the infinities, and 0 for what is not a number.
abbrev cast_with : (ℕ → ℕ) → F64 → ℤ
cast_with whole nan = pos 0
cast_with whole (inf true) = negsuc (2 ^ 63 - 1)
cast_with whole (inf false) = pos (2 ^ 63 - 1)
cast_with whole (fin s u) = saturate (signed s (whole u))

-- `a.trunc() as i64`
unfoldable pub trunc_i64 : F64 → ℤ
unfolding one_units saturate
trunc_i64 = cast_with (λ u. u / one_units)

-- `a.round() as i64`: halves go away from zero
unfoldable pub round_i64 : F64 → ℤ
unfolding one_units saturate
round_i64 = cast_with (λ u. (u + one_units / 2) / one_units)

-- How often a magnitude is halved before it fits the 53 bits of a double.
excess : ℕ → ℕ → ℕ
excess zero n = 0
excess (suc fuel) n = let more = suc (excess fuel (n / 2)) in if ltb n (2 ^ 53) then 0 else more

-- To the nearest multiple of 2^k, halves to the even one.
round_even : ℕ → ℕ → ℕ
round_even k n =
    let q = n / 2 ^ k in
    let twice = 2 * (n % 2 ^ k) in
    if ltb (2 ^ k) twice || (twice == 2 ^ k && q % 2 == 1) then (q + 1) * 2 ^ k else q * 2 ^ k

-- `n as f64` for a magnitude below 2^64, which is halved at most 11 times.
unfoldable pub nearest : ℕ → ℕ
unfolding excess round_even
nearest n = round_even (excess 12 n) n

-- `z as f64` for an `i64`
unfoldable pub of_i64 : ℤ → F64
unfolding one_units nearest
of_i64 (pos n) = fin false (nearest n * one_units)
of_i64 (negsuc n) = fin true (nearest (suc n) * one_units)

-- Reading and printing doubles, by the standard library: `parse::<f64>()`, `parse::<f32>()` and
-- `format!("{:.3}")`, on code points.
pub record FloatText : Type 0 where
  pub parse_f64 : List ℕ → Option F64
  pub parse_f32 : List ℕ → Option F64
  pub format_3 : F64 → List ℕ
