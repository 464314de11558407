-- ===== src/Events/Meanings.antt =====
-- What a value of JSON means as a double, as an integer and as a flag, apart from how
-- `value_as_f64`, `value_as_i64` and `value_as_bool` look for it.
use rlstatsapi.Prelude.{
  String, ◌≡◌, ◌≢◌, ◌↔◌, ◌⊎◌, inl, inr, refl, sym, ◌∙◌, ℤ, pos, Bool, true, false, false≢true, not,
  Option, none, some, none-ne-some, List, [], ◌∷◌, map, map_some, or_else, any, any_iff, AnyOf,
  Bool-cases, eqb_ℤ, eqb_ℤ_iff,
}
use rlstatsapi.Float.{F64, FloatText, of_i64, trunc_i64}
use rlstatsapi.Text.{Text, codes, trim, to_ascii_lowercase, eq_text, parse_i64}
use rlstatsapi.Text.Case.{eq_text_iff}
use rlstatsapi.Json.{Value, bool, number, string, JsonLib}
use rlstatsapi.Events.Effective.{
  value_as_f64, value_as_i64, value_as_bool, normalized, true_texts, false_texts, is_one_of,
  bool_of_normalized,
}

-- The first value, or what is made of the second where there is no first.
abbrev pub Otherwise : {A B : Type 0} → Option A → Option B → (B → A) → A → Type 0
Otherwise {A} {B} first second make a =
    (first ≡ some a) ⊎ ((first ≡ none) × ((b : B) × (second ≡ some b) × (a ≡ make b)))

-- The text, without the white space around it and in lower case, is one of the words.
abbrev pub Spells : List String → Text → Type 0
Spells words s = AnyOf (λ word. map to_ascii_lowercase (trim s) ≡ codes word) words

module _ {N : Type 0} ⦃lib : JsonLib N⦄ ⦃floats : FloatText⦄ where
  abbrev pub MeansF64 : Value N → F64 → Type 0
  MeansF64 (number n) x = Otherwise (lib.as_f64 n) (lib.as_i64 n) of_i64 x
  MeansF64 (string s) x = floats.parse_f64 (codes s) ≡ some x
  MeansF64 _ x = ⊥

  abbrev pub MeansI64 : Value N → ℤ → Type 0
  MeansI64 (number n) z = Otherwise (lib.as_i64 n) (lib.as_f64 n) trunc_i64 z
  MeansI64 (string s) z = Otherwise (parse_i64 (codes s)) (floats.parse_f64 (codes s)) trunc_i64 z
  MeansI64 _ z = ⊥

module _ {N : Type 0} ⦃lib : JsonLib N⦄ where
  abbrev pub MeansBool : Value N → Bool → Type 0
  MeansBool (bool b) c = c ≡ b
  MeansBool (number n) c =
      (z : ℤ) × (lib.as_i64 n ≡ some z) × (((c ≡ true) × (z ≢ pos 0)) ⊎ ((c ≡ false) × (z ≡ pos 0)))
  MeansBool (string s) c =
      ((c ≡ true) × Spells ("true" ∷ "1" ∷ "yes" ∷ "y" ∷ "on" ∷ []) (codes s))
      ⊎ ((c ≡ false) × Spells ("false" ∷ "0" ∷ "no" ∷ "n" ∷ "off" ∷ []) (codes s))
  MeansBool _ c = ⊥

-- An optional result is one that the relation has, or the relation has none.
abbrev pub Settles : {A : Type 0} → (A → Type 0) → Option A → Type 0
Settles {A} R (some a) = R a
Settles {A} R none = (a : A) → ¬ R a

Otherwise-Settles :
    {A B : Type 0} (first : Option A) (second : Option B) (make : B → A)
    → Settles (Otherwise first second make) (or_else first (map_some make second))
Otherwise-Settles (some a) second make = inl refl
Otherwise-Settles none (some b) make = inr (refl, (b, refl, refl))
Otherwise-Settles none none make =
    λ a h. elim h [ inl e ↦ none-ne-some a e | inr (e, (b, e', e'')) ↦ none-ne-some b e' ]

present-Settles : {A : Type 0} (o : Option A) → Settles (λ a. o ≡ some a) o
present-Settles (some a) = refl
present-Settles none = λ a e. none-ne-some a e

module _ {N : Type 0} ⦃lib : JsonLib N⦄ ⦃floats : FloatText⦄ where
  pub value_as_f64-MeansF64 : (v : Value N) → Settles (MeansF64 v) (value_as_f64 v)
  unfolding value_as_f64
  value_as_f64-MeansF64 (number n) = Otherwise-Settles (lib.as_f64 n) (lib.as_i64 n) of_i64
  value_as_f64-MeansF64 (string s) = present-Settles (floats.parse_f64 (codes s))
  value_as_f64-MeansF64 _ = λ a h. h

  pub value_as_i64-MeansI64 : (v : Value N) → Settles (MeansI64 v) (value_as_i64 v)
  unfolding value_as_i64
  value_as_i64-MeansI64 (number n) = Otherwise-Settles (lib.as_i64 n) (lib.as_f64 n) trunc_i64
  value_as_i64-MeansI64 (string s) =
      Otherwise-Settles (parse_i64 (codes s)) (floats.parse_f64 (codes s)) trunc_i64
  value_as_i64-MeansI64 _ = λ a h. h

is_one_of_iff :
    (words : List String) (s : Text)
    → (any (λ w. eq_text s (codes w)) words ≡ true) ↔ AnyOf (λ w. s ≡ codes w) words
is_one_of_iff words s =
    any_iff (λ w. eq_text s (codes w)) (λ w. s ≡ codes w) (λ w. eq_text_iff s (codes w)) words

bool_of_normalized-Settles :
    (s : Text)
    → Settles
        (λ c.
          ((c ≡ true) × AnyOf (λ w. s ≡ codes w) ("true" ∷ "1" ∷ "yes" ∷ "y" ∷ "on" ∷ []))
          ⊎ ((c ≡ false) × AnyOf (λ w. s ≡ codes w) ("false" ∷ "0" ∷ "no" ∷ "n" ∷ "off" ∷ [])))
        (bool_of_normalized s)
bool_of_normalized-Settles s = elim (Bool-cases (is_one_of true_texts s)) [
  | inl affirmed ↦ rw affirmed (inl (refl, (is_one_of_iff true_texts s).0 affirmed))
  | inr other ↦ elim (Bool-cases (is_one_of false_texts s)) [
    | inl denied ↦ rw (other, denied) (inr (refl, (is_one_of_iff false_texts s).0 denied))
    | inr neither ↦
        rw (other, neither)
          (λ c h. elim h [
            | inl (e, spelt) ↦ false≢true (sym other ∙ (is_one_of_iff true_texts s).1 spelt)
            | inr (e, spelt) ↦ false≢true (sym neither ∙ (is_one_of_iff false_texts s).1 spelt)
          ])
  ]
]

integer-Settles :
    (o : Option ℤ)
    → Settles
        (λ c. (z : ℤ) × (o ≡ some z) × (((c ≡ true) × (z ≢ pos 0)) ⊎ ((c ≡ false) × (z ≡ pos 0))))
        (map_some (λ v. not (eqb_ℤ v (pos 0))) o)
integer-Settles none = λ c h. none-ne-some h.0 h.1
integer-Settles (some z) = elim (Bool-cases (eqb_ℤ z (pos 0))) [
  | inl zero ↦ (z, refl, inr (rw zero refl, (eqb_ℤ_iff z (pos 0)).0 zero))
  | inr other ↦
      (z, refl, inl (rw other refl, λ e. false≢true (sym other ∙ (eqb_ℤ_iff z (pos 0)).1 e)))
]

module _ {N : Type 0} ⦃lib : JsonLib N⦄ where
  pub value_as_bool-MeansBool : (v : Value N) → Settles (MeansBool v) (value_as_bool v)
  unfolding value_as_bool normalized
  value_as_bool-MeansBool (bool b) = refl
  value_as_bool-MeansBool (number n) = integer-Settles (lib.as_i64 n)
  value_as_bool-MeansBool (string s) =
      bool_of_normalized-Settles (map to_ascii_lowercase (trim (codes s)))
  value_as_bool-MeansBool _ = λ c h. h
