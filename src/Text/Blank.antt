-- ===== src/Text/Blank.antt =====
-- Texts that `trim` leaves nothing of.
use rlstatsapi.Prelude.{
  ◌≡◌, refl, ◌⊎◌, inl, inr, true, false, false≢true, [], ◌∷◌, ℕ, All, Bool-cases, is_empty, sym,
  ◌∙◌,
}
use rlstatsapi.Text.{Text, is_whitespace, trim, trim_start, trim_end, keep_unless_blank}

-- Every character is white space.
abbrev pub IsBlank : Text → Type 0
IsBlank s = All (λ c. is_whitespace c ≡ true) s

-- What is kept at the start begins with no white space.
trim_start_cases :
    (s : Text)
    → (IsBlank s × (trim_start s ≡ []))
      ⊎ (¬ IsBlank s × ((c : ℕ) × (t : Text) × (trim_start s ≡ c ∷ t) × (is_whitespace c ≡ false)))
unfolding trim_start
trim_start_cases [] = inl (tt, refl)
trim_start_cases (c ∷ s) = elim (Bool-cases (is_whitespace c)) [
  | inl white ↦ elim (trim_start_cases s) [
    | inl (blank, e) ↦ inl ((white, blank), rw white e)
    | inr (other, (d, t, e, dark)) ↦ inr ((λ h. other h.1), (d, t, rw white e, dark))
  ]
  | inr dark ↦ inr ((λ h. false≢true (sym dark ∙ h.0)), (c, s, rw dark refl, dark))
]

keep_unless_blank-nonempty :
    (c : ℕ) (s : Text) → is_whitespace c ≡ false → is_empty (keep_unless_blank c s) ≡ false
unfolding keep_unless_blank
keep_unless_blank-nonempty c [] dark = rw dark refl
keep_unless_blank-nonempty c (d ∷ s) dark = refl

-- `trim` leaves nothing of the blank texts, and something of every other.
pub trim_cases :
    (s : Text)
    → (IsBlank s × (is_empty (trim s) ≡ true)) ⊎ (¬ IsBlank s × (is_empty (trim s) ≡ false))
unfolding trim trim_end
trim_cases s = elim (trim_start_cases s) [
  | inl (blank, e) ↦ inl (blank, rw e refl)
  | inr (other, (c, t, e, dark)) ↦
      inr (other, rw e (keep_unless_blank-nonempty c (trim_end t) dark))
]
