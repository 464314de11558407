-- ===== src/Text/Case.antt =====
-- Comparing texts without regard to the case of ASCII letters.
use rlstatsapi.Prelude.{same_test, ◌≡◌, ◌↔◌, sym, ◌∙◌, true, [], ◌∷◌, map, arith}
use rlstatsapi.Text.{Text, to_ascii_lowercase, eq_ignore_ascii_case, eq_text}

pub eq_text_iff : (s t : Text) → (eq_text s t ≡ true) ↔ (s ≡ t)
unfolding eq_text
eq_text_iff [] [] = ground arith
eq_text_iff [] (b ∷ t) = ground arith
eq_text_iff (a ∷ s) [] = ground arith
eq_text_iff (a ∷ s) (b ∷ t) = ground (arith, eq_text_iff s t)

-- Two texts compare as equal exactly when they are equal in lower case.
pub eq_ignore_ascii_case_iff :
    (s t : Text)
    → (eq_ignore_ascii_case s t ≡ true) ↔ (map to_ascii_lowercase s ≡ map to_ascii_lowercase t)
unfolding eq_ignore_ascii_case
eq_ignore_ascii_case_iff [] [] = ground arith
eq_ignore_ascii_case_iff [] (b ∷ t) = ground arith
eq_ignore_ascii_case_iff (a ∷ s) [] = ground arith
eq_ignore_ascii_case_iff (a ∷ s) (b ∷ t) = ground (arith, eq_ignore_ascii_case_iff s t)

-- So the comparison with one of two such texts is the comparison with the other.
pub eq_ignore_ascii_case_cong :
    (r s t : Text)
    → eq_ignore_ascii_case s t ≡ true
    → eq_ignore_ascii_case r s ≡ eq_ignore_ascii_case r t
eq_ignore_ascii_case_cong r s t h =
    let lower : map to_ascii_lowercase s ≡ map to_ascii_lowercase t =
      (eq_ignore_ascii_case_iff s t).0 h in
    same_test (eq_ignore_ascii_case r s) (eq_ignore_ascii_case r t)
      (λ p. (eq_ignore_ascii_case_iff r t).1 ((eq_ignore_ascii_case_iff r s).0 p ∙ lower))
      (λ p. (eq_ignore_ascii_case_iff r s).1 ((eq_ignore_ascii_case_iff r t).0 p ∙ sym lower))
