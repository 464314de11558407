-- ===== src/Text/Equal.antt =====
-- Equality up to the case of ASCII letters: an equivalence.
use rlstatsapi.Prelude.{◌≡◌, refl, sym, ◌∙◌, Bool, true, ◌&&◌, [], ◌∷◌, ◌==◌, arith, ℕ}
use rlstatsapi.Text.{Text, eq_ignore_ascii_case, to_ascii_lowercase}

==-self : (a : ℕ) → (a == a) ≡ true
==-self a = ground arith

==-swap : (a b : ℕ) → (a == b) ≡ (b == a)
==-swap a b = ground arith

both_true : (a b : Bool) → (a && b) ≡ true → (a ≡ true) × (b ≡ true)
both_true a b h = ground arith

==-trade : (a b c : ℕ) → (a == b) ≡ true → (a == c) ≡ (b == c)
==-trade a b c h = ground arith

pub same_text_refl : (s : Text) → eq_ignore_ascii_case s s ≡ true
unfolding eq_ignore_ascii_case
same_text_refl [] = refl
same_text_refl (c ∷ s) = rw (==-self (to_ascii_lowercase c), same_text_refl s)

pub same_text_swap : (s t : Text) → eq_ignore_ascii_case s t ≡ eq_ignore_ascii_case t s
unfolding eq_ignore_ascii_case
same_text_swap [] [] = refl
same_text_swap [] (d ∷ t) = refl
same_text_swap (c ∷ s) [] = refl
same_text_swap (c ∷ s) (d ∷ t) =
    rw (==-swap (to_ascii_lowercase c) (to_ascii_lowercase d), same_text_swap s t)

-- A text may be replaced by one that is the same.
pub same_text_trade :
    (s t u : Text)
    → eq_ignore_ascii_case s t ≡ true
    → eq_ignore_ascii_case s u ≡ eq_ignore_ascii_case t u
unfolding eq_ignore_ascii_case
same_text_trade [] [] u h = refl
same_text_trade [] (d ∷ t) u h = cc
same_text_trade (c ∷ s) [] u h = cc
same_text_trade (c ∷ s) (d ∷ t) [] h = refl
same_text_trade (c ∷ s) (d ∷ t) (e ∷ u) h =
    let (here, later) =
      both_true (to_ascii_lowercase c == to_ascii_lowercase d) (eq_ignore_ascii_case s t) h in
    rw (
      ==-trade (to_ascii_lowercase c) (to_ascii_lowercase d) (to_ascii_lowercase e) here,
      same_text_trade s t u later,
    )

pub same_text_trade_right :
    (a k q : Text)
    → eq_ignore_ascii_case k q ≡ true
    → eq_ignore_ascii_case a q ≡ eq_ignore_ascii_case a k
same_text_trade_right a k q h =
    same_text_swap a q ∙ sym (same_text_trade k q a h) ∙ same_text_swap k a
