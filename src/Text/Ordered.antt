-- ===== src/Text/Ordered.antt =====
-- The order of strings, which is that of their bytes and so of their code points, and the sorted
-- list of a set of them.
use rlstatsapi.Prelude.{
  ◌≡◌, refl, inl, inr, Bool, true, false, ◌||◌, ◌&&◌, List, [], ◌∷◌, All, any, ltb, ◌==◌,
  Bool-cases, is_empty, if◌then◌else◌, arith,
}
use rlstatsapi.Text.{Text, eq_text}
use rlstatsapi.Text.Case.{eq_text_iff}

-- `a < b`
unfoldable pub ltb_text : Text → Text → Bool
ltb_text s [] = false
ltb_text [] (b ∷ t) = true
ltb_text (a ∷ s) (b ∷ t) = ltb a b || (a == b && ltb_text s t)

unfoldable pub insert_text : Text → List Text → List Text
insert_text s [] = s ∷ []
insert_text s (t ∷ more) =
    let rest = insert_text s more in
    if eq_text s t then t ∷ more else if ltb_text s t then s ∷ t ∷ more else t ∷ rest

-- A set of strings, collected and sorted.
unfoldable pub sorted_set : List Text → List Text
unfolding insert_text
sorted_set [] = []
sorted_set (s ∷ more) = insert_text s (sorted_set more)

-- Every text is before those behind it, so that none stands twice.
abbrev pub Increasing : List Text → Type 0
Increasing [] = Unit
Increasing (s ∷ more) = All (λ t. ltb_text s t ≡ true) more × Increasing more

ltb_text_trans : (r s t : Text) → ltb_text r s ≡ true → ltb_text s t ≡ true → ltb_text r t ≡ true
unfolding ltb_text
ltb_text_trans r s [] h k = k
ltb_text_trans [] s (c ∷ t) h k = refl
ltb_text_trans (a ∷ r) [] (c ∷ t) h k = cc
ltb_text_trans (a ∷ r) (b ∷ s) (c ∷ t) h k = ground (arith, ltb_text_trans r s t)

ltb_text_total : (s t : Text) → eq_text s t ≡ false → ltb_text s t ≡ false → ltb_text t s ≡ true
unfolding ltb_text eq_text
ltb_text_total [] [] h k = cc
ltb_text_total [] (b ∷ t) h k = cc
ltb_text_total (a ∷ s) [] h k = refl
ltb_text_total (a ∷ s) (b ∷ t) h k = ground (arith, ltb_text_total s t)

pub insert_text-All :
    (P : Text → Type 0) (s : Text) (more : List Text)
    → P s
    → All P more
    → All P (insert_text s more)
unfolding insert_text
insert_text-All P s [] h k = (h, tt)
insert_text-All P s (t ∷ more) h k = elim (Bool-cases (eq_text s t)) [
  | inl same ↦ rw same k
  | inr other ↦ elim (Bool-cases (ltb_text s t)) [
    | inl before ↦ rw (other, before) (h, k)
    | inr behind ↦ rw (other, behind) (k.0, insert_text-All P s more h k.1)
  ]
]

All-trans :
    (s t : Text) (more : List Text)
    → ltb_text s t ≡ true
    → All (λ u. ltb_text t u ≡ true) more
    → All (λ u. ltb_text s u ≡ true) more
All-trans s t [] h k = tt
All-trans s t (u ∷ more) h k = (ltb_text_trans s t u h k.0, All-trans s t more h k.1)

insert_text-Increasing :
    (s : Text) (more : List Text) → Increasing more → Increasing (insert_text s more)
unfolding insert_text
insert_text-Increasing s [] h = (tt, tt)
insert_text-Increasing s (t ∷ more) h = elim (Bool-cases (eq_text s t)) [
  | inl same ↦ rw same h
  | inr other ↦ elim (Bool-cases (ltb_text s t)) [
    | inl before ↦ rw (other, before) ((before, All-trans s t more before h.0), h)
    | inr behind ↦
        rw (other, behind)
          (
            insert_text-All (λ u. ltb_text t u ≡ true) s more (ltb_text_total s t other behind) h.0,
            insert_text-Increasing s more h.1,
          )
  ]
]

any-insert_text :
    (f s : Text) (more : List Text)
    → any (eq_text f) (insert_text s more) ≡ (eq_text f s || any (eq_text f) more)
unfolding insert_text
any-insert_text f s [] = refl
any-insert_text f s (t ∷ more) = elim (Bool-cases (eq_text s t)) [
  | inl same ↦ rw (same, (eq_text_iff s t).0 same) (ground arith)
  | inr other ↦ elim (Bool-cases (ltb_text s t)) [
    | inl before ↦ rw (other, before) refl
    | inr behind ↦ rw (other, behind, any-insert_text f s more) (ground arith)
  ]
]

insert_text-nonempty : (s : Text) (more : List Text) → is_empty (insert_text s more) ≡ false
unfolding insert_text
insert_text-nonempty s [] = refl
insert_text-nonempty s (t ∷ more) = elim (Bool-cases (eq_text s t)) [
  | inl same ↦ rw same refl
  | inr other ↦ elim (Bool-cases (ltb_text s t)) [
    | inl before ↦ rw (other, before) refl
    | inr behind ↦ rw (other, behind) refl
  ]
]

pub sorted_set-Increasing : (texts : List Text) → Increasing (sorted_set texts)
unfolding sorted_set
sorted_set-Increasing [] = tt
sorted_set-Increasing (s ∷ more) =
    insert_text-Increasing s (sorted_set more) (sorted_set-Increasing more)

-- The sorted list has the same elements.
pub any-sorted_set :
    (f : Text) (texts : List Text) → any (eq_text f) (sorted_set texts) ≡ any (eq_text f) texts
unfolding sorted_set
any-sorted_set f [] = refl
any-sorted_set f (s ∷ more) = rw (any-insert_text f s (sorted_set more), any-sorted_set f more) refl

pub sorted_set-All :
    (P : Text → Type 0) (texts : List Text) → All P texts → All P (sorted_set texts)
unfolding sorted_set
sorted_set-All P [] h = tt
sorted_set-All P (s ∷ more) h =
    insert_text-All P s (sorted_set more) h.0 (sorted_set-All P more h.1)

pub is_empty-sorted_set : (texts : List Text) → is_empty (sorted_set texts) ≡ is_empty texts
unfolding sorted_set
is_empty-sorted_set [] = refl
is_empty-sorted_set (s ∷ more) = insert_text-nonempty s (sorted_set more)
