-- ===== src/Filters/Selecting.antt =====
-- Which events a filter lets through.
use text.Mathlib.Text.{◌==◌}
use text.Mathlib.TextEquality.{eq_iff}
use rlstatsapi.Prelude.{
  String, ◌≡◌, ◌↔◌, ◌⊎◌, refl, ◌∙◌, Bool, true, false, not, ◌&&◌, ◌||◌, Option, none, some, List,
  [], ◌∷◌, is_empty, AnyOf, any_iff, is_some_and, arith, inl, inr, Bool-cases, if◌then◌else◌,
}
use rlstatsapi.Text.{codes, eq_ignore_ascii_case}
use rlstatsapi.Events.Data.{StatsEvent}
use rlstatsapi.Filters.Kind.{EventKind, kind_of, eq_kind, eq_kind_iff}
use rlstatsapi.Filters.Matching.{
  EventFilter, contains, insert_kind, extend_kinds, include_kinds, with_player_name, fails,
  event_match_guid, event_has_team, event_has_player_name, event_has_player_primary_id, matches,
}
use rlstatsapi.Filters.Cast.{
  teams_of, names_of, ids_of, IsCalled, has_team_iff, has_name_iff, has_id_iff,
  event_has_player_name_cong,
}

-- Nothing is asked, or the given value is met.
abbrev pub Asks : {A : Type 0} → Option A → (A → Type 0) → Type 0
Asks none P = Unit
Asks (some a) P = P a

-- What the fields of a filter ask of an event.
pub record Accepts {N : Type 0} (f : EventFilter) (e : StatsEvent N) : Type 0 where
  pub kind : (f.kinds ≡ []) ⊎ AnyOf (λ k. kind_of e ≡ k) f.kinds
  pub guid : Asks f.match_guid (λ g. event_match_guid e ≡ some g)
  pub team : Asks f.team_num (λ t. AnyOf (λ o. o ≡ some t) (teams_of e))
  pub name : Asks f.player_name (λ n. AnyOf (IsCalled n) (names_of e))
  pub id : Asks f.player_primary_id (λ i. AnyOf (λ o. o ≡ some i) (ids_of e))

fails_iff :
    {A : Type 0} (o : Option A) (test : A → Bool) (P : A → Type 0)
    → ((a : A) → (test a ≡ true) ↔ P a)
    → (fails o test ≡ false) ↔ Asks o P
fails_iff none test P h = ((λ e. tt), λ u. refl)
fails_iff (some a) test P h = ((λ e. (h a).0 (ground arith)), λ p. ground (arith, (h a).1 p))

pub contains_iff :
    (ks : List EventKind) (k : EventKind) → (contains ks k ≡ true) ↔ AnyOf (λ j. k ≡ j) ks
unfolding contains
contains_iff ks k = any_iff (eq_kind k) (λ j. k ≡ j) (eq_kind_iff k) ks

kind_iff :
    (ks : List EventKind) (k : EventKind)
    → ((not (is_empty ks) && not (contains ks k)) ≡ false) ↔ ((ks ≡ []) ⊎ AnyOf (λ j. k ≡ j) ks)
kind_iff [] k = ((λ e. inl refl), λ h. refl)
kind_iff (j ∷ ks) k = (
  (λ h. inr ((contains_iff (j ∷ ks) k).0 (ground arith))),
  λ s. elim s [
    | inl bad ↦ cc
    | inr m ↦ let met : contains (j ∷ ks) k ≡ true = (contains_iff (j ∷ ks) k).1 m in ground arith
  ],
)

guid_iff :
    (o : Option String) (g : String) → (is_some_and (λ guid. guid == g) o ≡ true) ↔ (o ≡ some g)
guid_iff none g = ground arith
guid_iff (some x) g = ground (arith, eq_iff x g)

-- Five tests, each of which may refuse.
passes_iff :
    (a b c d x : Bool)
    → ((if a
          then false
          else if b
          then false
          else if c
          then false
          else if d
          then false
          else if x
          then false
          else true)
        ≡ true)
      ↔ ((a ≡ false) × (b ≡ false) × (c ≡ false) × (d ≡ false) × (x ≡ false))
passes_iff a b c d x = ground arith

module _ {N : Type 0} (f : EventFilter) (e : StatsEvent N) where
  kind_test :
      ((not (is_empty f.kinds) && not (contains f.kinds (kind_of e))) ≡ false)
      ↔ ((f.kinds ≡ []) ⊎ AnyOf (λ k. kind_of e ≡ k) f.kinds)
  kind_test = kind_iff f.kinds (kind_of e)

  guid_test :
      (fails f.match_guid (λ g. is_some_and (λ guid. guid == g) (event_match_guid e)) ≡ false)
      ↔ Asks f.match_guid (λ g. event_match_guid e ≡ some g)
  guid_test = fails_iff f.match_guid _ _ (guid_iff (event_match_guid e))

  team_test :
      (fails f.team_num (event_has_team e) ≡ false)
      ↔ Asks f.team_num (λ t. AnyOf (λ o. o ≡ some t) (teams_of e))
  team_test = fails_iff f.team_num _ _ (has_team_iff e)

  name_test :
      (fails f.player_name (event_has_player_name e) ≡ false)
      ↔ Asks f.player_name (λ n. AnyOf (IsCalled n) (names_of e))
  name_test = fails_iff f.player_name _ _ (has_name_iff e)

  id_test :
      (fails f.player_primary_id (event_has_player_primary_id e) ≡ false)
      ↔ Asks f.player_primary_id (λ i. AnyOf (λ o. o ≡ some i) (ids_of e))
  id_test = fails_iff f.player_primary_id _ _ (has_id_iff e)

  -- An event passes a filter exactly when it is of one of the kinds, if there are any, and has the
  -- match, a team, a player's name up to the case of letters, and a player's identifier that are
  -- asked for, each where one is.
  pub matches_iff : (matches f e ≡ true) ↔ Accepts f e
  unfolding matches
  matches_iff =
      let passes : (matches f e ≡ true) ↔ _ = passes_iff _ _ _ _ _ in
      (
        (λ h.
            let (k, g, t, n, i) = passes.0 h in
            record {
              kind = kind_test.0 k;
              guid = guid_test.0 g;
              team = team_test.0 t;
              name = name_test.0 n;
              id = id_test.0 i;
            }),
        λ a. passes.1 (
          kind_test.1 a.kind,
          guid_test.1 a.guid,
          team_test.1 a.team,
          name_test.1 a.name,
          id_test.1 a.id,
        ),
      )

-- Filters that differ in the case of the letters of a player's name let the same events through.
matches-with_player_name :
    {N : Type 0} (f : EventFilter) (n m : String) (e : StatsEvent N)
    → eq_ignore_ascii_case (codes n) (codes m) ≡ true
    → matches (with_player_name n f) e ≡ matches (with_player_name m f) e
unfolding matches with_player_name
matches-with_player_name f n m e h = rw (event_has_player_name_cong e n m h)

contains-cons :
    (j : EventKind) (ks : List EventKind) (k : EventKind)
    → contains (j ∷ ks) k ≡ (eq_kind k j || contains ks k)
unfolding contains
contains-cons j ks k = refl

pub contains-insert_kind :
    (ks : List EventKind) (j k : EventKind)
    → contains (insert_kind ks j) k ≡ (contains ks k || eq_kind k j)
unfolding insert_kind
contains-insert_kind ks j k = elim (Bool-cases (contains ks j)) [
  | inl old ↦ rw old (ground (arith, eq_kind_iff k j))
  | inr new ↦ rw (new, contains-cons j ks k) (ground arith)
]

pub contains-extend_kinds :
    (ks more : List EventKind) (k : EventKind)
    → contains (extend_kinds ks more) k ≡ (contains ks k || contains more k)
unfolding extend_kinds
contains-extend_kinds ks [] k = unfold contains in ground arith
contains-extend_kinds ks (j ∷ more) k =
    contains-extend_kinds (insert_kind ks j) more k
    ∙ ground (arith, contains-insert_kind ks j k, contains-cons j more k)

insert_kind-ne-empty : (ks : List EventKind) (j : EventKind) → is_empty (insert_kind ks j) ≡ false
unfolding insert_kind contains
insert_kind-ne-empty [] j = refl
insert_kind-ne-empty (k ∷ ks) j = ground arith

extend_kinds-ne-empty :
    (ks more : List EventKind) → is_empty ks ≡ false → is_empty (extend_kinds ks more) ≡ false
unfolding extend_kinds
extend_kinds-ne-empty ks [] h = h
extend_kinds-ne-empty ks (j ∷ more) h =
    extend_kinds-ne-empty (insert_kind ks j) more (insert_kind-ne-empty ks j)

pub extend_kinds-cons-ne-empty :
    (ks : List EventKind) (j : EventKind) (more : List EventKind)
    → is_empty (extend_kinds ks (j ∷ more)) ≡ false
unfolding extend_kinds
extend_kinds-cons-ne-empty ks j more =
    extend_kinds-ne-empty (insert_kind ks j) more (insert_kind-ne-empty ks j)

guarded : (b r : Bool) → (if not b then false else r) ≡ (b && r)
guarded true r = refl
guarded false r = refl

-- After some kinds were included, an event passes when it is of one of those or of an earlier one,
-- and passes the filter without its kinds.
matches-include_kinds :
    {N : Type 0} (f : EventFilter) (kind : EventKind) (more : List EventKind) (e : StatsEvent N)
    → matches (include_kinds (kind ∷ more) f) e ≡ (
        (contains f.kinds (kind_of e) || contains (kind ∷ more) (kind_of e))
        && matches (record f { kinds = [] }) e)
unfolding matches include_kinds
matches-include_kinds f kind more e =
    rw
      (
        extend_kinds-cons-ne-empty f.kinds kind more,
        contains-extend_kinds f.kinds (kind ∷ more) (kind_of e),
      )
      (guarded (contains f.kinds (kind_of e) || contains (kind ∷ more) (kind_of e)) _)
