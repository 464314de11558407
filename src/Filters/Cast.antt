-- ===== src/Filters/Cast.antt =====
-- Whom an event is about: its teams, names and identifiers, read off the event's data, and the tests
-- of the filter in their terms.
use text.Mathlib.Text.{◌==◌}
use text.Mathlib.TextEquality.{eq_iff}
use rlstatsapi.Prelude.{
  false≢true, none-ne-some, some-injective, String, ℤ, ◌≡◌, ◌↔◌, refl, ap, ◌∙◌, true, Option, none,
  some, List, [], ◌∷◌, ◌++◌, map, any, AnyOf, any_iff, any-map, any-append, any_cong, is_some_and,
  eqb_ℤ, eqb_ℤ_iff, arith,
}
use rlstatsapi.Text.{codes, to_ascii_lowercase, eq_ignore_ascii_case}
use rlstatsapi.Text.Case.{eq_ignore_ascii_case_cong, eq_ignore_ascii_case_iff}
use rlstatsapi.Events.Data.{
  PlayerRef, StatsEvent, update_state, ball_hit, boost_pickup, goal_scored, match_ended,
  player_joined, player_left, statfeed_event,
}
use rlstatsapi.Filters.Matching.{
  same_name, event_has_team, event_has_player_name, event_has_player_primary_id,
}

abbrev one_or_none : {A : Type 0} → Option A → List A
one_or_none none = []
one_or_none (some a) = a ∷ []

module _ {N : Type 0} where
  abbrev players_of : PlayerRef N → Option (PlayerRef N) → List (PlayerRef N) → List (PlayerRef N)
  players_of first second rest = first ∷ (one_or_none second ++ rest)

  -- The numbers of the teams that an event mentions; `none` where a player or team has none.
  abbrev pub teams_of : StatsEvent N → List (Option ℤ)
  teams_of (update_state d) = map (λ p. p.team_num) d.players ++ map (λ t. t.team_num) d.game.teams
  teams_of (goal_scored d) =
      map (λ p. some p.team_num) (players_of d.scorer d.assister (d.ball_last_touch.player ∷ []))
  teams_of (ball_hit d) = map (λ p. some p.team_num) d.players
  teams_of (boost_pickup d) = some d.player.team_num ∷ []
  teams_of (statfeed_event d) =
      map (λ p. some p.team_num) (players_of d.main_target d.secondary_target [])
  teams_of (match_ended d) = some d.winner_team_num ∷ []
  teams_of _ = []

  -- The names of the players that an event mentions.
  abbrev pub names_of : StatsEvent N → List (Option String)
  names_of (update_state d) = map (λ p. p.name) d.players
  names_of (goal_scored d) =
      map (λ p. some p.name) (players_of d.scorer d.assister (d.ball_last_touch.player ∷ []))
  names_of (ball_hit d) = map (λ p. some p.name) d.players
  names_of (boost_pickup d) = some d.player.name ∷ []
  names_of (player_joined d) = some d.player_name ∷ []
  names_of (player_left d) = some d.player_name ∷ []
  names_of (statfeed_event d) =
      map (λ p. some p.name) (players_of d.main_target d.secondary_target [])
  names_of _ = []

  -- The identifiers that an event carries.
  abbrev pub ids_of : StatsEvent N → List (Option String)
  ids_of (update_state d) = map (λ p. p.primary_id) d.players
  ids_of (player_joined d) = some d.primary_id ∷ []
  ids_of (player_left d) = some d.primary_id ∷ []
  ids_of _ = []

  event_has_team-any :
      (e : StatsEvent N) (t : ℤ) → event_has_team e t ≡ any (is_some_and (eqb_ℤ t)) (teams_of e)
  unfolding event_has_team
  event_has_team-any (update_state d) t = simp (any-append, any-map) refl
  event_has_team-any (goal_scored d) t = ground arith
  event_has_team-any (ball_hit d) t = simp any-map refl
  event_has_team-any (boost_pickup d) t = ground arith
  event_has_team-any (statfeed_event d) t = ground arith
  event_has_team-any (match_ended d) t = ground arith
  event_has_team-any _ t = refl

  event_has_player_name-any :
      (e : StatsEvent N) (n : String)
      → event_has_player_name e n ≡ any (is_some_and (same_name n)) (names_of e)
  unfolding event_has_player_name
  event_has_player_name-any (update_state d) n = simp any-map refl
  event_has_player_name-any (goal_scored d) n = ground arith
  event_has_player_name-any (ball_hit d) n = simp any-map refl
  event_has_player_name-any (boost_pickup d) n = ground arith
  event_has_player_name-any (player_joined d) n = ground arith
  event_has_player_name-any (player_left d) n = ground arith
  event_has_player_name-any (statfeed_event d) n = ground arith
  event_has_player_name-any _ n = refl

  event_has_player_primary_id-any :
      (e : StatsEvent N) (i : String)
      → event_has_player_primary_id e i ≡ any (is_some_and (λ id. id == i)) (ids_of e)
  unfolding event_has_player_primary_id
  event_has_player_primary_id-any (update_state d) i = simp any-map refl
  event_has_player_primary_id-any (player_joined d) i = ground arith
  event_has_player_primary_id-any (player_left d) i = ground arith
  event_has_player_primary_id-any _ i = refl

-- A name that differs at most in the case of its ASCII letters.
abbrev pub IsCalled : String → Option String → Type 0
IsCalled n o =
    (x : String) × (o ≡ some x)
    × (map to_ascii_lowercase (codes x) ≡ map to_ascii_lowercase (codes n))

is_team_iff : (t : ℤ) (o : Option ℤ) → (is_some_and (eqb_ℤ t) o ≡ true) ↔ (o ≡ some t)
is_team_iff t none = ground arith
is_team_iff t (some s) = ground (arith, eqb_ℤ_iff t s)

is_id_iff : (i : String) (o : Option String) → (is_some_and (λ id. id == i) o ≡ true) ↔ (o ≡ some i)
is_id_iff i none = ground arith
is_id_iff i (some j) = ground (arith, eq_iff j i)

IsCalled-iff :
    (n : String) (o : Option String) → (is_some_and (same_name n) o ≡ true) ↔ IsCalled n o
IsCalled-iff n none = ((λ h. absurd (false≢true h)), λ c. absurd (none-ne-some _ c.1))
IsCalled-iff n (some x) = (
  (λ h. (x, refl, (eq_ignore_ascii_case_iff (codes x) (codes n)).0 h)),
  λ c.
      (eq_ignore_ascii_case_iff (codes x) (codes n)).1
        (ap (λ s. map to_ascii_lowercase (codes s)) (some-injective _ _ c.1) ∙ c.2),
)

same_name_cong :
    (n m : String)
    → eq_ignore_ascii_case (codes n) (codes m) ≡ true
    → (o : Option String) → is_some_and (same_name n) o ≡ is_some_and (same_name m) o
same_name_cong n m h none = refl
same_name_cong n m h (some x) = eq_ignore_ascii_case_cong (codes x) (codes n) (codes m) h

module _ {N : Type 0} (e : StatsEvent N) where
  pub has_team_iff : (t : ℤ) → (event_has_team e t ≡ true) ↔ AnyOf (λ o. o ≡ some t) (teams_of e)
  has_team_iff t =
      rw (event_has_team-any e t)
        (any_iff (is_some_and (eqb_ℤ t)) (λ o. o ≡ some t) (is_team_iff t) (teams_of e))

  pub has_name_iff :
      (n : String) → (event_has_player_name e n ≡ true) ↔ AnyOf (IsCalled n) (names_of e)
  has_name_iff n =
      rw (event_has_player_name-any e n)
        (any_iff (is_some_and (same_name n)) (IsCalled n) (IsCalled-iff n) (names_of e))

  pub has_id_iff :
      (i : String) → (event_has_player_primary_id e i ≡ true) ↔ AnyOf (λ o. o ≡ some i) (ids_of e)
  has_id_iff i =
      rw (event_has_player_primary_id-any e i)
        (any_iff (is_some_and (λ id. id == i)) (λ o. o ≡ some i) (is_id_iff i) (ids_of e))

  -- The tests on names see no difference between names that are equal in lower case.
  pub event_has_player_name_cong :
      (n m : String)
      → eq_ignore_ascii_case (codes n) (codes m) ≡ true
      → event_has_player_name e n ≡ event_has_player_name e m
  event_has_player_name_cong n m h =
      rw (event_has_player_name-any e n, event_has_player_name-any e m)
        (any_cong (is_some_and (same_name n)) (is_some_and (same_name m)) (same_name_cong n m h)
          (names_of e))
