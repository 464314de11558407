-- ===== src/Sos/Lookup.antt =====
-- Which team and which player an update of the state shows.
use text.Mathlib.Text.{◌==◌}
use text.Mathlib.TextEquality.{eq_iff}
use rlstatsapi.Prelude.{
  ◌≡◌, refl, sym, ap, ◌∙◌, inl, inr, Bool-cases, false≢true, String, ℤ, pos, negsuc, Bool, true,
  false, Option, none, some, map_some, or_else, and_then, List, [], ◌∷◌, if◌then◌else◌, arith,
}
use rlstatsapi.Float.{FloatText}
use rlstatsapi.Json.{Value, array, nil, cons, Fields, end, field, get, insert, as_object, JsonLib}
use rlstatsapi.Events.Data.{TeamState, UpdateStatePlayer, UpdateStateData}
use rlstatsapi.Sos.Players.{player_id, player_value, insert_players, translate_players}
use rlstatsapi.Sos.Teams.{team_is, index_teams, team_value, translate_teams}

-- The last element that passes a test.
unfoldable pub last_with : {A : Type 0} → (A → Bool) → List A → Option A
last_with p [] = none
last_with p (a ∷ more) = or_else (last_with p more) (if p a then some a else none)

module _ {A : Type 0} where
  or_else-some : (a b : Option A) (x : A) → or_else (or_else a (some x)) b ≡ or_else a (some x)
  or_else-some none b x = refl
  or_else-some (some y) b x = refl

  or_else-none : (a b : Option A) → or_else (or_else a none) b ≡ or_else a b
  or_else-none none b = refl
  or_else-none (some y) b = refl

  or_else_end : (a : Option A) → or_else a none ≡ a
  or_else_end none = refl
  or_else_end (some x) = refl

  or_else_assoc : (a b c : Option A) → or_else (or_else a b) c ≡ or_else a (or_else b c)
  or_else_assoc none b c = refl
  or_else_assoc (some x) b c = refl

blue_not_orange : (m : Option ℤ) → team_is (pos 0) m ≡ true → team_is (pos 1) m ≡ false
blue_not_orange none h = refl
blue_not_orange (some (pos n)) h = ground arith
blue_not_orange (some (negsuc n)) h = refl

module _ {N : Type 0} where
  abbrev pub has_number : ℤ → TeamState N → Bool
  has_number n team = team_is n team.team_num

  abbrev pub last_team : ℤ → List (TeamState N) → Option (TeamState N)
  last_team n teams = last_with (has_number n) teams

  index_teams_lem :
      (blue orange : Option (TeamState N)) (teams : List (TeamState N))
      → index_teams (blue, orange) teams
        ≡ (or_else (last_team (pos 0) teams) blue, or_else (last_team (pos 1) teams) orange)
  unfolding index_teams last_with
  index_teams_lem blue orange [] = refl
  index_teams_lem blue orange (team ∷ more) = elim (Bool-cases (team_is (pos 0) team.team_num)) [
    | inl is_blue ↦
        rw
          (
            is_blue,
            blue_not_orange team.team_num is_blue,
            or_else-some (last_team (pos 0) more) blue team,
            or_else-none (last_team (pos 1) more) orange,
          )
          (index_teams_lem (some team) orange more)
    | inr other ↦ elim (Bool-cases (team_is (pos 1) team.team_num)) [
      | inl is_orange ↦
          rw
            (
              other,
              is_orange,
              or_else-none (last_team (pos 0) more) blue,
              or_else-some (last_team (pos 1) more) orange team,
            )
            (index_teams_lem blue (some team) more)
      | inr neither ↦
          rw
            (
              other,
              neither,
              or_else-none (last_team (pos 0) more) blue,
              or_else-none (last_team (pos 1) more) orange,
            )
            (index_teams_lem blue orange more)
    ]
  ]

module _ {N : Type 0} ⦃lib : JsonLib N⦄ where
  -- There are always two teams: the last one with number 0 and the last one with number 1, or the
  -- default where there is none.
  pub translate_teams_lem :
      (teams : List (TeamState N))
      → translate_teams teams
        ≡ array (
            cons
              (team_value "Blue" "1873FF" (last_team (pos 0) teams))
              (cons (team_value "Orange" "C26418" (last_team (pos 1) teams)) nil))
  unfolding translate_teams
  translate_teams_lem teams = rw (
    index_teams_lem none none teams,
    or_else_end (last_team (pos 0) teams),
    or_else_end (last_team (pos 1) teams),
  )

if_twice :
    {A : Type 0} (b : Bool) (x y z : A)
    → (if b then x else z) ≡ (if b then x else if b then y else z)
if_twice true x y z = refl
if_twice false x y z = refl

-- An element that passes the test comes after what was found before it.
last_shift :
    {A B : Type 0} (f : A → B) (found : Option A) (b : Bool) (a : A) (before : Option B)
    → or_else (map_some f found) (if b then some (f a) else before)
      ≡ or_else (map_some f (or_else found (if b then some a else none))) before
last_shift f none true a before = refl
last_shift f none false a before = refl
last_shift f (some x) b a before = refl

differs_from_equal : (key k q : String) → (key == k) ≡ false → (key == q) ≡ true → (k == q) ≡ false
differs_from_equal key k q other here = elim (Bool-cases (k == q)) [
  | inl same ↦
      let e : key ≡ k = (eq_iff key q).0 here ∙ sym ((eq_iff k q).0 same) in
      absurd (false≢true (sym other ∙ (eq_iff key k).1 e))
  | inr differ ↦ differ
]

module _ {N : Type 0} where
  -- Inserting a value changes what stands under its key.
  get-insert :
      (m : Fields N) (k q : String) (v : Value N)
      → get (insert m k v) q ≡ (if k == q then some v else get m q)
  unfolding get insert
  get-insert end k q v = refl
  get-insert (field key w rest) k q v = elim (Bool-cases (key == k)) [
    | inl same ↦ rw (same, (eq_iff key k).0 same) (if_twice (k == q) (some v) (some w) (get rest q))
    | inr other ↦ elim (Bool-cases (key == q)) [
      | inl here ↦ rw (other, here, differs_from_equal key k q other here)
      | inr later ↦ rw (other, later) (get-insert rest k q v)
    ]
  ]

module _ {N : Type 0} ⦃lib : JsonLib N⦄ ⦃floats : FloatText⦄ where
  abbrev pub last_player : String → List (UpdateStatePlayer N) → Option (UpdateStatePlayer N)
  last_player id players = last_with (λ player. player_id player == id) players

  get-insert_players :
      (m : Fields N) (players : List (UpdateStatePlayer N)) (id : String)
      → get (insert_players m players) id
        ≡ or_else (map_some player_value (last_player id players)) (get m id)
  unfolding insert_players last_with
  get-insert_players m [] id = refl
  get-insert_players m (player ∷ more) id =
      get-insert_players (insert m (player_id player) (player_value player)) more id
      ∙ ap (or_else (map_some player_value (last_player id more)))
          (get-insert m (player_id player) id (player_value player))
      ∙ last_shift player_value (last_player id more) (player_id player == id) player (get m id)

  -- Under an identifier stands the last player that has it, translated, and nothing where no
  -- player has it.
  pub translate_players_lem :
      (d : UpdateStateData N) (id : String)
      → and_then (as_object (translate_players d)) (λ players. get players id)
        ≡ map_some player_value (last_player id d.players)
  unfolding translate_players get
  translate_players_lem d id =
      get-insert_players end d.players id
      ∙ or_else_end (map_some player_value (last_player id d.players))
