-- ===== src/Events/Effective.antt =====
-- events.rs: the values of a player that may stand under other names, and bogus goals.
use rlstatsapi.Prelude.{
  String, ℤ, pos, Bool, true, false, not, ◌&&◌, Option, none, some, List, [], ◌∷◌, map, is_empty,
  is_none_or, and_then, map_some, or_else, find_map, any, eqb_ℤ, if◌then◌else◌,
}
use rlstatsapi.Float.{F64, FloatText, abs, le_f64, epsilon_units, fin, of_i64, trunc_i64}
use rlstatsapi.Text.{Text, codes, trim, to_ascii_lowercase, eq_text, parse_i64}
use rlstatsapi.Json.{Value, bool, number, string, Fields, get, as_object, JsonLib}
use rlstatsapi.Events.Data.{PlayerRef, GoalScoredData, UpdateStatePlayer}

-- `f64::EPSILON`
abbrev pub epsilon : F64
epsilon = fin false epsilon_units

-- `name.trim().is_empty()`
unfoldable pub is_blank_name : String → Bool
is_blank_name name = is_empty (trim (codes name))

module _ {N : Type 0} where
  -- `name.trim().is_empty() && shortcut == 0`
  unfoldable pub is_missing : PlayerRef N → Bool
  is_missing player = is_blank_name player.name && eqb_ℤ player.shortcut (pos 0)

  unfoldable pub is_bogus_goal_scored : GoalScoredData N → Bool
  unfolding is_missing
  is_bogus_goal_scored goal =
      let speed_is_zero = le_f64 (abs goal.goal_speed) epsilon in
      let time_is_zero = le_f64 (abs goal.goal_time) epsilon in
      let scorer_missing = is_missing goal.scorer in
      let assister_missing = is_none_or is_missing goal.assister in
      speed_is_zero && time_is_zero && scorer_missing && assister_missing

-- The two lists of spellings.
abbrev pub true_texts : List String
true_texts = "true" ∷ "1" ∷ "yes" ∷ "y" ∷ "on" ∷ []

abbrev pub false_texts : List String
false_texts = "false" ∷ "0" ∷ "no" ∷ "n" ∷ "off" ∷ []

abbrev pub is_one_of : List String → Text → Bool
is_one_of texts s = any (λ t. eq_text s (codes t)) texts

-- `text.trim().to_ascii_lowercase()`
unfoldable pub normalized : Text → Text
normalized s = map to_ascii_lowercase (trim s)

abbrev pub bool_of_normalized : Text → Option Bool
bool_of_normalized s =
    if is_one_of true_texts s
    then some true
    else if is_one_of false_texts s
    then some false
    else none

-- `first_numeric_f64` and its like, and `first_nested_numeric_f64` and its like, for each reading.
abbrev pub first_by : {N A : Type 0} → (Value N → Option A) → Fields N → List String → Option A
first_by read map keys = find_map (λ key. and_then (get map key) read) keys

abbrev pub first_nested_by :
    {N A : Type 0} → (Value N → Option A) → Fields N → List String → List String → Option A
first_nested_by read map container_keys value_keys =
    find_map
      (λ container_key.
        and_then (get map container_key)
          (λ container. and_then (as_object container) (λ object. first_by read object value_keys)))
      container_keys

module _ {N : Type 0} ⦃lib : JsonLib N⦄ ⦃floats : FloatText⦄ where
  unfoldable pub value_as_f64 : Value N → Option F64
  value_as_f64 (number n) = or_else (lib.as_f64 n) (map_some of_i64 (lib.as_i64 n))
  value_as_f64 (string text) = floats.parse_f64 (codes text)
  value_as_f64 _ = none

  unfoldable pub value_as_i64 : Value N → Option ℤ
  value_as_i64 (number n) = or_else (lib.as_i64 n) (map_some trunc_i64 (lib.as_f64 n))
  value_as_i64 (string text) =
      or_else (parse_i64 (codes text)) (map_some trunc_i64 (floats.parse_f64 (codes text)))
  value_as_i64 _ = none

  unfoldable pub first_numeric_f64 : Fields N → List String → Option F64
  first_numeric_f64 = first_by value_as_f64

  unfoldable pub first_numeric_i64 : Fields N → List String → Option ℤ
  first_numeric_i64 = first_by value_as_i64

  unfoldable pub first_nested_numeric_f64 : Fields N → List String → List String → Option F64
  first_nested_numeric_f64 = first_nested_by value_as_f64

  unfoldable pub first_nested_numeric_i64 : Fields N → List String → List String → Option ℤ
  first_nested_numeric_i64 = first_nested_by value_as_i64

module _ {N : Type 0} ⦃lib : JsonLib N⦄ where
  unfoldable pub value_as_bool : Value N → Option Bool
  unfolding normalized
  value_as_bool (bool b) = some b
  value_as_bool (number n) = map_some (λ v. not (eqb_ℤ v (pos 0))) (lib.as_i64 n)
  value_as_bool (string text) = bool_of_normalized (normalized (codes text))
  value_as_bool _ = none

  unfoldable pub first_bool : Fields N → List String → Option Bool
  first_bool = first_by value_as_bool

  unfoldable pub first_nested_bool : Fields N → List String → List String → Option Bool
  first_nested_bool = first_nested_by value_as_bool

abbrev pub container_keys : List String
container_keys = "Car" ∷ "car" ∷ "CarData" ∷ "carData" ∷ "car_data" ∷ "Vehicle" ∷ "vehicle" ∷ []

abbrev pub effective_speed_keys : List String
effective_speed_keys =
    "speed" ∷ "Speed" ∷ "CarSpeed" ∷ "carSpeed" ∷ "car_speed" ∷ "Velocity" ∷ "velocity"
    ∷ "Car.Speed" ∷ "car.speed" ∷ []

abbrev pub effective_speed_nested_keys : List String
effective_speed_nested_keys =
    "Speed" ∷ "speed" ∷ "CarSpeed" ∷ "carSpeed" ∷ "car_speed" ∷ "Velocity" ∷ "velocity" ∷ []

abbrev pub effective_boost_keys : List String
effective_boost_keys =
    "boost" ∷ "Boost" ∷ "BoostAmount" ∷ "boostAmount" ∷ "boost_amount" ∷ "Car.Boost" ∷ "car.boost"
    ∷ []

abbrev pub effective_boost_nested_keys : List String
effective_boost_nested_keys =
    "Boost" ∷ "boost" ∷ "BoostAmount" ∷ "boostAmount" ∷ "boost_amount" ∷ []

abbrev pub effective_boosting_keys : List String
effective_boosting_keys = "bBoosting" ∷ "boosting" ∷ "isBoosting" ∷ []

abbrev pub effective_boosting_nested_keys : List String
effective_boosting_nested_keys = "bBoosting" ∷ "boosting" ∷ "isBoosting" ∷ []

abbrev pub effective_supersonic_keys : List String
effective_supersonic_keys = "bSupersonic" ∷ "supersonic" ∷ "isSupersonic" ∷ []

abbrev pub effective_supersonic_nested_keys : List String
effective_supersonic_nested_keys = "bSupersonic" ∷ "supersonic" ∷ "isSupersonic" ∷ []

module _ {N : Type 0} ⦃lib : JsonLib N⦄ ⦃floats : FloatText⦄ where
  unfoldable pub effective_speed : UpdateStatePlayer N → Option F64
  unfolding first_numeric_f64 first_nested_numeric_f64
  effective_speed player = or_else player.speed (
      or_else (first_numeric_f64 player.extra effective_speed_keys)
        (first_nested_numeric_f64 player.extra container_keys effective_speed_nested_keys))

  unfoldable pub effective_boost : UpdateStatePlayer N → Option ℤ
  unfolding first_numeric_i64 first_nested_numeric_i64
  effective_boost player = or_else player.boost (
      or_else (first_numeric_i64 player.extra effective_boost_keys)
        (first_nested_numeric_i64 player.extra container_keys effective_boost_nested_keys))

module _ {N : Type 0} ⦃lib : JsonLib N⦄ where
  unfoldable pub effective_boosting : UpdateStatePlayer N → Option Bool
  unfolding first_bool first_nested_bool
  effective_boosting player = or_else player.b_boosting (
      or_else (first_bool player.extra effective_boosting_keys)
        (first_nested_bool player.extra container_keys effective_boosting_nested_keys))

  unfoldable pub effective_supersonic : UpdateStatePlayer N → Option Bool
  unfolding first_bool first_nested_bool
  effective_supersonic player = or_else player.b_supersonic (
      or_else (first_bool player.extra effective_supersonic_keys)
        (first_nested_bool player.extra container_keys effective_supersonic_nested_keys))
