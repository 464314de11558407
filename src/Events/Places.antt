-- ===== src/Events/Places.antt =====
-- Where the values of a player are looked for when its field is absent, and in which order.
use rlstatsapi.Prelude.{String, ◌≡◌, ◌⊎◌, Option, none, some, List, [], ◌∷◌, ◌++◌, map}
use rlstatsapi.Json.{Value, object, Fields, get}

-- A place for a value: a name of the player's, or a name in an object under one.
pub data Place : Type 0 where
  under : (name : String) → Place
  inside : (container name : String) → Place

abbrev pub in_each : List String → List String → List Place
in_each [] names = []
in_each (container ∷ more) names = map (inside container) names ++ in_each more names

-- First the names themselves, then those in each object for the car.
abbrev pub places : List String → List String → List Place
places names names_inside =
    map under names
    ++ in_each ("Car" ∷ "car" ∷ "CarData" ∷ "carData" ∷ "car_data" ∷ "Vehicle" ∷ "vehicle" ∷ [])
        names_inside

abbrev pub speed_places : List Place
speed_places =
    places
      ("speed" ∷ "Speed" ∷ "CarSpeed" ∷ "carSpeed" ∷ "car_speed" ∷ "Velocity" ∷ "velocity"
        ∷ "Car.Speed" ∷ "car.speed" ∷ [])
      ("Speed" ∷ "speed" ∷ "CarSpeed" ∷ "carSpeed" ∷ "car_speed" ∷ "Velocity" ∷ "velocity" ∷ [])

abbrev pub boost_places : List Place
boost_places =
    places
      ("boost" ∷ "Boost" ∷ "BoostAmount" ∷ "boostAmount" ∷ "boost_amount" ∷ "Car.Boost"
        ∷ "car.boost" ∷ [])
      ("Boost" ∷ "boost" ∷ "BoostAmount" ∷ "boostAmount" ∷ "boost_amount" ∷ [])

abbrev pub boosting_places : List Place
boosting_places =
    places ("bBoosting" ∷ "boosting" ∷ "isBoosting" ∷ [])
      ("bBoosting" ∷ "boosting" ∷ "isBoosting" ∷ [])

abbrev pub supersonic_places : List Place
supersonic_places =
    places ("bSupersonic" ∷ "supersonic" ∷ "isSupersonic" ∷ [])
      ("bSupersonic" ∷ "supersonic" ∷ "isSupersonic" ∷ [])

module _ {N A : Type 0} (Means : Value N → A → Type 0) where
  -- The value stands at the place.
  abbrev pub Stands : Fields N → Place → A → Type 0
  Stands fields (under name) a = (v : Value N) × (get fields name ≡ some v) × Means v a
  Stands fields (inside container name) a =
      (inner : Fields N) × (get fields container ≡ some (object inner))
      × ((v : Value N) × (get inner name ≡ some v) × Means v a)

  -- The answer is a value at the first of the places where one stands, and `none` where none does.
  abbrev pub IsFirst : Fields N → List Place → Option A → Type 0
  IsFirst fields [] o = o ≡ none
  IsFirst fields (place ∷ more) o =
      ((a : A) × Stands fields place a × (o ≡ some a))
      ⊎ (((a : A) → ¬ Stands fields place a) × IsFirst fields more o)

  -- The field of the player is before all places.
  abbrev pub IsFirstBehind : Option A → Fields N → List Place → Option A → Type 0
  IsFirstBehind (some a) fields more o = o ≡ some a
  IsFirstBehind none fields more o = IsFirst fields more o
