-- ===== src/Events/Fallbacks.antt =====
-- Which value of a player is taken when its field is absent.
use rlstatsapi.Prelude.{
  String, ◌≡◌, inl, inr, refl, sym, ap, ◌∙◌, true, none-ne-some, some-injective, Option, none, some,
  List, [], ◌∷◌, ◌++◌, map, and_then, or_else, find_map,
}
use mathlib.Core.Path.{subst}
use rlstatsapi.Float.{FloatText}
use rlstatsapi.Text.{codes, trim, eq_ignore_ascii_case}
use rlstatsapi.Text.Case.{eq_ignore_ascii_case_iff}
use rlstatsapi.Json.{
  Value, null, bool, number, string, array, object-injective, object, Fields, get, as_object,
  JsonLib,
}
use rlstatsapi.Events.Data.{UpdateStatePlayer}
use rlstatsapi.Events.Effective.{
  first_by, first_nested_by, container_keys, value_as_f64, value_as_i64, value_as_bool,
  effective_speed, effective_speed_keys, effective_speed_nested_keys, effective_boost,
  effective_boost_keys, effective_boost_nested_keys, effective_boosting, effective_boosting_keys,
  effective_boosting_nested_keys, effective_supersonic, effective_supersonic_keys,
  effective_supersonic_nested_keys, first_numeric_f64, first_numeric_i64, first_bool,
  first_nested_numeric_f64, first_nested_numeric_i64, first_nested_bool,
}
use rlstatsapi.Events.Meanings.{
  MeansF64, MeansI64, MeansBool, Settles, value_as_f64-MeansF64, value_as_i64-MeansI64,
  value_as_bool-MeansBool,
}
use rlstatsapi.Events.Places.{
  Place, under, inside, in_each, speed_places, boost_places, boosting_places, supersonic_places,
  Stands, IsFirst, IsFirstBehind,
}

or_else_assoc : {A : Type 0} (a b c : Option A) → or_else (or_else a b) c ≡ or_else a (or_else b c)
or_else_assoc none b c = refl
or_else_assoc (some x) b c = refl

module _ {N A : Type 0} (read : Value N → Option A) where
  abbrev look : Fields N → Place → Option A
  look fields (under name) = and_then (get fields name) read
  look fields (inside container name) =
      and_then (get fields container)
        (λ v. and_then (as_object v) (λ inner. and_then (get inner name) read))

  search_map :
      (fields : Fields N) (place : String → Place) (names : List String) (more : List Place)
      → or_else (find_map (λ name. look fields (place name)) names) (find_map (look fields) more)
        ≡ find_map (look fields) (map place names ++ more)
  search_map fields place [] more = refl
  search_map fields place (name ∷ names) more =
      or_else_assoc (look fields (place name)) _ _
      ∙ ap (or_else (look fields (place name))) (search_map fields place names more)

  in_container :
      (o : Option (Value N)) (names : List String)
      → and_then o (λ v. and_then (as_object v) (λ inner. first_by read inner names))
        ≡ find_map
            (λ name.
              and_then o (λ v. and_then (as_object v) (λ inner. and_then (get inner name) read)))
            names
  in_container (some (object fields)) names = refl
  in_container none [] = refl
  in_container none (name ∷ names) = in_container none names
  in_container (some _) [] = refl
  in_container (some null) (name ∷ names) = in_container (some null) names
  in_container (some (bool b)) (name ∷ names) = in_container (some (bool b)) names
  in_container (some (number n)) (name ∷ names) = in_container (some (number n)) names
  in_container (some (string s)) (name ∷ names) = in_container (some (string s)) names
  in_container (some (array vs)) (name ∷ names) = in_container (some (array vs)) names

  search_inside :
      (fields : Fields N) (containers names : List String)
      → first_nested_by read fields containers names
        ≡ find_map (look fields) (in_each containers names)
  search_inside fields [] names = refl
  search_inside fields (container ∷ more) names =
      ap (λ o. or_else o (first_nested_by read fields more names))
        (in_container (get fields container) names)
      ∙ ap (or_else (find_map (λ name. look fields (inside container name)) names))
          (search_inside fields more names)
      ∙ search_map fields (inside container) names (in_each more names)

  -- The two searches are one search through the places.
  search_places :
      (fields : Fields N) (names containers inner_names : List String)
      → or_else (first_by read fields names) (first_nested_by read fields containers inner_names)
        ≡ find_map (look fields) (map under names ++ in_each containers inner_names)
  search_places fields names containers inner_names =
      ap (or_else (first_by read fields names)) (search_inside fields containers inner_names)
      ∙ search_map fields under names (in_each containers inner_names)

  module _ (Means : Value N → A → Type 0)
      (settles : (v : Value N) → Settles (Means v) (read v)) where
    read_under :
        (o : Option (Value N))
        → Settles (λ a. (v : Value N) × (o ≡ some v) × Means v a) (and_then o read)
    read_under none = λ a h. none-ne-some h.0 h.1
    read_under (some v) = go (read v) (settles v)
      where
        go :
            (r : Option A)
            → Settles (Means v) r
            → Settles (λ a. (w : Value N) × (some v ≡ some w) × Means w a) r
        go (some a) m = (v, refl, m)
        go none m = λ a h. m a (subst (λ w. Means w a) (sym (some-injective _ _ h.1)) h.2)

    read_inside :
        (o : Option (Value N)) (name : String)
        → Settles
            (λ a.
              (inner : Fields N) × (o ≡ some (object inner))
              × ((v : Value N) × (get inner name ≡ some v) × Means v a))
            (and_then o (λ v. and_then (as_object v) (λ inner. and_then (get inner name) read)))
    read_inside none name = λ a h. none-ne-some _ h.1
    read_inside (some (object fields)) name =
        go (and_then (get fields name) read) (read_under (get fields name))
      where
        go :
            (r : Option A)
            → Settles (λ a. (v : Value N) × (get fields name ≡ some v) × Means v a) r
            → Settles
                (λ a.
                  (inner : Fields N) × (some (object fields) ≡ some (object inner))
                  × ((v : Value N) × (get inner name ≡ some v) × Means v a))
                r
        go (some a) m = (fields, refl, m)
        go none m = λ a h. m a (
            subst (λ inner. (v : Value N) × (get inner name ≡ some v) × Means v a)
              (sym (object-injective (some-injective _ _ h.1))) h.2)
    read_inside (some null) name = λ a h. cc
    read_inside (some _) name = λ a h. cc

    look-Settles :
        (fields : Fields N) (place : Place)
        → Settles (Stands Means fields place) (look fields place)
    look-Settles fields (under name) = read_under (get fields name)
    look-Settles fields (inside container name) = read_inside (get fields container) name

    find_map-IsFirst :
        (fields : Fields N) (ps : List Place) → IsFirst Means fields ps (find_map (look fields) ps)
    find_map-IsFirst fields [] = refl
    find_map-IsFirst fields (p ∷ ps) =
        go (find_map (look fields) ps) (look fields p) (look-Settles fields p)
          (find_map-IsFirst fields ps)
      where
        go :
            (rest r : Option A)
            → Settles (Stands Means fields p) r
            → IsFirst Means fields ps rest
            → IsFirst Means fields (p ∷ ps) (or_else r rest)
        go rest (some a) m h = inl (a, m, refl)
        go rest none m h = inr (m, h)

    search_first :
        (direct : Option A) (fields : Fields N) (names containers inner_names : List String)
        → IsFirstBehind Means direct fields (map under names ++ in_each containers inner_names) (
            or_else direct (
              or_else
                (first_by read fields names)
                (first_nested_by read fields containers inner_names)))
    search_first (some a) fields names containers inner_names = refl
    search_first none fields names containers inner_names =
        rw (search_places fields names containers inner_names)
          (find_map-IsFirst fields (map under names ++ in_each containers inner_names))

module _ {N : Type 0} ⦃lib : JsonLib N⦄ ⦃floats : FloatText⦄ (p : UpdateStatePlayer N) where
  -- The effective speed, boost, boosting flag and supersonic flag of a player are its field, or
  -- where that is absent what stands at the first place where a value of the kind stands, and
  -- absent where none does: the places are the other names of the value, in their order, and
  -- behind them its names in the objects for the car, in their order.
  pub effective-IsFirstBehind :
      IsFirstBehind MeansF64 p.speed p.extra speed_places (effective_speed p)
      × IsFirstBehind MeansI64 p.boost p.extra boost_places (effective_boost p)
      × IsFirstBehind MeansBool p.b_boosting p.extra boosting_places (effective_boosting p)
      × IsFirstBehind MeansBool p.b_supersonic p.extra supersonic_places (effective_supersonic p)
  unfolding effective_speed effective_boost effective_boosting effective_supersonic
      first_numeric_f64 first_numeric_i64 first_bool first_nested_numeric_f64
      first_nested_numeric_i64 first_nested_bool
  effective-IsFirstBehind = (
    search_first value_as_f64 MeansF64 value_as_f64-MeansF64 p.speed p.extra effective_speed_keys
        container_keys effective_speed_nested_keys,
    search_first value_as_i64 MeansI64 value_as_i64-MeansI64 p.boost p.extra effective_boost_keys
        container_keys effective_boost_nested_keys,
    search_first value_as_bool MeansBool value_as_bool-MeansBool p.b_boosting p.extra
        effective_boosting_keys container_keys effective_boosting_nested_keys,
    search_first value_as_bool MeansBool value_as_bool-MeansBool p.b_supersonic p.extra
        effective_supersonic_keys container_keys effective_supersonic_nested_keys,
  )

-- Two texts that are equal but for white space around them and the case of letters read as the
-- same flag.
value_as_bool_cong :
    (N : Type 0) ⦃lib : JsonLib N⦄ (s t : String)
    → eq_ignore_ascii_case (trim (codes s)) (trim (codes t)) ≡ true
    → value_as_bool {N = N} (string s) ≡ value_as_bool {N = N} (string t)
unfolding value_as_bool
value_as_bool_cong N s t h = rw ((eq_ignore_ascii_case_iff (trim (codes s)) (trim (codes t))).0 h)
