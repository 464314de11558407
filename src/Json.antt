-- ===== src/Json.antt =====
-- The interface of `serde_json`, whose code is not in the repository. `Value` is its public
-- enumeration, with the documented access methods; an object, and a `HashMap<String, Value>`, is the
-- list of its entries. What a number is and how it is read and written is the interface `JsonLib`.
use text.Mathlib.Text.{◌==◌}
use rlstatsapi.Prelude.{
  ℕ, ◌^◌, ◌<◌, String, ◌≡◌, Bool, true, List, [], ◌∷◌, Option, none, some, ℤ, and_then,
  if◌then◌else◌,
}
use rlstatsapi.Float.{F64, is_finite}
use rlstatsapi.Error.{Result}

mutual
  pub data Value (N : Type 0) : Type 0 where
    null : Value N
    bool : Bool → Value N
    number : N → Value N
    string : String → Value N
    array : Items N → Value N
    object : Fields N → Value N

  pub data Items (N : Type 0) : Type 0 where
    nil : Items N
    cons : Value N → Items N → Items N

  pub data Fields (N : Type 0) : Type 0 where
    end : Fields N
    field : String → Value N → Fields N → Fields N

module _ {N : Type 0} where
  -- `map.get(key)`
  unfoldable pub get : Fields N → String → Option (Value N)
  get end key = none
  get (field k v rest) key = if k == key then some v else get rest key

  -- `map.insert(key, value)`
  unfoldable pub insert : Fields N → String → Value N → Fields N
  insert end key value = field key value end
  insert (field k v rest) key value =
      if k == key then field k value rest else field k v (insert rest key value)

  -- `value.as_str()`
  abbrev pub as_str : Value N → Option String
  as_str (string s) = some s
  as_str _ = none

  abbrev pub as_bool : Value N → Option Bool
  as_bool (bool b) = some b
  as_bool _ = none

  abbrev pub as_object : Value N → Option (Fields N)
  as_object (object fields) = some fields
  as_object _ = none

  -- `value.get(key)`: `none` on what is no object
  abbrev pub get_value : Value N → String → Option (Value N)
  get_value v key = and_then (as_object v) (λ fields. get fields key)

  -- A list of values as an array.
  abbrev pub array_of : List (Value N) → Items N
  array_of [] = nil
  array_of (v ∷ vs) = cons v (array_of vs)

-- The numbers of `serde_json`, and its reader and printer.
pub record JsonLib (N : Type 0) : Type 0 where
  pub as_i64 : N → Option ℤ
  pub as_u64 : N → Option ℕ
  pub as_f64 : N → Option F64
  -- `Value::from` at the three types of numbers
  pub of_i64 : ℤ → Value N
  pub of_u64 : ℕ → Value N
  pub of_f64 : F64 → Value N
  -- `to_string`, and the `Display` of a value
  pub to_string : Value N → Result String
  pub display : Value N → String
  -- `from_str::<Value>`
  pub from_str : String → Result (Value N)

module _ {N : Type 0} ⦃lib : JsonLib N⦄ where
  abbrev pub value_u64 : Value N → Option ℕ
  value_u64 (number n) = lib.as_u64 n
  value_u64 _ = none

  abbrev pub value_i64 : Value N → Option ℤ
  value_i64 (number n) = lib.as_i64 n
  value_i64 _ = none

  abbrev pub value_f64 : Value N → Option F64
  value_f64 (number n) = lib.as_f64 n
  value_f64 _ = none

-- What is documented of them: a number that is written is read back, a double if it is finite.
pub record JsonLaws {N : Type 0} (lib : JsonLib N) : Type 0 where
  pub read_u64 : (n : ℕ) → n < 2 ^ 64 → value_u64 ⦃lib = lib⦄ (lib.of_u64 n) ≡ some n
  pub read_f64 : (x : F64) → is_finite x ≡ true → value_f64 ⦃lib = lib⦄ (lib.of_f64 x) ≡ some x

pub object-injective : {N : Type 0} {a b : Fields N} → object a ≡ object b → a ≡ b
object-injective h = cc
