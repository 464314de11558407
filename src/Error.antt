-- ===== src/Error.antt =====
-- error.rs: the errors of the library, and the results of its fallible functions.
use rlstatsapi.Prelude.{ℕ, String, ◌≡◌, refl, Option, none, some}

-- The texts of the errors of `std::io` and `serde_json` stand for those errors.
pub data RlStatsError : Type 0 where
  config_path_not_found : RlStatsError
  config_io : (path source : String) → RlStatsError
  port_conflict : (port : ℕ) → RlStatsError
  invalid_command : (command reason : String) → RlStatsError
  socket_io : (source : String) → RlStatsError
  json : (source : String) → RlStatsError

-- `crate::Result<T>`
pub data Result {ℓ} (T : Type ℓ) : Type ℓ where
  err : RlStatsError → Result T
  ok : T → Result T

module _ {ℓ κ} {T : Type ℓ} {U : Type κ} where
  abbrev pub map_ok : (T → U) → Result T → Result U
  map_ok f (err why) = err why
  map_ok f (ok t) = ok (f t)

  -- The operator `?` hands the error on.
  infixl 5 ◌>>=◌
  abbrev pub ◌>>=◌ : Result T → (T → Result U) → Result U
  err why >>= next = err why
  ok t >>= next = next t

  -- Both steps of a chain that succeeds have succeeded.
  pub >>=-eq-ok :
      (first : Result T) (next : T → Result U) {u : U}
      → first >>= next ≡ ok u
      → (t : T) × (first ≡ ok t) × (next t ≡ ok u)
  >>=-eq-ok (err why) next h = cc
  >>=-eq-ok (ok t) next h = (t, refl, h)

infixl 5 ◌>>◌
abbrev pub ◌>>◌ {κ} : {U : Type κ} → Result (Unit {0}) → Result U → Result U
first >> next = first >>= (λ done. next)

module _ {ℓ} {T : Type ℓ} where
  -- `ok_or_else`
  abbrev pub ok_or : Option T → RlStatsError → Result T
  ok_or (some t) why = ok t
  ok_or none why = err why

  pub ok-injective : {s t : T} → ok s ≡ ok t → s ≡ t
  ok-injective h = cc

  pub err-injective : {x y : RlStatsError} → ◌≡◌ {A = Result T} (err x) (err y) → x ≡ y
  err-injective h = cc

  pub err≢ok : {x : RlStatsError} {t : T} → err x ≡ ok t → ⊥
  err≢ok h = cc
