-- ===== src/Config/Run.antt =====
-- Code that works on the file system, and that can panic.
use rlstatsapi.Prelude.{◌≡◌, refl, String, Bool, Option, none, some}
use rlstatsapi.Text.{Text}
use rlstatsapi.Error.{RlStatsError, config_io}

-- The outcome of a call of the operating system: a result, or the text of an error.
pub data Outcome (A : Type 0) : Type 0 where
  done : A → Outcome A
  failed : (source : String) → Outcome A

-- The functions of `std::fs` and `std::path::Path` that the program calls, on a state of the file system.
pub record FileSystem (S : Type 0) : Type 0 where
  pub exists : S → String → Bool
  pub parent : String → Option String
  pub create_dir_all : S → String → S × Outcome (Unit {0})
  pub read_to_string : S → String → Outcome Text
  pub write : S → String → Text → S × Outcome (Unit {0})

pub data Answer (A : Type 0) : Type 0 where
  panics : Answer A
  fails : RlStatsError → Answer A
  returns : A → Answer A

abbrev pub Run : Type 0 → Type 0 → Type 0
Run S A = S → S × Answer A

module _ {S A B : Type 0} where
  abbrev pub continue : S × Answer A → (A → Run S B) → S × Answer B
  continue (s, panics) next = (s, panics)
  continue (s, fails e) next = (s, fails e)
  continue (s, returns a) next = next a s

  infixl 5 ◌>>=◌ ◌>>◌
  abbrev pub ◌>>=◌ : Run S A → (A → Run S B) → Run S B
  (m >>= next) s = continue (m s) next

  abbrev pub ◌>>◌ : Run S A → Run S B → Run S B
  (m >> next) s = continue (m s) (λ a. next)

  continue-returns :
      (r : S × Answer A) (next : A → Run S B) {b : B}
      → (continue r next).1 ≡ returns b
      → (a : A) × (r.1 ≡ returns a) × ((next a r.0).1 ≡ returns b)
  continue-returns (s, panics) next h = cc
  continue-returns (s, fails e) next h = cc
  continue-returns (s, returns a) next h = (a, refl, h)

  -- Both steps of a run that returns have returned.
  pub >>=-returns :
      (m : Run S A) (next : A → Run S B) (s : S) {b : B}
      → ((m >>= next) s).1 ≡ returns b
      → (a : A) × ((m s).1 ≡ returns a) × ((next a (m s).0).1 ≡ returns b)
  >>=-returns m next s h = continue-returns (m s) next h

module _ {S A : Type 0} where
  abbrev pub pure : A → Run S A
  pure a s = (s, returns a)

  abbrev pub fail : RlStatsError → Run S A
  fail e s = (s, fails e)

  -- a pure computation, `none` where it panics
  abbrev pub of_text : Option A → Run S A
  of_text none s = (s, panics)
  of_text (some a) s = (s, returns a)

-- `map_err(|source| RlStatsError::ConfigIo { path, source })`
abbrev pub or_config_io : {A : Type 0} → String → Outcome A → Answer A
or_config_io path (done a) = returns a
or_config_io path (failed source) = fails (config_io path source)
