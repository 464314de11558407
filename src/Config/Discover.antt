-- ===== src/Config/Discover.antt =====
-- config.rs: the search for the INI file in the places that the environment names.
use rlstatsapi.Prelude.{
  ◌≡◌, ◌⊎◌, sym, inl, inr, Bool-cases, some-injective, find_sound, AnyOf, String, Bool, true, false,
  Option, none, some, List, [], ◌∷◌, ◌++◌, find,
}

-- `Option` as a list of at most one element
abbrev pub to_list : {A : Type 0} → Option A → List A
to_list none = []
to_list (some a) = a ∷ []

abbrev pub stats_api_ini_file : String
stats_api_ini_file = "TAStatsAPI.ini"

abbrev pub stats_api_ini_fallback_file : String
stats_api_ini_fallback_file = "DefaultStatsAPI.ini"

-- `join` is `Path::join`, which depends on the platform, and `env` is `env::var`.
module _ (join : String → String → String) where
  abbrev pub override_file : String → String
  override_file dir = join dir stats_api_ini_file

  abbrev pub fallback_file : String → String
  fallback_file dir = join dir stats_api_ini_fallback_file

  unfoldable pub config_file_candidates : String → List String
  config_file_candidates dir = override_file dir ∷ fallback_file dir ∷ []

  -- the loop over the directories
  unfoldable pub all_candidates : List String → List String
  all_candidates [] = []
  all_candidates (dir ∷ more) = config_file_candidates dir ++ all_candidates more

  abbrev pub home_dirs : Option String → List String
  home_dirs none = []
  home_dirs (some home) =
      join home ".local/share/Steam/steamapps/common/rocketleague/TAGame/Config"
      ∷ join home ".steam/steam/steamapps/common/rocketleague/TAGame/Config"
      ∷ join home
          ".steam/steam/steamapps/compatdata/252950/pfx/drive_c/users/steamuser/Documents/My Games/Rocket League/TAGame/Config"
      ∷ []

  abbrev pub dir_under : Option String → String → List String
  dir_under none rest = []
  dir_under (some root) rest = join root rest ∷ []

  unfoldable pub config_dirs : (String → Option String) → List String
  config_dirs env =
      home_dirs (env "HOME")
      ++ (dir_under (env "ProgramFiles") "Rocket League/TAGame/Config"
          ++ (dir_under (env "ProgramFiles(x86)") "Rocket League/TAGame/Config"
              ++ dir_under (env "APPDATA") "..\\Local\\Rocket League\\TAGame\\Config"))

  unfoldable pub default_stats_api_ini_candidates : (String → Option String) → List String
  default_stats_api_ini_candidates env =
      to_list (env "RL_STATS_API_INI") ++ all_candidates (config_dirs env)

  unfoldable pub discover_default_stats_api_ini_path :
      (String → Bool) → (String → Option String) → Option String
  discover_default_stats_api_ini_path exists env =
      find exists (default_stats_api_ini_candidates env)

  -- The path is the override file of the directory, or its fallback while that is missing.
  pub Serves : (String → Bool) → String → String → Type 0
  Serves exists path dir =
      (path ≡ override_file dir)
      ⊎ ((path ≡ fallback_file dir) × (exists (override_file dir) ≡ false))

  module _ (exists : String → Bool) (env : String → Option String) (path : String) where
    served :
        (dirs : List String)
        → find exists (all_candidates dirs) ≡ some path
        → AnyOf (Serves exists path) dirs
    unfolding all_candidates config_file_candidates Serves
    served [] h = cc
    served (dir ∷ more) h = elim (Bool-cases (exists (override_file dir))) [
      | inl there ↦ inl (inl (sym (some-injective _ _ (rw there at h))))
      | inr missing ↦ elim (Bool-cases (exists (fallback_file dir))) [
        | inl there ↦ inl (inr (sym (some-injective _ _ (rw (missing, there) at h)), missing))
        | inr neither ↦ inr (served more (rw (missing, neither) at h))
      ]
    ]

    from_env :
        (given : Option String) (rest : List String)
        → find exists (to_list given ++ rest) ≡ some path
        → (given ≡ some path) ⊎ (find exists rest ≡ some path)
    from_env none rest h = inr h
    from_env (some p) rest h = elim (Bool-cases (exists p)) [
      | inl there ↦ inl (rw there at h)
      | inr missing ↦ inr (rw missing at h)
    ]

    -- A path that is discovered exists, and is the one that the variable prescribes, or is the
    -- override file of one of the directories, or the fallback file of one while its override is
    -- missing.
    pub discover_default_stats_api_ini_path_sound :
        discover_default_stats_api_ini_path exists env ≡ some path
        → (exists path ≡ true)
          × ((env "RL_STATS_API_INI" ≡ some path) ⊎ AnyOf (Serves exists path) (config_dirs env))
    unfolding discover_default_stats_api_ini_path default_stats_api_ini_candidates
    discover_default_stats_api_ini_path_sound h = (
      find_sound exists _ h,
      elim (from_env (env "RL_STATS_API_INI") (all_candidates (config_dirs env)) h) [
        | inl given ↦ inl given
        | inr later ↦ inr (served (config_dirs env) later)
      ],
    )
