-- ===== src/Config/Prepared.antt =====
-- What holds of a configuration that `prepare_connection_config` returns.
use rlstatsapi.Prelude.{
  [], ◌≡◌, ◌≢◌, ◌⊎◌, refl, sym, ap, inl, inr, ℕ, String, Bool-cases, false, not, Option, none, some,
  unwrap_or, ◌&&◌, ◌==◌, arith,
}
use mathlib.Core.Path.{subst}
use rlstatsapi.Float.{FloatText}
use rlstatsapi.Config.Run.{continue, FileSystem, Run, Answer, panics, fails, returns, of_text}
use rlstatsapi.Config.Prepare.{
  ClientOptions, ConnectionConfig, Draft, default_web_port, settle_port, settle_rate, first_draft,
  finish, find_u16_value, find_f32_value, read_config_file, save, resolve_ini_path, resolve_path,
  ensure_ini_file_exists, prepare_with, prepare_connection_config,
}
use rlstatsapi.Config.Settling.{
  IsRate, IsPort, IsDraft, first_draft-IsDraft, settle_port-IsDraft, settle_rate-IsDraft,
  or_default_rate-IsDraft,
}

pub record IsSound (options : ClientOptions) (config : ConnectionConfig) : Type 0 where
  pub ports_differ : (config.web_port ≡ 0) ⊎ (config.web_port ≢ config.port)
  pub port_ok : IsPort options config.port
  pub rate_ok : IsRate config.packet_send_rate
  pub host_kept : config.host ≡ options.host
  pub ini_path_kept : config.ini_path ≡ options.stats_api_ini_path

returned : {A : Type 0} {a b : A} → returns a ≡ returns b → a ≡ b
returned h = cc

finish-IsSound :
    {S : Type 0} (options : ClientOptions) (ini_path : Option String) (web_port : ℕ) (d : Draft)
    (s : S) (config : ConnectionConfig)
    → (finish options ini_path web_port d s).1 ≡ returns config
    → ini_path ≡ options.stats_api_ini_path
    → IsDraft options d
    → IsSound options config
unfolding finish
finish-IsSound options ini_path web_port d s config h path i =
    elim (Bool-cases (not (web_port == 0) && web_port == d.port)) [
      | inl conflict ↦ cc (rw conflict at h)
      | inr differ ↦ subst (IsSound options) (returned (rw differ at h)) (record {
        ports_differ = apart differ;
        port_ok = i.port_ok;
        rate_ok = i.rate_ok;
        host_kept = refl;
        ini_path_kept = path;
      })
    ]
  where
    apart :
        (not (web_port == 0) && web_port == d.port) ≡ false → (web_port ≡ 0) ⊎ (web_port ≢ d.port)
    apart g = ground arith

-- Whatever a run returns has a property.
record Ensures {S A : Type 0} (P : A → Type 0) (r : S × Answer A) : Type 0 where
  holds : (a : A) → r.1 ≡ returns a → P a

module _ {S A : Type 0} where
  Ensures-bind :
      {B : Type 0} (Q : A → Type 0) (P : B → Type 0) (r : S × Answer A) (next : A → Run S B)
      → Ensures Q r
      → ((a : A) → Q a → (s : S) → Ensures P (next a s))
      → Ensures P (continue r next)
  Ensures-bind Q P (s, panics) next h k = record { holds = λ b e. cc }
  Ensures-bind Q P (s, fails why) next h k = record { holds = λ b e. cc }
  Ensures-bind Q P (s, returns a) next h k = k a (h.holds a refl) s

  Ensures-any : (r : S × Answer A) → Ensures (λ a. Unit {0}) r
  Ensures-any r = record { holds = λ a e. tt }

  Ensures-text : (o : Option A) (s : S) → Ensures (λ a. o ≡ some a) (of_text o s)
  Ensures-text none s = record { holds = λ a e. cc }
  Ensures-text (some b) s = record { holds = λ a e. ap some (returned e) }

module _ {S : Type 0} ⦃fs : FileSystem S⦄ ⦃floats : FloatText⦄ where
  prepare_with-IsSound :
      (options : ClientOptions) (ini_path : Option String) (s : S)
      → ini_path ≡ options.stats_api_ini_path
      → Ensures (IsSound options) (prepare_with options ini_path s)
  unfolding prepare_with
  prepare_with-IsSound options none s path = record {
    holds = λ config h.
        finish-IsSound options none default_web_port (first_draft options []) s config h path
          (first_draft-IsDraft options []);
  }
  prepare_with-IsSound options (some file) s path =
      Ensures-bind _ _ _ _ (Ensures-any (read_config_file file s)) λ ini any s1.
        Ensures-bind _ _ _ _ (Ensures-text (settle_port options (first_draft options ini)) s1)
          λ d1 e1 s2. Ensures-bind _ _ _ _ (Ensures-text (settle_rate options d1) s2) λ d2 e2 s3.
            Ensures-bind _ _ _ _ (Ensures-any (save file d2 s3)) λ written any s4.
              Ensures-bind _ _ _ _ (Ensures-text (find_f32_value d2.ini "PacketSendRate") s4)
                λ rate e3 s5.
                  Ensures-bind _ _ _ _ (Ensures-text (find_u16_value d2.ini "WebPort") s5)
                    λ web_port e4 s6. record {
                      holds = λ config h.
                          finish-IsSound options (some file) (unwrap_or web_port default_web_port) _
                            s6 config h path
                            (or_default_rate-IsDraft options d2 rate (
                              settle_rate-IsDraft options d1 d2 e2 (
                                settle_port-IsDraft options _ d1 e1
                                  (first_draft-IsDraft options ini))));
                    }

  resolve_ini_path-kept :
      (options : ClientOptions) (s : S)
      → Ensures (λ path. path ≡ options.stats_api_ini_path) (resolve_ini_path options s)
  unfolding resolve_ini_path
  resolve_ini_path-kept options s = resolved options.stats_api_ini_path
    where
      resolved : (path : Option String) → Ensures (λ p. p ≡ path) (resolve_path path s)
      resolved none = record { holds = λ a e. sym (returned e) }
      resolved (some path) =
          Ensures-bind _ _ _ _ (Ensures-any (ensure_ini_file_exists path s))
            λ done any s1. record { holds = λ a e. sym (returned e) }

  -- A configuration that is returned, whatever the file system does and the INI file says, has
  -- different ports or no web port, the prescribed port or one above 0, a rate that is neither
  -- below 0 nor above 120, and the host and the path of the options.
  pub prepare_connection_config-IsSound :
      (options : ClientOptions) (config : ConnectionConfig) (s : S)
      → (prepare_connection_config options s).1 ≡ returns config
      → IsSound options config
  unfolding prepare_connection_config
  prepare_connection_config-IsSound options config s h =
      (Ensures-bind _ _ _ _ (resolve_ini_path-kept options s)
          (λ path kept s1. prepare_with-IsSound options path s1 kept)).holds
        config h
