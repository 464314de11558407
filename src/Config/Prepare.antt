-- ===== src/Config/Prepare.antt =====
-- config.rs: options and configuration of a connection, and `prepare_connection_config`.
use rlstatsapi.Prelude.{
  ℕ, ◌^◌, String, Bool, true, false, not, ◌&&◌, Option, none, some, and_then, map_some, filter_some,
  unwrap_or, is_some, [], ◌∷◌, is_empty, ltb, ◌==◌, if◌then◌else◌,
}
use rlstatsapi.Text.{Text, codes, parse_unsigned}
use rlstatsapi.Float.{F64, FloatText, zero_f64, of_ℕ, clamp, le_f64}
use rlstatsapi.Error.{port_conflict}
use rlstatsapi.Commands.Defs.{show_u32}
use rlstatsapi.Config.Ini.{find_string_value, upsert_key}
use rlstatsapi.Config.Run.{FileSystem, returns, Run, ◌>>=◌, ◌>>◌, pure, fail, of_text, or_config_io}

abbrev pub default_port : ℕ
default_port = 49123

abbrev pub default_web_port : ℕ
default_web_port = 49124

abbrev pub default_ini_template : Text
default_ini_template =
    codes
      "[TAGame.MatchStatsExporter_TA]\n\n; Port the client will listen for connections on\nPort=49123\n\n; Port the client will listen for WebSocket connections on (must differ from Port, 0 disables this feature)\nWebPort=49124\n\n; How many times per second the game sends the update state (capped at 120, 0 disables this feature)\nPacketSendRate=60\n"

-- An `f32` is written as the double of the same value.
pub record ClientOptions : Type 0 where
  pub host : String
  pub port_override : Option ℕ
  pub stats_api_ini_path : Option String
  pub auto_enable_packet_rate : Bool
  pub packet_send_rate : F64
  pub set_packet_rate_only_when_zero : Bool

-- `ClientOptions::default`
unfoldable pub default_options : ClientOptions
default_options = record {
  host = "127.0.0.1";
  port_override = none;
  stats_api_ini_path = none;
  auto_enable_packet_rate = true;
  packet_send_rate = of_ℕ 60;
  set_packet_rate_only_when_zero = true;
}

pub record ConnectionConfig : Type 0 where
  pub host : String
  pub port : ℕ
  pub web_port : ℕ
  pub packet_send_rate : F64
  pub ini_path : Option String
  pub ini_mutated : Bool

-- 0.0 and MAX_PACKET_SEND_RATE are the bounds
unfoldable pub clamp_rate : F64 → F64
clamp_rate rate = clamp rate zero_f64 (of_ℕ 120)

-- `while s.ends_with(c) { s.pop(); }`
unfoldable pub pop_all : ℕ → Text → Text
pop_all last [] = []
pop_all last (c ∷ s) =
    let rest = pop_all last s in if c == last && is_empty rest then [] else c ∷ rest

-- `if s.ends_with(c) { s.pop(); }`
unfoldable pub pop_one : ℕ → Text → Text
pop_one last [] = []
pop_one last (c ∷ []) = if c == last then [] else c ∷ []
pop_one last (c ∷ d ∷ s) = c ∷ pop_one last (d ∷ s)

-- The text of a rate from its text with three decimals.
unfoldable pub shorten : Text → Text
unfolding pop_all pop_one
shorten formatted =
    let popped = pop_one b'.' (pop_all b'0' formatted) in
    if is_empty popped then b'0' ∷ [] else popped

unfoldable pub format_rate : ⦃floats : FloatText⦄ → F64 → Text
format_rate ⦃floats = floats⦄ rate = shorten (floats.format_3 rate)

unfoldable pub find_f32_value : ⦃floats : FloatText⦄ → Text → String → Option (Option F64)
find_f32_value ⦃floats = floats⦄ contents key =
    map_some (λ raw. and_then raw floats.parse_f32) (find_string_value contents (codes key))

unfoldable pub find_u16_value : Text → String → Option (Option ℕ)
find_u16_value contents key =
    map_some (λ raw. and_then raw (parse_unsigned (2 ^ 16)))
      (find_string_value contents (codes key))

-- The variables of `prepare_connection_config`.
pub record Draft : Type 0 where
  pub ini : Text
  pub port : ℕ
  pub packet_send_rate : F64
  pub ini_mutated : Bool

abbrev pub with_key : Draft → String → Text → Option Draft
with_key d key value =
    map_some (λ ini. record d { ini = ini; ini_mutated = true })
      (upsert_key d.ini (codes key) value)

-- the port of the file if it has a valid one, and else the draft's port, written into the file
abbrev pub take_port : Draft → Option ℕ → Option Draft
take_port d (some valid_port) = some (record d { port = valid_port })
take_port d none = with_key d "Port" (codes (show_u32 d.port))

unfoldable pub settle_port : ClientOptions → Draft → Option Draft
settle_port options d =
    if is_some options.port_override
    then some d
    else and_then (find_u16_value d.ini "Port") (λ parsed. take_port d (filter_some (ltb 0) parsed))

abbrev pub or_default_rate : F64 → Option F64 → F64
or_default_rate d none = d
or_default_rate d (some rate) = clamp_rate rate

module _ ⦃floats : FloatText⦄ where
  unfoldable pub settle_rate : ClientOptions → Draft → Option Draft
  settle_rate options d =
      if options.auto_enable_packet_rate
      then and_then (find_f32_value d.ini "PacketSendRate") (λ found.
        let existing_rate = unwrap_or found zero_f64 in
        let should_set =
          if options.set_packet_rate_only_when_zero then le_f64 existing_rate zero_f64 else true in
        if should_set
        then with_key d "PacketSendRate" (format_rate d.packet_send_rate)
        else some (record d { packet_send_rate = clamp_rate existing_rate }))
      else some d

-- Before the file is read.
unfoldable pub first_draft : ClientOptions → Text → Draft
first_draft options ini = record {
  ini = ini;
  port = unwrap_or options.port_override default_port;
  packet_send_rate = clamp_rate options.packet_send_rate;
  ini_mutated = false;
}

-- the test of the ports, and the result
unfoldable pub finish :
    {S : Type 0} → ClientOptions → Option String → ℕ → Draft → Run S ConnectionConfig
finish options ini_path web_port d =
    if not (web_port == 0) && web_port == d.port
    then fail (port_conflict d.port)
    else pure (record {
      host = options.host;
      port = d.port;
      web_port = web_port;
      packet_send_rate = d.packet_send_rate;
      ini_path = ini_path;
      ini_mutated = d.ini_mutated;
    })

module _ {S : Type 0} ⦃fs : FileSystem S⦄ where
  unfoldable pub write_config_file : String → Text → Run S (Unit {0})
  write_config_file path contents s =
      let (after, outcome) = fs.write s path contents in (after, or_config_io path outcome)

  unfoldable pub read_config_file : String → Run S Text
  read_config_file path s = (s, or_config_io path (fs.read_to_string s path))

  -- `if ini_mutated { write_config_file(path, &ini)?; }`
  unfoldable pub save : String → Draft → Run S (Unit {0})
  save path d = if d.ini_mutated then write_config_file path d.ini else pure tt

  abbrev pub create_parent : Option String → Run S (Unit {0})
  create_parent none s = (s, returns tt)
  create_parent (some parent) s =
      let (after, outcome) = fs.create_dir_all s parent in (after, or_config_io parent outcome)

  unfoldable pub ensure_ini_file_exists : String → Run S (Unit {0})
  unfolding write_config_file
  ensure_ini_file_exists path s =
      if fs.exists s path
      then (s, returns tt)
      else (create_parent (fs.parent path) >> write_config_file path default_ini_template) s

  abbrev pub resolve_path : Option String → Run S (Option String)
  resolve_path none = pure none
  resolve_path (some path) = do ensure_ini_file_exists path; pure (some path)

  unfoldable pub resolve_ini_path : ClientOptions → Run S (Option String)
  resolve_ini_path options = resolve_path options.stats_api_ini_path

  module _ ⦃floats : FloatText⦄ where
    unfoldable pub prepare_with : ClientOptions → Option String → Run S ConnectionConfig
    prepare_with options none = finish options none default_web_port (first_draft options [])
    prepare_with options (some path) = do
      ini ← read_config_file path
      with_port ← of_text (settle_port options (first_draft options ini))
      d ← of_text (settle_rate options with_port)
      save path d
      found_rate ← of_text (find_f32_value d.ini "PacketSendRate")
      found_web_port ← of_text (find_u16_value d.ini "WebPort")
      finish options (some path) (unwrap_or found_web_port default_web_port)
          (record d { packet_send_rate = or_default_rate d.packet_send_rate found_rate })

    unfoldable pub prepare_connection_config : ClientOptions → Run S ConnectionConfig
    prepare_connection_config options = do
      ini_path ← resolve_ini_path options
      prepare_with options ini_path
