-- ===== src/Config/Tests.antt =====
-- The configuration at sample texts, and on a file system of one file.
use rlstatsapi.Prelude.{
  ◌⊎◌, ◌||◌, AnyOf, Option, Bool, String, ◌<◌, arith, ◌≡◌, refl, true, none, some, [], ◌∷◌,
  if◌then◌else◌,
}
use rlstatsapi.Text.{
  Text, codes, is_whitespace, eq_ignore_ascii_case, to_ascii_lowercase, trim, trim_start, trim_end,
  parse_unsigned, digits_value,
}
use rlstatsapi.Float.{of_ℕ, le_f64}
use rlstatsapi.Samples.{sample_floats}
use rlstatsapi.Config.Ini.{
  utf8_len, split_bytes, leading_blanks, split_once, is_skipped, read_pair, split_key_value, lines,
  join_lines, find_in, find_string_value, upsert_in, needs_gap, with_missing, upsert_key,
}
use rlstatsapi.Config.Plain.{is_plain}
use rlstatsapi.Config.Formatted.{starts_key, IsKey, IsValue}
use rlstatsapi.Config.Breaking.{all_plain}
use rlstatsapi.Config.Found.{upsert_key-find_string_value}
use rlstatsapi.Commands.Wire.{join}
use rlstatsapi.Config.Discover.{
  discover_default_stats_api_ini_path, default_stats_api_ini_candidates, config_dirs,
  all_candidates, config_file_candidates, Serves, discover_default_stats_api_ini_path_sound,
}
use text.Mathlib.Text.{◌==◌}
use rlstatsapi.Config.Panics.{find_in-panics}
use rlstatsapi.Config.Run.{FileSystem, done, returns}
use rlstatsapi.Config.Prepare.{
  ClientOptions, ConnectionConfig, default_options, clamp_rate, pop_all, pop_one, shorten,
  format_rate, find_f32_value, find_u16_value, settle_port, settle_rate, first_draft, finish,
  write_config_file, read_config_file, save, ensure_ini_file_exists, resolve_ini_path, prepare_with,
  prepare_connection_config,
}
use rlstatsapi.Config.Prepared.{IsSound, prepare_connection_config-IsSound}

abbrev ini_text : Text
ini_text = codes "[TAGame]\r\n  Port = 5000 \n; Port=1\nWebPort=0\n"

port-IsKey : IsKey (codes "Port")
unfolding starts_key is_plain is_whitespace trim_end
port-IsKey = record { starts = refl; plain_text = refl; apart = refl; ends = refl }

seven-IsValue : IsValue (codes "7")
unfolding is_plain trim_start trim_end
seven-IsValue = record { plain_text = refl; starts = refl; ends = refl }

-- The line that is found keeps its indentation, and the last line break is lost.
upsert_runs :
    upsert_key ini_text (codes "Port") (codes "7")
    ≡ some (codes "[TAGame]\n  Port=7\n; Port=1\nWebPort=0")
unfolding upsert_key upsert_in split_key_value split_bytes leading_blanks utf8_len read_pair
    is_skipped split_once trim trim_start trim_end eq_ignore_ascii_case to_ascii_lowercase
    with_missing join_lines needs_gap lines is_whitespace
upsert_runs = refl

-- A key that is missing goes behind an empty line.
upsert_appends :
    upsert_key (codes "[TAGame]") (codes "Port") (codes "7") ≡ some (codes "[TAGame]\n\nPort=7")
unfolding upsert_key upsert_in split_key_value split_bytes leading_blanks utf8_len read_pair
    is_skipped split_once trim trim_start trim_end eq_ignore_ascii_case to_ascii_lowercase
    with_missing join_lines needs_gap lines is_whitespace
upsert_appends = refl

shorten_runs : (shorten (codes "60.000") ≡ codes "60") × (shorten (codes "0.500") ≡ codes "0.5")
unfolding shorten pop_all pop_one
shorten_runs = (refl, refl)

lines_plain : all_plain (lines ini_text) ≡ true
unfolding lines is_plain
lines_plain = refl

upsert_key-find_string_value_example :
    (after : Text) × (upsert_key ini_text (codes "Port") (codes "7") ≡ some after)
    × (find_string_value after (codes "PORT") ≡ (
        if eq_ignore_ascii_case (codes "Port") (codes "PORT")
        then some (some (codes "7"))
        else find_string_value ini_text (codes "PORT")))
upsert_key-find_string_value_example =
    upsert_key-find_string_value (codes "Port") (codes "7") port-IsKey seven-IsValue ini_text
      (codes "PORT") lines_plain

no_break_space :
    (is_whitespace 0xa0 ≡ true) × (1 < utf8_len 0xa0) × (leading_blanks (codes "Port=1") ≡ 0)
unfolding is_whitespace utf8_len leading_blanks
no_break_space = (refl, omega arith, refl)

find_in-panics_example : find_in ((0xa0 ∷ codes "Port=1") ∷ []) (codes "Port") ≡ none
find_in-panics_example =
    find_in-panics 0xa0 (codes "Port=1") [] (codes "Port") no_break_space.0 no_break_space.1
      no_break_space.2

-- One file, which is there.
instance abbrev one_file : FileSystem Text
one_file = record {
  exists = λ s path. true;
  parent = λ path. none;
  create_dir_all = λ s path. (s, done tt);
  read_to_string = λ s path. done s;
  write = λ s path contents. (contents, done tt);
}

abbrev options : ClientOptions
options = record default_options { stats_api_ini_path = some "x.ini" }

abbrev config : ConnectionConfig
config = record {
  host = "127.0.0.1";
  port = 5000;
  web_port = 0;
  packet_send_rate = clamp_rate (of_ℕ 60);
  ini_path = some "x.ini";
  ini_mutated = true;
}

prepare_runs : (prepare_connection_config options ini_text).1 ≡ returns config
unfolding prepare_connection_config prepare_with resolve_ini_path ensure_ini_file_exists save
    read_config_file write_config_file finish first_draft settle_rate settle_port find_u16_value
    find_f32_value format_rate shorten pop_all pop_one default_options le_f64 upsert_key upsert_in
    find_string_value find_in split_key_value split_bytes leading_blanks utf8_len read_pair
    is_skipped split_once trim trim_start trim_end eq_ignore_ascii_case to_ascii_lowercase
    with_missing join_lines needs_gap lines is_whitespace parse_unsigned digits_value
prepare_runs = refl

prepare_connection_config-IsSound_example : IsSound options config
prepare_connection_config-IsSound_example =
    prepare_connection_config-IsSound options config ini_text prepare_runs

abbrev slash : String → String → String
slash a b = join a (join "/" b)

-- An environment with one Windows directory, in which both files exist.
abbrev windows : String → Option String
windows name = if name == "ProgramFiles" then some "P" else none

abbrev both_files : String → Bool
both_files path =
    path == "P/Rocket League/TAGame/Config/DefaultStatsAPI.ini"
    || path == "P/Rocket League/TAGame/Config/TAStatsAPI.ini"

discover_runs :
    discover_default_stats_api_ini_path slash both_files windows
    ≡ some "P/Rocket League/TAGame/Config/TAStatsAPI.ini"
unfolding discover_default_stats_api_ini_path default_stats_api_ini_candidates config_dirs
    all_candidates config_file_candidates
discover_runs = refl

discover_default_stats_api_ini_path_sound_example :
    (both_files "P/Rocket League/TAGame/Config/TAStatsAPI.ini" ≡ true)
    × ((windows "RL_STATS_API_INI" ≡ some "P/Rocket League/TAGame/Config/TAStatsAPI.ini")
        ⊎ AnyOf
            (Serves slash both_files "P/Rocket League/TAGame/Config/TAStatsAPI.ini")
            (config_dirs slash windows))
discover_default_stats_api_ini_path_sound_example =
    discover_default_stats_api_ini_path_sound slash both_files windows
      "P/Rocket League/TAGame/Config/TAStatsAPI.ini" discover_runs
