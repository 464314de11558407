-- ===== src/Relay/Target.antt =====
-- sos_relay.rs: the address of the overlay. The crate `url` is the interface `UrlLib`.
use text.Mathlib.Text.{◌==◌}
use Prim.Native.Char.{code}
use rlstatsapi.Prelude.{
  ◌==◌ as same_code, ℕ, String, Bool, true, false, ◌&&◌, ◌||◌, Option, none, some, [], ◌∷◌,
  if◌then◌else◌,
}
use rlstatsapi.Text.{codes}
use rlstatsapi.Text.Trimmed.{trim_str, is_nothing}
use rlstatsapi.Arguments.{message, about, Cli, refuse, accept, ◌>>=◌}
use rlstatsapi.Commands.Defs.{show_u32}
use rlstatsapi.Commands.Wire.{join}
use rlstatsapi.Listener.Printing.{concat}

pub record WsTarget : Type 0 where
  pub scheme : String
  pub host : String
  pub port : ℕ
  pub path : String

unfoldable pub to_url : WsTarget → String
to_url target =
    concat (target.scheme ∷ "://" ∷ target.host ∷ ":" ∷ show_u32 target.port ∷ target.path ∷ [])

-- What `Url::parse` gives, by the methods that the relay calls.
pub record Url : Type 0 where
  pub scheme : String
  pub host_str : Option String
  pub port : Option ℕ
  pub path : String

pub record UrlLib : Type 0 where
  pub parse : String → Cli Url

abbrev pub starts_with : String → String → Bool
starts_with String.[] s = true
starts_with (String.◌∷◌ c p) String.[] = false
starts_with (String.◌∷◌ c p) (String.◌∷◌ d s) = same_code (code c) (code d) && starts_with p s

-- `s.contains(part)`
unfoldable pub contains_str : String → String → Bool
contains_str part String.[] = starts_with part ""
contains_str part (String.◌∷◌ c s) = starts_with part (String.◌∷◌ c s) || contains_str part s

unfoldable pub map_ws_scheme : String → Cli String
map_ws_scheme scheme =
    if scheme == "ws" || scheme == "http"
    then accept "ws"
    else if scheme == "wss" || scheme == "https"
    then accept "wss"
    else refuse
        (about "unsupported --ws-host scheme '" (codes scheme) "' (use ws, wss, http, or https)")

unfoldable pub default_port_for_ws_scheme : String → ℕ
default_port_for_ws_scheme scheme = if scheme == "wss" then 443 else 80

unfoldable pub normalize_ws_path : String → String
normalize_ws_path path =
    if is_nothing path || path == "/"
    then "/"
    else if starts_with "/" path
    then path
    else String.◌∷◌ "/" path

-- `ok_or("--ws-host must include a hostname")`
abbrev pub host_of : Option String → Cli String
host_of none = refuse (message "--ws-host must include a hostname")
host_of (some host) = accept host

-- the `match` on the port that was given, that of the URL, and whether there was a scheme
abbrev pub port_of : Option ℕ → Option ℕ → Bool → String → ℕ
port_of (some port) of_url explicit scheme = port
port_of none (some port) explicit scheme = port
port_of none none true scheme = default_port_for_ws_scheme scheme
port_of none none false scheme = 49122

abbrev pub path_of : Option String → String → String
path_of (some path) of_url = normalize_ws_path path
path_of none of_url = normalize_ws_path of_url

-- behind `Url::parse`
unfoldable pub target_at : String → Option ℕ → Option String → Url → Cli WsTarget
unfolding contains_str map_ws_scheme default_port_for_ws_scheme normalize_ws_path
target_at trimmed port_override path_override parsed_url = do
  scheme ← map_ws_scheme parsed_url.scheme
  host ← host_of parsed_url.host_str
  accept (record {
    scheme = scheme;
    host = host;
    port = port_of port_override parsed_url.port (contains_str "://" trimmed) scheme;
    path = path_of path_override parsed_url.path;
  })

module _ ⦃urls : UrlLib⦄ where
  -- behind the check for an empty host
  unfoldable pub target_of : String → Option ℕ → Option String → Cli WsTarget
  unfolding target_at
  target_of trimmed port_override path_override =
      urls.parse (if contains_str "://" trimmed then trimmed else join "ws://" trimmed)
      >>= (λ url. target_at trimmed port_override path_override url)

  unfoldable pub build_ws_target : String → Option ℕ → Option String → Cli WsTarget
  unfolding target_of trim_str
  build_ws_target input port_override path_override =
      if is_nothing (trim_str input)
      then refuse (message "--ws-host cannot be empty")
      else target_of (trim_str input) port_override path_override
