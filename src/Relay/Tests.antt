-- ===== src/Relay/Tests.antt =====
-- The relay's command line, where every URL is plain.
use rlstatsapi.Prelude.{◌≡◌, refl, String, none, some, List, [], ◌∷◌}
use rlstatsapi.Arguments.{accept}
use rlstatsapi.Arguments.Reading.{WhenParsed}
use rlstatsapi.Relay.Target.{
  UrlLib, build_ws_target, contains_str, normalize_ws_path, map_ws_scheme,
  default_port_for_ws_scheme, target_at, target_of,
}
use rlstatsapi.Text.Trimmed.{trim_str, trim_start_str, trim_end_str}
use rlstatsapi.Text.{is_whitespace}
use rlstatsapi.Relay.Options.{parse_args}
use rlstatsapi.Relay.Placing.{PortLaw, HasTarget, parse_args-HasTarget}

-- Every text is taken for this URL.
instance abbrev urls : UrlLib
urls = record {
  parse = λ input.
      accept (record {
        scheme = "https";
        host_str = some "overlay.rscna.com";
        port = none;
        path = "ws";
      });
}

law : PortLaw urls
law input = tt

abbrev arguments : List String
arguments = "--ws-host" ∷ "https://overlay.rscna.com/ws" ∷ "--debug" ∷ []

parse_args-HasTarget_example : WhenParsed HasTarget (parse_args arguments)
parse_args-HasTarget_example = parse_args-HasTarget law arguments

secure_target :
    build_ws_target "https://overlay.rscna.com/ws" none none
    ≡ accept (record { scheme = "wss"; host = "overlay.rscna.com"; port = 443; path = "/ws" })
unfolding build_ws_target target_of target_at trim_str trim_start_str trim_end_str is_whitespace
    contains_str normalize_ws_path map_ws_scheme default_port_for_ws_scheme
secure_target = refl
