-- ===== src/Listener/Describing.antt =====
-- rl_events.rs: `describe_filters`, and the line that announces the stream.
use rlstatsapi.Prelude.{
  String, ℤ, Bool, true, false, ◌&&◌, ◌||◌, Option, none, some, List, [], ◌∷◌, ◌++◌, map, is_empty,
  ltb, ◌==◌, if◌then◌else◌,
}
use rlstatsapi.Text.{Text, codes}
use rlstatsapi.Sos.Players.{show_i64}
use rlstatsapi.Client.Connection.{RocketLeagueStatsClient, socket_address}
use rlstatsapi.Listener.Kinds.{event_kind_name}
use rlstatsapi.Listener.Options.{CliOptions, output_format_name}
use rlstatsapi.Listener.Printing.{concat}

-- The order of strings, by their code points.
unfoldable pub leb_text : Text → Text → Bool
leb_text [] t = true
leb_text (a ∷ s) [] = false
leb_text (a ∷ s) (b ∷ t) = ltb a b || (a == b && leb_text s t)

unfoldable pub insert_sorted : String → List String → List String
unfolding leb_text
insert_sorted s [] = s ∷ []
insert_sorted s (t ∷ more) =
    if leb_text (codes s) (codes t) then s ∷ t ∷ more else t ∷ insert_sorted s more

-- `sort_unstable`
unfoldable pub sort_unstable : List String → List String
unfolding insert_sorted
sort_unstable [] = []
sort_unstable (s ∷ more) = insert_sorted s (sort_unstable more)

-- `parts.join(between)`
abbrev pub join_with : String → List String → String
join_with between [] = ""
join_with between (s ∷ []) = s
join_with between (s ∷ t ∷ more) = concat (s ∷ between ∷ join_with between (t ∷ more) ∷ [])

-- `if let Some(a) = option { parts.push(format!("{label}{a}")); }`
abbrev pub part : String → Option String → List String
part label none = []
part label (some text) = concat (label ∷ text ∷ []) ∷ []

abbrev team_text : Option ℤ → Option String
team_text none = none
team_text (some team) = some (show_i64 team)

abbrev pub filter_parts : CliOptions → List String
filter_parts cli =
    (if is_empty cli.event_kinds
      then []
      else part "events="
          (some (join_with "," (sort_unstable (map event_kind_name cli.event_kinds)))))
    ++ (part "player=" cli.player_name
        ++ (part "player_id=" cli.player_primary_id
            ++ (part "team=" (team_text cli.team_num) ++ part "match=" cli.match_guid)))

unfoldable pub describe_filters : CliOptions → String
unfolding sort_unstable
describe_filters cli =
    if is_empty (filter_parts cli) then "all" else join_with " " (filter_parts cli)

-- the line that `run_stream_mode` prints once it is connected
unfoldable pub announcement : CliOptions → RocketLeagueStatsClient → String
unfolding describe_filters output_format_name
announcement cli client = concat (
    "Listening on "
    ∷ socket_address client.connection
    ∷ " (format="
    ∷ output_format_name cli.output_format
    ∷ ", filters="
    ∷ describe_filters cli
    ∷ ")"
    ∷ [])
