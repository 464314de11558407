-- ===== src/Listener/Choosing.antt =====
-- What the options of the command line ask of an event, and their bounds.
use rlstatsapi.Prelude.{
  String, ℤ, ◌≡◌, ◌↔◌, refl, true, Option, none, some, List, [], ◌∷◌, is_empty, if◌then◌else◌,
}
use rlstatsapi.Events.Data.{StatsEvent}
use rlstatsapi.Filters.Kind.{EventKind, kind_of}
use rlstatsapi.Filters.Matching.{
  EventFilter, new, contains, extend_kinds, include_kinds, with_player_name, with_player_primary_id,
  with_team_num, with_match_guid, matches,
}
use rlstatsapi.Filters.Selecting.{
  Accepts, matches_iff, contains-extend_kinds, extend_kinds-cons-ne-empty,
}
use rlstatsapi.Listener.Options.{CliOptions, build_event_filter, with_some}

-- The filter whose fields are the options.
abbrev pub asked : CliOptions → EventFilter
asked cli = record {
  kinds = cli.event_kinds;
  player_name = cli.player_name;
  player_primary_id = cli.player_primary_id;
  team_num = cli.team_num;
  match_guid = cli.match_guid;
}

-- Options in the place of the missing ones.
module _ (kinds : List EventKind) (name id : Option String) (team : Option ℤ) where
  guid_filled :
      (guid : Option String)
      → with_some with_match_guid guid (record {
        kinds = kinds;
        player_name = name;
        player_primary_id = id;
        team_num = team;
        match_guid = none;
      })
        ≡ record {
          kinds = kinds;
          player_name = name;
          player_primary_id = id;
          team_num = team;
          match_guid = guid;
        }
  unfolding with_match_guid
  guid_filled none = refl
  guid_filled (some g) = refl

module _ (kinds : List EventKind) (name id : Option String) where
  team_filled :
      (team : Option ℤ)
      → with_some with_team_num team (record {
        kinds = kinds;
        player_name = name;
        player_primary_id = id;
        team_num = none;
        match_guid = none;
      })
        ≡ record {
          kinds = kinds;
          player_name = name;
          player_primary_id = id;
          team_num = team;
          match_guid = none;
        }
  unfolding with_team_num
  team_filled none = refl
  team_filled (some g) = refl

id_filled :
    (kinds : List EventKind) (name id : Option String)
    → with_some with_player_primary_id id (record {
      kinds = kinds;
      player_name = name;
      player_primary_id = none;
      team_num = none;
      match_guid = none;
    })
      ≡ record {
        kinds = kinds;
        player_name = name;
        player_primary_id = id;
        team_num = none;
        match_guid = none;
      }
unfolding with_player_primary_id
id_filled kinds name none = refl
id_filled kinds name (some g) = refl

name_filled :
    (kinds : List EventKind) (name : Option String)
    → with_some with_player_name name (record new { kinds = kinds }) ≡ record {
      kinds = kinds;
      player_name = name;
      player_primary_id = none;
      team_num = none;
      match_guid = none;
    }
unfolding with_player_name
name_filled kinds none = refl
name_filled kinds (some g) = refl

abbrev collected : List EventKind → List EventKind
collected kinds = if is_empty kinds then [] else extend_kinds [] kinds

base :
    (kinds : List EventKind)
    → ◌≡◌ {A = EventFilter}
        (if is_empty kinds then new else include_kinds kinds new)
        (record new { kinds = collected kinds })
unfolding include_kinds
base [] = refl
base (k ∷ kinds) = refl

build_event_filter-asked :
    (cli : CliOptions)
    → build_event_filter cli ≡ record (asked cli) { kinds = collected cli.event_kinds }
unfolding build_event_filter
build_event_filter-asked cli =
    let ks = collected cli.event_kinds in
    rw
      (
        base cli.event_kinds,
        name_filled ks cli.player_name,
        id_filled ks cli.player_name cli.player_primary_id,
        team_filled ks cli.player_name cli.player_primary_id cli.team_num,
      )
      (guid_filled ks cli.player_name cli.player_primary_id cli.team_num cli.match_guid)

same_kinds :
    {N : Type 0} (f : EventFilter) (kinds : List EventKind) (e : StatsEvent N)
    → matches (record f { kinds = collected kinds }) e ≡ matches (record f { kinds = kinds }) e
unfolding contains
same_kinds f [] e = refl
same_kinds f (k ∷ more) e =
    unfold matches in
    rw (extend_kinds-cons-ne-empty [] k more, contains-extend_kinds [] (k ∷ more) (kind_of e)) refl

-- The filter built from the options lets an event through exactly when the event has what each
-- option that was given asks for.
pub build_event_filter-Accepts :
    {N : Type 0} (cli : CliOptions) (e : StatsEvent N)
    → (matches (build_event_filter cli) e ≡ true) ↔ Accepts (asked cli) e
build_event_filter-Accepts cli e =
    rw (build_event_filter-asked cli, same_kinds (asked cli) cli.event_kinds e)
      (matches_iff (asked cli) e)
