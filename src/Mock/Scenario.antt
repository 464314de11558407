-- ===== src/Mock/Scenario.antt =====
-- mock_broadcast.rs: the scenario, its selection, and the loop that sends it.
use text.Mathlib.Text.{◌==◌}
use rlstatsapi.Prelude.{
  ℕ, zero, suc, String, Bool, not, Option, none, some, and_then, or_else, is_some_and, List, [],
  ◌∷◌, map, any, length, is_empty, leb, if◌then◌else◌,
}
use rlstatsapi.Text.{Text, codes, eq_text}
use rlstatsapi.Text.Ordered.{sorted_set}
use rlstatsapi.Json.{Value, get_value, as_str, JsonLib}
use rlstatsapi.Sos.Translate.{SosEnvelope}
use rlstatsapi.Mock.Options.{CliOptions}
use rlstatsapi.Mock.Randomizer.{Division, UpdateStateRandomizer, nth}
use rlstatsapi.Mock.Payload.{next_update_state_payload}

-- The message of an unknown filter lists the unknown and the known names, sorted.
pub data Selection (N : Type 0) : Type 0 where
  unknown_events : (unknown : List Text) (known : List Text) → Selection N
  empty_scenario : Selection N
  selection : List (SosEnvelope N) → Selection N

-- The ticks are over and the loop waits for more, a call panicked, or it came to one of its ends.
pub data Ended : Type 0 where
  waits panics reached_max completed_once : Ended

module _ {N : Type 0} where
  abbrev is_update : SosEnvelope N → Bool
  is_update envelope = envelope.event == "game:update_state"

  abbrev guid_of : SosEnvelope N → Option String
  guid_of envelope =
      if is_update envelope then and_then (get_value envelope.payload "match_guid") as_str else none

  abbrev first_guid : List (SosEnvelope N) → Option String
  first_guid [] = none
  first_guid (envelope ∷ more) = or_else (guid_of envelope) (first_guid more)

  unfoldable pub match_guid_for_scenario : List (SosEnvelope N) → String
  match_guid_for_scenario scenario = or_example (first_guid scenario)
    where
      or_example : Option String → String
      or_example none = "M-EXAMPLE-123"
      or_example (some guid) = guid

  abbrev pub events_of : List (SosEnvelope N) → List String
  events_of templates = map (λ envelope. envelope.event) templates

  -- The filter is the name of the envelope's event.
  abbrev pub is_named : Text → SosEnvelope N → Bool
  is_named filter envelope = eq_text filter (codes envelope.event)

  abbrev pub is_event : List (SosEnvelope N) → Text → Bool
  is_event templates filter = any (is_named filter) templates

  abbrev pub is_wanted : List Text → SosEnvelope N → Bool
  is_wanted filters envelope = any (λ filter. is_named filter envelope) filters

  -- The filters that no template has, and the templates that some filter names.
  abbrev pub unknown_filters : List (SosEnvelope N) → List Text → List Text
  unknown_filters templates [] = []
  unknown_filters templates (filter ∷ filters) =
      if is_event templates filter
      then unknown_filters templates filters
      else filter ∷ unknown_filters templates filters

  abbrev pub wanted_templates : List Text → List (SosEnvelope N) → List (SosEnvelope N)
  wanted_templates filters [] = []
  wanted_templates filters (envelope ∷ templates) =
      if is_wanted filters envelope
      then envelope ∷ wanted_templates filters templates
      else wanted_templates filters templates

  -- `BTreeSet`, or a `HashSet` that is sorted, of the names of the templates
  unfoldable pub available_events : List (SosEnvelope N) → List Text
  available_events templates = sorted_set (map codes (events_of templates))

  unfoldable pub select_scenario : List (SosEnvelope N) → List Text → Selection N
  unfolding available_events
  select_scenario templates filters =
      let unknown = sorted_set (unknown_filters templates filters) in
      let selected = wanted_templates filters templates in
      if is_empty filters
      then selection templates
      else if not (is_empty unknown)
      then unknown_events unknown (available_events templates)
      else if is_empty selected
      then empty_scenario
      else selection selected

  -- What was sent, and how the loop ended.
  abbrev pub put : SosEnvelope N → List (SosEnvelope N) × Ended → List (SosEnvelope N) × Ended
  put envelope (sent, ended) = (envelope ∷ sent, ended)

  -- behind a tick that sent an envelope
  abbrev pub after_tick :
      CliOptions
      → List (SosEnvelope N)
      → ℕ
      → ℕ
      → (ℕ → List (SosEnvelope N) × Ended)
      → List (SosEnvelope N) × Ended
  after_tick options scenario sent index next =
      if is_some_and (λ max. leb max sent) options.max_events
      then ([], reached_max)
      else if leb (length scenario) index
      then (if options.loop_events then next zero else ([], completed_once))
      else next index

  abbrev pub at_tick :
      Option (UpdateStateRandomizer N × SosEnvelope N)
      → (UpdateStateRandomizer N → List (SosEnvelope N) × Ended)
      → List (SosEnvelope N) × Ended
  at_tick none next = ([], panics)
  at_tick (some (r, envelope)) next = put envelope (next r)

  module _ ⦃lib : JsonLib N⦄ ⦃division : Division⦄ where
    abbrev pub randomized :
        SosEnvelope N
        → Option (UpdateStateRandomizer N × Value N)
        → Option (UpdateStateRandomizer N × SosEnvelope N)
    randomized template none = none
    randomized template (some (r, v)) = some (r, record template { payload = v })

    unfoldable pub envelope_for_send :
        SosEnvelope N → UpdateStateRandomizer N → Option (UpdateStateRandomizer N × SosEnvelope N)
    envelope_for_send template r =
        if is_update template
        then randomized template (next_update_state_payload r)
        else some (r, template)

    -- The loop for a number of ticks, with the counts `sent` and `index`.
    unfoldable pub send_loop :
        CliOptions
        → List (SosEnvelope N)
        → ℕ
        → ℕ
        → ℕ
        → UpdateStateRandomizer N
        → List (SosEnvelope N) × Ended
    unfolding envelope_for_send
    send_loop options scenario zero sent index r = ([], waits)
    send_loop options scenario (suc ticks) sent index r =
        at_tick (and_then (nth scenario index) (λ template. envelope_for_send template r)) (λ s.
          after_tick options scenario (suc sent) (suc index)
            (λ i. send_loop options scenario ticks (suc sent) i s))
