-- ===== src/Events/Naming.antt =====
-- The names by which events are recognised.
use text.Mathlib.Text.{◌==◌}
use rlstatsapi.Prelude.{
  String, sym, ◌∙◌, ◌||◌, Bool, true, false, ◌≡◌, refl, ap, List, [], ◌∷◌, Option, none, some,
  arith, if◌then◌else◌, unwrap_or,
}
use rlstatsapi.Error.{RlStatsError, Result, ok, err, map_ok, ok-injective, >>=-eq-ok}
use rlstatsapi.Json.{Value, string, JsonLib}
use rlstatsapi.Events.Data.{EventEnvelope, StatsEvent, UnknownEvent, unknown}
use rlstatsapi.Events.Wire.{
  Derived, stats_event_name, normalize_event_data, event_of, parse_event_envelope,
}

-- The names of the wire, each with the name of the event that it stands for.
abbrev pub known_names : List (String × String)
known_names =
    ("UpdateState", "UpdateState")
    ∷ ("BallHit", "BallHit")
    ∷ ("BoostPickup", "BoostPickup")
    ∷ ("ClockUpdatedSeconds", "ClockUpdatedSeconds")
    ∷ ("CountdownBegin", "CountdownBegin")
    ∷ ("CrossbarHit", "CrossbarHit")
    ∷ ("GoalReplayEnd", "GoalReplayEnd")
    ∷ ("ReplayEnd", "GoalReplayEnd")
    ∷ ("GoalReplayStart", "GoalReplayStart")
    ∷ ("ReplayStart", "GoalReplayStart")
    ∷ ("GoalReplayWillEnd", "GoalReplayWillEnd")
    ∷ ("ReplayWillEnd", "GoalReplayWillEnd")
    ∷ ("GoalScored", "GoalScored")
    ∷ ("MatchCreated", "MatchCreated")
    ∷ ("MatchInitialized", "MatchInitialized")
    ∷ ("MatchDestroyed", "MatchDestroyed")
    ∷ ("MatchEnded", "MatchEnded")
    ∷ ("MatchPaused", "MatchPaused")
    ∷ ("MatchUnpaused", "MatchUnpaused")
    ∷ ("PlayerJoined", "PlayerJoined")
    ∷ ("PlayerLeft", "PlayerLeft")
    ∷ ("PodiumStart", "PodiumStart")
    ∷ ("ReplayCreated", "ReplayCreated")
    ∷ ("RoundStarted", "RoundStarted")
    ∷ ("StatfeedEvent", "StatfeedEvent")
    ∷ []

pub find_name : String → List (String × String) → Option String
find_name name [] = none
find_name name ((wire, event) ∷ rest) = if name == wire then some event else find_name name rest

-- The event's name for a name of the wire.
unfoldable pub canonical_name : String → String
unfolding find_name
canonical_name name = unwrap_or (find_name name known_names) "Unknown"

-- A result of the `match` on names beside the entry that the table has for the name: the event is
-- called so, and without an entry it is the unknown event.
pub record Agrees {N : Type 0} (u : UnknownEvent N) (r : Result (StatsEvent N))
    (entry : Option String) : Type 0 where
  pub named : (e : StatsEvent N) → r ≡ ok e → stats_event_name e ≡ unwrap_or entry "Unknown"
  pub falls : entry ≡ none → r ≡ ok (unknown u)

module _ {N : Type 0} {u : UnknownEvent N} where
  Agrees-last : Agrees u (ok (unknown u)) none
  unfolding stats_event_name
  Agrees-last = record { named = λ e h. ground arith; falls = λ h. refl }

  Agrees-arm :
      {A : Type 0} (arm : A → StatsEvent N) {name : String} (r : Result A)
      → ((a : A) → stats_event_name (arm a) ≡ name)
      → Agrees u (map_ok arm r) (some name)
  Agrees-arm arm (ok a) h = record {
    named = λ e p. ap stats_event_name (sym (ok-injective p)) ∙ h a;
    falls = λ p. cc;
  }
  Agrees-arm arm (err x) h = record { named = λ e p. cc; falls = λ p. cc }

  Agrees-if :
      (b : Bool) {x y : Result (StatsEvent N)} {s : String} {o : Option String}
      → Agrees u x (some s)
      → Agrees u y o
      → Agrees u (if b then x else y) (if b then some s else o)
  Agrees-if true h k = h
  Agrees-if false h k = k

  Agrees-or :
      (a b : Bool) {x y : Result (StatsEvent N)} {s : String} {o : Option String}
      → Agrees u x (some s)
      → Agrees u y o
      → Agrees u (if a || b then x else y) (if a then some s else if b then some s else o)
  Agrees-or true b h k = h
  Agrees-or false true h k = h
  Agrees-or false false h k = k

ruleset agreement = (Agrees-last, Agrees-arm, Agrees-if, Agrees-or)

pub event_of-Agrees :
    {N : Type 0} ⦃serde : Derived N⦄ (name : String) (d : Value N)
    → Agrees (record { event = name; payload = d }) (event_of name d) (find_name name known_names)
unfolding event_of find_name stats_event_name
event_of-Agrees name d = search agreement depth 60

module _ {N : Type 0} ⦃lib : JsonLib N⦄ ⦃serde : Derived N⦄ where
  -- A parsed event is called by the name that the table of names has for the envelope's, and
  -- "Unknown" where the table has none.
  pub parse-name :
      (envelope : EventEnvelope N) (e : StatsEvent N)
      → parse_event_envelope envelope ≡ ok e
      → stats_event_name e ≡ canonical_name envelope.event
  unfolding parse_event_envelope canonical_name
  parse-name envelope e h =
      let (d, _, arm) = >>=-eq-ok (normalize_event_data envelope.payload) _ h in
      (event_of-Agrees envelope.event d).named e arm

  -- An envelope with a name that the table lacks is parsed whatever it holds, once a text for its
  -- data has been read as JSON: the event is unknown, with the name and that data unchanged.
  pub parse-unknown :
      (envelope : EventEnvelope N) (d : Value N)
      → find_name envelope.event known_names ≡ none
      → normalize_event_data envelope.payload ≡ ok d
      → parse_event_envelope envelope
        ≡ ok (unknown (record { event = envelope.event; payload = d }))
  unfolding parse_event_envelope
  parse-unknown envelope d missing normal =
      rw normal ((event_of-Agrees envelope.event d).falls missing)

  -- Data that is a text but no JSON is an error, whatever the name.
  pub parse-bad_text :
      (name raw : String) (x : RlStatsError)
      → lib.from_str raw ≡ err x
      → parse_event_envelope {N = N} (record { event = name; payload = string raw }) ≡ err x
  unfolding parse_event_envelope
  parse-bad_text name raw x h = rw h
