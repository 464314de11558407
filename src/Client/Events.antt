-- ===== src/Client/Events.antt =====
-- client.rs: the streams of events and the filtered call, over `next_event`.
use rlstatsapi.Prelude.{ℕ, zero, suc, Option, none, some, List, [], ◌∷◌, if◌then◌else◌}
use rlstatsapi.Error.{Result, ok, err}
use rlstatsapi.Json.{JsonLib}
use rlstatsapi.Events.Data.{StatsEvent}
use rlstatsapi.Events.Wire.{Derived}
use rlstatsapi.Filters.Matching.{EventFilter, matches}
use rlstatsapi.Client.Buffer.{Bytes, JsonStream, Read, Poll, waits, ready, next_event}

module _ {N : Type 0} ⦃lib : JsonLib N⦄ ⦃stream : JsonStream N⦄ ⦃serde : Derived N⦄ where
  -- One round of the stream, with the later rounds as a function.
  abbrev pub stream_round :
      (Bytes → List Read → List (Result (StatsEvent N))) → Poll N → List (Result (StatsEvent N))
  stream_round later (ready (ok (some event)) buffer reads) = ok event ∷ later buffer reads
  stream_round later (ready (ok none) buffer reads) = []
  stream_round later (ready (err error) buffer reads) = err error ∷ later buffer reads
  stream_round later (waits buffer) = []

  -- The items that `into_event_stream` gives in a number of calls of `next_event`.
  unfoldable pub event_stream : ℕ → Bytes → List Read → List (Result (StatsEvent N))
  event_stream zero read_buffer reads = []
  event_stream (suc calls) read_buffer reads =
      stream_round (event_stream calls) (next_event read_buffer reads)

  abbrev pub filtered_round :
      EventFilter
      → (Bytes → List Read → List (Result (StatsEvent N)))
      → Poll N
      → List (Result (StatsEvent N))
  filtered_round filter later (ready (ok (some event)) buffer reads) =
      let rest = later buffer reads in if matches filter event then ok event ∷ rest else rest
  filtered_round filter later (ready (ok none) buffer reads) = []
  filtered_round filter later (ready (err error) buffer reads) = err error ∷ later buffer reads
  filtered_round filter later (waits buffer) = []

  -- The same for `into_filtered_event_stream`.
  unfoldable pub filtered_event_stream :
      EventFilter → ℕ → Bytes → List Read → List (Result (StatsEvent N))
  filtered_event_stream filter zero read_buffer reads = []
  filtered_event_stream filter (suc calls) read_buffer reads =
      filtered_round filter (filtered_event_stream filter calls) (next_event read_buffer reads)

  abbrev pub skip_round :
      EventFilter → (Bytes → List Read → Option (Poll N)) → Poll N → Option (Poll N)
  skip_round filter later (ready (ok (some event)) buffer reads) =
      let rest = later buffer reads in
      if matches filter event then some (ready (ok (some event)) buffer reads) else rest
  skip_round filter later poll = some poll

  -- `next_filtered_event`, with a bound on its calls of `next_event`; `none` past the bound.
  unfoldable pub next_filtered_event : EventFilter → ℕ → Bytes → List Read → Option (Poll N)
  next_filtered_event filter zero read_buffer reads = none
  next_filtered_event filter (suc calls) read_buffer reads =
      skip_round filter (next_filtered_event filter calls) (next_event read_buffer reads)
