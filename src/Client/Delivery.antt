-- ===== src/Client/Delivery.antt =====
-- The client delivers the messages of the text in their order.
use rlstatsapi.Prelude.{
  ℕ, zero, suc, ◌<◌, ◌≡◌, refl, ap, sym, ◌∙◌, Bool-cases, inl, inr, Option, some, List, [], ◌∷◌,
  ◌++◌, map, length, arith, if◌then◌else◌,
}
use mathlib.Core.Path.{subst}
use rlstatsapi.Error.{Result, ok, err, map_ok}
use rlstatsapi.Json.{object, Fields, JsonLib}
use rlstatsapi.Events.Data.{StatsEvent}
use rlstatsapi.Events.Wire.{Derived, parse_stats_event_value}
use rlstatsapi.Filters.Matching.{EventFilter, matches}
use rlstatsapi.Client.Buffer.{Bytes, JsonStream, Read, Poll, waits, ready, next_event}
use rlstatsapi.Client.Stream.{StreamLaws, Messages, end, more, bytes_of, IsFlowing}
use rlstatsapi.Client.Chunks.{next_event-Hands}
use rlstatsapi.Client.Waiting.{next_event-blank}
use rlstatsapi.Client.Events.{event_stream, filtered_event_stream, next_filtered_event}

module _ {N : Type 0} ⦃lib : JsonLib N⦄ ⦃stream : JsonStream N⦄ ⦃serde : Derived N⦄ where
  -- What the messages say.
  abbrev pub parsed : List (Fields N) → List (Result (StatsEvent N))
  parsed fs = map (λ f. parse_stats_event_value (object f)) fs

  -- The errors, and the events that pass.
  abbrev pub passing : EventFilter → List (Result (StatsEvent N)) → List (Result (StatsEvent N))
  passing filter [] = []
  passing filter (err e ∷ rs) = err e ∷ passing filter rs
  passing filter (ok event ∷ rs) =
      if matches filter event then ok event ∷ passing filter rs else passing filter rs

  event_stream-ready :
      (calls : ℕ) (b : Bytes) (reads : List Read) (r : Result (StatsEvent N)) (b' : Bytes)
      (reads' : List Read)
      → next_event b reads ≡ ready (map_ok some r) b' reads'
      → event_stream (suc calls) b reads ≡ r ∷ event_stream calls b' reads'
  unfolding event_stream
  event_stream-ready calls b reads (ok event) b' reads' h = rw h
  event_stream-ready calls b reads (err e) b' reads' h = rw h

  filtered_event_stream-ready :
      (filter : EventFilter) (calls : ℕ) (b : Bytes) (reads : List Read) (r : Result (StatsEvent N))
      (b' : Bytes) (reads' : List Read) (rs : List (Result (StatsEvent N)))
      → next_event b reads ≡ ready (map_ok some r) b' reads'
      → filtered_event_stream filter calls b' reads' ≡ passing filter rs
      → filtered_event_stream filter (suc calls) b reads ≡ passing filter (r ∷ rs)
  unfolding filtered_event_stream
  filtered_event_stream-ready filter calls b reads (ok event) b' reads' rs h later = rw (h, later)
  filtered_event_stream-ready filter calls b reads (err e) b' reads' rs h later = rw (h, later)

  -- The call is answered by the first of some results, and waits where there is none.
  abbrev pub Answers : List (Result (StatsEvent N)) → Option (Poll N) → Type 0
  Answers [] poll = (buffer : Bytes) × (poll ≡ some (waits buffer))
  Answers (r ∷ rs) poll =
      (buffer : Bytes) × (reads : List Read) × (poll ≡ some (ready (map_ok some r) buffer reads))

  next_filtered_event-waits :
      (filter : EventFilter) (calls : ℕ) (b : Bytes) (reads : List Read) {b' : Bytes}
      → next_event {N = N} b reads ≡ waits b'
      → Answers [] (next_filtered_event filter (suc calls) b reads)
  unfolding next_filtered_event
  next_filtered_event-waits filter calls b reads {b'} h = (b', rw h)

  next_filtered_event-ready :
      (filter : EventFilter) (calls : ℕ) (b : Bytes) (reads : List Read) (r : Result (StatsEvent N))
      (b' : Bytes) (reads' : List Read) (rs : List (Result (StatsEvent N)))
      → next_event b reads ≡ ready (map_ok some r) b' reads'
      → Answers (passing filter rs) (next_filtered_event filter calls b' reads')
      → Answers (passing filter (r ∷ rs)) (next_filtered_event filter (suc calls) b reads)
  unfolding next_filtered_event
  next_filtered_event-ready filter calls b reads (err e) b' reads' rs h later = (b', reads', rw h)
  next_filtered_event-ready filter calls b reads (ok event) b' reads' rs h later =
      elim (Bool-cases (matches filter event)) [
        | inl passes ↦ rw (passes, h, passes) (b', reads', refl)
        | inr skipped ↦ rw (skipped, h, skipped) later
      ]

module _ {N : Type 0} ⦃lib : JsonLib N⦄ ⦃stream : JsonStream N⦄ ⦃serde : Derived N⦄
    (laws : StreamLaws stream) where
  -- The stream delivers the messages of the text in their order, each as the event that it says or
  -- the error of reading it, however the socket cuts the text into reads, by what is documented of
  -- the reader of JSON streams.
  pub event_stream-Messages :
      (fs : List (Fields N)) (b : Bytes) (reads : List Read)
      → IsFlowing reads
      → Messages stream (b ++ bytes_of reads) fs
      → event_stream (length fs) b reads ≡ parsed fs
  unfolding event_stream
  event_stream-Messages [] b reads flowing m = refl
  event_stream-Messages (f ∷ fs) b reads flowing (more _ _ n _ h later) =
      let hands = next_event-Hands laws reads b f n flowing h in
      event_stream-ready (length fs) b reads (parse_stats_event_value (object f)) hands.buffer
        hands.reads hands.result
      ∙ ap (λ rest. parse_stats_event_value (object f) ∷ rest)
          (event_stream-Messages fs hands.buffer hands.reads hands.flowing
            (subst (λ w. Messages stream w fs) (sym hands.left) later))

  -- The filtered stream delivers, of the messages of the text, the errors and the events that
  -- pass, in their order, however the socket cuts the text into reads.
  pub filtered_event_stream-Messages :
      (filter : EventFilter) (fs : List (Fields N)) (b : Bytes) (reads : List Read)
      → IsFlowing reads
      → Messages stream (b ++ bytes_of reads) fs
      → filtered_event_stream filter (length fs) b reads ≡ passing filter (parsed fs)
  unfolding filtered_event_stream
  filtered_event_stream-Messages filter [] b reads flowing m = refl
  filtered_event_stream-Messages filter (f ∷ fs) b reads flowing (more _ _ n _ h later) =
      let hands = next_event-Hands laws reads b f n flowing h in
      filtered_event_stream-ready filter (length fs) b reads (parse_stats_event_value (object f))
        hands.buffer hands.reads (parsed fs) hands.result
        (filtered_event_stream-Messages filter fs hands.buffer hands.reads hands.flowing
          (subst (λ w. Messages stream w fs) (sym hands.left) later))

  -- With one call more than there are messages in the text, a filtered call comes to an end: it
  -- answers with the first error, or the first event that passes, and waits for the socket where
  -- there is neither.
  pub next_filtered_event-Messages :
      (filter : EventFilter) (fs : List (Fields N)) (b : Bytes) (reads : List Read) (calls : ℕ)
      → IsFlowing reads
      → Messages stream (b ++ bytes_of reads) fs
      → length fs < calls
      → Answers (passing filter (parsed fs)) (next_filtered_event filter calls b reads)
  next_filtered_event-Messages filter fs b reads zero flowing m enough = absurd (omega arith)
  next_filtered_event-Messages filter [] b reads (suc calls) flowing (end _ blank) enough =
      next_filtered_event-waits filter calls b reads (next_event-blank reads b flowing blank)
  next_filtered_event-Messages filter (f ∷ fs) b reads (suc calls) flowing (more _ _ n _ h later)
        enough =
      let hands = next_event-Hands laws reads b f n flowing h in
      next_filtered_event-ready filter calls b reads (parse_stats_event_value (object f))
        hands.buffer hands.reads (parsed fs) hands.result
        (next_filtered_event-Messages filter fs hands.buffer hands.reads calls hands.flowing
          (subst (λ w. Messages stream w fs) (sym hands.left) later) (omega arith))
