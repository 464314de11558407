-- ===== src/Client/Malformed.antt =====
-- What follows a text that is no JSON.
use rlstatsapi.Prelude.{ℕ, zero, suc, ◌≡◌, refl, ap, String, List, [], ◌∷◌}
use rlstatsapi.Error.{err, json}
use rlstatsapi.Json.{JsonLib}
use rlstatsapi.Events.Wire.{Derived}
use rlstatsapi.Client.Buffer.{
  Bytes, JsonStream, malformed, Read, discard_leading_whitespace, ready, parse_item,
  try_parse_event_from_buffer, turn, next_event,
}
use rlstatsapi.Client.Stream.{discard_twice}
use rlstatsapi.Client.Events.{event_stream}

abbrev pub replicate : {A : Type 0} → ℕ → A → List A
replicate zero a = []
replicate (suc n) a = a ∷ replicate n a

module _ {N : Type 0} ⦃lib : JsonLib N⦄ ⦃stream : JsonStream N⦄ ⦃serde : Derived N⦄ where
  next_event-malformed :
      (c : ℕ) (s b : Bytes) (reads : List Read) (error : String)
      → discard_leading_whitespace b ≡ c ∷ s
      → stream.next (c ∷ s) ≡ malformed error
      → next_event {N = N} b reads ≡ ready (err (json error)) (c ∷ s) reads
  unfolding next_event turn try_parse_event_from_buffer parse_item
  next_event-malformed c s b reads error e h = rw (e, h)

  -- A text that is no JSON is never taken from the buffer: the stream gives the same error at
  -- every later call and does not end, whatever the socket delivers.
  pub event_stream-malformed :
      (calls c : ℕ) (s b : Bytes) (reads : List Read) (error : String)
      → discard_leading_whitespace b ≡ c ∷ s
      → stream.next (c ∷ s) ≡ malformed error
      → event_stream {N = N} calls b reads ≡ replicate calls (err (json error))
  unfolding event_stream
  event_stream-malformed zero c s b reads error e h = refl
  event_stream-malformed (suc calls) c s b reads error e h =
      rw (next_event-malformed c s b reads error e h) (
        ap (λ rest. err (json error) ∷ rest)
          (event_stream-malformed calls c s (c ∷ s) reads error (discard_twice c s b e) h))
