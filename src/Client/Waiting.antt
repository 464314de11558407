-- ===== src/Client/Waiting.antt =====
-- The client waits while only white space has arrived.
use rlstatsapi.Prelude.{◌≡◌, ap, sym, ◌∙◌, inl, inr, List, [], ◌∷◌, ◌++◌}
use rlstatsapi.Json.{JsonLib}
use rlstatsapi.Events.Wire.{Derived}
use rlstatsapi.Client.Buffer.{
  Bytes, JsonStream, Read, chunk, broken, discard_leading_whitespace, waits,
  try_parse_event_from_buffer, turn, next_event,
}
use rlstatsapi.Client.Stream.{bytes_of, IsFlowing, discard-cases, discard-append, discard-part}
use rlstatsapi.Client.Chunks.{try_parse-blank}

-- The front of a text of white space.
front_blank :
    (b q : Bytes) → discard_leading_whitespace (b ++ q) ≡ [] → discard_leading_whitespace b ≡ []
front_blank b q h = elim (discard-cases b) [
  | inl blank ↦ blank
  | inr (c, s, visible, e) ↦ cc (discard-part b q s c e visible, h)
]

module _ {N : Type 0} ⦃lib : JsonLib N⦄ ⦃stream : JsonStream N⦄ ⦃serde : Derived N⦄ where
  turn-blank :
      (reads : List Read) (b : Bytes)
      → IsFlowing reads
      → discard_leading_whitespace (b ++ bytes_of reads) ≡ []
      → turn {N = N} reads (try_parse_event_from_buffer b) ≡ waits []
  unfolding turn
  turn-blank [] b flowing h = rw (try_parse-blank {N = N} b (front_blank b [] h))
  turn-blank (chunk [] ∷ reads) b flowing h = absurd flowing
  turn-blank (broken source ∷ reads) b flowing h = absurd flowing
  turn-blank (chunk (c ∷ s) ∷ reads) b flowing h =
      let blank = front_blank b ((c ∷ s) ++ bytes_of reads) h in
      rw (try_parse-blank {N = N} b blank) (
        turn-blank reads (c ∷ s) flowing (
          ap (λ w. discard_leading_whitespace (w ++ ((c ∷ s) ++ bytes_of reads))) (sym blank)
          ∙ discard-append b ((c ∷ s) ++ bytes_of reads)
          ∙ h))

  pub next_event-blank :
      (reads : List Read) (b : Bytes)
      → IsFlowing reads
      → discard_leading_whitespace (b ++ bytes_of reads) ≡ []
      → next_event {N = N} b reads ≡ waits []
  unfolding next_event
  next_event-blank = turn-blank
