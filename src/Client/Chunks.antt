-- ===== src/Client/Chunks.antt =====
-- How the socket cuts the text into reads does not matter.
use mathlib.Core.List.{append_assoc, append-nil}
use rlstatsapi.Prelude.{
  ℕ, ◌≤◌, ◌<◌, ◌≡◌, ◌⊎◌, inl, inr, refl, ap, sym, ◌∙◌, none, some, List, [], ◌∷◌, ◌++◌, length,
  arith,
}
use mathlib.Core.Path.{subst}
use rlstatsapi.Error.{Result, ok, err, map_ok}
use rlstatsapi.Json.{object, Fields, JsonLib}
use rlstatsapi.Events.Data.{StatsEvent}
use rlstatsapi.Events.Wire.{Derived, parse_stats_event_value}
use rlstatsapi.Client.Buffer.{
  Bytes, value, JsonStream, Read, chunk, broken, drop, discard_leading_whitespace, Poll, ready,
  parse_item, try_parse_event_from_buffer, turn, next_event,
}
use rlstatsapi.Client.Stream.{
  StreamLaws, bytes_of, IsFlowing, discard-cases, discard-append, discard-part, drop-append,
}

le_or_lt : (m n : ℕ) → (m ≤ n) ⊎ (n < m)
le_or_lt m n = ground arith

module _ {N : Type 0} ⦃lib : JsonLib N⦄ ⦃stream : JsonStream N⦄ ⦃serde : Derived N⦄ where
  -- The call hands the object out and leaves the text behind it, in the buffer or unread.
  pub record Hands (f : Fields N) (rest : Bytes) (poll : Poll N) : Type 0 where
    pub buffer : Bytes
    pub reads : List Read
    pub result : poll ≡ ready (map_ok some (parse_stats_event_value (object f))) buffer reads
    pub left : buffer ++ bytes_of reads ≡ rest
    pub flowing : IsFlowing reads

  pub try_parse-blank :
      (b : Bytes)
      → discard_leading_whitespace b ≡ []
      → try_parse_event_from_buffer {N = N} b ≡ (ok none, [])
  unfolding try_parse_event_from_buffer
  try_parse-blank b h = rw h

  try_parse-item :
      (b s : Bytes) (c : ℕ)
      → discard_leading_whitespace b ≡ c ∷ s
      → try_parse_event_from_buffer b ≡ parse_item (c ∷ s) (stream.next (c ∷ s))
  unfolding try_parse_event_from_buffer
  try_parse-item b s c h = rw h

  turn-parsed :
      (reads : List Read) (r : Result (StatsEvent N)) (b : Bytes)
      → turn reads (map_ok some r, b) ≡ ready (map_ok some r) b reads
  unfolding turn
  turn-parsed reads (ok event) b = refl
  turn-parsed reads (err e) b = refl

module _ {N : Type 0} ⦃lib : JsonLib N⦄ ⦃stream : JsonStream N⦄ ⦃serde : Derived N⦄
    (laws : StreamLaws stream) where
  -- The object is in the buffer.
  found :
      (p : Bytes) (reads : List Read) (f : Fields N) (n : ℕ)
      → IsFlowing reads
      → stream.next (p ++ bytes_of reads) ≡ value (object f) n
      → n ≤ length p
      → Hands f (drop n (p ++ bytes_of reads)) (turn reads (parse_item p (stream.next p)))
  unfolding parse_item
  found p reads f n flowing h fits = record {
    buffer = drop n p;
    reads = reads;
    result =
        rw (laws.complete p (bytes_of reads) f n h fits)
          (turn-parsed reads (parse_stats_event_value (object f)) (drop n p));
    left = sym (drop-append n p (bytes_of reads) fits);
    flowing = flowing;
  }

  -- Without a read left, the object is in the buffer.
  nothing_left :
      (b p : Bytes) (f : Fields N) (n : ℕ)
      → stream.next (discard_leading_whitespace (b ++ [])) ≡ value (object f) n
      → discard_leading_whitespace b ≡ p
      → length p < n
      → ⊥
  nothing_left b p f n h e short =
      let (positive, fits) = laws.offset _ f n h in
      omega (arith, fits, ap length (ap discard_leading_whitespace (append-nil b) ∙ e), short)

  -- The next read is added to the buffer.
  after_read :
      (reads : List Read) (b p : Bytes) (c : ℕ) (s : Bytes) (f : Fields N) (n : ℕ)
      → stream.next (discard_leading_whitespace (b ++ ((c ∷ s) ++ bytes_of reads)))
        ≡ value (object f) n
      → discard_leading_whitespace b ≡ p
      → ((b' : Bytes)
          → stream.next (discard_leading_whitespace (b' ++ bytes_of reads)) ≡ value (object f) n
          → Hands f
              (drop n (discard_leading_whitespace (b' ++ bytes_of reads)))
              (turn reads (try_parse_event_from_buffer b')))
      → Hands f
          (drop n (discard_leading_whitespace (b ++ ((c ∷ s) ++ bytes_of reads))))
          (turn (chunk (c ∷ s) ∷ reads) (ok none, p))
  unfolding turn
  after_read reads b p c s f n h e later =
      subst (λ w. Hands f (drop n w) (turn reads (try_parse_event_from_buffer (p ++ c ∷ s)))) same
        (later (p ++ c ∷ s) (ap stream.next same ∙ h))
    where
      same :
          discard_leading_whitespace ((p ++ c ∷ s) ++ bytes_of reads)
          ≡ discard_leading_whitespace (b ++ ((c ∷ s) ++ bytes_of reads))
      same =
          ap discard_leading_whitespace (append_assoc p (c ∷ s) (bytes_of reads))
          ∙ ap (λ w. discard_leading_whitespace (w ++ ((c ∷ s) ++ bytes_of reads))) (sym e)
          ∙ discard-append b ((c ∷ s) ++ bytes_of reads)

  -- From the buffer alone, or else once the rest was read.
  from_buffer :
      (reads : List Read) (b : Bytes) (f : Fields N) (n : ℕ)
      → IsFlowing reads
      → stream.next (discard_leading_whitespace (b ++ bytes_of reads)) ≡ value (object f) n
      → ((p : Bytes)
          → discard_leading_whitespace b ≡ p
          → length p < n
          → Hands f
              (drop n (discard_leading_whitespace (b ++ bytes_of reads)))
              (turn reads (ok none, p)))
      → Hands f
          (drop n (discard_leading_whitespace (b ++ bytes_of reads)))
          (turn reads (try_parse_event_from_buffer b))
  unfolding parse_item
  from_buffer reads b f n flowing h later = elim (discard-cases b) [
    | inl blank ↦ rw (try_parse-blank b blank) (later [] blank (laws.offset _ f n h).0)
    | inr (c, s, visible, e) ↦
        let same = discard-part b (bytes_of reads) s c e visible in
        let here : stream.next ((c ∷ s) ++ bytes_of reads) ≡ value (object f) n =
          ap stream.next (sym same) ∙ h in
        elim (le_or_lt n (length (c ∷ s))) [
          | inl fits ↦ rw (try_parse-item b s c e, same) (found (c ∷ s) reads f n flowing here fits)
          | inr short ↦
              rw
                (
                  try_parse-item b s c e,
                  laws.incomplete c s (bytes_of reads) f n visible here short,
                )
                (later (c ∷ s) e short)
        ]
  ]

  from_turn :
      (reads : List Read) (b : Bytes) (f : Fields N) (n : ℕ)
      → IsFlowing reads
      → stream.next (discard_leading_whitespace (b ++ bytes_of reads)) ≡ value (object f) n
      → Hands f
          (drop n (discard_leading_whitespace (b ++ bytes_of reads)))
          (turn reads (try_parse_event_from_buffer b))
  from_turn [] b f n flowing h =
      from_buffer [] b f n flowing h (λ p e short. absurd (nothing_left b p f n h e short))
  from_turn (chunk [] ∷ reads) b f n flowing h = absurd flowing
  from_turn (broken source ∷ reads) b f n flowing h = absurd flowing
  from_turn (chunk (c ∷ s) ∷ reads) b f n flowing h =
      from_buffer (chunk (c ∷ s) ∷ reads) b f n flowing h
        (λ p e short. after_read reads b p c s f n h e (λ b' h'. from_turn reads b' f n flowing h'))

  pub next_event-Hands :
      (reads : List Read) (b : Bytes) (f : Fields N) (n : ℕ)
      → IsFlowing reads
      → stream.next (discard_leading_whitespace (b ++ bytes_of reads)) ≡ value (object f) n
      → Hands f (drop n (discard_leading_whitespace (b ++ bytes_of reads))) (next_event b reads)
  unfolding next_event
  next_event-Hands = from_turn
