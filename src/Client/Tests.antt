-- ===== src/Client/Tests.antt =====
-- The client on a sample stream of two messages, and on a network that refuses once.
use rlstatsapi.Prelude.{
  ℕ, ◌-◌, ◌≤◌, ◌<◌, ◌≡◌, refl, Bool-cases, inl, inr, true, false, none, List, [], ◌∷◌, ◌++◌, length,
  arith, ◌==◌, if◌then◌else◌,
}
use rlstatsapi.Text.{codes, is_ascii_whitespace}
use rlstatsapi.Error.{Result, err, json}
use rlstatsapi.Json.{object, string, Fields, field, end}
use rlstatsapi.Events.Wire.{Derived}
use rlstatsapi.Samples.{Num, sample_lib, sample_derived, sample_floats}
use rlstatsapi.Client.Buffer.{
  Bytes, StreamItem, value, ends_early, malformed, no_value, JsonStream, Read, chunk,
  discard_leading_whitespace,
}
use rlstatsapi.Client.Events.{event_stream, filtered_event_stream, next_filtered_event}
use rlstatsapi.Client.Delivery.{
  parsed, passing, Answers, event_stream-Messages, filtered_event_stream-Messages,
  next_filtered_event-Messages,
}
use rlstatsapi.Filters.Kind.{goal_scored}
use rlstatsapi.Filters.Matching.{EventFilter, new, include_kind}
use rlstatsapi.Events.Data.{StatsEvent}
use rlstatsapi.Config.Run.{FileSystem, done, failed}
use rlstatsapi.Config.Prepare.{
  default_options, prepare_connection_config, resolve_ini_path, prepare_with, finish, first_draft,
}
use rlstatsapi.Client.Malformed.{replicate, event_stream-malformed}
use rlstatsapi.Client.Connection.{
  Network, retry, connect_socket, connect, connect_with_retry, socket_address,
}
use rlstatsapi.Client.Retrying.{ComesFrom, connect_with_retry-ComesFrom}
use rlstatsapi.Client.Stream.{StreamLaws, Messages, bytes_of}

abbrev pause : Fields Num
pause = field "event" (string "MatchPaused") (field "data" (object end) end)

abbrev inside : Bytes → StreamItem Num
inside [] = ends_early
inside (c ∷ s) = if c == b'}' then value (object pause) 2 else malformed "expected `}`"

-- The one object of this stream is written "{}".
unfoldable next_sample : Bytes → StreamItem Num
next_sample [] = no_value
next_sample (c ∷ s) = if c == b'{' then inside s else malformed "expected value"

instance abbrev stream : JsonStream Num
stream = record { next = next_sample }

inside-two :
    (s : Bytes) (f : Fields Num) (n : ℕ) → inside s ≡ value (object f) n → (n ≡ 2) × (1 ≤ length s)
inside-two [] f n h = cc
inside-two (c ∷ s) f n h = elim (Bool-cases (c == b'}')) [
  | inl closes ↦ (two (rw closes at h), omega arith)
  | inr other ↦ cc (rw other at h)
]
  where
    two : ◌≡◌ {A = StreamItem Num} (value (object pause) 2) (value (object f) n) → n ≡ 2
    two e = cc

next_sample-two :
    (c : ℕ) (s : Bytes) (f : Fields Num) (n : ℕ)
    → next_sample (c ∷ s) ≡ value (object f) n
    → ((c == b'{') ≡ true) × (n ≡ 2) × (2 ≤ length (c ∷ s))
unfolding next_sample
next_sample-two c s f n h = elim (Bool-cases (c == b'{')) [
  | inl opens ↦
      let (two, long) = inside-two s f n (rw opens at h) in (opens, two, omega (arith, long))
  | inr other ↦ cc (rw other at h)
]

offset_lem :
    (b : Bytes) (f : Fields Num) (n : ℕ)
    → next_sample b ≡ value (object f) n
    → (0 < n) × (n ≤ length b)
unfolding next_sample
offset_lem [] f n h = cc
offset_lem (c ∷ s) f n h =
    let (opens, two, long) = next_sample-two c s f n h in
    (omega (arith, two), omega (arith, two, long))

complete_lem :
    (p q : Bytes) (f : Fields Num) (n : ℕ)
    → next_sample (p ++ q) ≡ value (object f) n
    → n ≤ length p
    → next_sample p ≡ value (object f) n
unfolding next_sample
complete_lem [] q f n h fits = absurd (omega (arith, (offset_lem q f n h).0, fits))
complete_lem (a ∷ []) q f n h fits = absurd (omega (arith, (next_sample-two a q f n h).1, fits))
complete_lem (a ∷ b ∷ p) q f n h fits = h

incomplete_lem :
    (c : ℕ) (p q : Bytes) (f : Fields Num) (n : ℕ)
    → is_ascii_whitespace c ≡ false
    → next_sample ((c ∷ p) ++ q) ≡ value (object f) n
    → length (c ∷ p) < n
    → next_sample (c ∷ p) ≡ ends_early
unfolding next_sample
incomplete_lem c [] q f n visible h short = rw ((next_sample-two c q f n h).0)
incomplete_lem c (d ∷ p) q f n visible h short =
    absurd (omega (arith, (next_sample-two c ((d ∷ p) ++ q) f n h).1, short))

abbrev laws : StreamLaws stream
laws = record { offset = offset_lem; complete = complete_lem; incomplete = incomplete_lem }

instance abbrev derived : Derived Num
derived = sample_derived

-- Two messages in three reads, which cut both of them.
abbrev reads : List Read
reads = chunk (codes " {") ∷ chunk (codes "} {") ∷ chunk (codes "}\n") ∷ []

messages : Messages stream ([] ++ bytes_of reads) (pause ∷ pause ∷ [])
unfolding discard_leading_whitespace next_sample is_ascii_whitespace
messages =
    Messages.more _ pause 2 (pause ∷ []) refl
      (Messages.more _ pause 2 [] refl (Messages.end _ refl))

event_stream-Messages_example : event_stream 2 [] reads ≡ parsed (pause ∷ pause ∷ [])
event_stream-Messages_example = event_stream-Messages laws (pause ∷ pause ∷ []) [] reads tt messages

abbrev goals_only : EventFilter
goals_only = include_kind goal_scored new

filtered_event_stream-Messages_example :
    filtered_event_stream goals_only 2 [] reads ≡ passing goals_only (parsed (pause ∷ pause ∷ []))
filtered_event_stream-Messages_example =
    filtered_event_stream-Messages laws goals_only (pause ∷ pause ∷ []) [] reads tt messages

next_filtered_event-Messages_example :
    Answers (passing new (parsed (pause ∷ pause ∷ []))) (next_filtered_event new 3 [] reads)
next_filtered_event-Messages_example =
    next_filtered_event-Messages laws new (pause ∷ pause ∷ []) [] reads 3 tt messages (omega arith)

blank_front : discard_leading_whitespace (codes " ]") ≡ codes "]"
unfolding discard_leading_whitespace is_ascii_whitespace
blank_front = refl

bracket_malformed : next_sample (codes "]") ≡ malformed "expected value"
unfolding next_sample
bracket_malformed = refl

event_stream-malformed_example :
    event_stream 3 (codes " ]") []
    ≡ replicate {A = Result (StatsEvent Num)} 3 (err (json "expected value"))
event_stream-malformed_example =
    event_stream-malformed 3 b']' [] (codes " ]") [] "expected value" blank_front bracket_malformed

-- A world that refuses some more connections, one fewer after every pause.
instance abbrev no_files : FileSystem ℕ
no_files = record {
  exists = λ s path. false;
  parent = λ path. none;
  create_dir_all = λ s path. (s, failed "no files");
  read_to_string = λ s path. failed "no files";
  write = λ s path contents. (s, failed "no files");
}

instance abbrev refusing : Network ℕ
refusing = record {
  connect = λ s address. (s, if s == 0 then done tt else failed "refused");
  write_all = λ s payload. (s, done tt);
  flush = λ s. (s, done tt);
  shutdown = λ s. (s, done tt);
  sleep = λ s. s - 1;
}

connects_at_third : (connect_with_retry {S = ℕ} default_options 5 2).0 ≡ 0
unfolding connect_with_retry retry connect connect_socket socket_address prepare_connection_config
    resolve_ini_path prepare_with finish first_draft default_options
connects_at_third = refl

connect_with_retry-ComesFrom_example :
    ComesFrom refusing.sleep
      (connect {S = ℕ} default_options)
      4
      2
      (connect_with_retry default_options 5 2)
connect_with_retry-ComesFrom_example = connect_with_retry-ComesFrom default_options 5 2
