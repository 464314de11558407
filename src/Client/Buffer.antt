-- ===== src/Client/Buffer.antt =====
-- client.rs: the read buffer, and `next_event` on what the socket delivers.
use rlstatsapi.Prelude.{
  ℕ, zero, suc, Option, none, some, List, [], ◌∷◌, ◌++◌, is_empty, if◌then◌else◌, String,
}
use rlstatsapi.Text.{is_ascii_whitespace}
use rlstatsapi.Error.{Result, ok, err, map_ok, json, socket_io}
use rlstatsapi.Json.{Value, JsonLib}
use rlstatsapi.Events.Data.{StatsEvent}
use rlstatsapi.Events.Wire.{Derived, parse_stats_event_value}

abbrev pub Bytes : Type 0
Bytes = List ℕ

-- What `stream.next()` says of a slice: a value and the offset behind it, the error that the text
-- ends too early (`is_eof`), another error, or that there is no value.
pub data StreamItem (N : Type 0) : Type 0 where
  value : Value N → (consumed : ℕ) → StreamItem N
  ends_early : StreamItem N
  malformed : (error : String) → StreamItem N
  no_value : StreamItem N

-- `serde_json::Deserializer::from_slice(..).into_iter::<Value>()`, at its first item.
pub record JsonStream (N : Type 0) : Type 0 where
  pub next : Bytes → StreamItem N

-- What one `read_buf` on the socket gives: some bytes, none at the end of the stream, or an error.
pub data Read : Type 0 where
  chunk : Bytes → Read
  broken : (source : String) → Read

abbrev pub drop : {A : Type 0} → ℕ → List A → List A
drop zero xs = xs
drop (suc n) [] = []
drop (suc n) (x ∷ xs) = drop n xs

unfoldable pub discard_leading_whitespace : Bytes → Bytes
discard_leading_whitespace [] = []
discard_leading_whitespace (c ∷ s) =
    if is_ascii_whitespace c then discard_leading_whitespace s else c ∷ s

-- A call that has come to its result, with the buffer and the reads that are left, or that waits for
-- the socket.
pub data Poll (N : Type 0) : Type 0 where
  waits : (read_buffer : Bytes) → Poll N
  ready :
      (result : Result (Option (StatsEvent N)))
      → (read_buffer : Bytes) → (reads : List Read) → Poll N

module _ {N : Type 0} ⦃lib : JsonLib N⦄ ⦃stream : JsonStream N⦄ ⦃serde : Derived N⦄ where
  -- A value leaves the buffer before its event is parsed.
  unfoldable pub parse_item : Bytes → StreamItem N → Result (Option (StatsEvent N)) × Bytes
  parse_item buffer (value v consumed) =
      (map_ok some (parse_stats_event_value v), drop consumed buffer)
  parse_item buffer ends_early = (ok none, buffer)
  parse_item buffer (malformed error) = (err (json error), buffer)
  parse_item buffer no_value = (ok none, buffer)

  unfoldable pub try_parse_event_from_buffer : Bytes → Result (Option (StatsEvent N)) × Bytes
  try_parse_event_from_buffer read_buffer =
      let buffer = discard_leading_whitespace read_buffer in
      if is_empty buffer then (ok none, buffer) else parse_item buffer (stream.next buffer)

  abbrev pub at_end : List Read → Result (Option (StatsEvent N)) × Bytes → Poll N
  at_end reads (result, buffer) = ready result buffer reads

  -- One turn of the loop of `next_event`, from what the buffer gave; the reads are those that the
  -- socket will make.
  unfoldable pub turn : List Read → Result (Option (StatsEvent N)) × Bytes → Poll N
  unfolding try_parse_event_from_buffer
  turn reads (err e, buffer) = ready (err e) buffer reads
  turn reads (ok (some event), buffer) = ready (ok (some event)) buffer reads
  turn [] (ok none, buffer) = waits buffer
  turn (broken source ∷ reads) (ok none, buffer) = ready (err (socket_io source)) buffer reads
  turn (chunk [] ∷ reads) (ok none, buffer) = at_end reads (try_parse_event_from_buffer buffer)
  turn (chunk (c ∷ s) ∷ reads) (ok none, buffer) =
      turn reads (try_parse_event_from_buffer (buffer ++ c ∷ s))

  unfoldable pub next_event : Bytes → List Read → Poll N
  unfolding turn
  next_event read_buffer reads = turn reads (try_parse_event_from_buffer read_buffer)
