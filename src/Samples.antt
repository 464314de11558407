-- ===== src/Samples.antt =====
-- An instance of the interfaces of serde and `serde_json`, at which the theorems about them are
-- instantiated. Data are printed as the objects of their optional match guid.
mod Numbers
mod Defaults
pub use Numbers.*
pub use Defaults.*
use text.Mathlib.Text.{◌==◌}
use rlstatsapi.Prelude.{
  [], ◌∷◌, ℕ, String, refl, Option, none, some, ℤ, pos, negsuc, if◌then◌else◌, and_then,
}
use rlstatsapi.Float.{F64, FloatText, is_finite, of_i64}
use rlstatsapi.Error.{ok, err, json, ◌>>=◌, ok_or}
use rlstatsapi.Json.{
  null, string, number, object, Fields, end, field, get, get_value, as_str, JsonLib, JsonLaws,
}
use rlstatsapi.Events.Data.{MatchOnlyData}
use rlstatsapi.Events.Wire.{Codec, Derived}
use rlstatsapi.Events.RoundTrip.{ReadsEnvelopes}

abbrev natural : ℤ → Option ℕ
natural (pos n) = some n
natural (negsuc n) = none

abbrev num_i64 : Num → Option ℤ
num_i64 (int z) = some z
num_i64 (float x) = none

abbrev num_u64 : Num → Option ℕ
num_u64 (int z) = natural z
num_u64 (float x) = none

abbrev num_f64 : Num → Option F64
num_f64 (int z) = some (of_i64 z)
num_f64 (float x) = some x

instance abbrev pub sample_lib : JsonLib Num
sample_lib = record {
  as_i64 = num_i64;
  as_u64 = num_u64;
  as_f64 = num_f64;
  of_i64 = λ z. number (int z);
  of_u64 = λ n. number (int (pos n));
  of_f64 = λ x. if is_finite x then number (float x) else null;
  to_string = λ v. ok "{}";
  display = λ v. "{}";
  from_str = λ s. err (json "expected value");
}

pub sample_laws : JsonLaws sample_lib
sample_laws = record { read_u64 = λ n h. refl; read_f64 = λ x h. rw h }

abbrev guid_fields : Option String → Fields Num
guid_fields none = end
guid_fields (some g) = field "MatchGuid" (string g) end

abbrev match_only_codec : Codec Num (MatchOnlyData Num)
match_only_codec = record {
  encode = λ d. object (guid_fields d.match_guid);
  decode = λ v. ok (record { match_guid = and_then (get_value v "MatchGuid") as_str; extra = end });
}

-- A codec that only prints.
abbrev one_way : {A : Type 0} → Codec Num A
one_way = record { encode = λ a. object end; decode = λ v. err (json "missing field") }

instance abbrev pub sample_derived : Derived Num
sample_derived = record {
  update_state_data = one_way;
  ball_hit_data = one_way;
  boost_pickup_data = one_way;
  clock_updated_seconds_data = one_way;
  match_only_data = match_only_codec;
  crossbar_hit_data = one_way;
  goal_scored_data = one_way;
  match_ended_data = one_way;
  player_presence_data = one_way;
  replay_created_data = one_way;
  statfeed_event_data = one_way;
  decode_envelope = λ v. do
    name ← ok_or (and_then (get_value v "event") as_str) (json "missing field `Event`")
    d ← ok_or (get_value v "data") (json "missing field `Data`")
    ok (record { event = name; payload = d });
  envelope_of_str = λ s.
      if s == "pause"
      then ok (record { event = "MatchPaused"; payload = object end })
      else err (json "expected value");
}

pub sample_reads : ReadsEnvelopes sample_derived
unfolding get
sample_reads name d = refl

-- No text is a double here, and every double prints as the text of zero.
instance abbrev pub sample_floats : FloatText
sample_floats = record {
  parse_f64 = λ s. none;
  parse_f32 = λ s. none;
  format_3 = λ x. b'0' ∷ b'.' ∷ b'0' ∷ b'0' ∷ b'0' ∷ [];
}
