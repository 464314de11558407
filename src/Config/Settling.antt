-- ===== src/Config/Settling.antt =====
-- The ports and the rates that the steps of `prepare_connection_config` settle on.
use rlstatsapi.Prelude.{
  ◌≡◌, refl, sym, ap, inl, inr, ℕ, ◌<◌, String, Bool-cases, Option-cases, Bool, true, false, Option,
  none, some, filter_some, unwrap_or, some-injective, ltb, if◌then◌else◌, arith,
}
use mathlib.Core.Path.{subst}
use rlstatsapi.Text.{Text, codes}
use rlstatsapi.Float.{F64, FloatText, zero_f64, of_ℕ, lt_f64, le_f64, clamp, one_units}
use rlstatsapi.Commands.Defs.{show_u32}
use rlstatsapi.Config.Ini.{upsert_key}
use rlstatsapi.Config.Prepare.{
  ClientOptions, Draft, clamp_rate, with_key, take_port, settle_port, settle_rate, first_draft,
  find_u16_value, find_f32_value, format_rate, or_default_rate,
}

-- Neither below 0 nor above 120; what is not a number is neither.
pub record IsRate (rate : F64) : Type 0 where
  pub low : lt_f64 rate zero_f64 ≡ false
  pub high : lt_f64 (of_ℕ 120) rate ≡ false

bounds_ordered : lt_f64 (of_ℕ 120) zero_f64 ≡ false
unfolding lt_f64 of_ℕ one_units
bounds_ordered = refl

zero_not_below : lt_f64 zero_f64 zero_f64 ≡ false
unfolding lt_f64
zero_not_below = refl

top_not_above : lt_f64 (of_ℕ 120) (of_ℕ 120) ≡ false
unfolding lt_f64 of_ℕ one_units
top_not_above = refl

clamp_rate-IsRate : (rate : F64) → IsRate (clamp_rate rate)
unfolding clamp_rate clamp
clamp_rate-IsRate rate = elim (Bool-cases (lt_f64 rate zero_f64)) [
  | inl below ↦ rw below (record { low = zero_not_below; high = bounds_ordered })
  | inr fits ↦ elim (Bool-cases (lt_f64 (of_ℕ 120) rate)) [
    | inl above ↦ rw (fits, above) (record { low = bounds_ordered; high = top_not_above })
    | inr within ↦ rw (fits, within) (record { low = fits; high = within })
  ]
]

-- The port is the one that the options prescribe, or is not 0.
pub record IsPort (options : ClientOptions) (port : ℕ) : Type 0 where
  pub prescribed : (p : ℕ) → options.port_override ≡ some p → port ≡ p
  pub positive : options.port_override ≡ none → 0 < port

pub record IsDraft (options : ClientOptions) (d : Draft) : Type 0 where
  pub port_ok : IsPort options d.port
  pub rate_ok : IsRate d.packet_send_rate

pub first_draft-IsDraft :
    (options : ClientOptions) (ini : Text) → IsDraft options (first_draft options ini)
unfolding first_draft
first_draft-IsDraft options ini = record {
  port_ok = record { prescribed = λ p e. rw e; positive = λ e. rw e (omega arith) };
  rate_ok = clamp_rate-IsRate options.packet_send_rate;
}

with_key-same :
    (d : Draft) (key : String) (value : Text) (e : Draft)
    → with_key d key value ≡ some e
    → (e.port ≡ d.port) × (e.packet_send_rate ≡ d.packet_send_rate)
with_key-same d key value e h = elim (Option-cases (upsert_key d.ini (codes key) value)) [
  | inl broken ↦ cc (rw broken at h)
  | inr (ini, written) ↦
      let same = some-injective _ _ (rw written at h) in
      (ap Draft.port (sym same), ap Draft.packet_send_rate (sym same))
]

with_key-IsDraft :
    (options : ClientOptions) (d : Draft) (key : String) (value : Text) (e : Draft)
    → with_key d key value ≡ some e
    → IsDraft options d
    → IsDraft options e
with_key-IsDraft options d key value e h i =
    let (p, r) = with_key-same d key value e h in
    record {
      port_ok = subst (IsPort options) (sym p) i.port_ok;
      rate_ok = subst IsRate (sym r) i.rate_ok;
    }

-- The port of the file is taken where it is not 0.
take_port-IsDraft :
    (options : ClientOptions) (d e : Draft) (parsed : Option ℕ)
    → options.port_override ≡ none
    → take_port d (filter_some (ltb 0) parsed) ≡ some e
    → IsDraft options d
    → IsDraft options e
take_port-IsDraft options d e none free h i =
    with_key-IsDraft options d "Port" (codes (show_u32 d.port)) e h i
take_port-IsDraft options d e (some p) free h i = elim (Bool-cases (ltb 0 p)) [
  | inl positive ↦ subst (IsDraft options) (some-injective _ _ (rw positive at h)) (record {
    port_ok = record { prescribed = λ q given. cc; positive = λ e. ground arith };
    rate_ok = i.rate_ok;
  })
  | inr zero_port ↦
      with_key-IsDraft options d "Port" (codes (show_u32 d.port)) e (rw zero_port at h) i
]

pub settle_port-IsDraft :
    (options : ClientOptions) (d e : Draft)
    → settle_port options d ≡ some e
    → IsDraft options d
    → IsDraft options e
unfolding settle_port
settle_port-IsDraft options d e h i = elim (Option-cases options.port_override) [
  | inl free ↦ elim (Option-cases (find_u16_value d.ini "Port")) [
    | inl broken ↦ cc (rw (free, broken) at h)
    | inr (parsed, found) ↦ take_port-IsDraft options d e parsed free (rw (free, found) at h) i
  ]
  | inr (p, given) ↦ subst (IsDraft options) (some-injective _ _ (rw given at h)) i
]

pub with_rate-IsDraft :
    (options : ClientOptions) (d : Draft) (rate : F64)
    → IsDraft options d
    → IsDraft options (record d { packet_send_rate = clamp_rate rate })
with_rate-IsDraft options d rate i = record {
  port_ok = i.port_ok;
  rate_ok = clamp_rate-IsRate rate;
}

-- The two ways of settling the rate.
choose_rate-IsDraft :
    (options : ClientOptions) (d e : Draft) (should_set : Bool) (text : Text) (rate : F64)
    → (if should_set
        then with_key d "PacketSendRate" text
        else some (record d { packet_send_rate = clamp_rate rate }))
      ≡ some e
    → IsDraft options d
    → IsDraft options e
choose_rate-IsDraft options d e true text rate h i =
    with_key-IsDraft options d "PacketSendRate" text e h i
choose_rate-IsDraft options d e false text rate h i =
    subst (IsDraft options) (some-injective _ _ h) (with_rate-IsDraft options d rate i)

pub settle_rate-IsDraft :
    ⦃floats : FloatText⦄ (options : ClientOptions) (d e : Draft)
    → settle_rate options d ≡ some e
    → IsDraft options d
    → IsDraft options e
unfolding settle_rate
settle_rate-IsDraft options d e h i = elim (Bool-cases options.auto_enable_packet_rate) [
  | inl auto ↦ elim (Option-cases (find_f32_value d.ini "PacketSendRate")) [
    | inl broken ↦ cc (rw (auto, broken) at h)
    | inr (found, e1) ↦
        choose_rate-IsDraft options d e
          (if options.set_packet_rate_only_when_zero
            then le_f64 (unwrap_or found zero_f64) zero_f64
            else true)
          (format_rate d.packet_send_rate) (unwrap_or found zero_f64) (rw (auto, e1) at h) i
  ]
  | inr manual ↦ subst (IsDraft options) (some-injective _ _ (rw manual at h)) i
]

pub or_default_rate-IsDraft :
    (options : ClientOptions) (d : Draft) (found : Option F64)
    → IsDraft options d
    → IsDraft options (record d { packet_send_rate = or_default_rate d.packet_send_rate found })
or_default_rate-IsDraft options d none i = i
or_default_rate-IsDraft options d (some rate) i = with_rate-IsDraft options d rate i
