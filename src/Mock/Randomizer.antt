-- ===== src/Mock/Randomizer.antt =====
-- mock_broadcast.rs: `UpdateStateRandomizer`, the payloads of `game:update_state`. A hash map is an
-- association list with the newest entry first; a call that panics is `none`.
use text.Mathlib.Text.{◌==◌ as eq_str}
use rlstatsapi.Prelude.{
  ℕ, zero, suc, ◌-◌, ◌%◌, ◌^◌, String, ℤ, pos, Bool, Option, none, some, and_then, map_some, List,
  [], ◌∷◌, length, any, map, ltb_ℤ, ◌==◌, if◌then◌else◌,
}
use rlstatsapi.Float.{F64}
use rlstatsapi.Json.{Value}
use rlstatsapi.Mock.Random.{minus, range_i64, chance}

pub record MockPlayer : Type 0 where
  pub name : String
  pub id : String
  pub primary_id : String
  pub shortcut : String
  pub team : ℕ

-- Division of doubles.
pub record Division : Type 0 where
  pub divide : F64 → F64 → F64

pub record UpdateStateRandomizer (N : Type 0) : Type 0 where
  pub rng_state : ℕ
  pub tick : ℕ
  pub remaining_seconds : ℤ
  pub blue_score : ℕ
  pub orange_score : ℕ
  pub match_guid : String
  pub players : List MockPlayer
  pub player_identity_by_id : List (String × MockPlayer)
  pub seen_player_ids : List String
  pub last_player_payload_by_id : List (String × Value N)

-- the `players` of `new`
abbrev pub pool : List MockPlayer
pool =
    record {
      name = "BlueStriker";
      id = "BlueStriker_1";
      primary_id = "Steam|111|0";
      shortcut = "BS";
      team = 0;
    }
    ∷ record {
      name = "BlueMid";
      id = "BlueMid_3";
      primary_id = "Steam|333|0";
      shortcut = "BM";
      team = 0;
    }
    ∷ record {
      name = "BlueKeeper";
      id = "BlueKeeper_6";
      primary_id = "Steam|666|0";
      shortcut = "BK";
      team = 0;
    }
    ∷ record {
      name = "OrangeStriker";
      id = "OrangeStriker_2";
      primary_id = "Epic|222|0";
      shortcut = "OS";
      team = 1;
    }
    ∷ record {
      name = "OrangeMid";
      id = "OrangeMid_4";
      primary_id = "Epic|444|0";
      shortcut = "OM";
      team = 1;
    }
    ∷ record {
      name = "OrangeKeeper";
      id = "OrangeKeeper_5";
      primary_id = "Epic|555|0";
      shortcut = "OK";
      team = 1;
    }
    ∷ []

-- `get` of a hash map
abbrev pub lookup {ℓ} : {A : Type ℓ} → List (String × A) → String → Option A
lookup [] key = none
lookup ((k, a) ∷ entries) key = if eq_str k key then some a else lookup entries key

-- `contains` of a hash set
abbrev pub has : List String → String → Bool
has keys key = any (λ k. eq_str k key) keys

-- `list[n]`
abbrev pub nth {ℓ} : {A : Type ℓ} → List A → ℕ → Option A
nth [] n = none
nth (a ∷ more) n = if n == 0 then some a else nth more (n - 1)

-- `saturating_add(1)`
abbrev pub next_saturating : ℕ → ℕ
next_saturating n = if n == 2 ^ 64 - 1 then n else suc n

abbrev pub identified : MockPlayer → String × MockPlayer
identified player = (player.id, player)

-- `for offset in 0..active_count`, from an index on
unfoldable pub take_round : List MockPlayer → ℕ → ℕ → Option (List String)
take_round players start zero = some []
take_round players start (suc count) =
    and_then (nth players (start % length players))
      (λ player. map_some (λ later. player.id ∷ later) (take_round players (suc start) count))

module _ {N : Type 0} where
  unfoldable pub new : ℕ → String → UpdateStateRandomizer N
  new seed match_guid = record {
    rng_state = seed;
    tick = 0;
    remaining_seconds = pos 300;
    blue_score = 0;
    orange_score = 0;
    match_guid = match_guid;
    players = pool;
    player_identity_by_id = map identified pool;
    seen_player_ids = [];
    last_player_payload_by_id = [];
  }

  unfoldable pub identity_for : UpdateStateRandomizer N → String → Option MockPlayer
  identity_for r player_id = lookup r.player_identity_by_id player_id

  -- the clock and the scores at the start of `next_update_state_payload`
  unfoldable pub start_round : UpdateStateRandomizer N → UpdateStateRandomizer N
  start_round r =
      let (drain, rng) = range_i64 (pos 1) (pos 3) r.rng_state in
      let remaining = minus r.remaining_seconds drain in
      let over = ltb_ℤ remaining (pos 0) in
      record r {
        rng_state = rng;
        tick = next_saturating r.tick;
        remaining_seconds = if over then pos 300 else remaining;
        blue_score = if over then 0 else r.blue_score;
        orange_score = if over then 0 else r.orange_score;
      }

  unfoldable pub score_goals : UpdateStateRandomizer N → UpdateStateRandomizer N
  score_goals r =
      let (blue, rng) = chance 1 14 r.rng_state in
      let (orange, rng2) = chance 1 14 rng in
      record r {
        rng_state = rng2;
        blue_score = if blue then next_saturating r.blue_score else r.blue_score;
        orange_score = if orange then next_saturating r.orange_score else r.orange_score;
      }
