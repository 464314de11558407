-- ===== src/Mock/Rounds.antt =====
-- Rounds of `next_update_state_payload` one after the other.
use mathlib.Core.Path.{subst}
use rlstatsapi.Prelude.{
  ℕ, String, ◌≡◌, refl, sym, ap, ◌∙◌, Bool, true, false≢true, map, inl, inr, Bool-cases, Option,
  some, some-injective, List, [], length, arith, ◌-◌,
}
use rlstatsapi.Json.{Value, Fields, end, object, get, get_value, JsonLib}
use rlstatsapi.Mock.Random.{range_u64}
use rlstatsapi.Mock.Randomizer.{
  MockPlayer, pool, identified, lookup, Division, UpdateStateRandomizer, has, start_round,
  score_goals, new,
}
use rlstatsapi.Mock.Payload.{
  player_map, update_state_value, with_rng, with_players, next_update_state_payload,
}
use rlstatsapi.Mock.Pool.{ids_of, Known, IsPool, take_round-Known}
use rlstatsapi.Mock.Seen.{Remembered, add_active-Later}
use rlstatsapi.Mock.Staying.{InTime, start_round-InTime, has_key, has_key-player_map}

pool-Known :
    (player : MockPlayer)
    → lookup (map identified pool) player.id ≡ some player
    → has (ids_of pool) player.id ≡ true
    → Known (map identified pool) pool player.id
pool-Known player found listed = record {
  player = player;
  found = found;
  same = refl;
  listed = listed;
}

module _ {N : Type 0} where
  abbrev pub fields_of : Option (Value N) → Fields N
  fields_of (some (object fields)) = fields
  fields_of _ = end

  -- The payload shows a player under the identifier.
  abbrev pub shows : Value N → String → Bool
  shows v id = has_key (fields_of (get_value v "players")) id

  -- The pool finds its players, whoever was seen is in it and has a payload, and the clock is in time.
  pub record IsFair (r : UpdateStateRandomizer N) : Type 0 where
    pub pool : IsPool r.player_identity_by_id r.players
    pub remembered : Remembered r
    pub in_time : InTime r.remaining_seconds

  pub new-IsFair : (seed : ℕ) (match_guid : String) → IsFair (new seed match_guid)
  unfolding new
  new-IsFair seed match_guid = record {
    pool = (
      omega arith,
      (
        pool-Known _ refl refl,
        (
          pool-Known _ refl refl,
          (
            pool-Known _ refl refl,
            (pool-Known _ refl refl, (pool-Known _ refl refl, (pool-Known _ refl refl, tt))),
          ),
        ),
      ),
    );
    remembered = λ id seen. absurd (false≢true seen);
    in_time = (300, refl, omega arith);
  }

  module _ ⦃lib : JsonLib N⦄ ⦃division : Division⦄ where
    players_of-value :
        (r : UpdateStateRandomizer N) (players : Fields N) (s : ℕ)
        → fields_of (get_value (update_state_value r players s).0 "players") ≡ players
    unfolding update_state_value get
    players_of-value r players s = refl

    -- What a round gives: a fair state in which nobody is forgotten, and a payload that shows
    -- exactly the players that have been seen.
    pub record Round (r : UpdateStateRandomizer N) (out : UpdateStateRandomizer N × Value N)
        : Type 0 where
      pub fair : IsFair out.0
      pub pool : out.0.players ≡ r.players
      pub kept :
          (id : String) → has r.seen_player_ids id ≡ true → has out.0.seen_player_ids id ≡ true
      pub shown : (id : String) → shows out.1 id ≡ has out.0.seen_player_ids id

    shown_seen :
        (r : UpdateStateRandomizer N) (active : List (String × Value N)) (id : String)
        → Remembered r
        → has_key (player_map r active r.players end) id ≡ has r.seen_player_ids id
    unfolding get
    shown_seen r active id h =
        has_key-player_map r active r.players end id h
        ∙ (elim (Bool-cases (has r.seen_player_ids id)) [
          | inl seen ↦ rw (seen, (h id seen).1) refl
          | inr unseen ↦ rw unseen (ground arith)
        ])

    with_players-Round :
        (r : UpdateStateRandomizer N)
        → IsFair r
        → (out : UpdateStateRandomizer N × Value N) × (with_players r ≡ some out) × Round r out
    unfolding with_players
    with_players-Round r fair =
        let count = range_u64 2 6 r.rng_state in
        let start = range_u64 0 (length r.players - 1) count.1 in
        let (ids, taken, known) =
          take_round-Known r.player_identity_by_id r.players start.0 count.0 fair.pool in
        let (made, added, later, kept) =
          add_active-Later ids 0 ids [] (record r { rng_state = start.1 }) known known
            fair.remembered in
        (
          with_rng made.0 (
              update_state_value made.0 (player_map made.0 made.1 made.0.players end)
                made.0.rng_state),
          (rw (taken, added) refl),
          record {
            fair = record {
              pool =
                  subst (λ ids. IsPool ids made.0.players) (sym later.identities)
                    (subst (λ ps. IsPool r.player_identity_by_id ps) (sym later.players) fair.pool);
              remembered = kept;
              in_time = subst InTime (sym later.clock) fair.in_time;
            };
            pool = later.players;
            kept = later.seen;
            shown = λ id.
                ap (λ fields. has_key fields id) (players_of-value made.0 _ made.0.rng_state)
                ∙ shown_seen made.0 made.1 id kept;
          },
        )

    -- A round never panics: from a fair state it leads to a fair one, with at most 300 seconds on
    -- the clock, it forgets nobody, and its payload shows exactly the players that have been seen.
    pub next_update_state_payload-Round :
        (r : UpdateStateRandomizer N)
        → IsFair r
        → (out : UpdateStateRandomizer N × Value N) × (next_update_state_payload r ≡ some out)
          × Round r out
    unfolding next_update_state_payload score_goals start_round
    next_update_state_payload-Round r fair =
        let (out, e, round) = with_players-Round (score_goals (start_round r)) (record {
          pool = fair.pool;
          remembered = fair.remembered;
          in_time = start_round-InTime r fair.in_time;
        }) in
        (
          out,
          e,
          record { fair = round.fair; pool = round.pool; kept = round.kept; shown = round.shown },
        )

    -- A player that a payload shows is shown by the next one, when the first comes from a fair
    -- state.
    pub shown-next :
        (r : UpdateStateRandomizer N) (first second : UpdateStateRandomizer N × Value N)
        (id : String)
        → IsFair r
        → next_update_state_payload r ≡ some first
        → next_update_state_payload first.0 ≡ some second
        → shows first.1 id ≡ true
        → shows second.1 id ≡ true
    shown-next r first second id fair e e2 h =
        let (out, made, round) = next_update_state_payload-Round r fair in
        let here : Round r first = subst (Round r) (some-injective _ _ (sym made ∙ e)) round in
        let (out2, made2, round2) = next_update_state_payload-Round first.0 here.fair in
        let there : Round first.0 second =
          subst (Round first.0) (some-injective _ _ (sym made2 ∙ e2)) round2 in
        there.shown id ∙ there.kept id (sym (here.shown id) ∙ h)
