-- ===== src/Mock/Payload.antt =====
-- mock_broadcast.rs: `next_update_state_payload`.
use rlstatsapi.Prelude.{
  ℕ, suc, ◌+◌, ◌-◌, ◌%◌, String, ℤ, pos, negsuc, Bool, true, not, ◌&&◌, Option, none, some,
  and_then, map_some, or_else, List, [], ◌∷◌, length, ltb, eqb_ℤ, ◌==◌, if◌then◌else◌,
}
use rlstatsapi.Float.{of_i64, of_ℕ}
use rlstatsapi.Json.{
  Value, bool, string, array, nil, cons, object, Fields, end, field, insert, JsonLib,
}
use rlstatsapi.Mock.Random.{Draw, ◌>>=◌, pure, range_u64, range_i64, chance}
use rlstatsapi.Mock.Randomizer.{
  MockPlayer, Division, UpdateStateRandomizer, lookup, has, nth, identity_for, start_round,
  score_goals, take_round,
}

abbrev pub avoid : ℕ → ℕ → ℕ → ℕ
avoid index count idx = if idx == index then (idx + 1) % count else idx

module _ {N : Type 0} where
  abbrev pub name_of : UpdateStateRandomizer N → Option String → Option String
  name_of r id = and_then id (λ i. map_some (λ player. player.name) (identity_for r i))

  -- the attacker of the active player at an index
  unfoldable pub attacker_for : UpdateStateRandomizer N → List String → ℕ → Draw (Option String)
  attacker_for r ids index =
      if ltb 1 (length ids)
      then chance 1 4 >>= (λ attacked.
        if attacked
        then range_u64 0 (length ids - 1)
          >>= (λ idx. pure (name_of r (nth ids (avoid index (length ids) idx))))
        else pure (some ""))
      else pure (some "")

  -- The player's payload is the newest, and it has been seen.
  abbrev pub remember : UpdateStateRandomizer N → String → Value N → ℕ → UpdateStateRandomizer N
  remember r id payload rng = record r {
    rng_state = rng;
    seen_player_ids =
        if has r.seen_player_ids id then r.seen_player_ids else id ∷ r.seen_player_ids;
    last_player_payload_by_id = (id, payload) ∷ r.last_player_payload_by_id;
  }

  abbrev pub insert_payload : Fields N → String → Option (Value N) → Fields N
  insert_payload fields id none = fields
  insert_payload fields id (some payload) = insert fields id payload

  -- the loop over the pool, from a map on
  unfoldable pub player_map :
      UpdateStateRandomizer N → List (String × Value N) → List MockPlayer → Fields N → Fields N
  player_map r active [] fields = fields
  player_map r active (player ∷ players) fields = player_map r active players (
      if not (has r.seen_player_ids player.id)
      then fields
      else insert_payload fields player.id
          (or_else (lookup active player.id) (lookup r.last_player_payload_by_id player.id)))

  abbrev pub has_winner : UpdateStateRandomizer N → Bool
  has_winner r = eqb_ℤ r.remaining_seconds (pos 0) && not (r.blue_score == r.orange_score)

  abbrev pub winner : UpdateStateRandomizer N → String
  winner r =
      if has_winner r then (if ltb r.orange_score r.blue_score then "Blue" else "Orange") else ""

  abbrev pub with_rng : UpdateStateRandomizer N → Value N × ℕ → UpdateStateRandomizer N × Value N
  with_rng r (v, rng) = (record r { rng_state = rng }, v)

  module _ ⦃lib : JsonLib N⦄ ⦃division : Division⦄ where
    -- `self.range_i64(min, max) as f64`
    abbrev pub coordinate : ℤ → ℤ → Draw (Value N)
    coordinate min max = do n ← range_i64 min max; pure (lib.of_f64 (of_i64 n))

    -- `self.range_i64(-314, 314) as f64 / 100.0`
    abbrev pub angle : Draw (Value N)
    angle = do
      n ← range_i64 (negsuc 313) (pos 314)
      pure (lib.of_f64 (division.divide (of_i64 n) (of_ℕ 100)))

    -- The location of a player or of the ball, which differ in their lowest height.
    unfoldable pub random_location : ℤ → Draw (Value N)
    random_location lowest = do
      x ← coordinate (negsuc 4095) (pos 4096)
      y ← coordinate (negsuc 5119) (pos 5120)
      z ← coordinate lowest (pos 2044)
      pitch ← angle
      roll ← angle
      yaw ← angle
      pure (
          object (
            field "X" x (
              field "Y" y
                (field "Z" z (field "pitch" pitch (field "roll" roll (field "yaw" yaw end)))))))

    unfoldable pub player_payload : MockPlayer → String → Draw (Value N)
    unfolding random_location
    player_payload identity attacker = do
      score ← range_u64 0 900
      goals ← range_u64 0 5
      shots ← range_u64 0 8
      assists ← range_u64 0 4
      saves ← range_u64 0 6
      touches ← range_u64 0 60
      cartouches ← range_u64 0 45
      demos ← range_u64 0 4
      boost ← range_u64 0 100
      speed ← range_u64 600 2300
      is_sonic ← chance 1 5
      is_powersliding ← chance 1 4
      is_dead ← chance 1 20
      on_ground ← chance 3 4
      on_wall ← chance 1 3
      location ← random_location (pos 17)
      pure (
          object (
            field "name" (string identity.name) (
              field "id" (string identity.id) (
                field "primaryID" (string identity.primary_id) (
                  field "team" (lib.of_u64 identity.team) (
                    field "score" (lib.of_u64 score) (
                      field "goals" (lib.of_u64 goals) (
                        field "shots" (lib.of_u64 shots) (
                          field "assists" (lib.of_u64 assists) (
                            field "saves" (lib.of_u64 saves) (
                              field "touches" (lib.of_u64 touches) (
                                field "cartouches" (lib.of_u64 cartouches) (
                                  field "demos" (lib.of_u64 demos) (
                                    field "boost" (lib.of_u64 boost) (
                                      field "speed" (lib.of_u64 speed) (
                                        field "hasCar" (bool true) (
                                          field "isSonic" (bool is_sonic) (
                                            field "isPowersliding" (bool is_powersliding) (
                                              field "isDead" (bool is_dead) (
                                                field "attacker" (string attacker) (
                                                  field "shortcut" (string identity.shortcut) (
                                                    field "onGround" (bool on_ground) (
                                                      field "onWall" (bool on_wall) (
                                                        field "location" location
                                                          end))))))))))))))))))))))))

    -- the loop over the active players, from an index on, with the payloads made so far
    unfoldable pub add_active :
        List String
        → ℕ
        → List String
        → List (String × Value N)
        → UpdateStateRandomizer N
        → Option (UpdateStateRandomizer N × List (String × Value N))
    unfolding attacker_for identity_for player_payload
    add_active ids index [] active r = some (r, active)
    add_active ids index (id ∷ more) active r =
        let (attacker, rng) = attacker_for r ids index r.rng_state in
        and_then attacker (λ name. and_then (identity_for r id) (λ identity.
          let (payload, rng2) = player_payload identity name rng in
          add_active ids (suc index) more ((identity.id, payload) ∷ active)
            (remember r identity.id payload rng2)))

    abbrev pub team_payload : String → ℕ → String → Value N
    team_payload name score color = object (
        field "name" (string name) (
          field "score" (lib.of_u64 score)
            (field "color_primary" (string color) (field "color_secondary" (string "E5E5E5") end))))

    -- the value at the end, with the map of players
    unfoldable pub update_state_value : UpdateStateRandomizer N → Fields N → Draw (Value N)
    unfolding random_location
    update_state_value r players = do
      is_replay ← chance 1 10
      location ← random_location (pos 94)
      speed ← range_u64 200 2400
      team ← range_u64 0 1
      pure (
          object (
            field "match_guid" (string r.match_guid) (
              field "hasGame" (bool true) (
                field "game"
                  (object (
                    field "arena" (string "DFH Stadium") (
                      field "time" (lib.of_i64 r.remaining_seconds) (
                        field "time_seconds" (lib.of_i64 r.remaining_seconds) (
                          field "isOT"
                            (bool
                              (eqb_ℤ r.remaining_seconds (pos 0) && r.blue_score == r.orange_score))
                            (field "isReplay" (bool is_replay) (
                              field "hasWinner" (bool (has_winner r)) (
                                field "winner" (string (winner r)) (
                                  field "hasTarget" (bool true) (
                                    field "target" (string "Ball") (
                                      field "ball"
                                        (object (
                                          field "location" location (
                                            field "speed" (lib.of_u64 speed)
                                              (field "team" (lib.of_u64 team) end))))
                                        (field "teams"
                                          (array (
                                            cons (team_payload "Blue" r.blue_score "1873FF") (
                                              cons (team_payload "Orange" r.orange_score "C26418")
                                                nil)))
                                          end))))))))))))
                  (field "players" (object players) end)))))

    -- the players of the round and the value, behind the clock and the scores
    unfoldable pub with_players :
        UpdateStateRandomizer N → Option (UpdateStateRandomizer N × Value N)
    unfolding add_active take_round player_map update_state_value
    with_players r =
        let (count, rng) = range_u64 2 6 r.rng_state in
        let (start, rng2) = range_u64 0 (length r.players - 1) rng in
        and_then (take_round r.players start count) (λ ids.
          map_some
            (λ out.
              with_rng out.0 (
                update_state_value out.0 (player_map out.0 out.1 out.0.players end)
                  out.0.rng_state))
            (add_active ids 0 ids [] (record r { rng_state = rng2 })))

    unfoldable pub next_update_state_payload :
        UpdateStateRandomizer N → Option (UpdateStateRandomizer N × Value N)
    unfolding with_players
    next_update_state_payload r = with_players (score_goals (start_round r))
