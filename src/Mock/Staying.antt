-- ===== src/Mock/Staying.antt =====
-- The clock of a round, and whom the map of players shows.
use mathlib.Core.Path.{subst}
use text.Mathlib.Text.{◌==◌ as eq_str}
use text.Mathlib.TextEquality.{eq_iff}
use rlstatsapi.Prelude.{
  ℕ, suc, ◌+◌, ◌-◌, ◌%◌, ◌≤◌, String, ℤ, pos, negsuc, ◌≡◌, refl, sym, ap, ◌∙◌, inl, inr, Bool, true,
  false, ◌&&◌, ◌||◌, Option, none, some, is_some, or_else, List, [], ◌∷◌, ltb_ℤ, ltb, leb,
  Bool-cases, if◌then◌else◌, arith,
}
use rlstatsapi.Json.{Value, Fields, end, field, get, insert}
use rlstatsapi.Mock.Random.{minus, next_u64, range_i64}
use rlstatsapi.Mock.Randomizer.{MockPlayer, UpdateStateRandomizer, lookup, has, start_round}
use rlstatsapi.Mock.Payload.{player_map}
use rlstatsapi.Mock.Pool.{ids_of}
use rlstatsapi.Mock.Seen.{Remembered}

-- At most 300 seconds are left, and not less than none.
abbrev pub InTime : ℤ → Type 0
InTime z = (seconds : ℕ) × (z ≡ pos seconds) × (seconds ≤ 300)

minus_pos :
    (n d : ℕ) → minus (pos n) (pos d) ≡ (if leb d n then pos (n - d) else negsuc (d - n - 1))
minus_pos n d =
    let e : n + 0 ≡ n = omega arith in let e2 : 0 + d ≡ d = omega arith in rw (e, e2) refl

round-InTime :
    (n d : ℕ) (z : ℤ)
    → n ≤ 300
    → z ≡ (if leb d n then pos (n - d) else negsuc (d - n - 1))
    → InTime (if ltb_ℤ z (pos 0) then pos 300 else z)
round-InTime n d z h e = elim (Bool-cases (leb d n)) [
  | inl left ↦ rw (e, left) (sound (n - d) (omega (arith, h)))
  | inr over ↦ rw (e, over) (reset (d - n - 1))
]
  where
    reset : (k : ℕ) → InTime (if ltb_ℤ (negsuc k) (pos 0) then pos 300 else negsuc k)
    reset k = let e : ltb 0 (0 + suc k) ≡ true = ground arith in rw e (300, refl, omega arith)

    sound : (k : ℕ) → k ≤ 300 → InTime (if ltb_ℤ (pos k) (pos 0) then pos 300 else pos k)
    sound k le = let e : ltb (k + 0) (0 + 0) ≡ false = ground arith in rw e (k, refl, le)

drain_pos : (s : ℕ) → (d : ℕ) × ((range_i64 (pos 1) (pos 3) s).0 ≡ pos d)
unfolding range_i64
drain_pos s =
    let e : leb 0 (1 + (next_u64 s).0 % 3) ≡ true = ground arith in
    (1 + (next_u64 s).0 % 3 - 0, rw e refl)

seen_in_rest :
    (here rest seen : Bool)
    → (here ≡ true → seen ≡ false)
    → ((here || rest) && seen) ≡ (rest && seen)
seen_in_rest true rest seen h = ground (arith, h refl)
seen_in_rest false rest seen h = refl

module _ {N : Type 0} where
  pub start_round-InTime :
      (r : UpdateStateRandomizer N)
      → InTime r.remaining_seconds
      → InTime (start_round r).remaining_seconds
  unfolding start_round
  start_round-InTime r (n, e, h) =
      let (d, drawn) = drain_pos r.rng_state in
      round-InTime n d (minus r.remaining_seconds (range_i64 (pos 1) (pos 3) r.rng_state).0) h
        (rw (e, drawn) (minus_pos n d))

  abbrev pub has_key : Fields N → String → Bool
  has_key fields id = is_some (get fields id)

  has_key-insert :
      (fields : Fields N) (key : String) (v : Value N) (id : String)
      → has_key (insert fields key v) id ≡ (eq_str key id || has_key fields id)
  unfolding get insert
  has_key-insert end key v id = ground arith
  has_key-insert (field k w rest) key v id = elim (Bool-cases (eq_str k key)) [
    | inl same ↦ rw (same, (eq_iff k key).0 same) (ground arith)
    | inr other ↦ elim (Bool-cases (eq_str k id)) [
      | inl here ↦ rw (other, here) (ground arith)
      | inr later ↦ rw (other, later) (has_key-insert rest key v id)
    ]
  ]

  or_else-last :
      (now last : Option (Value N)) (payload : Value N)
      → last ≡ some payload
      → (v : Value N) × (or_else now last ≡ some v)
  or_else-last none last payload e = (payload, e)
  or_else-last (some v) last payload e = (v, refl)

  -- The map has the keys it had, and the players of the pool that have been seen.
  pub has_key-player_map :
      (r : UpdateStateRandomizer N) (active : List (String × Value N)) (players : List MockPlayer)
      (fields : Fields N) (id : String)
      → Remembered r
      → has_key (player_map r active players fields) id
        ≡ (has_key fields id || (has (ids_of players) id && has r.seen_player_ids id))
  unfolding player_map
  has_key-player_map r active [] fields id h = ground arith
  has_key-player_map r active (player ∷ players) fields id h =
      elim (Bool-cases (has r.seen_player_ids player.id)) [
        | inr unseen ↦ rw unseen (
            has_key-player_map r active players fields id h
            ∙ ap (λ b. has_key fields id || b)
                (sym (
                  seen_in_rest (eq_str player.id id) (has (ids_of players) id)
                    (has r.seen_player_ids id)
                    (λ same.
                      subst (λ x. has r.seen_player_ids x ≡ false) ((eq_iff player.id id).0 same)
                        unseen))))
        | inl seen ↦
            let ((last, e), listed) = h player.id seen in
            let (v, e2) =
              or_else-last (lookup active player.id) (lookup r.last_player_payload_by_id player.id)
                last e in
            rw (seen, e2)
              (has_key-player_map r active players (insert fields player.id v) id h
                ∙ one_more r fields v player.id players id seen)
      ]
    where
      one_more :
          (r : UpdateStateRandomizer N) (fields : Fields N) (v : Value N) (key : String)
          (players : List MockPlayer) (id : String)
          → has r.seen_player_ids key ≡ true
          → (has_key (insert fields key v) id
              || (has (ids_of players) id && has r.seen_player_ids id))
            ≡ (has_key fields id
                || ((eq_str key id || has (ids_of players) id) && has r.seen_player_ids id))
      one_more r fields v key players id seen = elim (Bool-cases (eq_str key id)) [
        | inl same ↦
            rw
              (
                has_key-insert fields key v id,
                same,
                subst (λ x. has r.seen_player_ids x ≡ true) ((eq_iff key id).0 same) seen,
              )
              (ground arith)
        | inr other ↦ rw (has_key-insert fields key v id, other) refl
      ]
