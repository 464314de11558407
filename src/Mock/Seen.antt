-- ===== src/Mock/Seen.antt =====
-- Who has been seen is remembered with a payload.
use mathlib.Core.Path.{subst}
use text.Mathlib.Text.{◌==◌ as eq_str}
use text.Mathlib.TextEquality.{eq_iff}
use rlstatsapi.Prelude.{
  ℕ, suc, String, ◌≡◌, refl, sym, ◌∙◌, inl, inr, true, ◌||◌, some, List, [], ◌∷◌, Bool-cases,
  if◌then◌else◌, arith,
}
use rlstatsapi.Json.{Value, JsonLib}
use rlstatsapi.Mock.Randomizer.{Division, UpdateStateRandomizer, lookup, has, identity_for}
use rlstatsapi.Mock.Payload.{attacker_for, player_payload, remember, add_active}
use rlstatsapi.Mock.Pool.{ids_of, AllKnown, attacker_for-some}

has_added :
    (seen : List String) (new id : String)
    → has (if has seen new then seen else new ∷ seen) id ≡ (eq_str new id || has seen id)
has_added seen new id = elim (Bool-cases (has seen new)) [
  | inr unseen ↦ rw unseen refl
  | inl old ↦ elim (Bool-cases (eq_str new id)) [
    | inl same ↦ rw (old, same) (subst (λ x. has seen x ≡ true) ((eq_iff new id).0 same) old)
    | inr other ↦ rw (old, other) refl
  ]
]

module _ {N : Type 0} where
  -- A player that was seen is in the pool and has a last payload.
  abbrev pub Remembered : UpdateStateRandomizer N → Type 0
  Remembered r =
      (id : String)
      → has r.seen_player_ids id ≡ true
      → ((payload : Value N) × (lookup r.last_player_payload_by_id id ≡ some payload))
        × (has (ids_of r.players) id ≡ true)

  -- A later state has the same pool and clock, and whoever was seen before.
  pub record Later (r after : UpdateStateRandomizer N) : Type 0 where
    pub players : after.players ≡ r.players
    pub identities : after.player_identity_by_id ≡ r.player_identity_by_id
    pub clock : after.remaining_seconds ≡ r.remaining_seconds
    pub seen : (id : String) → has r.seen_player_ids id ≡ true → has after.seen_player_ids id ≡ true

  remember-Remembered :
      (r : UpdateStateRandomizer N) (new : String) (payload : Value N) (rng : ℕ)
      → has (ids_of r.players) new ≡ true
      → Remembered r
      → Remembered (remember r new payload rng)
  remember-Remembered r new payload rng listed h id seen = elim (Bool-cases (eq_str new id)) [
    | inl same ↦ (
      (payload, rw same refl),
      subst (λ x. has (ids_of r.players) x ≡ true) ((eq_iff new id).0 same) listed,
    )
    | inr other ↦
        let before : has r.seen_player_ids id ≡ true =
          (rw other at (sym (has_added r.seen_player_ids new id) ∙ seen)) in
        let ((old, e), known) = h id before in ((old, rw other e), known)
  ]

  remember-seen :
      (r : UpdateStateRandomizer N) (new : String) (payload : Value N) (rng : ℕ) (id : String)
      → has r.seen_player_ids id ≡ true
      → has (remember r new payload rng).seen_player_ids id ≡ true
  remember-seen r new payload rng id h = has_added r.seen_player_ids new id ∙ ground (arith, h)

  module _ ⦃lib : JsonLib N⦄ ⦃division : Division⦄ where
    -- The loop over the active players does not panic.
    pub add_active-Later :
        (ids : List String) (index : ℕ) (more : List String) (active : List (String × Value N))
        (r : UpdateStateRandomizer N)
        → AllKnown r ids
        → AllKnown r more
        → Remembered r
        → (out : UpdateStateRandomizer N × List (String × Value N)) × (add_active ids index more
              active r
            ≡ some out)
          × Later r out.0
          × Remembered out.0
    unfolding add_active identity_for
    add_active-Later ids index [] active r all known h = (
      (r, active),
      refl,
      record { players = refl; identities = refl; clock = refl; seen = λ id s. s },
      h,
    )
    add_active-Later ids index (id ∷ more) active r all (known, others) h =
        let (name, drawn) = attacker_for-some r ids index r.rng_state all in
        let payload = player_payload known.player name (attacker_for r ids index r.rng_state).1 in
        let next = remember r known.player.id payload.0 payload.1 in
        let listed : has (ids_of r.players) known.player.id ≡ true =
          subst (λ x. has (ids_of r.players) x ≡ true) (sym known.same) known.listed in
        let (out, e, later, kept) =
          add_active-Later ids (suc index) more ((known.player.id, payload.0) ∷ active) next all
            others (remember-Remembered r known.player.id payload.0 payload.1 listed h) in
        (
          out,
          (rw (drawn, known.found) e),
          record {
            players = later.players;
            identities = later.identities;
            clock = later.clock;
            seen = λ i s. later.seen i (remember-seen r known.player.id payload.0 payload.1 i s);
          },
          kept,
        )
