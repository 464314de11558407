-- ===== src/Mock/Pool.antt =====
-- The players of a round come from the pool, so no call of a round panics.
use mathlib.Core.Path.{subst}
use rlstatsapi.Prelude.{
  ℕ, zero, suc, ◌-◌, ◌%◌, ◌≤◌, ◌<◌, String, ◌≡◌, refl, inl, inr, true, Option, some, some-injective,
  map_some, List, [], ◌∷◌, map, length, All, ltb, ◌==◌, Bool-cases, arith,
}
use rlstatsapi.Mock.Random.{chance, range_u64, range_u64-≤}
use rlstatsapi.Mock.Randomizer.{
  MockPlayer, UpdateStateRandomizer, lookup, has, nth, identity_for, take_round,
}
use rlstatsapi.Mock.Payload.{name_of, avoid, attacker_for}

pub nth-< : {A : Type 0} (xs : List A) (n : ℕ) → n < length xs → (a : A) × (nth xs n ≡ some a)
nth-< [] n h = absurd (omega arith)
nth-< (x ∷ xs) n h = elim (Bool-cases (n == 0)) [
  | inl first ↦ (x, rw first refl)
  | inr later ↦ let (a, e) = nth-< xs (n - 1) (ground (arith, h)) in (a, (rw later e))
]

nth-All :
    {A : Type 0} (P : A → Type 0) (xs : List A) (n : ℕ) {a : A} → All P xs → nth xs n ≡ some a → P a
nth-All P [] n all e = cc
nth-All P (x ∷ xs) n (here, more) e = elim (Bool-cases (n == 0)) [
  | inl first ↦ subst P (some-injective _ _ (rw first at e)) here
  | inr later ↦ nth-All P xs (n - 1) more (rw later at e)
]

abbrev pub ids_of : List MockPlayer → List String
ids_of players = map (λ player. player.id) players

avoid-< : (index count idx : ℕ) → 0 < count → idx ≤ count - 1 → avoid index count idx < count
avoid-< index count idx h le = elim (Bool-cases (idx == index)) [
  | inl same ↦ rw same (omega (arith, h))
  | inr other ↦ rw other (omega (arith, h, le))
]

module _ (identities : List (String × MockPlayer)) (players : List MockPlayer) where
  -- The identifier is that of a player of the pool, whom it finds.
  pub record Known (id : String) : Type 0 where
    pub player : MockPlayer
    pub found : lookup identities id ≡ some player
    pub same : player.id ≡ id
    pub listed : has (ids_of players) id ≡ true

  -- There are players, and each is found by its identifier.
  abbrev pub IsPool : Type 0
  IsPool = (0 < length players) × All (λ player. Known player.id) players

  cons-Known :
      (player : MockPlayer) (rest : Option (List String))
      → Known player.id
      → ((later : List String) × (rest ≡ some later) × All Known later)
      → (ids : List String) × (map_some (λ later. player.id ∷ later) rest ≡ some ids)
        × All Known ids
  cons-Known player rest known (later, e, all) = (player.id ∷ later, rw e refl, (known, all))

  pub take_round-Known :
      (start count : ℕ)
      → IsPool
      → (ids : List String) × (take_round players start count ≡ some ids) × All Known ids
  unfolding take_round
  take_round-Known start zero h = ([], refl, tt)
  take_round-Known start (suc count) (some_players, all) =
      let (player, e) = nth-< players (start % length players) (omega (arith, some_players)) in
      rw e (
        cons-Known player (take_round players (suc start) count)
          (nth-All (λ p. Known p.id) players (start % length players) all e)
          (take_round-Known (suc start) count (some_players, all)))

module _ {N : Type 0} (r : UpdateStateRandomizer N) (ids : List String) where
  abbrev pub AllKnown : Type 0
  AllKnown = All (Known r.player_identity_by_id r.players) ids

  name_of-nth :
      (n : ℕ) → AllKnown → n < length ids → (name : String) × (name_of r (nth ids n) ≡ some name)
  unfolding identity_for
  name_of-nth n all h =
      let (id, e) = nth-< ids n h in
      let known = nth-All (Known r.player_identity_by_id r.players) ids n all e in
      (known.player.name, rw (e, known.found) refl)

  -- An attacker is drawn without a panic.
  pub attacker_for-some :
      (index s : ℕ) → AllKnown → (name : String) × ((attacker_for r ids index s).0 ≡ some name)
  unfolding attacker_for
  attacker_for-some index s all = elim (Bool-cases (ltb 1 (length ids))) [
    | inr alone ↦ ("", rw alone refl)
    | inl several ↦ elim (Bool-cases (chance 1 4 s).0) [
      | inr spared ↦ ("", rw (several, spared) refl)
      | inl attacked ↦
          let many : 1 < length ids = ground (arith, several) in
          let (low, high) = range_u64-≤ 0 (length ids - 1) (chance 1 4 s).1 (omega (arith, many)) in
          let (name, e) =
            name_of-nth (avoid index (length ids) (range_u64 0 (length ids - 1) (chance 1 4 s).1).0)
              all (avoid-< index (length ids) _ (omega (arith, many)) high) in
          (name, rw (several, attacked) e)
    ]
  ]
