-- ===== src/Filters/Following.antt =====
-- What a tracker reports of its player.
use text.Mathlib.Text.{◌==◌}
use text.Mathlib.TextPositions.{eq_refl}
use rlstatsapi.Prelude.{
  ◌↔◌, ◌⊎◌, String, ℤ, ◌≡◌, ◌≢◌, refl, false≢true, Bool, true, false, Option, none, some, find,
  find_sound, and_then, eqb_ℤ, eqb_ℤ_iff, some-injective, none-ne-some, arith, inl, inr,
  Option-cases,
}
use mathlib.Core.Path.{subst}
use rlstatsapi.Float.{FloatText, eq_f64}
use rlstatsapi.Json.{JsonLib}
use rlstatsapi.Events.Data.{
  StatsEvent, UpdateStateData, UpdateStatePlayer, update_state, goal_scored,
}
use rlstatsapi.Filters.Kind.{EventKind, kind_of}
use rlstatsapi.Filters.Matching.{same_name}
use rlstatsapi.Filters.Tracker.{
  PlayerSnapshot, eq_option, eq_bool, eq_snapshot, PlayerTracker, from_update, record_snapshot,
  is_tracked, snapshot_of, update_from_event, MatchSignal, goal, match_concluded, to_match_signal,
  winner_team_num,
}

opt_ℤ : (o : Option ℤ) → eq_option eqb_ℤ o o ≡ true
opt_ℤ none = refl
opt_ℤ (some z) = (eqb_ℤ_iff z z).1 refl

opt_text : (o : Option String) → eq_option ◌==◌ o o ≡ true
opt_text none = refl
opt_text (some s) = eq_refl s

opt_bool : (o : Option Bool) → eq_option eq_bool o o ≡ true
opt_bool none = refl
opt_bool (some true) = refl
opt_bool (some false) = refl

-- The speed is a number, if there is one: it equals itself.
abbrev pub HasNumberSpeed : PlayerSnapshot → Type 0
HasNumberSpeed s = eq_option eq_f64 s.speed s.speed ≡ true

eq_snapshot_refl : (s : PlayerSnapshot) → HasNumberSpeed s → eq_snapshot s s ≡ true
unfolding eq_snapshot
eq_snapshot_refl s h = simp (opt_ℤ, opt_text, opt_bool, eq_refl, h)

-- The latest snapshot is of a player with the tracked name, up to the case of letters.
abbrev pub IsFaithful : PlayerTracker → Type 0
IsFaithful t = (s : PlayerSnapshot) → t.latest ≡ some s → same_name t.player_name s.name ≡ true

module _ {N : Type 0} ⦃lib : JsonLib N⦄ ⦃floats : FloatText⦄ where
  from_update-name :
      (name : String) (u : UpdateStateData N) (p : UpdateStatePlayer N)
      → is_tracked name p ≡ true
      → same_name name (from_update u p).name ≡ true
  unfolding from_update
  from_update-name name u p h = elim (Option-cases p.name) [
    | inl missing ↦ absurd (false≢true (rw missing at h))
    | inr (n, given) ↦ rw given (rw given at h)
  ]

  snapshot_of-name :
      (name : String) (e : StatsEvent N) (s : PlayerSnapshot)
      → snapshot_of name e ≡ some s
      → same_name name s.name ≡ true
  snapshot_of-name name (update_state u) s h =
      elim (Option-cases (find (is_tracked name) u.players)) [
        | inl missed ↦ absurd (none-ne-some s (rw missed at h))
        | inr (p, found) ↦
            let same : from_update u p ≡ s = some-injective _ _ (rw found at h) in
            rw (← same) (from_update-name name u p (find_sound (is_tracked name) u.players found))
      ]
  snapshot_of-name name _ s h = absurd (none-ne-some s h)

  -- A tracker keeps its name, and its snapshot stays one of a player of that name, whatever event
  -- comes.
  pub update_from_event-IsFaithful :
      (t : PlayerTracker) (e : StatsEvent N)
      → IsFaithful t
      → IsFaithful (update_from_event t e).0
        × ((update_from_event t e).0.player_name ≡ t.player_name)
  unfolding update_from_event record_snapshot
  update_from_event-IsFaithful t e h = elim (Option-cases (snapshot_of t.player_name e)) [
    | inl missed ↦ rw missed (h, refl)
    | inr (s, found) ↦ rw found (
      (λ s' q.
          subst (λ (x : PlayerSnapshot). same_name t.player_name x.name ≡ true)
            (some-injective _ _ q) (snapshot_of-name t.player_name e s found)),
      refl,
    )
  ]

  -- An event that comes a second time changes nothing and is not reported again, unless the speed
  -- that it shows of the player is not a number.
  pub update_from_event_twice :
      (t : PlayerTracker) (e : StatsEvent N)
      → ((s : PlayerSnapshot) → snapshot_of t.player_name e ≡ some s → HasNumberSpeed s)
      → update_from_event (update_from_event t e).0 e ≡ ((update_from_event t e).0, none)
  unfolding update_from_event record_snapshot
  update_from_event_twice t e number = elim (Option-cases (snapshot_of t.player_name e)) [
    | inl missed ↦ rw missed (rw missed refl)
    | inr (s, found) ↦ rw found (rw found (rw (eq_snapshot_refl s (number s found)) refl))
  ]

-- The winner that a signal tells.
abbrev pub signal_winner : {N : Type 0} → MatchSignal N → Option ℤ
signal_winner (goal d) = none
signal_winner (match_concluded d) = some d.winner_team_num

-- An event tells a winner exactly through its signal, and only a goal or the end of a match is a
-- signal.
winner-signal :
    {N : Type 0} (e : StatsEvent N)
    → (winner_team_num e ≡ and_then (to_match_signal e) signal_winner)
      × ((to_match_signal e ≢ none)
          ↔ ((kind_of e ≡ EventKind.goal_scored) ⊎ (kind_of e ≡ EventKind.match_ended)))
unfolding winner_team_num to_match_signal kind_of
winner-signal (goal_scored d) = ground arith
winner-signal _ = ground arith
