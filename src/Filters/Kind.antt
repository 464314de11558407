-- ===== src/Filters/Kind.antt =====
-- filters.rs: `EventKind` and the kind of an event; rl_events.rs: the names of the kinds.
use rlstatsapi.Prelude.{ℕ, zero, suc, ◌≡◌, ◌↔◌, refl, ap, sym, ◌∙◌, Bool, true, ◌==◌, ==_iff}
use rlstatsapi.Events.Data
use rlstatsapi.Events.Data.{StatsEvent}

pub data EventKind : Type 0 where
  update_state ball_hit boost_pickup clock_updated_seconds countdown_begin crossbar_hit
        goal_replay_end goal_replay_start goal_replay_will_end goal_scored match_created
        match_initialized match_destroyed match_ended match_paused match_unpaused player_joined
        player_left podium_start replay_created round_started statfeed_event unknown :
      EventKind

-- `EventKind::from`
unfoldable pub kind_of : {N : Type 0} → StatsEvent N → EventKind
kind_of (Data.update_state d) = update_state
kind_of (Data.ball_hit d) = ball_hit
kind_of (Data.boost_pickup d) = boost_pickup
kind_of (Data.clock_updated_seconds d) = clock_updated_seconds
kind_of (Data.countdown_begin d) = countdown_begin
kind_of (Data.crossbar_hit d) = crossbar_hit
kind_of (Data.goal_replay_end d) = goal_replay_end
kind_of (Data.goal_replay_start d) = goal_replay_start
kind_of (Data.goal_replay_will_end d) = goal_replay_will_end
kind_of (Data.goal_scored d) = goal_scored
kind_of (Data.match_created d) = match_created
kind_of (Data.match_initialized d) = match_initialized
kind_of (Data.match_destroyed d) = match_destroyed
kind_of (Data.match_ended d) = match_ended
kind_of (Data.match_paused d) = match_paused
kind_of (Data.match_unpaused d) = match_unpaused
kind_of (Data.player_joined d) = player_joined
kind_of (Data.player_left d) = player_left
kind_of (Data.podium_start d) = podium_start
kind_of (Data.replay_created d) = replay_created
kind_of (Data.round_started d) = round_started
kind_of (Data.statfeed_event d) = statfeed_event
kind_of (Data.unknown d) = unknown

-- The discriminant of a kind.
abbrev pub discriminant : EventKind → ℕ
discriminant update_state = 0
discriminant ball_hit = 1
discriminant boost_pickup = 2
discriminant clock_updated_seconds = 3
discriminant countdown_begin = 4
discriminant crossbar_hit = 5
discriminant goal_replay_end = 6
discriminant goal_replay_start = 7
discriminant goal_replay_will_end = 8
discriminant goal_scored = 9
discriminant match_created = 10
discriminant match_initialized = 11
discriminant match_destroyed = 12
discriminant match_ended = 13
discriminant match_paused = 14
discriminant match_unpaused = 15
discriminant player_joined = 16
discriminant player_left = 17
discriminant podium_start = 18
discriminant replay_created = 19
discriminant round_started = 20
discriminant statfeed_event = 21
discriminant unknown = 22

unfoldable pub eq_kind : EventKind → EventKind → Bool
eq_kind a b = discriminant a == discriminant b

kind_at : ℕ → EventKind
kind_at zero = update_state
kind_at (suc zero) = ball_hit
kind_at (suc (suc zero)) = boost_pickup
kind_at (suc (suc (suc zero))) = clock_updated_seconds
kind_at (suc (suc (suc (suc zero)))) = countdown_begin
kind_at (suc (suc (suc (suc (suc zero))))) = crossbar_hit
kind_at (suc (suc (suc (suc (suc (suc zero)))))) = goal_replay_end
kind_at (suc (suc (suc (suc (suc (suc (suc zero))))))) = goal_replay_start
kind_at (suc (suc (suc (suc (suc (suc (suc (suc zero)))))))) = goal_replay_will_end
kind_at (suc (suc (suc (suc (suc (suc (suc (suc (suc zero))))))))) = goal_scored
kind_at (suc (suc (suc (suc (suc (suc (suc (suc (suc (suc zero)))))))))) = match_created
kind_at (suc (suc (suc (suc (suc (suc (suc (suc (suc (suc (suc zero))))))))))) = match_initialized
kind_at (suc (suc (suc (suc (suc (suc (suc (suc (suc (suc (suc (suc zero)))))))))))) =
    match_destroyed
kind_at (suc (suc (suc (suc (suc (suc (suc (suc (suc (suc (suc (suc (suc zero))))))))))))) =
    match_ended
kind_at (suc (suc (suc (suc (suc (suc (suc (suc (suc (suc (suc (suc (suc (suc zero)))))))))))))) =
    match_paused
kind_at
      (suc
        (suc (suc (suc (suc (suc (suc (suc (suc (suc (suc (suc (suc (suc (suc zero))))))))))))))) =
    match_unpaused
kind_at
      (suc (
        suc (
          suc
            (suc (suc (suc (suc (suc (suc (suc (suc (suc (suc (suc (suc (suc zero)))))))))))))))) =
    player_joined
kind_at
      (suc (
        suc (
          suc (
            suc (
              suc
                (suc (suc (suc (suc (suc (suc (suc (suc (suc (suc (suc (suc zero))))))))))))))))) =
    player_left
kind_at
      (suc (
        suc (
          suc (
            suc (
              suc (
                suc (
                  suc
                    (suc (suc (suc (suc (suc (suc (suc (suc (suc (suc (suc zero)))))))))))))))))) =
    podium_start
kind_at
      (suc (
        suc (
          suc (
            suc (
              suc (
                suc (
                  suc (
                    suc (
                      suc
                        (suc (suc (suc (suc (suc (suc (suc (suc (suc (suc zero))))))))))))))))))) =
    replay_created
kind_at
      (suc (
        suc (
          suc (
            suc (
              suc (
                suc (
                  suc (
                    suc (
                      suc (
                        suc (
                          suc
                            (suc (suc (suc (suc (suc (suc (suc (suc (suc zero)))))))))))))))))))) =
    round_started
kind_at
      (suc (
        suc (
          suc (
            suc (
              suc (
                suc (
                  suc (
                    suc (
                      suc (
                        suc (
                          suc (
                            suc (
                              suc
                                (suc (suc (suc (suc (suc (suc (suc (suc zero))))))))))))))))))))) =
    statfeed_event
kind_at _ = unknown

kind_at-discriminant : (k : EventKind) → kind_at (discriminant k) ≡ k
unfolding kind_at
kind_at-discriminant update_state = refl
kind_at-discriminant _ = refl

pub eq_kind_iff : (a b : EventKind) → (eq_kind a b ≡ true) ↔ (a ≡ b)
unfolding eq_kind
eq_kind_iff a b = (
  (λ h. sym (kind_at-discriminant a) ∙ ap kind_at ((==_iff _ _).0 h) ∙ kind_at-discriminant b),
  λ e. (==_iff _ _).1 (ap discriminant e),
)
