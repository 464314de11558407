-- ===== src/Mock/Tests.antt =====
-- The mock server from a fixed seed.
use rlstatsapi.Prelude.{
  ◌≡◌, refl, sym, ◌∙◌, true, some, List, [], ◌∷◌, map_some, ap, unwrap_or, false, arith, ◌++◌,
}
use rlstatsapi.Text.{codes, eq_text}
use rlstatsapi.Float.{zero_f64}
use rlstatsapi.Json.{Value, null}
use rlstatsapi.Samples.{Num, sample_lib}
use rlstatsapi.Sos.Translate.{SosEnvelope}
use rlstatsapi.Mock.Random.{xorshift, next_u64, range_u64, range_i64, chance}
use rlstatsapi.Mock.Randomizer.{
  Division, UpdateStateRandomizer, new, has, identity_for, start_round, score_goals, take_round,
}
use rlstatsapi.Mock.Payload.{
  attacker_for, random_location, player_payload, add_active, player_map, update_state_value,
  with_players, next_update_state_payload,
}
use rlstatsapi.Mock.Rounds.{Round, shows, new-IsFair, next_update_state_payload-Round, shown-next}
use rlstatsapi.Mock.Scenario.{
  completed_once, events_of, selection, unknown_events, available_events, select_scenario,
  send_loop,
}
use rlstatsapi.Text.Ordered.{sorted_set, insert_text, ltb_text}
use rlstatsapi.Mock.Options.{CliOptions, defaults}
use rlstatsapi.Mock.Sending.{send_loop-once}
use rlstatsapi.Mock.Selecting.{IsSelected, select_scenario-IsSelected}

instance abbrev division : Division
division = record { divide = λ x y. zero_f64 }

abbrev start : UpdateStateRandomizer Num
start = new 7 "M1"

abbrev first : UpdateStateRandomizer Num × Value Num
first = (next_update_state_payload-Round start (new-IsFair 7 "M1")).0

next_update_state_payload-Round_example :
    (out : UpdateStateRandomizer Num × Value Num) × (next_update_state_payload start ≡ some out)
    × Round start out
next_update_state_payload-Round_example = next_update_state_payload-Round start (new-IsFair 7 "M1")

abbrev second : UpdateStateRandomizer Num × Value Num
second =
    (next_update_state_payload-Round first.0
      (next_update_state_payload-Round start (new-IsFair 7 "M1")).2.fair).0

second_made : next_update_state_payload first.0 ≡ some second
second_made =
    (next_update_state_payload-Round first.0
      (next_update_state_payload-Round start (new-IsFair 7 "M1")).2.fair).1

-- Five of the six players are in the first round of this seed.
first_seen :
    map_some (λ out. out.0.seen_player_ids) (next_update_state_payload start)
    ≡ some
        ("OrangeStriker_2" ∷ "BlueKeeper_6" ∷ "BlueMid_3" ∷ "BlueStriker_1" ∷ "OrangeKeeper_5" ∷ [])
unfolding xorshift next_u64 range_u64 range_i64 chance new identity_for start_round score_goals
    take_round attacker_for random_location player_payload add_active player_map update_state_value
    with_players next_update_state_payload
first_seen = refl

first_shows : shows first.1 "BlueMid_3" ≡ true
first_shows =
    let (out, made, round) = next_update_state_payload-Round start (new-IsFair 7 "M1") in
    round.shown "BlueMid_3"
    ∙ ap (λ o. has (unwrap_or o []) "BlueMid_3")
        (ap (map_some (λ out. out.0.seen_player_ids)) (sym made) ∙ first_seen)

shown-next_example : shows second.1 "BlueMid_3" ≡ true
shown-next_example =
    shown-next start first second "BlueMid_3" (new-IsFair 7 "M1")
      (next_update_state_payload-Round start (new-IsFair 7 "M1")).1 second_made first_shows

abbrev templates : List (SosEnvelope Num)
templates =
    record { event = "game:update_state"; payload = null }
    ∷ record { event = "game:replay_start"; payload = null }
    ∷ record { event = "game:goal_scored"; payload = null }
    ∷ []

select_scenario-IsSelected_example :
    IsSelected templates
      (codes "game:goal_scored" ∷ codes "game:replay_start" ∷ [])
      (select_scenario templates (codes "game:goal_scored" ∷ codes "game:replay_start" ∷ []))
select_scenario-IsSelected_example =
    select_scenario-IsSelected templates (codes "game:goal_scored") (codes "game:replay_start" ∷ [])

-- The scenario keeps the order of the templates.
two_selected :
    select_scenario templates (codes "game:goal_scored" ∷ codes "game:replay_start" ∷ [])
    ≡ selection (
        record { event = "game:replay_start"; payload = null }
        ∷ record { event = "game:goal_scored"; payload = null }
        ∷ [])
unfolding select_scenario eq_text sorted_set
two_selected = refl

-- What is unknown is told in order and once, and so is what is known.
two_refused :
    select_scenario (templates ++ templates) (codes "game:z" ∷ codes "game:a" ∷ codes "game:z" ∷ [])
    ≡ unknown_events
        (codes "game:a" ∷ codes "game:z" ∷ [])
        (codes "game:goal_scored" ∷ codes "game:replay_start" ∷ codes "game:update_state" ∷ [])
unfolding select_scenario eq_text sorted_set insert_text ltb_text available_events
two_refused = refl

abbrev single : CliOptions
single = record defaults { loop_events = false }

send_loop-once_example :
    (events_of (send_loop single templates 5 0 0 start).0 ≡ events_of templates)
    × ((send_loop single templates 5 0 0 start).1 ≡ completed_once)
send_loop-once_example =
    send_loop-once single (record { event = "game:update_state"; payload = null })
      (record { event = "game:replay_start"; payload = null }
        ∷ record { event = "game:goal_scored"; payload = null }
        ∷ [])
      5 start refl refl (new-IsFair 7 "M1") (omega arith)
