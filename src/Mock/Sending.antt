-- ===== src/Mock/Sending.antt =====
-- Without looping, the scenario is sent once.
use rlstatsapi.Prelude.{
  ℕ, zero, suc, ◌+◌, ◌-◌, ◌≤◌, ◌≡◌, refl, ap, ◌∙◌, inl, inr, true, false, none, some, List, [], ◌∷◌,
  length, leb, ◌==◌, Bool-cases, arith,
}
use text.Mathlib.Text.{◌==◌ as eq_str}
use rlstatsapi.Json.{JsonLib}
use rlstatsapi.Sos.Translate.{SosEnvelope}
use rlstatsapi.Mock.Randomizer.{Division, UpdateStateRandomizer, nth}
use rlstatsapi.Mock.Options.{CliOptions}
use rlstatsapi.Mock.Rounds.{IsFair, next_update_state_payload-Round}
use rlstatsapi.Mock.Scenario.{Ended, completed_once, events_of, envelope_for_send, send_loop}

nth-suc : {A : Type 0} (x : A) (xs : List A) (k : ℕ) → nth (x ∷ xs) (suc k) ≡ nth xs k
nth-suc x xs k =
    let e : (suc k == 0) ≡ false = ground arith in
    let e2 : suc k - 1 ≡ k = omega arith in rw (e, e2) refl

-- From an index on, the first list has the elements of the second, and no more.
pub record EndsIn {A : Type 0} (xs : List A) (index : ℕ) (rest : List A) : Type 0 where
  pub same : (k : ℕ) → nth xs (index + k) ≡ nth rest k
  pub size : length xs ≡ index + length rest

EndsIn-all : {A : Type 0} (xs : List A) → EndsIn xs 0 xs
EndsIn-all xs = record { same = λ k. ap (nth xs) (omega arith); size = omega arith }

EndsIn-tail :
    {A : Type 0} (xs : List A) (index : ℕ) (x : A) (rest : List A)
    → EndsIn xs index (x ∷ rest)
    → EndsIn xs (suc index) rest
EndsIn-tail xs index x rest h = record {
  same = λ k. ap (nth xs) (shifted k) ∙ h.same (suc k) ∙ nth-suc x rest k;
  size = omega (arith, h.size);
}
  where
    shifted : (k : ℕ) → suc index + k ≡ index + suc k
    shifted k = omega arith

module _ {N : Type 0} ⦃lib : JsonLib N⦄ ⦃division : Division⦄ where
  -- A template is sent under its name, without a panic.
  envelope_for_send-event :
      (template : SosEnvelope N) (r : UpdateStateRandomizer N)
      → IsFair r
      → (out : UpdateStateRandomizer N × SosEnvelope N) × (envelope_for_send template r ≡ some out)
        × (out.1.event ≡ template.event)
        × IsFair out.0
  unfolding envelope_for_send
  envelope_for_send-event template r fair =
      elim (Bool-cases (eq_str template.event "game:update_state")) [
        | inr other ↦ ((r, template), rw other refl, refl, fair)
        | inl update ↦
            let (out, made, round) = next_update_state_payload-Round r fair in
            ((out.0, record template { payload = out.1 }), rw (update, made) refl, refl, round.fair)
      ]

  -- The scenario from an index on was sent, and the loop is over.
  abbrev Sends : List (SosEnvelope N) → List (SosEnvelope N) × Ended → Type 0
  Sends rest (sent, ended) = (events_of sent ≡ events_of rest) × (ended ≡ completed_once)

  send_rest :
      (options : CliOptions) (scenario : List (SosEnvelope N)) (ticks sent index : ℕ)
      (r : UpdateStateRandomizer N) (x : SosEnvelope N) (rest : List (SosEnvelope N))
      → options.max_events ≡ none
      → options.loop_events ≡ false
      → IsFair r
      → EndsIn scenario index (x ∷ rest)
      → suc (length rest) ≤ ticks
      → Sends (x ∷ rest) (send_loop options scenario ticks sent index r)
  unfolding send_loop
  send_rest options scenario zero sent index r x rest unlimited once fair h enough =
      absurd (omega (arith, enough))
  send_rest options scenario (suc ticks) sent index r x [] unlimited once fair h enough =
      let here : nth scenario index ≡ some x = ap (nth scenario) (omega arith) ∙ h.same 0 in
      let (out, made, name, fair2) = envelope_for_send-event x r fair in
      let last : leb (length scenario) (suc index) ≡ true = ground (arith, h.size) in
      rw (here, made, unlimited, last, once) (ap (λ n. n ∷ []) name, refl)
  send_rest options scenario (suc ticks) sent index r x (y ∷ rest) unlimited once fair h enough =
      let here : nth scenario index ≡ some x = ap (nth scenario) (omega arith) ∙ h.same 0 in
      let (out, made, name, fair2) = envelope_for_send-event x r fair in
      let more : leb (length scenario) (suc index) ≡ false = ground (arith, h.size) in
      let (later, ended) =
        send_rest options scenario ticks (suc sent) (suc index) out.0 y rest unlimited once fair2
          (EndsIn-tail scenario index x (y ∷ rest) h) (omega (arith, enough)) in
      rw (here, made, unlimited, more)
        (
          (ap (λ n. n ∷ events_of (send_loop options scenario ticks (suc sent) (suc index) out.0).0)
                name
              ∙ ap (λ names. x.event ∷ names) later),
          ended,
        )

  -- Without looping and without a limit, from a fair state and with a tick for each envelope at
  -- least, a scenario is sent once and in its order, each envelope under its event's name, and
  -- then the loop ends.
  pub send_loop-once :
      (options : CliOptions) (first : SosEnvelope N) (more : List (SosEnvelope N)) (ticks : ℕ)
      (r : UpdateStateRandomizer N)
      → options.max_events ≡ none
      → options.loop_events ≡ false
      → IsFair r
      → suc (length more) ≤ ticks
      → (events_of (send_loop options (first ∷ more) ticks 0 0 r).0 ≡ events_of (first ∷ more))
        × ((send_loop options (first ∷ more) ticks 0 0 r).1 ≡ completed_once)
  send_loop-once options first more ticks r unlimited once fair enough =
      send_rest options (first ∷ more) ticks 0 0 r first more unlimited once fair
        (EndsIn-all (first ∷ more)) enough
