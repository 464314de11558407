-- ===== src/Listener/Reconnecting.antt =====
-- Which events the loop over the stream prints.
use rlstatsapi.Prelude.{
  ℕ, suc, String, ◌≡◌, refl, ap, inl, inr, Option, none, some, List, [], ◌∷◌, Bool-cases,
  if◌then◌else◌,
}
use rlstatsapi.Error.{Result, ok, err}
use rlstatsapi.Json.{JsonLib}
use rlstatsapi.Config.Run.{returns}
use rlstatsapi.Client.Connection.{Network, RocketLeagueStatsClient}
use rlstatsapi.Events.Data.{StatsEvent}
use rlstatsapi.Events.Wire.{Derived}
use rlstatsapi.Filters.Matching.{EventFilter, matches}
use rlstatsapi.Listener.Options.{CliOptions}
use rlstatsapi.Listener.Printing.{FixedText, print_event}
use rlstatsapi.Listener.Stdin.{Session, is_reached, after_print}
use rlstatsapi.Listener.Emitting.{wanted, wanted-cons, numbered, numbered-nothing}
use rlstatsapi.Listener.Streaming.{reconnect_with_backoff, go_on, stream_loop}

-- The events of the stream that pass a filter, where it closes and fails in between.
abbrev pub heard :
    {N : Type 0} → EventFilter → List (Result (Option (StatsEvent N))) → List (StatsEvent N)
heard filter [] = []
heard filter (ok (some e) ∷ given) =
    if matches filter e then e ∷ heard filter given else heard filter given
heard filter (ok none ∷ given) = heard filter given
heard filter (err why ∷ given) = heard filter given

module _ {S : Type 0} ⦃net : Network S⦄ {N : Type 0} ⦃lib : JsonLib N⦄ ⦃fixed : FixedText⦄
    ⦃serde : Derived N⦄ (clock : ℕ → String) (cli : CliOptions) (filter : EventFilter)
    (line : ℕ → StatsEvent N → String)
    (prints : (i : ℕ) (e : StatsEvent N)
      → print_event (clock i) cli.output_format e ≡ ok (line i e))
    (reconnects : (client : RocketLeagueStatsClient) (s : S)
      → (out : S × RocketLeagueStatsClient) × (reconnect_with_backoff client s
          ≡ (out.0, returns out.1))) where
  abbrev pub Prints : ℕ → List (StatsEvent N) → Session → Type 0
  Prints i events s = s.printed ≡ numbered line i (wanted cli.max_events i events)

  after_print-Prints :
      (i : ℕ) (e : StatsEvent N) (events : List (StatsEvent N)) (next : ℕ → Session)
      → Prints (suc i) events (next (suc i))
      → Prints i (e ∷ events) (after_print cli.max_events i (ok (line i e)) next)
  after_print-Prints i e events next printed =
      rw (wanted-cons cli.max_events i e events)
        (elim (Bool-cases (is_reached cli.max_events (suc i))) [
          | inl last ↦ rw last refl
          | inr more ↦ rw more (ap (λ later. line i e ∷ later) printed)
        ])

  go_on-Prints :
      (i : ℕ) (client : RocketLeagueStatsClient) (s : S) (events : List (StatsEvent N))
      (next : S → RocketLeagueStatsClient → Session)
      → ((after : S) (again : RocketLeagueStatsClient) → Prints i events (next after again))
      → Prints i events (go_on (reconnect_with_backoff client s) next)
  go_on-Prints i client s events next h = let (out, e) = reconnects client s in rw e (h out.0 out.1)

  -- As long as reconnecting succeeds and every event can be printed, the loop over the stream
  -- prints the events of the stream that pass, in their order and across every reconnection, all
  -- of them or as many as the limit says but at least one.
  pub stream_loop-Prints :
      (i : ℕ) (client : RocketLeagueStatsClient) (s : S)
      (given : List (Result (Option (StatsEvent N))))
      → Prints i (heard filter given) (stream_loop clock cli filter i client s given)
  unfolding stream_loop
  stream_loop-Prints i client s [] = numbered-nothing line i cli.max_events
  stream_loop-Prints i client s (ok (some e) ∷ given) = elim (Bool-cases (matches filter e)) [
    | inl passes ↦
        rw (passes, prints i e)
          (after_print-Prints i e (heard filter given)
            (λ count. stream_loop clock cli filter count client s given)
            (stream_loop-Prints (suc i) client s given))
    | inr other ↦ rw other (stream_loop-Prints i client s given)
  ]
  stream_loop-Prints i client s (ok none ∷ given) =
      go_on-Prints i client s (heard filter given) _
        (λ after again. stream_loop-Prints i again after given)
  stream_loop-Prints i client s (err why ∷ given) =
      go_on-Prints i client s (heard filter given) _
        (λ after again. stream_loop-Prints i again after given)
