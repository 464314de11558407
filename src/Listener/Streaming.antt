-- ===== src/Listener/Streaming.antt =====
-- rl_events.rs: `reconnect_with_backoff` and the loop of `run_stream_mode`.
use rlstatsapi.Prelude.{ℕ, zero, suc, String, Option, none, some, List, [], ◌∷◌, if◌then◌else◌}
use rlstatsapi.Error.{RlStatsError, socket_io, Result, ok, err}
use rlstatsapi.Json.{JsonLib}
use rlstatsapi.Config.Run.{Answer, panics, fails, returns, Run}
use rlstatsapi.Client.Connection.{Network, RocketLeagueStatsClient, reconnect}
use rlstatsapi.Events.Data.{StatsEvent}
use rlstatsapi.Events.Wire.{Derived}
use rlstatsapi.Filters.Matching.{EventFilter, matches}
use rlstatsapi.Listener.Options.{CliOptions}
use rlstatsapi.Listener.Printing.{FixedText, print_event}
use rlstatsapi.Listener.Stdin.{waits, unconnected, panicked, Session, ends, after_print}

-- Only a failure leads to another round.
abbrev pub on_failure :
    {S A : Type 0} → S × Answer A → (S → RlStatsError → S × Answer A) → S × Answer A
on_failure (s, fails e) next = next s e
on_failure (s, panics) next = (s, panics)
on_failure (s, returns a) next = (s, returns a)

-- The error after the last round; a text stands for the error that there is without any round.
abbrev pub give_up : {A : Type 0} → Option RlStatsError → Answer A
give_up (some e) = fails e
give_up none = fails (socket_io "reconnect failed")

-- `for _ in 0..rounds`, where a pause follows each round that failed
unfoldable pub back_off : {S A : Type 0} → (S → S) → Run S A → ℕ → Option RlStatsError → Run S A
back_off sleep m zero last s = (s, give_up last)
back_off sleep m (suc left) last s =
    on_failure (m s) (λ after e. back_off sleep m left (some e) (sleep after))

module _ {S : Type 0} ⦃net : Network S⦄ where
  unfoldable pub reconnect_with_backoff : RocketLeagueStatsClient → Run S RocketLeagueStatsClient
  unfolding back_off
  reconnect_with_backoff client = back_off net.sleep (reconnect client) 10 none

  abbrev pub go_on :
      S × Answer RocketLeagueStatsClient → (S → RocketLeagueStatsClient → Session) → Session
  go_on (s, returns client) next = next s client
  go_on (s, fails e) next = ends (unconnected e)
  go_on (s, panics) next = ends panicked

  module _ {N : Type 0} ⦃lib : JsonLib N⦄ ⦃fixed : FixedText⦄ ⦃serde : Derived N⦄
      (clock : ℕ → String) (cli : CliOptions) (filter : EventFilter) where
    -- The loop over what the calls of `next_event` give one after the other.
    unfoldable pub stream_loop :
        ℕ → RocketLeagueStatsClient → S → List (Result (Option (StatsEvent N))) → Session
    unfolding reconnect_with_backoff
    stream_loop emitted client s [] = ends waits
    stream_loop emitted client s (ok (some e) ∷ given) =
        if matches filter e
        then after_print cli.max_events emitted (print_event (clock emitted) cli.output_format e)
            (λ count. stream_loop count client s given)
        else stream_loop emitted client s given
    stream_loop emitted client s (ok none ∷ given) =
        go_on (reconnect_with_backoff client s)
          (λ after again. stream_loop emitted again after given)
    stream_loop emitted client s (err why ∷ given) =
        go_on (reconnect_with_backoff client s)
          (λ after again. stream_loop emitted again after given)
