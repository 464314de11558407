-- ===== src/Client/Connection.antt =====
-- client.rs: connecting, with retries, and sending commands.

use rlstatsapi.Prelude.{ℕ, zero, suc, String, [], ◌==◌, if◌then◌else◌}
use rlstatsapi.Float.{FloatText}
use rlstatsapi.Error.{socket_io, Result, ok, err}
use rlstatsapi.Json.{JsonLib}
use rlstatsapi.Commands.Defs.{StatsCommand, show_u32}
use rlstatsapi.Commands.Wire.{join, to_json}
use rlstatsapi.Config.Run.{
  Outcome, done, failed, FileSystem, Answer, panics, fails, returns, Run, ◌>>=◌, ◌>>◌, pure,
}
use rlstatsapi.Config.Prepare.{ClientOptions, ConnectionConfig, prepare_connection_config}
use rlstatsapi.Client.Buffer.{Bytes}

-- The calls of tokio's sockets, on a state of the world in which a client has one connection.
pub record Network (S : Type 0) : Type 0 where
  pub connect : S → String → S × Outcome (Unit {0})
  pub write_all : S → String → S × Outcome (Unit {0})
  pub flush : S → S × Outcome (Unit {0})
  pub shutdown : S → S × Outcome (Unit {0})
  pub sleep : S → S

-- The two halves of the socket are part of the world.
pub record RocketLeagueStatsClient : Type 0 where
  pub read_buffer : Bytes
  pub connection : ConnectionConfig

unfoldable pub socket_address : ConnectionConfig → String
socket_address c = join c.host (join ":" (show_u32 c.port))

-- `?` on the error of a socket
abbrev pub or_socket_io : {A : Type 0} → Outcome A → Answer A
or_socket_io (done a) = returns a
or_socket_io (failed source) = fails (socket_io source)

abbrev pub of_result : {S A : Type 0} → Result A → Run S A
of_result (ok a) s = (s, returns a)
of_result (err e) s = (s, fails e)

-- `attempts` rounds, each but the last followed by a pause; behind the loop is `unreachable!`.
abbrev pub try_again : {S A : Type 0} → Answer A → ℕ → S × Answer A → S × Answer A → S × Answer A
try_again (fails e) zero now later = now
try_again (fails e) (suc left) now later = later
try_again answer left now later = now

unfoldable pub retry : {S A : Type 0} → (S → S) → Run S A → ℕ → Run S A
retry sleep m zero s = (s, panics)
retry sleep m (suc left) s =
    let now = m s in let later = retry sleep m left (sleep now.0) in try_again now.1 left now later

module _ {S : Type 0} ⦃net : Network S⦄ where
  unfoldable pub connect_socket : ConnectionConfig → Run S (Unit {0})
  connect_socket c s =
      let (after, outcome) = net.connect s (socket_address c) in (after, or_socket_io outcome)

  unfoldable pub connect :
      ⦃fs : FileSystem S⦄ ⦃floats : FloatText⦄ → ClientOptions → Run S RocketLeagueStatsClient
  connect options = do
    connection ← prepare_connection_config options
    connect_socket connection
    pure (record { read_buffer = []; connection = connection })

  unfoldable pub connect_with_retry :
      ⦃fs : FileSystem S⦄ ⦃floats : FloatText⦄ → ClientOptions → ℕ → Run S RocketLeagueStatsClient
  connect_with_retry options max_attempts =
      retry net.sleep (connect options) (if max_attempts == 0 then 1 else max_attempts)

  -- the client after the call
  unfoldable pub reconnect : RocketLeagueStatsClient → Run S RocketLeagueStatsClient
  reconnect client = do connect_socket client.connection; pure (record client { read_buffer = [] })

  unfoldable pub write_payload : String → Run S (Unit {0})
  write_payload payload = do
    (λ s. let (after, outcome) = net.write_all s payload in (after, or_socket_io outcome))
    (λ s. let (after, outcome) = net.flush s in (after, or_socket_io outcome))

  unfoldable pub send_command : {N : Type 0} (lib : JsonLib N) → StatsCommand → Run S (Unit {0})
  send_command lib command = do payload ← of_result (to_json lib command); write_payload payload

  unfoldable pub close : Run S (Unit {0})
  close s = let (after, outcome) = net.shutdown s in (after, or_socket_io outcome)
