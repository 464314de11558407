-- ===== src/Window/App.antt =====
-- sos_broadcast_gui.rs: the state of `SosBroadcastGuiApp` and its operations. The queue of worker
-- events that wait is in `worker_rx`, and the value of the watch channel in `shutdown_tx`.
use text.Mathlib.Text.{◌==◌}
use rlstatsapi.Prelude.{
  ℕ, suc, String, Bool, true, false, Option, none, some, List, [], ◌∷◌, ◌++◌, length, ltb,
  if◌then◌else◌,
}
use rlstatsapi.Commands.Defs.{show_u32}
use rlstatsapi.Listener.Printing.{concat}

abbrev pub fixed_rl_host : String
fixed_rl_host = "127.0.0.1"

abbrev pub fixed_rl_port : ℕ
fixed_rl_port = 49123

abbrev pub fixed_ws_host : String
fixed_ws_host = "0.0.0.0"

abbrev pub fixed_ws_port : ℕ
fixed_ws_port = 49122

abbrev pub fixed_reconnect_ms : ℕ
fixed_reconnect_ms = 500

pub record BroadcastConfig : Type 0 where
  pub ini_path : Option String
  pub rl_host : String
  pub rl_port : ℕ
  pub ws_host : String
  pub ws_port : ℕ
  pub reconnect_ms : ℕ
  pub max_events : Option ℕ
  pub debug : Bool

abbrev pub fixed_config : BroadcastConfig
fixed_config = record {
  ini_path = none;
  rl_host = fixed_rl_host;
  rl_port = fixed_rl_port;
  ws_host = fixed_ws_host;
  ws_port = fixed_ws_port;
  reconnect_ms = fixed_reconnect_ms;
  max_events = none;
  debug = false;
}

-- The result of the worker, `Result<(), String>`, is the error if there is one.
pub data WorkerEvent : Type 0 where
  started : (source ws_url : String) → WorkerEvent
  clients : ℕ → WorkerEvent
  relayed : (total : ℕ) → WorkerEvent
  log : String → WorkerEvent
  stopped : (error : Option String) → WorkerEvent

pub record SosBroadcastGuiApp : Type 0 where
  pub running : Bool
  pub status : String
  pub source_addr : String
  pub ws_url : String
  pub client_count : ℕ
  pub relayed_count : ℕ
  pub logs : List String
  pub worker_rx : Option (List WorkerEvent)
  pub shutdown_tx : Option Bool
  pub worker_handle : Option (Unit {0})

-- `format!("{host}:{port}")`
abbrev pub address : String → ℕ → String
address host port = concat (host ∷ ":" ∷ show_u32 port ∷ [])

-- the state that `new` returns; the rest of it is the style of the window
abbrev pub new_app : SosBroadcastGuiApp
new_app = record {
  running = false;
  status = "Idle";
  source_addr = address fixed_rl_host fixed_rl_port;
  ws_url = concat ("ws://" ∷ address fixed_ws_host fixed_ws_port ∷ []);
  client_count = 0;
  relayed_count = 0;
  logs = [];
  worker_rx = none;
  shutdown_tx = none;
  worker_handle = none;
}

abbrev pub max_log_lines : ℕ
max_log_lines = 300

-- `while logs.len() > MAX_LOG_LINES { logs.pop_front(); }`
unfoldable pub pop_over : List String → List String
pop_over [] = []
pop_over (line ∷ logs) =
    if ltb max_log_lines (suc (length logs)) then pop_over logs else line ∷ logs

unfoldable pub push_log : String → SosBroadcastGuiApp → SosBroadcastGuiApp
unfolding pop_over
push_log message app = record app { logs = pop_over (app.logs ++ (message ∷ [])) }

-- the fields that `start` sets before the thread is spawned
abbrev pub reset : SosBroadcastGuiApp → SosBroadcastGuiApp
reset app = record app {
  status = "Starting";
  source_addr = address fixed_config.rl_host fixed_config.rl_port;
  ws_url = concat ("ws://" ∷ address fixed_config.ws_host fixed_config.ws_port ∷ []);
  client_count = 0;
  relayed_count = 0;
  logs = [];
}

abbrev pub starting_message : SosBroadcastGuiApp → String
starting_message app =
    concat ("Starting SOS broadcaster (source=" ∷ app.source_addr ∷ " ws=" ∷ app.ws_url ∷ ")" ∷ [])

-- what `start` does while nothing runs
unfoldable pub launch : SosBroadcastGuiApp → SosBroadcastGuiApp
unfolding push_log
launch app = record (push_log (starting_message (reset app)) (reset app)) {
  worker_rx = some [];
  shutdown_tx = some false;
  worker_handle = some tt;
  running = true;
}

unfoldable pub start : SosBroadcastGuiApp → SosBroadcastGuiApp
unfolding launch
start app = if app.running then app else launch app

abbrev pub stop_with : Option Bool → SosBroadcastGuiApp → SosBroadcastGuiApp
stop_with none app = app
stop_with (some sent) app =
    push_log "Stopping broadcaster..." (record app { status = "Stopping"; shutdown_tx = some true })

unfoldable pub stop : SosBroadcastGuiApp → SosBroadcastGuiApp
unfolding push_log
stop app = stop_with app.shutdown_tx app

abbrev pub finish_app : Option String → SosBroadcastGuiApp → SosBroadcastGuiApp
finish_app none app = push_log "Broadcaster stopped" (record app { status = "Stopped" })
finish_app (some error) app =
    push_log (concat ("Broadcaster stopped with error: " ∷ error ∷ []))
      (record app { status = "Error" })

-- the `match` of `drain_events`
unfoldable pub on_event : WorkerEvent → SosBroadcastGuiApp → SosBroadcastGuiApp
unfolding push_log
on_event (started source ws_url) app =
    push_log (concat ("Broadcast server ready at " ∷ ws_url ∷ []))
      (record app { status = "Running"; source_addr = source; ws_url = ws_url })
on_event (clients count) app = record app { client_count = count }
on_event (relayed total) app = record app { relayed_count = total }
on_event (log message) app = push_log message app
on_event (stopped error) app =
    finish_app error
      (record app { running = false; shutdown_tx = none; worker_rx = none; worker_handle = none })

unfoldable pub on_events : List WorkerEvent → SosBroadcastGuiApp → SosBroadcastGuiApp
unfolding on_event
on_events [] app = app
on_events (event ∷ pending) app = on_events pending (on_event event app)

abbrev pub drain : Option (List WorkerEvent) → SosBroadcastGuiApp → SosBroadcastGuiApp
drain none app = app
drain (some pending) app = on_events pending (record app { worker_rx = some [] })

unfoldable pub drain_events : SosBroadcastGuiApp → SosBroadcastGuiApp
unfolding on_events
drain_events app = drain app.worker_rx app

-- `drop`, which joins the thread
unfoldable pub drop_app : SosBroadcastGuiApp → SosBroadcastGuiApp
unfolding stop
drop_app app =
    let last = if app.running then stop app else app in record last { worker_handle = none }

-- The worker sends an event, which waits if the window still listens.
abbrev pub enqueue : WorkerEvent → Option (List WorkerEvent) → Option (List WorkerEvent)
enqueue event none = none
enqueue event (some waiting) = some (waiting ++ (event ∷ []))

unfoldable pub send_event : WorkerEvent → SosBroadcastGuiApp → SosBroadcastGuiApp
send_event event app = record app { worker_rx = enqueue event app.worker_rx }

-- the label of the card of the statistics
unfoldable pub connection_text : SosBroadcastGuiApp → String
connection_text app =
    if app.status == "Running"
    then "Connected"
    else if app.status == "Starting"
    then "Connecting"
    else if app.status == "Stopping"
    then "Stopping"
    else "Disconnected"

-- the red, green and blue parts
unfoldable pub status_color : SosBroadcastGuiApp → ℕ × ℕ × ℕ
status_color app =
    if app.status == "Running"
    then (86, 209, 153)
    else if app.status == "Error"
    then (241, 110, 98)
    else if app.status == "Starting"
    then (247, 194, 96)
    else if app.status == "Stopping"
    then (224, 187, 108)
    else (171, 177, 196)
