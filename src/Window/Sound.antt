-- ===== src/Window/Sound.antt =====
-- What holds of the window in every state that it can come to.
use rlstatsapi.Prelude.{
  suc, ◌≤◌, String, ◌≡◌, refl, ap, ◌∙◌, inl, inr, Bool, true, false, Option, none, some, is_some,
  List, [], ◌∷◌, ◌++◌, length, ltb, Bool-cases, if◌then◌else◌, arith,
}
use rlstatsapi.Window.App.{
  launch, reset, starting_message, WorkerEvent, started, clients, relayed, log, stopped,
  SosBroadcastGuiApp, new_app, max_log_lines, pop_over, push_log, start, stop_with, stop, on_event,
  on_events, drain, drain_events, enqueue, send_event,
}

-- The actions of the user, of the worker and of the frame that is drawn.
pub data Step : SosBroadcastGuiApp → SosBroadcastGuiApp → Type 0 where
  starts : (app : SosBroadcastGuiApp) → Step app (start app)
  stops : (app : SosBroadcastGuiApp) → Step app (stop app)
  sends : (event : WorkerEvent) (app : SosBroadcastGuiApp) → Step app (send_event event app)
  drains : (app : SosBroadcastGuiApp) → Step app (drain_events app)

pub data IsReachable : SosBroadcastGuiApp → Type 0 where
  opened : IsReachable new_app
  step : (app after : SosBroadcastGuiApp) → IsReachable app → Step app after → IsReachable after

-- The log is short, and the channel of shutdown, the queue and the thread are there exactly while
-- the broadcaster runs.
pub record IsSound (app : SosBroadcastGuiApp) : Type 0 where
  pub short : length app.logs ≤ max_log_lines
  pub shutdown : is_some app.shutdown_tx ≡ app.running
  pub listens : is_some app.worker_rx ≡ app.running
  pub thread : is_some app.worker_handle ≡ app.running

pop_over-short : (logs : List String) → length (pop_over logs) ≤ max_log_lines
unfolding pop_over
pop_over-short [] = omega arith
pop_over-short (line ∷ logs) = elim (Bool-cases (ltb max_log_lines (suc (length logs)))) [
  | inl over ↦ rw over (pop_over-short logs)
  | inr fits ↦ rw fits (ground (arith, fits))
]

push_log-IsSound :
    (message : String) (app : SosBroadcastGuiApp) → IsSound app → IsSound (push_log message app)
unfolding push_log
push_log-IsSound message app h = record {
  short = pop_over-short (app.logs ++ (message ∷ []));
  shutdown = h.shutdown;
  listens = h.listens;
  thread = h.thread;
}

either-IsSound :
    (b : Bool) (now later : SosBroadcastGuiApp)
    → IsSound now
    → IsSound later
    → IsSound (if b then now else later)
either-IsSound true now later h k = h
either-IsSound false now later h k = k

launch-IsSound : (app : SosBroadcastGuiApp) → IsSound (launch app)
unfolding launch push_log
launch-IsSound app = record {
  short = pop_over-short (starting_message (reset app) ∷ []);
  shutdown = refl;
  listens = refl;
  thread = refl;
}

start-IsSound : (app : SosBroadcastGuiApp) → IsSound app → IsSound (start app)
unfolding start
start-IsSound app h = either-IsSound app.running app (launch app) h (launch-IsSound app)

stop-IsSound :
    (tx : Option Bool) (app : SosBroadcastGuiApp)
    → tx ≡ app.shutdown_tx
    → IsSound app
    → IsSound (stop_with tx app)
stop-IsSound none app e h = h
stop-IsSound (some sent) app e h = push_log-IsSound _ _ (record {
  short = h.short;
  shutdown = ap is_some e ∙ h.shutdown;
  listens = h.listens;
  thread = h.thread;
})

is_some-enqueue :
    (event : WorkerEvent) (rx : Option (List WorkerEvent)) → is_some (enqueue event rx) ≡ is_some rx
is_some-enqueue event none = refl
is_some-enqueue event (some waiting) = refl

send_event-IsSound :
    (event : WorkerEvent) (app : SosBroadcastGuiApp) → IsSound app → IsSound (send_event event app)
unfolding send_event
send_event-IsSound event app h = record {
  short = h.short;
  shutdown = h.shutdown;
  listens = is_some-enqueue event app.worker_rx ∙ h.listens;
  thread = h.thread;
}

on_event-IsSound :
    (event : WorkerEvent) (app : SosBroadcastGuiApp) → IsSound app → IsSound (on_event event app)
unfolding on_event
on_event-IsSound (started source ws_url) app h =
    push_log-IsSound _ _
      (record { short = h.short; shutdown = h.shutdown; listens = h.listens; thread = h.thread })
on_event-IsSound (clients count) app h = record {
  short = h.short;
  shutdown = h.shutdown;
  listens = h.listens;
  thread = h.thread;
}
on_event-IsSound (relayed total) app h = record {
  short = h.short;
  shutdown = h.shutdown;
  listens = h.listens;
  thread = h.thread;
}
on_event-IsSound (log message) app h = push_log-IsSound message app h
on_event-IsSound (stopped none) app h =
    push_log-IsSound _ _
      (record { short = h.short; shutdown = refl; listens = refl; thread = refl })
on_event-IsSound (stopped (some error)) app h =
    push_log-IsSound _ _
      (record { short = h.short; shutdown = refl; listens = refl; thread = refl })

on_events-IsSound :
    (pending : List WorkerEvent) (app : SosBroadcastGuiApp)
    → IsSound app
    → IsSound (on_events pending app)
unfolding on_events
on_events-IsSound [] app h = h
on_events-IsSound (event ∷ pending) app h =
    on_events-IsSound pending (on_event event app) (on_event-IsSound event app h)

drain-IsSound :
    (rx : Option (List WorkerEvent)) (app : SosBroadcastGuiApp)
    → rx ≡ app.worker_rx
    → IsSound app
    → IsSound (drain rx app)
drain-IsSound none app e h = h
drain-IsSound (some pending) app e h = on_events-IsSound pending _ (record {
  short = h.short;
  shutdown = h.shutdown;
  listens = ap is_some e ∙ h.listens;
  thread = h.thread;
})

Step-IsSound : (app after : SosBroadcastGuiApp) → Step app after → IsSound app → IsSound after
unfolding stop drain_events
Step-IsSound _ _ (Step.starts app) h = start-IsSound app h
Step-IsSound _ _ (Step.stops app) h = stop-IsSound app.shutdown_tx app refl h
Step-IsSound _ _ (Step.sends event app) h = send_event-IsSound event app h
Step-IsSound _ _ (Step.drains app) h = drain-IsSound app.worker_rx app refl h

-- In every state that the window comes to, the log has at most 300 lines, and the channel of
-- shutdown, the queue of events and the thread are there exactly while the broadcaster runs.
pub IsReachable-IsSound : (app : SosBroadcastGuiApp) → IsReachable app → IsSound app
IsReachable-IsSound _ IsReachable.opened = record {
  short = omega arith;
  shutdown = refl;
  listens = refl;
  thread = refl;
}
IsReachable-IsSound _ (IsReachable.step before app reached taken) =
    Step-IsSound before app taken (IsReachable-IsSound before reached)
