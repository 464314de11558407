-- ===== src/Window/Stopping.antt =====
-- How the broadcaster comes to rest.
use rlstatsapi.Prelude.{String, ◌≡◌, refl, false, Option, none, some, List, [], ◌∷◌, ◌++◌}
use rlstatsapi.Window.App.{
  WorkerEvent, stopped, SosBroadcastGuiApp, push_log, on_event, on_events, drain, drain_events,
}

-- What the window says of a worker that ended.
abbrev pub last_status : Option String → String
last_status none = "Stopped"
last_status (some error) = "Error"

on_events-append :
    (before after : List WorkerEvent) (app : SosBroadcastGuiApp)
    → on_events (before ++ after) app ≡ on_events after (on_events before app)
unfolding on_events
on_events-append [] after app = refl
on_events-append (event ∷ before) after app = on_events-append before after (on_event event app)

stopped-ends :
    (error : Option String) (app : SosBroadcastGuiApp)
    → ((on_event (stopped error) app).running ≡ false)
      × ((on_event (stopped error) app).status ≡ last_status error)
unfolding on_event push_log
stopped-ends none app = (refl, refl)
stopped-ends (some error) app = (refl, refl)

drain-stopped :
    (rx : Option (List WorkerEvent)) (earlier : List WorkerEvent) (error : Option String)
    (app : SosBroadcastGuiApp)
    → rx ≡ some (earlier ++ (stopped error ∷ []))
    → ((drain rx app).running ≡ false) × ((drain rx app).status ≡ last_status error)
unfolding on_events
drain-stopped rx earlier error app e =
    rw (e, on_events-append earlier (stopped error ∷ []) (record app { worker_rx = some [] }))
      (stopped-ends error (on_events earlier (record app { worker_rx = some [] })))

-- Once the worker's last event waits, drawing a frame brings the broadcaster to rest, whatever
-- waited before: it runs no more, and the status tells whether there was an error.
pub drain_events-stopped :
    (earlier : List WorkerEvent) (error : Option String) (app : SosBroadcastGuiApp)
    → app.worker_rx ≡ some (earlier ++ (stopped error ∷ []))
    → ((drain_events app).running ≡ false) × ((drain_events app).status ≡ last_status error)
unfolding drain_events
drain_events-stopped earlier error app e = drain-stopped app.worker_rx earlier error app e
