-- ===== src/Window/Tests.antt =====
-- The window over one run of the worker.
use rlstatsapi.Prelude.{◌≡◌, refl, false, some, [], ◌∷◌, ◌++◌}
use rlstatsapi.Window.App.{
  launch, started, clients, stopped, SosBroadcastGuiApp, new_app, push_log, start, drain_events,
  send_event,
}
use rlstatsapi.Window.Sound.{Step, IsReachable, IsSound, IsReachable-IsSound}
use rlstatsapi.Window.Stopping.{last_status, drain_events-stopped}

abbrev running_app : SosBroadcastGuiApp
running_app =
    drain_events (send_event (started "127.0.0.1:49123" "ws://0.0.0.0:49122") (start new_app))

running-IsReachable : IsReachable running_app
running-IsReachable =
    IsReachable.step _ _
      (IsReachable.step _ _ (IsReachable.step _ _ IsReachable.opened (Step.starts _))
        (Step.sends _ _))
      (Step.drains _)

IsReachable-IsSound_example : IsSound running_app
IsReachable-IsSound_example = IsReachable-IsSound running_app running-IsReachable

abbrev ending_app : SosBroadcastGuiApp
ending_app = send_event (stopped (some "refused")) (send_event (clients 2) (start new_app))

ending_queue : ending_app.worker_rx ≡ some ((clients 2 ∷ []) ++ (stopped (some "refused") ∷ []))
unfolding send_event start launch push_log
ending_queue = refl

drain_events-stopped_example :
    ((drain_events ending_app).running ≡ false)
    × ((drain_events ending_app).status ≡ last_status (some "refused"))
drain_events-stopped_example =
    drain_events-stopped (clients 2 ∷ []) (some "refused") ending_app ending_queue
