-- ===== src/System/Inv.antt =====
-- A predicate on the manager that the changes of `IsManaged` and `IsRelayed` keep is kept by every
-- event.
use gotaxy.Prelude.{arith, ◌≡◌, sym, subst, List, [], ◌∷◌, All}
use gotaxy.EventBus.{Payload, traffic, connected, disconnected}
use gotaxy.Storage.{Engine}
use gotaxy.Session.{Manager, Ref}
use gotaxy.Server.{GotaxyServer, on_traffic_report, persist}
use gotaxy.Control.Inv.{IsManaged}
use gotaxy.Relay.Inv.{IsRelayed, MayEnd, any_end, relay_inv}
use gotaxy.Shell.Frame.{handle_service-sessions, handle_config-sessions}
use gotaxy.Shell.Mappings.Inv.{handle_mapping_inv}
use gotaxy.Web.Frame.{
  start_service_handler-sessions, stop_service_handler-sessions, update_config_handler-sessions,
}
use gotaxy.Web.Mappings.Inv.{
  toggle_mapping_handler_inv, add_mapping_handler_inv, delete_mapping_handler_inv,
  update_mapping_handler_inv,
}
use gotaxy.Shell.Terminal.{cancel_server}
use gotaxy.Shell.Terminal.Inv.{IsKept, enter_inv}
use gotaxy.System.{
  Event, terminal, api_start, api_stop, api_config_update, api_mappings_add, api_mappings_delete,
  api_mappings_update, api_mappings_toggle, traffic_report, tick, tunnel, serve, run,
}

-- The listener that an event ends may end.
abbrev pub Allows : (Ref → Type 0) → Event → Type 0
Allows Ends (tunnel step) = MayEnd Ends step
Allows Ends (terminal exists input) = Unit
Allows Ends (api_start exists) = Unit
Allows Ends api_stop = Unit
Allows Ends (api_config_update body) = Unit
Allows Ends (api_mappings_add body) = Unit
Allows Ends (api_mappings_delete body) = Unit
Allows Ends (api_mappings_update body) = Unit
Allows Ends (api_mappings_toggle body) = Unit
Allows Ends (traffic_report payload) = Unit
Allows Ends tick = Unit

all_allowed : (e : Event) → Allows (λ r. Unit) e
all_allowed (tunnel step) = any_end step
all_allowed (terminal exists input) = tt
all_allowed (api_start exists) = tt
all_allowed api_stop = tt
all_allowed (api_config_update body) = tt
all_allowed (api_mappings_add body) = tt
all_allowed (api_mappings_delete body) = tt
all_allowed (api_mappings_update body) = tt
all_allowed (api_mappings_toggle body) = tt
all_allowed (traffic_report payload) = tt
all_allowed tick = tt

pub always_allowed : (events : List Event) → All (Allows (λ r. Unit)) events
always_allowed [] = tt
always_allowed (e ∷ events) = (all_allowed e, always_allowed events)

module _ {Db : Type 0} (engine : Engine Db) where
  cancel_server-sessions : (s : GotaxyServer Db) → (cancel_server engine s).sessions ≡ s.sessions
  unfolding cancel_server
  cancel_server-sessions s = ground arith

module _ {Db : Type 0} (engine : Engine Db) (P : Manager → Type 0) (kept : IsManaged P)
    (Ends : Ref → Type 0) (relayed : IsRelayed P Ends) where
  same_sessions : {m n : Manager} → n ≡ m → P m → P n
  same_sessions e v = subst P (sym e) v

  on_traffic_report_inv :
      (s : GotaxyServer Db) (p : Payload) → P s.sessions → P (on_traffic_report s p).sessions
  unfolding on_traffic_report
  on_traffic_report_inv s (traffic name bytes) v = kept.counted s.sessions name bytes v
  on_traffic_report_inv s (disconnected _ _) v = v
  on_traffic_report_inv s (connected _ _) v = v

  commands-IsKept : IsKept engine (λ s. P s.sessions)
  commands-IsKept = record {
    service = λ exists args s v. same_sessions (handle_service-sessions s exists args) v;
    config = λ args s v. same_sessions (handle_config-sessions engine s args) v;
    mapping = λ args s _ v. handle_mapping_inv engine P kept args s v;
    cancelled = λ s v. same_sessions (cancel_server-sessions engine s) v;
  }

  pub serve_inv :
      (s : GotaxyServer Db) (e : Event)
      → Allows Ends e
      → P s.sessions
      → P (serve engine s e).sessions
  unfolding serve persist
  serve_inv s (terminal exists input) h v =
      enter_inv engine (λ s. P s.sessions) commands-IsKept exists input s v
  serve_inv s (api_start exists) h v = same_sessions (start_service_handler-sessions s exists) v
  serve_inv s api_stop h v = same_sessions (stop_service_handler-sessions s) v
  serve_inv s (api_config_update body) h v =
      same_sessions (update_config_handler-sessions engine s body) v
  serve_inv s (api_mappings_add body) h v = add_mapping_handler_inv engine P kept body s v
  serve_inv s (api_mappings_delete body) h v = delete_mapping_handler_inv engine P kept body s v
  serve_inv s (api_mappings_update body) h v = update_mapping_handler_inv engine P kept body s v
  serve_inv s (api_mappings_toggle body) h v = toggle_mapping_handler_inv P kept body s v
  serve_inv s (traffic_report payload) h v = on_traffic_report_inv s payload v
  serve_inv s tick h v = v
  serve_inv s (tunnel step) h v = relay_inv P Ends relayed step s h v

  pub run_inv :
      (s : GotaxyServer Db) (events : List Event)
      → All (Allows Ends) events
      → P s.sessions
      → P (run engine s events).sessions
  unfolding run
  run_inv s [] h v = v
  run_inv s (e ∷ events) h v = run_inv (serve engine s e) events h.1 (serve_inv s e h.0 v)
