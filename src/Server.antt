-- ===== src/Server.antt =====
-- internal/core/server.go: the state that the control surfaces and the tunnel share, the handler of
-- traffic reports, and the task that stores the counters. Loggers are not modelled.
pub mod Traffic
pub mod Persistence
use gotaxy.Prelude.{
  ℕ, suc, String, ◌≡◌, Bool, true, false, Option, none, some, List, [], ◌∷◌, ◌++◌, if◌then◌else◌,
}
use gotaxy.Int64.{Int64, add64, is_positive}
use gotaxy.Strconv.{format_int}
use gotaxy.Context.{Context, CancelFunc, Contexts, with_cancel, background}
use gotaxy.EventBus.{
  EventBus, new_event_bus, subscribe, Payload, disconnected, connected, traffic,
  client_disconnected, traffic_report,
}
use gotaxy.Session.{Mapping, Manager, Ref, Smux, new_manager, read, add_traffic, get_all_mappings}
use gotaxy.Config.{Config, empty_config}
use gotaxy.Storage.{Engine, update_cfg, update_tra}

-- The two subscribers of the bus: the alert router, and the closure of `NewServer`.
pub data Handler : Type 0 where
  alerts counts : Handler

-- The goroutines that are started: `Controller.Start`, `StartPublicListener` with the context and the
-- mapping that it is given, `waitControlConn`, and `startHeartbeat` for a client and its session.
pub data Task : Type 0 where
  control : Task
  listener : Context → Ref → Task
  accept_control : Task
  heartbeat : String → Smux → Task

pub record GotaxyServer (Db : Type 0) : Type 0 where
  pub contexts : Contexts
  pub ctx : Context
  pub cancel : Option CancelFunc
  pub event_bus : EventBus Handler
  pub config : Config
  pub sessions : Manager
  pub db : Db
  pub is_run : Bool
  pub tasks : List Task

module _ {Db : Type 0} where
  -- Neither the settings nor the subscriptions change.
  abbrev pub IsQuiet : GotaxyServer Db → GotaxyServer Db → Type 0
  IsQuiet s t = (t.config ≡ s.config) × (t.event_bus ≡ s.event_bus)

  unfoldable pub new_server : Db → GotaxyServer Db
  unfolding subscribe
  new_server db =
      let (ctx, cancel, contexts) = with_cancel (record { next = 0; cancelled = [] }) background in
      record {
        contexts = contexts;
        ctx = ctx;
        cancel = some cancel;
        event_bus =
            subscribe (subscribe new_event_bus client_disconnected alerts) traffic_report counts;
        config = empty_config;
        sessions = new_manager;
        db = db;
        is_run = false;
        tasks = [];
      }

  -- The closure that is subscribed to traffic reports.
  unfoldable pub on_traffic_report : GotaxyServer Db → Payload → GotaxyServer Db
  on_traffic_report s (traffic mapping_name bytes) = record s {
    sessions = add_traffic s.sessions mapping_name bytes;
    config = record s.config { total_traffic = add64 s.config.total_traffic bytes };
  }
  on_traffic_report s (disconnected _ _) = s
  on_traffic_report s (connected _ _) = s

  unfoldable pub set_run_status : GotaxyServer Db → Bool → GotaxyServer Db
  set_run_status s status = record s { is_run = status }

  -- go f()
  abbrev pub spawn : GotaxyServer Db → Task → GotaxyServer Db
  spawn s task = record s { tasks = s.tasks ++ task ∷ [] }

module _ {Db : Type 0} (engine : Engine Db) where
  -- `UpdateTra` of one mapping; an error is logged and passed over.
  unfoldable pub persist_mapping : Db → Option Mapping → Db
  unfolding update_tra
  persist_mapping db none = db
  persist_mapping db (some m) =
      if is_positive m.traffic then (update_tra engine db m.name m.traffic).0 else db

  unfoldable pub persist_mappings : Manager → Db → List Ref → Db
  unfolding persist_mapping
  persist_mappings sessions db [] = db
  persist_mappings sessions db (r ∷ mappings) =
      persist_mappings sessions (persist_mapping db (read sessions r)) mappings

  -- One tick of `startTrafficPersistence`.
  unfoldable pub persist : GotaxyServer Db → GotaxyServer Db
  unfolding persist_mappings update_cfg
  persist s =
      let db = (update_cfg engine s.db "total_traffic" (format_int s.config.total_traffic)).0 in
      record s { db = persist_mappings s.sessions db (get_all_mappings s.sessions) }
