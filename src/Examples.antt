-- ===== src/Examples.antt =====
-- What the examples of the theorems share: a database in memory and a server, with one rule.
pub mod Sessions
pub mod Servers
pub mod Texts
pub mod Events
pub mod Tunnels
pub mod Listeners
pub mod Certificates
pub mod Logs
pub mod Boot
pub mod Alerts
pub mod Races
pub mod Stops
use mathlib.Core.Option
use mathlib.Core.Option.{get_or}
use gotaxy.Prelude.{
  ℕ, String, ◌≡◌, ◌≢◌, ◌↔◌, ◌<◌, ◌+◌, ◌%◌, ◌^◌, refl, Bool, true, false, Option, none, some, List,
  [], ◌∷◌, map, arith, eq_iff, str_eq, codes, All, length, if◌then◌else◌,
}
use gotaxy.Prelude.Dict.{Dict, lookup, insert, IsMap}
use gotaxy.Int64.{Int64, add64}
use gotaxy.Strconv.{parsed, parse_int}
use gotaxy.Context.{done, Context}
use gotaxy.Utils.{is_validate_ip, is_validate_addr, is_validate_email}
use gotaxy.Utils.Addresses.{IsIp, IsAddr, is_validate_ip_iff, is_validate_addr_iff}
use gotaxy.Utils.Emails.{IsEmail, is_validate_email_iff}
use gotaxy.Session.{
  Manager, Mapping, new_manager, new_mapping, set_mapping, delete_mapping, add_traffic, get_session,
  get_default_session, change, modify,
}
use gotaxy.Session.View.{view, IsLinked, new_manager-IsLinked, set_mapping-IsLinked}
use gotaxy.Session.Refinement.{
  Call, call, sets, deletes, enables, marks, limits, rewrites, adds, calls, meanings,
  calls-meanings, calls-IsLinked,
}
use gotaxy.Session.Count.{
  IsCounted, new_manager-IsCounted, set_mapping-IsCounted, delete_mapping-IsCounted,
}
use gotaxy.Session.Clients.{
  ClientEvent, connects, leaves, client_event, after, latest, IsNamed, get_session-client_event,
  get_default_session-latest,
}
use gotaxy.Session.Count.{IsCounted}
use gotaxy.Storage.Sql.{Row, Tables, sql, revise}
use gotaxy.Storage.{get_all_cfg, get_all_mpg, update_map}
use gotaxy.Storage.Models.{get_all_cfg-eq, get_all_mpg-eq}
use gotaxy.Storage.Rules.{Rule, durable, rule_of_row, update_map-row}
use gotaxy.Storage.Memory.{IsValid, Memory, tables, memory, memory-IsSql, memory-IsReliable}
use gotaxy.Config.{Loaded, empty_config, config_load, value_of}
use gotaxy.Config.Load.{IsLoaded, IsCompleted, config_load-stored, config_load-IsCompleted}
use gotaxy.Server.{GotaxyServer, Handler, new_server, persist}
use gotaxy.Server.Traffic.{Report, reports, all_bytes, bytes_of, reports-total, reports-mapping}
use gotaxy.Server.Persistence.{stored, persist-rows, persist-total}
use gotaxy.EventBus.{new_event_bus, traffic}
use gotaxy.Control.{check_server_cert_exist}
use gotaxy.Control.Sync.{IsSynced}
use gotaxy.Shell.{handle_service}
use gotaxy.Web.{start_service_handler}
use gotaxy.Web.Mappings.{MappingRequest, ToggleRequest}
use gotaxy.System.{Event, api_mappings_update, api_mappings_toggle, traffic_report, tick, run}
use gotaxy.System.Sync.{run-IsSynced}
use gotaxy.System.Lifecycle.{IsFresh, start_service_handler-done, service_restart-done}

-- The manager with the rule `web`, which has had 300 bytes.
abbrev pub web_row : Row
web_row = record {
  id = 1;
  name = "web";
  public_port = "8080";
  target_addr = "127.0.0.1:80";
  enable = true;
  traffic = 100;
  rate_limit = 2097152;
}

abbrev pub web_calls : List Call
web_calls = sets "web" "8080" "127.0.0.1:80" true 0 2097152 ∷ adds "web" 300 ∷ []

abbrev pub web_manager : Manager
web_manager = calls new_manager web_calls

pub web_manager-IsLinked : IsLinked web_manager
web_manager-IsLinked = calls-IsLinked web_calls new_manager-IsLinked

pub web_manager-IsMap : IsMap web_manager.table
unfolding calls call set_mapping add_traffic change insert lookup
web_manager-IsMap = (refl, tt)

-- The tables with that rule, with all four settings and with one of them.
abbrev pub web_tables : Dict String → Tables
web_tables settings = record { config = settings; mapping = ("web", web_row) ∷ []; next_id = 2 }

pub web_tables-IsValid : (settings : Dict String) → IsMap settings → IsValid (web_tables settings)
unfolding lookup
web_tables-IsValid settings h = record {
  config_unique = h;
  rule_unique = (refl, tt);
  rule_named = λ k r e. ground (arith, eq_iff "web" k);
}

abbrev pub all_settings : Dict String
all_settings =
    ("server_ip", "127.0.0.1")
    ∷ ("listen_port", "9000")
    ∷ ("email", "")
    ∷ ("total_traffic", "700")
    ∷ []

pub all_settings-IsMap : IsMap all_settings
unfolding lookup
all_settings-IsMap = (refl, (refl, (refl, (refl, tt))))

abbrev pub one_setting : Dict String
one_setting = ("listen_port", "9100") ∷ []

pub one_setting-IsMap : IsMap one_setting
unfolding lookup
one_setting-IsMap = (refl, tt)

abbrev pub full_db : Memory
full_db = record {
  tables = web_tables all_settings;
  valid = web_tables-IsValid all_settings all_settings-IsMap;
}

abbrev pub partial_db : Memory
partial_db = record {
  tables = web_tables one_setting;
  valid = web_tables-IsValid one_setting one_setting-IsMap;
}

pub empty_tables-IsValid : IsValid (record { config = []; mapping = []; next_id = 1 })
unfolding lookup
empty_tables-IsValid = record { config_unique = tt; rule_unique = tt; rule_named = λ k r e. cc }

abbrev pub empty_db : Memory
empty_db = record {
  tables = record { config = []; mapping = []; next_id = 1 };
  valid = empty_tables-IsValid;
}

abbrev pub web_server : Bool → GotaxyServer Memory
web_server is_run = record {
  contexts = record { next = 1; cancelled = [] };
  ctx = 0 ∷ [];
  cancel = some 0;
  event_bus = new_event_bus;
  config = record empty_config { total_traffic = 1000 };
  sessions = web_manager;
  db = full_db;
  is_run = is_run;
  tasks = [];
}

abbrev pub all_files : String → Bool
all_files path = true

abbrev pub loading : Memory → Loaded Memory
loading db = record { cfg = empty_config; sessions = new_manager; db = db }

pub word : (s : String) → str_eq s "" ≡ false → s ≢ ""
word s h = ground (arith, eq_iff s "")

pub web_manager-IsCounted : IsCounted web_manager
unfolding calls call set_mapping add_traffic change insert lookup add64
web_manager-IsCounted = record { keyed = (refl, tt); counted = refl }

-- Its rules are those of the database.
pub web_server-IsSynced : IsSynced web_manager (tables full_db)
unfolding view calls call set_mapping add_traffic change insert lookup modify add64 durable
web_server-IsSynced = record {
  linked = web_manager-IsLinked;
  unnamed = refl;
  rules = λ k. ground arith;
}
