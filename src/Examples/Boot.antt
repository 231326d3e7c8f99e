-- ===== src/Examples/Boot.antt =====
-- The start of the server on a machine where neither the folder nor the tables are there yet.
use gotaxy.Prelude.{
  ◌≡◌, refl, Bool, true, false, not, none, some, List, [], ◌∷◌, arith, if◌then◌else◌,
}
use gotaxy.Prelude.Dict.{lookup}
use gotaxy.Strconv.{parse_int, parsed}
use gotaxy.EventBus.{traffic}
use gotaxy.Session.Count.{IsCounted}
use gotaxy.Storage.Schema.{Ready}
use gotaxy.Storage.Files.{
  File, file, file_tables, file_schema, file-IsSql, file-IsSchema, file-IsSound,
}
use gotaxy.Inits.{Host, returns, db_init}
use gotaxy.Inits.Ready.{IsHost, CanOpen}
use gotaxy.Inits.Outcomes.{IsOutcome, db_init-IsOutcome}
use gotaxy.Server.{GotaxyServer}
use gotaxy.Control.Sync.{IsSynced}
use gotaxy.Shell.Terminal.{line}
use gotaxy.System.{Event, terminal, traffic_report, tick}
use gotaxy.System.Startup.{IsReadable}
use gotaxy.System.Boot.{served, db_init-run}
use gotaxy.Examples.{empty_db, all_files}

abbrev empty_file : File
empty_file = record { held = empty_db; schema = record { config = false; mapping = false } }

-- The disk says whether the folder is there.
abbrev host : Host Bool File
host = record {
  is_missing = λ disk path. not disk;
  mkdir_all = λ disk path. (true, true);
  open_db = λ disk path. if disk then some empty_file else none;
  ping = λ f. (f, true);
}

host-IsHost : IsHost host file_tables
host-IsHost = record { ping_kept = λ f. refl }

host-CanOpen : CanOpen host false empty_file
host-CanOpen = record {
  found = λ h. ground arith;
  made = λ h. refl;
  fresh = λ h. refl;
  answers = refl;
}

empty_file-IsReadable : IsReadable (file_tables empty_file) 0
unfolding lookup parse_int gotaxy.Strconv.signed
empty_file-IsReadable = record { parses = refl; present = λ h. omega (arith, h); named = refl }

abbrev events : List Event
events =
    terminal all_files (line "mapping add web 8080 127.0.0.1:80")
    ∷ traffic_report (traffic "web" 300)
    ∷ tick
    ∷ []

abbrev serving :
    Ready file file_schema file-IsSchema → GotaxyServer (Ready file file_schema file-IsSchema)
serving db = served file file_schema file-IsSchema db events

db_init-run_example :
    (db : Ready file file_schema file-IsSchema) × (db_init host file true false
      ≡ (returns db.0, []))
    × (file_tables db.0 ≡ file_tables empty_file)
    × IsSynced (serving db).sessions (file_tables (serving db).db.0)
    × IsCounted (serving db).sessions
db_init-run_example =
    db_init-run host file file_tables file_schema host-IsHost file-IsSql file-IsSchema file-IsSound
      true false empty_file 0 events host-CanOpen empty_file-IsReadable

db_init-IsOutcome_example :
    IsOutcome host file file_tables file_schema true false (db_init host file true false)
db_init-IsOutcome_example =
    db_init-IsOutcome host file file_tables file_schema file-IsSql file-IsSchema true false
