-- ===== src/Inits.antt =====
-- internal/inits/dbInit.go: how the database is opened. What is not part of the program is a `Host`, an
-- argument: the file system, `sql.Open` and `Ping`; the statements go to an `Engine`.
pub mod Ready
pub mod Outcomes
use gotaxy.Prelude.{String, Bool, true, Option, none, some, List, [], ◌∷◌, if◌then◌else◌}
use gotaxy.Storage.{Engine, create_cfg_structure, create_mpg_structure}

-- `is_missing` is `os.IsNotExist` of the error of `os.Stat`; the second part of `mkdir_all` and of
-- `ping` is `err == nil`, and `open_db` gives nothing if `sql.Open` fails.
pub record Host (Disk Db : Type 0) : Type 0 where
  pub is_missing : Disk → String → Bool
  pub mkdir_all : Disk → String → Disk × Bool
  pub open_db : Disk → String → Option Db
  pub ping : Db → Db × Bool

-- The five errors, in their order.
pub data Failure : Type 0 where
  no_folder not_opened not_connected no_config_table no_mapping_table : Failure

pub data Outcome (Db : Type 0) : Type 0 where
  panics : Failure → Outcome Db
  returns : Db → Outcome Db

-- `if errorLog != nil { errorLog.Printf(...) }; panic(err)`
unfoldable pub fail : {Db : Type 0} → Bool → Failure → Outcome Db × List Failure
fail error_log failure = (panics failure, if error_log then failure ∷ [] else [])

module _ {Disk Db : Type 0} (host : Host Disk Db) (engine : Engine Db) (error_log : Bool) where
  -- `CreateCfgStructure` and `CreateMpgStructure`.
  unfoldable pub create_tables : Db → Outcome Db × List Failure
  unfolding create_cfg_structure create_mpg_structure fail
  create_tables db =
      let (with_config, config_done) = create_cfg_structure engine db in
      let (with_both, mapping_done) = create_mpg_structure engine with_config in
      if config_done
      then if mapping_done then (returns with_both, []) else fail error_log no_mapping_table
      else fail error_log no_config_table

  -- From `sql.Open` on.
  unfoldable pub open_database : Disk → Outcome Db × List Failure
  unfolding create_tables fail
  open_database disk = elim (host.open_db disk "data/data.db") [
    | none ↦ fail error_log not_opened
    | some db ↦
        let (pinged, connected) = host.ping db in
        if connected then create_tables pinged else fail error_log not_connected
  ]

  -- `os.MkdirAll`, and on.
  unfoldable pub make_folder : Disk → Outcome Db × List Failure
  unfolding open_database fail
  make_folder disk =
      let (made, done) = host.mkdir_all disk "data" in
      if done then open_database made else fail error_log no_folder

  -- What it returns or panics with, and what it prints to the error log.
  unfoldable pub db_init : Disk → Outcome Db × List Failure
  unfolding make_folder open_database
  db_init disk = if host.is_missing disk "data" then make_folder disk else open_database disk
