-- ===== src/Storage/Schema.antt =====
-- A database in which the tables may still be missing, as `sql.Open` gives it, and the databases in
-- which both are there: on those an engine is an engine again, with the same laws.
use gotaxy.Prelude.{String, ◌≡◌, true, Bool, some}
use gotaxy.Prelude.Dict.{lookup}
use gotaxy.Storage.Sql.{Statement, Row, Tables, sql, create_config, create_mapping}
use gotaxy.Storage.{Engine, Cursor}
use gotaxy.Storage.Laws.{IsSql, IsReliable}

-- Which of the tables are there.
pub record Schema : Type 0 where
  pub config : Bool
  pub mapping : Bool

abbrev pub IsComplete : Schema → Type 0
IsComplete schema = (schema.config ≡ true) × (schema.mapping ≡ true)

-- What SQL promises of them: `create table` makes its table, and no statement of the program drops one.
pub record IsSchema {Db : Type 0} (engine : Engine Db) (schema : Db → Schema) : Type 0 where
  pub config_made :
      (db : Db)
      → (engine.exec db create_config).1 ≡ true
      → (schema (engine.exec db create_config).0).config ≡ true
  pub mapping_made :
      (db : Db)
      → (engine.exec db create_mapping).1 ≡ true
      → (schema (engine.exec db create_mapping).0).mapping ≡ true
  pub config_kept :
      (db : Db) (s : Statement)
      → (schema db).config ≡ true
      → (schema (engine.exec db s).0).config ≡ true
  pub mapping_kept :
      (db : Db) (s : Statement)
      → (schema db).mapping ≡ true
      → (schema (engine.exec db s).0).mapping ≡ true

-- An engine that fails only where SQL says: `create table if not exists` never, anything else only for
-- a missing table, a constraint or a missing row.
pub record IsSound {Db : Type 0} (engine : Engine Db) (tables : Db → Tables) (schema : Db → Schema)
    : Type 0 where
  pub creates_config : (db : Db) → (engine.exec db create_config).1 ≡ true
  pub creates_mapping : (db : Db) → (engine.exec db create_mapping).1 ≡ true
  pub accepts :
      (db : Db) (s : Statement) (t : Tables)
      → IsComplete (schema db)
      → sql (tables db) s ≡ some t
      → (engine.exec db s).1 ≡ true
  pub finds :
      (db : Db) (name : String) (r : Row)
      → IsComplete (schema db)
      → lookup (tables db).mapping name ≡ some r
      → engine.query_rule db name ≡ some r
  pub reads_config :
      (db : Db)
      → IsComplete (schema db)
      → (c : Cursor (String × String)) × (engine.query_config db ≡ some c) × (c.complete ≡ true)
  pub reads_rules :
      (db : Db)
      → IsComplete (schema db)
      → (c : Cursor Row) × (engine.query_rules db ≡ some c) × (c.complete ≡ true)

module _ {Db : Type 0} (engine : Engine Db) (schema : Db → Schema)
    (schemas : IsSchema engine schema) where
  -- A database with both tables.
  abbrev pub Ready : Type 0
  Ready = (db : Db) × IsComplete (schema db)

  abbrev exec_ready : Ready → Statement → Ready × Bool
  exec_ready (db, (config, mapping)) s = (
    ((engine.exec db s).0, (schemas.config_kept db s config, schemas.mapping_kept db s mapping)),
    (engine.exec db s).1,
  )

  abbrev pub ready_engine : Engine Ready
  ready_engine = record {
    exec = exec_ready;
    query_config = λ db. engine.query_config db.0;
    query_rules = λ db. engine.query_rules db.0;
    query_rule = λ db name. engine.query_rule db.0 name;
  }

  abbrev pub ready_tables : (Db → Tables) → Ready → Tables
  ready_tables tables db = tables db.0

  module _ (tables : Db → Tables) where
    pub ready_engine-IsSql : IsSql engine tables → IsSql ready_engine (ready_tables tables)
    ready_engine-IsSql laws = record {
      exec_done = λ db s. laws.exec_done db.0 s;
      exec_failed = λ db s. laws.exec_failed db.0 s;
      config_rows = λ db. laws.config_rows db.0;
      rule_rows = λ db. laws.rule_rows db.0;
      rule_row = λ db. laws.rule_row db.0;
      config_unique = λ db. laws.config_unique db.0;
      rule_unique = λ db. laws.rule_unique db.0;
      rule_named = λ db. laws.rule_named db.0;
    }

    pub ready_engine-IsReliable :
        IsSound engine tables schema → IsReliable ready_engine (ready_tables tables)
    ready_engine-IsReliable works = record {
      accepts = λ db s t. works.accepts db.0 s t db.1;
      finds = λ db name r. works.finds db.0 name r db.1;
      reads_config = λ db. works.reads_config db.0 db.1;
      reads_rules = λ db. works.reads_rules db.0 db.1;
    }
