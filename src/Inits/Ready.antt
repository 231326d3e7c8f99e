-- ===== src/Inits/Ready.antt =====
-- Opening the database makes it ready: both tables are there, and the rows are what they were.
use gotaxy.Prelude.{◌≡◌, refl, ◌∙◌, Bool, true, false, some, List, [], Bool-cases, inl, inr}
use gotaxy.Storage.{Engine, create_cfg_structure, create_mpg_structure}
use gotaxy.Storage.Sql.{Tables, sql, create_config, create_mapping}
use gotaxy.Storage.Laws.{IsSql, exec-kept}
use gotaxy.Storage.Schema.{Schema, IsComplete, IsSchema, IsSound}
use gotaxy.Inits.{
  Host, Failure, Outcome, returns, create_tables, open_database, make_folder, db_init,
}

-- `Ping` changes neither rows nor tables.
pub record IsHost {Disk Db : Type 0} (host : Host Disk Db) (tables : Db → Tables) : Type 0 where
  pub ping_kept : (db : Db) → tables (host.ping db).0 ≡ tables db

-- The folder is there or can be made, and the file in it can be opened, as `db`, and answers.
pub record CanOpen {Disk Db : Type 0} (host : Host Disk Db) (disk : Disk) (db : Db) : Type 0 where
  pub found : host.is_missing disk "data" ≡ false → host.open_db disk "data/data.db" ≡ some db
  pub made : host.is_missing disk "data" ≡ true → (host.mkdir_all disk "data").1 ≡ true
  pub fresh :
      host.is_missing disk "data" ≡ true
      → host.open_db (host.mkdir_all disk "data").0 "data/data.db" ≡ some db
  pub answers : (host.ping db).1 ≡ true

module _ {Disk Db : Type 0} (host : Host Disk Db) (engine : Engine Db) (tables : Db → Tables)
    (schema : Db → Schema) (hosted : IsHost host tables) (laws : IsSql engine tables)
    (schemas : IsSchema engine schema) (works : IsSound engine tables schema) where
  -- Returned without a line in the log, with both tables there and the rows that `before` has.
  abbrev pub IsOpened : Db → Outcome Db × List Failure → Type 0
  IsOpened before o =
      (db : Db) × (o ≡ (returns db, [])) × IsComplete (schema db) × (tables db ≡ tables before)

  create_tables-IsOpened :
      (error_log : Bool) (db : Db) → IsOpened db (create_tables host engine error_log db)
  unfolding create_tables create_cfg_structure create_mpg_structure sql
  create_tables-IsOpened error_log db =
      let db1 = (engine.exec db create_config).0 in
      let db2 = (engine.exec db1 create_mapping).0 in
      let done1 = works.creates_config db in
      let done2 = works.creates_mapping db1 in
      (
        db2,
        rw (done1, done2) refl,
        (
          schemas.config_kept db1 create_mapping (schemas.config_made db done1),
          schemas.mapping_made db1 done2,
        ),
        exec-kept engine tables laws db1 create_mapping refl done2
            ∙ exec-kept engine tables laws db create_config refl done1,
      )

  open_database-IsOpened :
      (error_log : Bool) (disk : Disk) (db : Db)
      → host.open_db disk "data/data.db" ≡ some db
      → (host.ping db).1 ≡ true
      → IsOpened db (open_database host engine error_log disk)
  unfolding open_database
  open_database-IsOpened error_log disk db e answers =
      let (ready, out, there, same) = create_tables-IsOpened error_log (host.ping db).0 in
      (ready, rw (e, open_database, answers) out, there, same ∙ hosted.ping_kept db)

  -- If the folder is there or can be made, and the file in it opens and answers, on a database that
  -- fails only where SQL says: `DBInit` returns a database with both tables and prints nothing; the rows
  -- are what the file had.
  pub db_init-IsOpened :
      (error_log : Bool) (disk : Disk) (db : Db)
      → CanOpen host disk db
      → IsOpened db (db_init host engine error_log disk)
  unfolding db_init make_folder
  db_init-IsOpened error_log disk db can = elim (Bool-cases (host.is_missing disk "data")) [
    | inl missing ↦
        rw (missing, can.made missing)
          (open_database-IsOpened error_log (host.mkdir_all disk "data").0 db (can.fresh missing)
            can.answers)
    | inr there ↦ rw there (open_database-IsOpened error_log disk db (can.found there) can.answers)
  ]
