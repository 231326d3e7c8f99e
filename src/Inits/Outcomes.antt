-- ===== src/Inits/Outcomes.antt =====
-- What DBInit leaves, however the file system and the database behave, and why.
use gotaxy.Prelude.{
  ◌≡◌, refl, ◌∙◌, sym, ap, subst, Bool, Bool-cases, true, false, not, ◌||◌, none, some, List, [],
  ◌∷◌, arith, Option-cases, inl, inr, if◌then◌else◌,
}
use gotaxy.Storage.{Engine, create_cfg_structure, create_mpg_structure}
use gotaxy.Storage.Sql.{Tables, sql, create_config, create_mapping}
use gotaxy.Storage.Laws.{IsSql, exec-kept}
use gotaxy.Storage.Schema.{Schema, IsComplete, IsSchema}
use gotaxy.Control.Sync.{both}
use gotaxy.Inits.{
  Host, Failure, no_folder, not_opened, not_connected, no_config_table, no_mapping_table, Outcome,
  returns, panics, fail, create_tables, open_database, make_folder, db_init,
}

module _ {Disk Db : Type 0} (host : Host Disk Db) (disk : Disk) where
  -- The folder is there, or could be made; and the disk with it.
  abbrev pub has_folder : Bool
  has_folder = not (host.is_missing disk "data") || (host.mkdir_all disk "data").1

  abbrev pub with_folder : Disk
  with_folder = if host.is_missing disk "data" then (host.mkdir_all disk "data").0 else disk

  -- The file could be opened in the folder, as this database.
  abbrev pub Opens : Db → Type 0
  Opens db = (has_folder ≡ true) × (host.open_db with_folder "data/data.db" ≡ some db)

  -- And it answers, and is this database then.
  abbrev pub Answers : Db → Type 0
  Answers pinged = (db : Db) × Opens db × (host.ping db ≡ (pinged, true))

module _ {Disk Db : Type 0} (host : Host Disk Db) (engine : Engine Db) (disk : Disk) where
  -- What has failed, with all before it done.
  abbrev pub IsCause : Failure → Type 0
  IsCause no_folder = has_folder host disk ≡ false
  IsCause not_opened =
      (has_folder host disk ≡ true) × (host.open_db (with_folder host disk) "data/data.db" ≡ none)
  IsCause not_connected = (db : Db) × Opens host disk db × ((host.ping db).1 ≡ false)
  IsCause no_config_table =
      (db : Db) × Answers host disk db × ((engine.exec db create_config).1 ≡ false)
  IsCause no_mapping_table =
      (db : Db) × Answers host disk db
      × ((engine.exec db create_config).1 ≡ true)
      × ((engine.exec (engine.exec db create_config).0 create_mapping).1 ≡ false)

module _ {Disk Db : Type 0} (host : Host Disk Db) (engine : Engine Db) (tables : Db → Tables)
    (schema : Db → Schema) (error_log : Bool) (disk : Disk) where
  -- A database that is returned was opened and answers, has both tables and the rows of the file; a panic
  -- has its cause, and is printed, once, if there is a log.
  abbrev pub IsOutcome : Outcome Db × List Failure → Type 0
  IsOutcome (returns db, printed) =
      IsComplete (schema db)
      × ((pinged : Db) × Answers host disk pinged × (tables db ≡ tables pinged))
      × (printed ≡ [])
  IsOutcome (panics failure, printed) =
      IsCause host engine disk failure × (printed ≡ (if error_log then failure ∷ [] else []))

module _ {Disk Db : Type 0} (host : Host Disk Db) (engine : Engine Db) (tables : Db → Tables)
    (schema : Db → Schema) (laws : IsSql engine tables) (schemas : IsSchema engine schema)
    (error_log : Bool) (disk : Disk) where
  abbrev IsExpected : Outcome Db × List Failure → Type 0
  IsExpected = IsOutcome host engine tables schema error_log disk

  fail-IsOutcome :
      (failure : Failure) → IsCause host engine disk failure → IsExpected (fail error_log failure)
  unfolding fail
  fail-IsOutcome failure cause = (cause, refl)

  create_tables-IsOutcome :
      (db : Db) → Answers host disk db → IsExpected (create_tables host engine error_log db)
  unfolding create_tables create_cfg_structure create_mpg_structure sql
  create_tables-IsOutcome db answers =
      let db1 = (engine.exec db create_config).0 in
      both IsExpected (engine.exec db create_config).1
        (λ done1.
          both IsExpected (engine.exec db1 create_mapping).1
            (λ done2. (
              (
                schemas.config_kept db1 create_mapping (schemas.config_made db done1),
                schemas.mapping_made db1 done2,
              ),
              (
                db,
                answers,
                exec-kept engine tables laws db1 create_mapping refl done2
                    ∙ exec-kept engine tables laws db create_config refl done1,
              ),
              refl,
            ))
            (λ failed. fail-IsOutcome no_mapping_table (db, answers, done1, failed)))
        (λ failed. fail-IsOutcome no_config_table (db, answers, failed))

  open_database-IsOutcome :
      has_folder host disk ≡ true
      → IsExpected (open_database host engine error_log (with_folder host disk))
  unfolding open_database
  open_database-IsOutcome there =
      elim (Option-cases (host.open_db (with_folder host disk) "data/data.db")) [
        | inl e ↦ rw (e, open_database) (fail-IsOutcome not_opened (there, e))
        | inr (db, e) ↦
            rw (e, open_database)
              (both IsExpected (host.ping db).1
                (λ up.
                  create_tables-IsOutcome (host.ping db).0
                    (db, (there, e), ap (λ up. ((host.ping db).0, up)) up))
                (λ down. fail-IsOutcome not_connected (db, (there, e), down)))
      ]

  with_the_folder :
      has_folder host disk ≡ true
      → db_init host engine error_log disk
        ≡ open_database host engine error_log (with_folder host disk)
  unfolding db_init make_folder
  with_the_folder there = ground (arith, there)

  without_folder :
      has_folder host disk ≡ false → db_init host engine error_log disk ≡ fail error_log no_folder
  unfolding db_init make_folder
  without_folder failed = ground (arith, failed)

  -- Whatever the file system and the database do: if DBInit returns, the folder is there or could be made,
  -- the file in it could be opened and answers, both tables are there, the rows are those of the database
  -- that has answered, and nothing was printed. If it panics, then with the error of the first of these
  -- steps that has failed: the folder, the opening, the answer, the one table, the other table; and the
  -- error was printed once if there is an error log, and nothing without one.
  pub db_init-IsOutcome :
      IsOutcome host engine tables schema error_log disk (db_init host engine error_log disk)
  db_init-IsOutcome = elim (Bool-cases (has_folder host disk)) [
    | inl there ↦ subst IsExpected (sym (with_the_folder there)) (open_database-IsOutcome there)
    | inr failed ↦ subst IsExpected (sym (without_folder failed)) (fail-IsOutcome no_folder failed)
  ]
