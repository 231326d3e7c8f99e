-- ===== src/Storage.antt =====
-- internal/storage/models: the two tables and the functions on them. SQLite is not part of the
-- program: it is an `Engine`, an argument of the functions, which executes the statements that they
-- send and may fail at any of them. What a statement means for the tables is in `Storage.Sql`.
pub mod Sql
pub mod Laws
pub mod Models
pub mod Rules
pub mod Memory
pub mod Schema
pub mod Files
use Sql.{
  Statement, Row, create_config, create_mapping, insert_config, update_config, insert_rule,
  delete_rule, update_rule, update_traffic,
}
use gotaxy.Prelude.{
  ℕ, String, Bool, true, false, Option, none, some, List, [], ◌∷◌, ◌++◌, str_eq, if◌then◌else◌,
}
use gotaxy.Prelude.Dict.{Dict, insert}
use gotaxy.Int64.{Int64}

-- The rows of a query: `none` is a row that `Scan` cannot read. `complete` says that the iteration
-- did not stop on an error (`rows.Err() == nil`), which the program never asks.
pub record Cursor {ℓ} (A : Type ℓ) : Type ℓ where
  pub rows : List (Option A)
  pub complete : Bool

-- The second part of `exec` is `err == nil`; a query without a result is one that failed.
pub record Engine (Db : Type 0) : Type 0 where
  pub exec : Db → Statement → Db × Bool
  pub query_config : Db → Option (Cursor (String × String))
  pub query_rules : Db → Option (Cursor Row)
  pub query_rule : Db → String → Option Row

-- The loop `for rows.Next()` of `GetAllCfg`.
unfoldable pub scan_config : List (Option (String × String)) → Dict String → Option (Dict String)
scan_config [] config_map = some config_map
scan_config (none ∷ rows) config_map = none
scan_config (some (key, value) ∷ rows) config_map = scan_config rows (insert config_map key value)

-- The loop of `GetAllMpg`.
unfoldable pub scan_rules : List (Option Row) → List Row → Option (List Row)
scan_rules [] mappings = some mappings
scan_rules (none ∷ rows) mappings = none
scan_rules (some m ∷ rows) mappings = scan_rules rows (mappings ++ m ∷ [])

module _ {Db : Type 0} (engine : Engine Db) where
  unfoldable pub create_cfg_structure : Db → Db × Bool
  create_cfg_structure db = engine.exec db create_config

  unfoldable pub create_mpg_structure : Db → Db × Bool
  create_mpg_structure db = engine.exec db create_mapping

  unfoldable pub insert_cfg : Db → String → String → Db × Bool
  insert_cfg db key value = engine.exec db (insert_config key value)

  unfoldable pub get_all_cfg : Db → Option (Dict String)
  unfolding scan_config
  get_all_cfg db = elim (engine.query_config db) [
    | none ↦ none
    | some cursor ↦ scan_config cursor.rows []
  ]

  unfoldable pub update_cfg : Db → String → String → Db × Bool
  update_cfg db key value = engine.exec db (update_config value key)

  unfoldable pub insert_mpg : Db → Row → Db × Bool
  insert_mpg db m =
      engine.exec db (insert_rule m.name m.public_port m.target_addr m.enable m.rate_limit)

  unfoldable pub get_all_mpg : Db → Option (List Row)
  unfolding scan_rules
  get_all_mpg db = elim (engine.query_rules db) [
    | none ↦ none
    | some cursor ↦ scan_rules cursor.rows []
  ]

  unfoldable pub delete_map_by_name : Db → String → Db × Bool
  delete_map_by_name db name =
      if str_eq name "" then (db, false) else engine.exec db (delete_rule name)

  -- The statement, and on its success the row as it is read back.
  unfoldable pub update_map : Db → String → String → String → Bool → Int64 → Db × Option Row
  update_map db name port addr enable rate_limit =
      let (db', done) = engine.exec db (update_rule port addr enable rate_limit name) in
      (db', if done then engine.query_rule db' name else none)

  unfoldable pub update_tra : Db → String → Int64 → Db × Bool
  update_tra db name traffic = engine.exec db (update_traffic traffic name)
