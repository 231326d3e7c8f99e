-- ===== src/Storage/Sql.antt =====
-- The SQL statements of internal/storage/models and what they mean for the tables, by their
-- constraints: the key of `config` and the name of `mapping` are unique.
use gotaxy.Prelude.{ℕ, suc, String, Bool, Option, none, some}
use gotaxy.Prelude.Dict.{Dict, lookup, insert, erase}
use gotaxy.Int64.{Int64}

-- A row of the table `mapping`, as the struct `Mapping`.
pub record Row : Type 0 where
  pub id : ℕ
  pub name : String
  pub public_port : String
  pub target_addr : String
  pub enable : Bool
  pub traffic : Int64
  pub rate_limit : Int64

-- create table if not exists config (...)
-- create table if not exists mapping (...)
-- insert into config ('key', value) values (?,?)
-- update config set value = ? where key = ?
-- insert into mapping (name, public_port, target_addr, enable, rate_limit) values (?,?,?,?,?)
-- delete from mapping where name =?
-- update mapping set public_port = ?, target_addr = ?, enable = ?, rate_limit = ? where name = ?
-- update mapping set traffic = ? where name = ?
pub data Statement : Type 0 where
  create_config create_mapping : Statement
  insert_config : String → String → Statement
  update_config : String → String → Statement
  insert_rule : String → String → String → Bool → Int64 → Statement
  delete_rule : String → Statement
  update_rule : String → String → Bool → Int64 → String → Statement
  update_traffic : Int64 → String → Statement

-- The tables, each by its unique column; `next_id` is the autoincrement of `mapping`. One that is not there
-- has no rows.
pub record Tables : Type 0 where
  pub config : Dict String
  pub mapping : Dict Row
  pub next_id : ℕ

-- `update … where` on the one row that can match.
unfoldable pub revise {ℓ} : {V : Type ℓ} → Dict V → String → (V → V) → Dict V
revise m k f = elim (lookup m k) [ none ↦ m | some v ↦ insert m k (f v) ]

-- The tables after a statement; `none` if a constraint rejects it.
unfoldable pub sql : Tables → Statement → Option Tables
sql t create_config = some t
sql t create_mapping = some t
sql t (insert_config key value) = elim (lookup t.config key) [
  | some _ ↦ none
  | none ↦ some (record t { config = insert t.config key value })
]
sql t (update_config value key) = some (record t { config = revise t.config key (λ _. value) })
sql t (insert_rule name port addr enable limit) = elim (lookup t.mapping name) [
  | some _ ↦ none
  | none ↦ some (record t {
    mapping = insert t.mapping name (record {
      id = t.next_id;
      name = name;
      public_port = port;
      target_addr = addr;
      enable = enable;
      traffic = 0;
      rate_limit = limit;
    });
    next_id = suc t.next_id;
  })
]
sql t (delete_rule name) = some (record t { mapping = erase t.mapping name })
sql t (update_rule port addr enable limit name) = some (record t {
  mapping =
      revise t.mapping name λ r. record r {
        public_port = port;
        target_addr = addr;
        enable = enable;
        rate_limit = limit;
      };
})
sql t (update_traffic traffic name) =
    some (record t { mapping = revise t.mapping name (λ r. record r { traffic = traffic }) })
