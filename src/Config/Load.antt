-- ===== src/Config/Load.antt =====
-- What `ConfigLoad` makes of the database.
use mathlib.Core.Option.{get_or}
use gotaxy.Prelude.{
  String, false, Option, none, some, [], ◌∷◌, map, ◌≡◌, ◌≢◌, ◌∙◌, refl, ap, arith, if◌then◌else◌,
  eq_iff, str_eq, length, ◌==◌,
}
use gotaxy.Prelude.Dict.{Dict, lookup, IsMap, lookup-insert}
use gotaxy.Int64.{Int64}
use gotaxy.Strconv.{parsed, parse_int}
use gotaxy.Session.{Mapping, Manager, new_mapping, set_mapping}
use gotaxy.Session.View.{view, IsLinked, view-set_mapping, set_mapping-IsLinked}
use gotaxy.Storage.Sql.{Row, Tables}
use gotaxy.Storage.Laws.{IsSql, IsReliable, tables-exec}
use gotaxy.Storage.Models.{get_all_cfg-eq, get_all_mpg-eq}
use gotaxy.Storage.{Engine, insert_cfg, get_all_cfg, get_all_mpg}
use gotaxy.Storage.Sql.{sql, insert_config}
use gotaxy.Config.{
  Loaded, value_of, set_rows, config_load, load_values, load_total, load_rules, insert_defaults,
  load_defaults,
}

-- The mapping that a row is loaded as.
abbrev pub mapping_of_row : Row → Mapping
mapping_of_row r = new_mapping r.name r.public_port r.target_addr r.enable r.traffic r.rate_limit

abbrev pub IsNamed : Dict Row → Type 0
IsNamed rows = (k : String) (r : Row) → lookup rows k ≡ some r → r.name ≡ k

abbrev pub rows_over : Dict Row → (String → Option Mapping) → String → Option Mapping
rows_over rows rules k = elim (lookup rows k) [ some r ↦ some (mapping_of_row r) | none ↦ rules k ]

pub view-set_rows :
    (m : Manager) (rows : Dict Row) (k : String)
    → IsMap rows
    → IsNamed rows
    → IsLinked m
    → view (set_rows m (map (λ e. e.1) rows)) k ≡ rows_over rows (view m) k
unfolding set_rows lookup
view-set_rows m [] k h n v = refl
view-set_rows m ((j, r) ∷ rows) k h n v =
    let named : r.name ≡ j = n j r (ground (arith, eq_iff j j)) in
    let below : IsNamed rows =
      λ i q e. n i q (ground (arith, eq_iff j i, h.0, λ (p : j ≡ i). ap (lookup rows) p)) in
    let m' = set_mapping m r.name r.public_port r.target_addr r.enable r.traffic r.rate_limit in
    let linked =
      set_mapping-IsLinked r.name r.public_port r.target_addr r.enable r.traffic r.rate_limit v in
    view-set_rows m' rows k h.1 below linked
    ∙ ground (
      arith,
      h.0,
      named,
      eq_iff j k,
      eq_iff r.name k,
      λ (p : j ≡ k). ap (lookup rows) p,
      view-set_mapping r.name k r.public_port r.target_addr r.enable r.traffic r.rate_limit v,
    )

-- The config table after the insert of a default: a key that is there keeps its value.
default_config :
    (t : Tables) (key value j : String)
    → lookup (get_or (sql t (insert_config key value)) t).config j
      ≡ (if str_eq key j then some (get_or (lookup t.config j) value) else lookup t.config j)
unfolding sql
default_config t key value j = ground (
  arith,
  lookup-insert t.config key j value,
  eq_iff key j,
  λ (p : key ≡ j). ap (lookup t.config) p,
)

default_mapping :
    (t : Tables) (key value : String)
    → (get_or (sql t (insert_config key value)) t).mapping ≡ t.mapping
unfolding sql
default_mapping t key value = ground arith

-- The value of a key, or else a default.
abbrev pub or_default : Dict String → String → String → Option String
or_default config key value = some (get_or (lookup config key) value)

-- The four keys have their old values, or the defaults where they had none.
pub record IsCompleted (old new : Dict String) : Type 0 where
  pub server_ip : lookup new "server_ip" ≡ or_default old "server_ip" "127.0.0.1"
  pub listen_port : lookup new "listen_port" ≡ or_default old "listen_port" "9000"
  pub email : lookup new "email" ≡ or_default old "email" ""
  pub total_traffic : lookup new "total_traffic" ≡ or_default old "total_traffic" "0"

-- The configuration and the rules agree with the tables; other names keep their mappings.
pub record IsLoaded {Db : Type 0} (tables : Db → Tables) (old : Manager) (new : Loaded Db)
    : Type 0 where
  pub server_ip : new.cfg.server_ip ≡ value_of (tables new.db).config "server_ip"
  pub listen_port : new.cfg.listen_port ≡ value_of (tables new.db).config "listen_port"
  pub email : new.cfg.email ≡ value_of (tables new.db).config "email"
  pub total :
      parse_int (value_of (tables new.db).config "total_traffic") ≡ parsed new.cfg.total_traffic
  pub rules : (k : String) → view new.sessions k ≡ rows_over (tables new.db).mapping (view old) k
  pub added : new.sessions ≡ set_rows old (map (λ e. e.1) (tables new.db).mapping)

module _ {Db : Type 0} (engine : Engine Db) (tables : Db → Tables) (laws : IsSql engine tables)
    (works : IsReliable engine tables) where
  reads_config : (db : Db) → get_all_cfg engine db ≡ some (tables db).config
  reads_config db =
      let (c, e, full) = works.reads_config db in get_all_cfg-eq engine tables laws db c e full

  reads_rules : (db : Db) → get_all_mpg engine db ≡ some (map (λ e. e.1) (tables db).mapping)
  reads_rules db =
      let (c, e, full) = works.reads_rules db in get_all_mpg-eq engine tables laws db c e full

  tables-insert_cfg :
      (db : Db) (key value : String)
      → tables (insert_cfg engine db key value).0
        ≡ get_or (sql (tables db) (insert_config key value)) (tables db)
  unfolding insert_cfg
  tables-insert_cfg db key value = tables-exec engine tables db (insert_config key value) laws works

  lookup-insert_cfg :
      (db : Db) (key value j : String)
      → lookup (tables (insert_cfg engine db key value).0).config j ≡ (
          if str_eq key j
          then some (get_or (lookup (tables db).config j) value)
          else lookup (tables db).config j)
  lookup-insert_cfg db key value j = rw tables-insert_cfg (default_config (tables db) key value j)

  mapping-insert_defaults :
      (db : Db) → (tables (insert_defaults engine db)).mapping ≡ (tables db).mapping
  unfolding insert_defaults
  mapping-insert_defaults db = simp (tables-insert_cfg, default_mapping)

  insert_defaults-IsCompleted :
      (db : Db) → IsCompleted (tables db).config (tables (insert_defaults engine db)).config
  unfolding insert_defaults
  insert_defaults-IsCompleted db = record {
    server_ip = simp lookup-insert_cfg;
    listen_port = simp lookup-insert_cfg;
    email = simp lookup-insert_cfg;
    total_traffic = simp lookup-insert_cfg;
  }

  load_values-IsLoaded :
      (s : Loaded Db) (v : Int64)
      → parse_int (value_of (tables s.db).config "total_traffic") ≡ parsed v
      → IsLinked s.sessions
      → IsLoaded tables s.sessions (load_values engine s (tables s.db).config)
        × ((load_values engine s (tables s.db).config).db ≡ s.db)
  unfolding load_values
  load_values-IsLoaded s v h linked =
      rw (h, load_values)
        (rw (reads_rules s.db, load_total, load_rules)
          (
            record {
              server_ip = refl;
              listen_port = refl;
              email = refl;
              total = h;
              rules = λ k.
                  view-set_rows s.sessions (tables s.db).mapping k (laws.rule_unique s.db)
                    (laws.rule_named s.db) linked;
              added = refl;
            },
            refl,
          ))

  -- With four values stored, a total among them that parses, and a linked table, on a database that
  -- fails only where SQL says: `ConfigLoad` reads the values and the rules, and leaves the database
  -- as it is.
  pub config_load-stored :
      (s : Loaded Db) (v : Int64)
      → length (tables s.db).config ≡ 4
      → parse_int (value_of (tables s.db).config "total_traffic") ≡ parsed v
      → IsLinked s.sessions
      → IsLoaded tables s.sessions (config_load engine s) × ((config_load engine s).db ≡ s.db)
  unfolding config_load
  config_load-stored s v four total linked =
      rw (reads_config s.db, config_load, four) (load_values-IsLoaded s v total linked)

  config_load-other :
      (s : Loaded Db)
      → length (tables s.db).config ≢ 4
      → config_load engine s
        ≡ load_values engine
            (record s { db = insert_defaults engine s.db })
            (tables (insert_defaults engine s.db)).config
  unfolding config_load load_defaults
  config_load-other s other =
      let test : (length (tables s.db).config == 4) ≡ false = ground arith in
      rw (reads_config s.db, config_load, test)
        (rw (reads_config (insert_defaults engine s.db), load_defaults))

  -- With another number of values stored, a total that parses or is missing, and a linked table, on
  -- a database that fails only where SQL says: `ConfigLoad` first stores the default of each of the
  -- four values that is missing, and then reads them and the rules; the table of rules is not
  -- changed.
  pub config_load-IsCompleted :
      (s : Loaded Db) (v : Int64)
      → length (tables s.db).config ≢ 4
      → parse_int (get_or (lookup (tables s.db).config "total_traffic") "0") ≡ parsed v
      → IsLinked s.sessions
      → IsLoaded tables s.sessions (config_load engine s)
        × IsCompleted (tables s.db).config (tables (config_load engine s).db).config
        × ((tables (config_load engine s).db).mapping ≡ (tables s.db).mapping)
  config_load-IsCompleted s v other total linked =
      let db = insert_defaults engine s.db in
      let done = insert_defaults-IsCompleted s.db in
      let (loaded, same) =
        load_values-IsLoaded (record s { db = db }) v (rw done.total_traffic total) linked in
      rw (config_load-other s other) (loaded, rw same done, rw same (mapping-insert_defaults s.db))
