-- ===== src/Config.antt =====
-- internal/config/config.go: the configuration and how it is loaded, with the mapping rules.
pub mod Load
pub mod Rules
use mathlib.Core.Option.{get_or}
use gotaxy.Prelude.{ℕ, String, Bool, Option, none, some, List, [], ◌∷◌, length, ◌==◌, if◌then◌else◌}
use gotaxy.Prelude.Dict.{Dict, lookup}
use gotaxy.Int64.{Int64}
use gotaxy.Strconv.{Parsed, parsed, syntax, out_of_range, parse_int}
use gotaxy.Session.{Manager, set_mapping}
use gotaxy.Storage.Sql.{Row}
use gotaxy.Storage.{Engine, insert_cfg, get_all_cfg, get_all_mpg}

pub record Config : Type 0 where
  pub name : String
  pub server_ip : String
  pub listen_port : String
  pub email : String
  pub total_traffic : Int64

abbrev pub empty_config : Config
empty_config = record { name = ""; server_ip = ""; listen_port = ""; email = ""; total_traffic = 0 }

-- What `ConfigLoad` works on.
pub record Loaded (Db : Type 0) : Type 0 where
  pub cfg : Config
  pub sessions : Manager
  pub db : Db

-- m[k] of a map of texts
abbrev pub value_of : Dict String → String → String
value_of m k = get_or (lookup m k) ""

-- The loop over the rows of the table `mapping`.
unfoldable pub set_rows : Manager → List Row → Manager
set_rows m [] = m
set_rows m (v ∷ rows) =
    set_rows (set_mapping m v.name v.public_port v.target_addr v.enable v.traffic v.rate_limit) rows

module _ {Db : Type 0} (engine : Engine Db) where
  -- The four inserts of the defaults; an error is printed and passed over.
  unfoldable pub insert_defaults : Db → Db
  unfolding insert_cfg
  insert_defaults db =
      let db1 = (insert_cfg engine db "server_ip" "127.0.0.1").0 in
      let db2 = (insert_cfg engine db1 "listen_port" "9000").0 in
      let db3 = (insert_cfg engine db2 "email" "").0 in
      (insert_cfg engine db3 "total_traffic" "0").0

  load_rules : Loaded Db → Loaded Db
  unfolding set_rows
  load_rules s = elim (get_all_mpg engine s.db) [
    | none ↦ s
    | some mpg ↦ record s { sessions = set_rows s.sessions mpg }
  ]

  -- `TotalTraffic` gets the value of `ParseInt` before its error is looked at.
  load_total : Loaded Db → Parsed → Loaded Db
  unfolding load_rules
  load_total s (parsed v) = load_rules (record s { cfg = record s.cfg { total_traffic = v } })
  load_total s syntax = record s { cfg = record s.cfg { total_traffic = 0 } }
  load_total s (out_of_range v) = record s { cfg = record s.cfg { total_traffic = v } }

  load_values : Loaded Db → Dict String → Loaded Db
  unfolding load_total
  load_values s cfg_map =
      load_total
        (record s {
          cfg = record s.cfg {
            server_ip = value_of cfg_map "server_ip";
            listen_port = value_of cfg_map "listen_port";
            email = value_of cfg_map "email";
          };
        })
        (parse_int (value_of cfg_map "total_traffic"))

  -- `len(cfgMap) != 4`: the defaults are inserted, and the table is read again.
  load_defaults : Loaded Db → Loaded Db
  unfolding insert_defaults load_values
  load_defaults s =
      let db = insert_defaults s.db in
      elim (get_all_cfg engine db) [
        | none ↦ record s { db = db }
        | some cfg_map ↦ load_values (record s { db = db }) cfg_map
      ]

  unfoldable pub config_load : Loaded Db → Loaded Db
  unfolding load_defaults load_values
  config_load s = elim (get_all_cfg engine s.db) [
    | none ↦ s
    | some cfg_map ↦ if length cfg_map == 4 then load_values s cfg_map else load_defaults s
  ]
