-- ===== src/Storage/Models.antt =====
-- What the functions of internal/storage/models do on an engine that keeps to SQL.
use gotaxy.Prelude.{
  String, true, some, List, [], ◌∷◌, ◌++◌, map, ◌≡◌, ◌∙◌, sym, ap, append-nil, append_assoc,
}
use gotaxy.Prelude.Dict.{Dict, IsMap, insert-append, lookup_before}
use gotaxy.Storage.Sql.{Row, Tables}
use gotaxy.Storage.Laws.{IsSql}
use gotaxy.Storage.{Engine, Cursor, scan_config, scan_rules, get_all_cfg, get_all_mpg}

scan_config-map :
    (rows acc : Dict String)
    → IsMap (acc ++ rows)
    → scan_config (map some rows) acc ≡ some (acc ++ rows)
unfolding scan_config
scan_config-map [] acc h = ap some (sym (append-nil acc))
scan_config-map ((k, v) ∷ rows) acc h =
    ap (scan_config (map some rows)) (insert-append acc k v (lookup_before acc rows k v h))
    ∙ scan_config-map rows (acc ++ (k, v) ∷ []) (rw append_assoc h)
    ∙ ap some (append_assoc acc ((k, v) ∷ []) rows)

scan_rules-map :
    (rows : Dict Row) (acc : List Row)
    → scan_rules (map (λ e. some e.1) rows) acc ≡ some (acc ++ map (λ e. e.1) rows)
unfolding scan_rules
scan_rules-map [] acc = ap some (sym (append-nil acc))
scan_rules-map ((k, r) ∷ rows) acc =
    scan_rules-map rows (acc ++ r ∷ []) ∙ ap some (append_assoc acc (r ∷ []) (map (λ e. e.1) rows))

module _ {Db : Type 0} (engine : Engine Db) (tables : Db → Tables)
    (laws : IsSql engine tables) where
  -- On an engine that keeps to SQL, `GetAllCfg` returns exactly the table, if the rows were read to
  -- their end.
  pub get_all_cfg-eq :
      (db : Db) (c : Cursor (String × String))
      → engine.query_config db ≡ some c
      → c.complete ≡ true
      → get_all_cfg engine db ≡ some (tables db).config
  unfolding get_all_cfg
  get_all_cfg-eq db c h full =
      rw (h, get_all_cfg, laws.config_rows db c h full)
        (scan_config-map (tables db).config [] (laws.config_unique db))

  -- On an engine that keeps to SQL, `GetAllMpg` returns exactly the rows of the table, in its
  -- order, if they were read to their end.
  pub get_all_mpg-eq :
      (db : Db) (c : Cursor Row)
      → engine.query_rules db ≡ some c
      → c.complete ≡ true
      → get_all_mpg engine db ≡ some (map (λ e. e.1) (tables db).mapping)
  unfolding get_all_mpg
  get_all_mpg-eq db c h full =
      rw (h, get_all_mpg, laws.rule_rows db c h full) (scan_rules-map (tables db).mapping [])
