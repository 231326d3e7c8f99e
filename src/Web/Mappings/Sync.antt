-- ===== src/Web/Mappings/Sync.antt =====
-- The requests for mapping rules keep port, target and limit of each rule the same in memory
-- and in the database.
use gotaxy.Prelude.{
  String, ◌≡◌, ◌≢◌, Bool, true, false, not, ◌&&◌, ◌||◌, Option, none, some, arith, str_eq, eq_iff,
  ◌==◌, if◌then◌else◌, Option-cases, inl, inr,
}
use gotaxy.Int64.{Int64}
use gotaxy.Utils.{is_validate_addr}
use gotaxy.Session.{Mapping, get_mapping, close_mapping, update_enable}
use gotaxy.Session.View.{view}
use gotaxy.Storage.Sql.{Tables, Row}
use gotaxy.Storage.Laws.{IsSql, IsReliable}
use gotaxy.Storage.{Engine, insert_mpg, update_map}
use gotaxy.Server.{GotaxyServer}
use gotaxy.Control.{mapping_of}
use gotaxy.Control.Sync.{IsSynced, both, update_enable-IsSynced, mapping_of-view}
use gotaxy.Control.Stored.{
  start_listener-IsSynced, insert_mpg-failed, insert_mpg-IsSynced, delete_map_by_name-IsSynced,
  update_map-found, update_map-IsSynced,
}
use gotaxy.Shell.Mappings.{default_limit}
use gotaxy.Web.{Status, rejected}
use gotaxy.Web.Mappings.{
  ToggleRequest, MappingRequest, enable_mapping, disable_mapping, toggle_mapping_handler,
  insert_mapping, add_mapping_handler, delete_mapping_handler, store_mapping,
  update_mapping_handler,
}

module _ {Db : Type 0} (engine : Engine Db) (tables : Db → Tables)
    (laws : IsSql engine tables) where
  abbrev Synced : GotaxyServer Db → Type 0
  Synced s = IsSynced s.sessions (tables s.db)

  abbrev Kept : GotaxyServer Db × Status → Type 0
  Kept o = Synced o.0

  enable_mapping-Synced :
      (name : String) (s : GotaxyServer Db) → Synced s → Kept (enable_mapping name s)
  unfolding enable_mapping
  enable_mapping-Synced name s v =
      let sessions = (update_enable s.sessions name true).0 in
      let enabled : IsSynced sessions (tables s.db) = update_enable-IsSynced name true v in
      both Kept (not (update_enable s.sessions name true).1) (λ _. enabled)
        (λ _. elim (Option-cases (mapping_of sessions name)) [
          | inl e ↦ rw e enabled
          | inr ((r, x), e) ↦ rw e (
              start_listener-IsSynced engine tables laws (record s { sessions = sessions }) name r x
                s.ctx e enabled)
        ])

  disable_mapping-Synced :
      (name : String) (s : GotaxyServer Db) → Synced s → Kept (disable_mapping name s)
  unfolding disable_mapping
  disable_mapping-Synced name s v =
      both Kept (not (close_mapping s.sessions s.contexts name).1) (λ _. v)
        (λ _. update_enable-IsSynced name false v)

  pub toggle_mapping_handler-IsSynced :
      (body : Option ToggleRequest) (s : GotaxyServer Db)
      → IsSynced s.sessions (tables s.db)
      → IsSynced
          (toggle_mapping_handler body s).0.sessions
          (tables (toggle_mapping_handler body s).0.db)
  unfolding toggle_mapping_handler
  toggle_mapping_handler-IsSynced none s v = v
  toggle_mapping_handler-IsSynced (some req) s v =
      both Kept (not s.is_run && req.enable) (λ _. update_enable-IsSynced req.name true v)
        (λ _.
          both Kept req.enable (λ _. enable_mapping-Synced req.name s v)
            (λ _. disable_mapping-Synced req.name s v))

  insert_mapping-Synced :
      (req : MappingRequest) (limit : Int64) (s : GotaxyServer Db)
      → req.name ≢ ""
      → Synced s
      → Kept (insert_mapping engine req limit s)
  unfolding insert_mapping
  insert_mapping-Synced req limit s named v =
      let row : Row = record {
        id = 0;
        name = req.name;
        public_port = req.public_port;
        target_addr = req.target_addr;
        enable = false;
        traffic = 0;
        rate_limit = limit;
      } in
      both Kept (not (insert_mpg engine s.db row).1)
        (λ n. insert_mpg-failed engine tables laws s.db row (ground arith) v)
        (λ n. insert_mpg-IsSynced engine tables laws s.db row false 0 named (ground arith) v)

  pub add_mapping_handler-IsSynced :
      (body : Option MappingRequest) (s : GotaxyServer Db)
      → IsSynced s.sessions (tables s.db)
      → IsSynced
          (add_mapping_handler engine body s).0.sessions
          (tables (add_mapping_handler engine body s).0.db)
  unfolding add_mapping_handler
  add_mapping_handler-IsSynced none s v = v
  add_mapping_handler-IsSynced (some req) s v =
      both Kept (str_eq req.name "" || str_eq req.public_port "" || str_eq req.target_addr "")
        (λ _. v)
        (λ given.
          both Kept (not (is_validate_addr req.target_addr)) (λ _. v)
            (λ _. elim (Option-cases (get_mapping s.sessions req.name)) [
              | inr (r, e) ↦ rw e v
              | inl e ↦ rw e (
                  insert_mapping-Synced req
                    (if req.rate_limit == 0 then default_limit else req.rate_limit) s
                    (λ (p : req.name ≡ ""). ground (arith, eq_iff req.name "")) v)
            ]))

  module _ (works : IsReliable engine tables) where
    pub delete_mapping_handler-IsSynced :
        (body : Option String) (s : GotaxyServer Db)
        → IsSynced s.sessions (tables s.db)
        → IsSynced
            (delete_mapping_handler engine body s).0.sessions
            (tables (delete_mapping_handler engine body s).0.db)
    unfolding delete_mapping_handler
    delete_mapping_handler-IsSynced none s v = v
    delete_mapping_handler-IsSynced (some name) s v =
        elim (Option-cases (mapping_of s.sessions name)) [
          | inl e ↦ rw (e, delete_mapping_handler) v
          | inr ((r, x), e) ↦
              rw (e, delete_mapping_handler)
                (both Kept (str_eq x.status "active") (λ _. v)
                  (λ _.
                    delete_map_by_name-IsSynced engine tables laws works s.db name x
                      (mapping_of-view s.sessions name r x e).1 v))
        ]

    store_mapping-Synced :
        (req : MappingRequest) (enable : Bool) (s : GotaxyServer Db) (x : Mapping)
        → view s.sessions req.name ≡ some x
        → Synced s
        → Kept (store_mapping engine req enable s)
    unfolding store_mapping
    store_mapping-Synced req enable s x seen v =
        elim (Option-cases
          (update_map engine s.db req.name req.public_port req.target_addr enable
            req.rate_limit).1) [
              | inl e ↦ absurd (
                  update_map-found engine tables laws works s.db req.name req.public_port
                    req.target_addr enable req.rate_limit x seen v e)
              | inr (row, e) ↦
                  rw (e, store_mapping)
                    (update_map-IsSynced engine tables laws s.db req.name req.public_port
                      req.target_addr enable req.rate_limit row e v)
            ]

    pub update_mapping_handler-IsSynced :
        (body : Option MappingRequest) (s : GotaxyServer Db)
        → IsSynced s.sessions (tables s.db)
        → IsSynced
            (update_mapping_handler engine body s).0.sessions
            (tables (update_mapping_handler engine body s).0.db)
    unfolding update_mapping_handler
    update_mapping_handler-IsSynced none s v = v
    update_mapping_handler-IsSynced (some req) s v =
        elim (Option-cases (mapping_of s.sessions req.name)) [
          | inl e ↦ rw (e, update_mapping_handler) v
          | inr ((r, x), e) ↦
              rw (e, update_mapping_handler)
                (both Kept (str_eq x.status "active") (λ _. v)
                  (λ _.
                    both Kept (rejected is_validate_addr req.target_addr) (λ _. v)
                      (λ _.
                        store_mapping-Synced req x.enable s x
                          (mapping_of-view s.sessions req.name r x e).1 v)))
        ]
