-- ===== src/Shell/Mappings/Sync.antt =====
-- The `mapping` commands keep port, target and limit of each rule the same in memory
-- and in the database.
use gotaxy.Prelude.{
  String, ◌≡◌, ◌≢◌, ◌∙◌, ap, Bool, true, false, not, some, List, [], ◌∷◌, arith, str_eq,
  Option-cases, inl, inr, All,
}
use gotaxy.Int64.{Int64}
use gotaxy.Strconv.{atoi}
use gotaxy.Context.{background}
use gotaxy.Utils.{is_validate_addr}
use gotaxy.Strings.Fields.{IsFilled}
use gotaxy.Session.{Mapping, get_mapping, close_mapping, update_enable}
use gotaxy.Session.View.{view}
use gotaxy.Storage.Sql.{Tables, Row}
use gotaxy.Storage.Laws.{IsSql, IsReliable}
use gotaxy.Storage.{Engine, insert_mpg, update_map}
use gotaxy.Server.{GotaxyServer}
use gotaxy.Control.{is_port, mapping_of}
use gotaxy.Control.Sync.{IsSynced, both, update_enable-IsSynced, mapping_of-view, mapping_of-name}
use gotaxy.Control.Stored.{
  start_listener-IsSynced, insert_mpg-failed, insert_mpg-IsSynced, delete_map_by_name-IsSynced,
  update_map-found, update_map-IsSynced, update_map-IsSynced_same,
}
use gotaxy.Shell.{Said}
use gotaxy.Shell.Mappings.{
  start_mapping, stop_mapping, add_mapping, del_mapping, store_update, upd_mapping, with_name,
  add_args, upd_args, handle_mapping, default_limit,
}

module _ {Db : Type 0} (engine : Engine Db) (tables : Db → Tables) (laws : IsSql engine tables)
    (works : IsReliable engine tables) where
  abbrev Synced : GotaxyServer Db → Type 0
  Synced s = IsSynced s.sessions (tables s.db)

  abbrev Kept : GotaxyServer Db × Said → Type 0
  Kept o = Synced o.0

  start_mapping-Synced :
      (name : String) (s : GotaxyServer Db) → Synced s → Kept (start_mapping engine name s)
  unfolding start_mapping
  start_mapping-Synced name s v =
      let sessions = (update_enable s.sessions name true).0 in
      let enabled : IsSynced sessions (tables s.db) = update_enable-IsSynced name true v in
      both Kept (not (update_enable s.sessions name true).1) (λ _. v)
        (λ _. elim (Option-cases (mapping_of sessions name)) [
          | inl e ↦ rw e enabled
          | inr ((r, x), e) ↦
              let (found, seen) = mapping_of-view sessions name r x e in
              let own : view sessions x.name ≡ some x =
                ap (view sessions) (mapping_of-name name r x enabled.linked e) ∙ seen in
              rw e (
                both Kept (not s.is_run)
                  (λ _. update_map-IsSynced_same engine tables laws s.db x.name true x own enabled)
                  (λ _.
                    start_listener-IsSynced engine tables laws (record s { sessions = sessions })
                      name r x background e enabled))
        ])

  stop_mapping-Synced :
      (name : String) (s : GotaxyServer Db) → Synced s → Kept (stop_mapping engine name s)
  unfolding stop_mapping
  stop_mapping-Synced name s v =
      both Kept (not (close_mapping s.sessions s.contexts name).1) (λ _. v)
        (λ _. update_enable-IsSynced name false v)

  add_mapping-Synced :
      (name port target : String) (s : GotaxyServer Db)
      → name ≢ ""
      → Synced s
      → Kept (add_mapping engine name port target s)
  unfolding add_mapping
  add_mapping-Synced name port target s named v =
      both Kept (not (is_port port)) (λ _. v)
        (λ _.
          both Kept (not (is_validate_addr target)) (λ _. v)
            (λ _. elim (Option-cases (get_mapping s.sessions name)) [
              | inl e ↦
                  let row : Row = record {
                    id = 0;
                    name = name;
                    public_port = port;
                    target_addr = target;
                    enable = false;
                    traffic = 0;
                    rate_limit = default_limit;
                  } in
                  rw e (
                    both Kept (not (insert_mpg engine s.db row).1)
                      (λ n. insert_mpg-failed engine tables laws s.db row (ground arith) v)
                      (λ n.
                        insert_mpg-IsSynced engine tables laws s.db row false 0 named (ground arith)
                          v))
              | inr (r, e) ↦ rw e v
            ]))

  del_mapping-Synced :
      (name : String) (s : GotaxyServer Db) → Synced s → Kept (del_mapping engine name s)
  unfolding del_mapping
  del_mapping-Synced name s v = elim (Option-cases (mapping_of s.sessions name)) [
    | inl e ↦ rw (e, del_mapping) v
    | inr ((r, x), e) ↦
        rw (e, del_mapping)
          (both Kept (str_eq x.status "active") (λ _. v)
            (λ _.
              delete_map_by_name-IsSynced engine tables laws works s.db name x
                (mapping_of-view s.sessions name r x e).1 v))
  ]

  store_update-Synced :
      (name port target : String) (enable : Bool) (limit : Int64) (s : GotaxyServer Db)
      (x : Mapping)
      → view s.sessions name ≡ some x
      → Synced s
      → Kept (store_update engine name port target enable limit s)
  unfolding store_update
  store_update-Synced name port target enable limit s x seen v =
      elim (Option-cases (update_map engine s.db name port target enable limit).1) [
        | inl e ↦ absurd (
            update_map-found engine tables laws works s.db name port target enable limit x seen v e)
        | inr (row, e) ↦
            rw (e, store_update)
              (update_map-IsSynced engine tables laws s.db name port target enable limit row e v)
      ]

  upd_mapping-Synced :
      (name port target limit : String) (s : GotaxyServer Db)
      → Synced s
      → Kept (upd_mapping engine name port target limit s)
  unfolding upd_mapping
  upd_mapping-Synced name port target limit s v = elim (Option-cases (mapping_of s.sessions name)) [
    | inl e ↦ rw (e, upd_mapping) v
    | inr ((r, x), e) ↦
        rw (e, upd_mapping)
          (both Kept (str_eq x.status "active") (λ _. v)
            (λ _.
              both Kept (not (is_validate_addr target)) (λ _. v)
                (λ _. elim (Option-cases (atoi limit)) [
                  | inl n ↦ rw n v
                  | inr (l, n) ↦ rw n (
                      store_update-Synced name port target x.enable l s x
                        (mapping_of-view s.sessions name r x e).1 v)
                ])))
  ]

  with_name-Synced :
      (f : String → GotaxyServer Db → GotaxyServer Db × Said) (args : List String)
      (s : GotaxyServer Db)
      → ((name : String) (s : GotaxyServer Db) → Synced s → Kept (f name s))
      → Synced s
      → Kept (with_name engine f args s)
  unfolding with_name
  with_name-Synced f [] s h v = v
  with_name-Synced f (name ∷ args) s h v = h name s v

  add_args-Synced :
      (args : List String) (s : GotaxyServer Db)
      → All IsFilled args
      → Synced s
      → Kept (add_args engine args s)
  unfolding add_args
  add_args-Synced [] s h v = v
  add_args-Synced (name ∷ []) s h v = v
  add_args-Synced (name ∷ port ∷ []) s h v = v
  add_args-Synced (name ∷ port ∷ target ∷ args) s h v = add_mapping-Synced name port target s h.0 v

  upd_args-Synced :
      (args : List String) (s : GotaxyServer Db) → Synced s → Kept (upd_args engine args s)
  unfolding upd_args
  upd_args-Synced [] s v = v
  upd_args-Synced (name ∷ []) s v = v
  upd_args-Synced (name ∷ port ∷ []) s v = v
  upd_args-Synced (name ∷ port ∷ target ∷ []) s v = v
  upd_args-Synced (name ∷ port ∷ target ∷ limit ∷ args) s v =
      upd_mapping-Synced name port target limit s v

  -- Whatever the `mapping` command, with words that are not empty: if the rules in memory and in the
  -- database had the same rules before it, but for the flags, they have after it, on a database that fails only where SQL says.
  pub handle_mapping-IsSynced :
      (args : List String) (s : GotaxyServer Db)
      → All IsFilled args
      → IsSynced s.sessions (tables s.db)
      → IsSynced
          (handle_mapping engine args s).0.sessions
          (tables (handle_mapping engine args s).0.db)
  unfolding handle_mapping
  handle_mapping-IsSynced [] s h v = v
  handle_mapping-IsSynced (command ∷ args) s h v =
      both Kept (str_eq command "list") (λ _. v)
        (λ _.
          both Kept (str_eq command "start") (λ _. with_name-Synced _ args s start_mapping-Synced v)
            (λ _.
              both Kept (str_eq command "stop")
                (λ _. with_name-Synced _ args s stop_mapping-Synced v)
                (λ _.
                  both Kept (str_eq command "add") (λ _. add_args-Synced args s h.1 v)
                    (λ _.
                      both Kept (str_eq command "del")
                        (λ _. with_name-Synced _ args s del_mapping-Synced v)
                        (λ _.
                          both Kept (str_eq command "upd") (λ _. upd_args-Synced args s v)
                            (λ _. v))))))
