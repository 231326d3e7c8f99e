-- ===== src/Shell/Mappings/Inv.antt =====
-- The `mapping` commands change the manager in no other way than `IsManaged` allows.
use gotaxy.Prelude.{
  String, ◌≡◌, some, Bool, true, false, not, List, [], ◌∷◌, str_eq, Option-cases, inl, inr,
}
use gotaxy.Int64.{Int64}
use gotaxy.Strconv.{atoi}
use gotaxy.Context.{background}
use gotaxy.Utils.{is_validate_addr}
use gotaxy.Session.{Manager, Mapping, Ref, get_mapping, close_mapping, update_enable}
use gotaxy.Storage.{Engine, insert_mpg, update_map}
use gotaxy.Storage.Sql.{Row}
use gotaxy.Server.{GotaxyServer}
use gotaxy.Control.{is_port, mapping_of}
use gotaxy.Control.Sync.{both}
use gotaxy.Control.Inv.{IsManaged, start_listener_inv}
use gotaxy.Shell.{Said}
use gotaxy.Shell.Mappings.{
  start_mapping, stop_mapping, add_mapping, del_mapping, store_update, upd_mapping, with_name,
  add_args, upd_args, handle_mapping, default_limit,
}

module _ {Db : Type 0} (engine : Engine Db) (P : Manager → Type 0) (kept : IsManaged P) where
  abbrev Held : GotaxyServer Db → Type 0
  Held s = P s.sessions

  abbrev Kept : GotaxyServer Db × Said → Type 0
  Kept o = Held o.0

  start_mapping_inv :
      (name : String) (s : GotaxyServer Db) → Held s → Kept (start_mapping engine name s)
  unfolding start_mapping
  start_mapping_inv name s v =
      let sessions = (update_enable s.sessions name true).0 in
      let enabled : P sessions = kept.enabled s.sessions name true v in
      both Kept (not (update_enable s.sessions name true).1) (λ _. v)
        (λ _. elim (Option-cases (mapping_of sessions name)) [
          | inl e ↦ rw e enabled
          | inr ((r, x), e) ↦ rw e (
              both Kept (not s.is_run) (λ _. enabled)
                (λ _.
                  start_listener_inv P kept (record s { sessions = sessions }) r background
                    enabled))
        ])

  stop_mapping_inv :
      (name : String) (s : GotaxyServer Db) → Held s → Kept (stop_mapping engine name s)
  unfolding stop_mapping
  stop_mapping_inv name s v =
      both Kept (not (close_mapping s.sessions s.contexts name).1) (λ _. v)
        (λ _. kept.enabled s.sessions name false v)

  add_mapping_inv :
      (name port target : String) (s : GotaxyServer Db)
      → Held s
      → Kept (add_mapping engine name port target s)
  unfolding add_mapping
  add_mapping_inv name port target s v =
      both Kept (not (is_port port)) (λ _. v)
        (λ _.
          both Kept (not (is_validate_addr target)) (λ _. v)
            (λ _. elim (Option-cases (get_mapping s.sessions name)) [
              | inr (r, e) ↦ rw e v
              | inl e ↦
                  let row : Row = record {
                    id = 0;
                    name = name;
                    public_port = port;
                    target_addr = target;
                    enable = false;
                    traffic = 0;
                    rate_limit = default_limit;
                  } in
                  rw e (
                    both Kept (not (insert_mpg engine s.db row).1) (λ _. v)
                      (λ _. kept.added s.sessions name port target false 0 default_limit e v))
            ]))

  del_mapping_inv :
      (name : String) (s : GotaxyServer Db) → Held s → Kept (del_mapping engine name s)
  unfolding del_mapping
  del_mapping_inv name s v = elim (Option-cases (mapping_of s.sessions name)) [
    | inl e ↦ rw (e, del_mapping) v
    | inr ((r, x), e) ↦
        rw (e, del_mapping)
          (both Kept (str_eq x.status "active") (λ _. v)
            (λ idle. kept.deleted s.sessions name r x e idle v))
  ]

  store_update_inv :
      (name port target : String) (enable : Bool) (limit : Int64) (s : GotaxyServer Db) (r : Ref)
      (x : Mapping)
      → mapping_of s.sessions name ≡ some (r, x)
      → str_eq x.status "active" ≡ false
      → Held s
      → Kept (store_update engine name port target enable limit s)
  unfolding store_update
  store_update_inv name port target enable limit s r x held idle v =
      elim (Option-cases (update_map engine s.db name port target enable limit).1) [
        | inl e ↦ rw (e, store_update) v
        | inr (row, e) ↦
            rw (e, store_update) (kept.updated s.sessions name port target limit r x held idle v)
      ]

  upd_mapping_inv :
      (name port target limit : String) (s : GotaxyServer Db)
      → Held s
      → Kept (upd_mapping engine name port target limit s)
  unfolding upd_mapping
  upd_mapping_inv name port target limit s v = elim (Option-cases (mapping_of s.sessions name)) [
    | inl e ↦ rw (e, upd_mapping) v
    | inr ((r, x), e) ↦
        rw (e, upd_mapping)
          (both Kept (str_eq x.status "active") (λ _. v)
            (λ idle.
              both Kept (not (is_validate_addr target)) (λ _. v)
                (λ _. elim (Option-cases (atoi limit)) [
                  | inl n ↦ rw n v
                  | inr (l, n) ↦ rw n (store_update_inv name port target x.enable l s r x e idle v)
                ])))
  ]

  with_name_inv :
      (f : String → GotaxyServer Db → GotaxyServer Db × Said) (args : List String)
      (s : GotaxyServer Db)
      → ((name : String) (s : GotaxyServer Db) → Held s → Kept (f name s))
      → Held s
      → Kept (with_name engine f args s)
  unfolding with_name
  with_name_inv f [] s h v = v
  with_name_inv f (name ∷ args) s h v = h name s v

  add_args_inv : (args : List String) (s : GotaxyServer Db) → Held s → Kept (add_args engine args s)
  unfolding add_args
  add_args_inv [] s v = v
  add_args_inv (name ∷ []) s v = v
  add_args_inv (name ∷ port ∷ []) s v = v
  add_args_inv (name ∷ port ∷ target ∷ args) s v = add_mapping_inv name port target s v

  upd_args_inv : (args : List String) (s : GotaxyServer Db) → Held s → Kept (upd_args engine args s)
  unfolding upd_args
  upd_args_inv [] s v = v
  upd_args_inv (name ∷ []) s v = v
  upd_args_inv (name ∷ port ∷ []) s v = v
  upd_args_inv (name ∷ port ∷ target ∷ []) s v = v
  upd_args_inv (name ∷ port ∷ target ∷ limit ∷ args) s v =
      upd_mapping_inv name port target limit s v

  pub handle_mapping_inv :
      (args : List String) (s : GotaxyServer Db)
      → P s.sessions
      → P (handle_mapping engine args s).0.sessions
  unfolding handle_mapping
  handle_mapping_inv [] s v = v
  handle_mapping_inv (command ∷ args) s v =
      both Kept (str_eq command "list") (λ _. v)
        (λ _.
          both Kept (str_eq command "start") (λ _. with_name_inv _ args s start_mapping_inv v)
            (λ _.
              both Kept (str_eq command "stop") (λ _. with_name_inv _ args s stop_mapping_inv v)
                (λ _.
                  both Kept (str_eq command "add") (λ _. add_args_inv args s v)
                    (λ _.
                      both Kept (str_eq command "del")
                        (λ _. with_name_inv _ args s del_mapping_inv v)
                        (λ _.
                          both Kept (str_eq command "upd") (λ _. upd_args_inv args s v)
                            (λ _. v))))))
