-- ===== src/Web/Mappings/Inv.antt =====
-- The requests for mapping rules change the manager in no other way than `IsManaged` allows.
use gotaxy.Prelude.{
  String, ◌≡◌, Bool, true, false, not, ◌&&◌, ◌||◌, Option, none, some, str_eq, ◌==◌, if◌then◌else◌,
  Option-cases, inl, inr,
}
use gotaxy.Int64.{Int64}
use gotaxy.Utils.{is_validate_addr}
use gotaxy.Session.{Manager, Mapping, Ref, get_mapping, close_mapping, update_enable}
use gotaxy.Storage.{Engine, insert_mpg, update_map}
use gotaxy.Storage.Sql.{Row}
use gotaxy.Server.{GotaxyServer}
use gotaxy.Control.{mapping_of}
use gotaxy.Control.Sync.{both}
use gotaxy.Control.Inv.{IsManaged, start_listener_inv}
use gotaxy.Shell.Mappings.{default_limit}
use gotaxy.Web.{Status, rejected}
use gotaxy.Web.Mappings.{
  ToggleRequest, MappingRequest, enable_mapping, disable_mapping, toggle_mapping_handler,
  insert_mapping, add_mapping_handler, delete_mapping_handler, store_mapping,
  update_mapping_handler,
}

abbrev Kept : {Db : Type 0} → (Manager → Type 0) → GotaxyServer Db × Status → Type 0
Kept P o = P o.0.sessions

module _ {Db : Type 0} (P : Manager → Type 0) (kept : IsManaged P) where
  enable_mapping_inv :
      (name : String) (s : GotaxyServer Db) → P s.sessions → Kept P (enable_mapping name s)
  unfolding enable_mapping
  enable_mapping_inv name s v =
      let sessions = (update_enable s.sessions name true).0 in
      let enabled : P sessions = kept.enabled s.sessions name true v in
      both (Kept P) (not (update_enable s.sessions name true).1) (λ _. enabled)
        (λ _. elim (Option-cases (mapping_of sessions name)) [
          | inl e ↦ rw e enabled
          | inr ((r, x), e) ↦
              rw e (start_listener_inv P kept (record s { sessions = sessions }) r s.ctx enabled)
        ])

  disable_mapping_inv :
      (name : String) (s : GotaxyServer Db) → P s.sessions → Kept P (disable_mapping name s)
  unfolding disable_mapping
  disable_mapping_inv name s v =
      both (Kept P) (not (close_mapping s.sessions s.contexts name).1) (λ _. v)
        (λ _. kept.enabled s.sessions name false v)

  pub toggle_mapping_handler_inv :
      (body : Option ToggleRequest) (s : GotaxyServer Db)
      → P s.sessions
      → P (toggle_mapping_handler body s).0.sessions
  unfolding toggle_mapping_handler
  toggle_mapping_handler_inv none s v = v
  toggle_mapping_handler_inv (some req) s v =
      both (Kept P) (not s.is_run && req.enable) (λ _. kept.enabled s.sessions req.name true v)
        (λ _.
          both (Kept P) req.enable (λ _. enable_mapping_inv req.name s v)
            (λ _. disable_mapping_inv req.name s v))

module _ {Db : Type 0} (engine : Engine Db) (P : Manager → Type 0) (kept : IsManaged P) where
  insert_mapping_inv :
      (req : MappingRequest) (limit : Int64) (s : GotaxyServer Db)
      → get_mapping s.sessions req.name ≡ none
      → P s.sessions
      → Kept P (insert_mapping engine req limit s)
  unfolding insert_mapping
  insert_mapping_inv req limit s new v =
      let row : Row = record {
        id = 0;
        name = req.name;
        public_port = req.public_port;
        target_addr = req.target_addr;
        enable = false;
        traffic = 0;
        rate_limit = limit;
      } in
      both (Kept P) (not (insert_mpg engine s.db row).1) (λ _. v)
        (λ _. kept.added s.sessions req.name req.public_port req.target_addr false 0 limit new v)

  pub add_mapping_handler_inv :
      (body : Option MappingRequest) (s : GotaxyServer Db)
      → P s.sessions
      → P (add_mapping_handler engine body s).0.sessions
  unfolding add_mapping_handler
  add_mapping_handler_inv none s v = v
  add_mapping_handler_inv (some req) s v =
      both (Kept P) (str_eq req.name "" || str_eq req.public_port "" || str_eq req.target_addr "")
        (λ _. v)
        (λ _.
          both (Kept P) (not (is_validate_addr req.target_addr)) (λ _. v)
            (λ _. elim (Option-cases (get_mapping s.sessions req.name)) [
              | inr (r, e) ↦ rw e v
              | inl e ↦ rw e (
                  insert_mapping_inv req
                    (if req.rate_limit == 0 then default_limit else req.rate_limit) s e v)
            ]))

  pub delete_mapping_handler_inv :
      (body : Option String) (s : GotaxyServer Db)
      → P s.sessions
      → P (delete_mapping_handler engine body s).0.sessions
  unfolding delete_mapping_handler
  delete_mapping_handler_inv none s v = v
  delete_mapping_handler_inv (some name) s v = elim (Option-cases (mapping_of s.sessions name)) [
    | inl e ↦ rw (e, delete_mapping_handler) v
    | inr ((r, x), e) ↦
        rw (e, delete_mapping_handler)
          (both (Kept P) (str_eq x.status "active") (λ _. v)
            (λ idle. kept.deleted s.sessions name r x e idle v))
  ]

  store_mapping_inv :
      (req : MappingRequest) (enable : Bool) (s : GotaxyServer Db) (r : Ref) (x : Mapping)
      → mapping_of s.sessions req.name ≡ some (r, x)
      → str_eq x.status "active" ≡ false
      → P s.sessions
      → Kept P (store_mapping engine req enable s)
  unfolding store_mapping
  store_mapping_inv req enable s r x held idle v =
      elim (Option-cases
        (update_map engine s.db req.name req.public_port req.target_addr enable req.rate_limit).1) [
          | inl e ↦ rw (e, store_mapping) v
          | inr (row, e) ↦
              rw (e, store_mapping)
                (kept.updated s.sessions req.name req.public_port req.target_addr req.rate_limit r x
                  held idle v)
        ]

  pub update_mapping_handler_inv :
      (body : Option MappingRequest) (s : GotaxyServer Db)
      → P s.sessions
      → P (update_mapping_handler engine body s).0.sessions
  unfolding update_mapping_handler
  update_mapping_handler_inv none s v = v
  update_mapping_handler_inv (some req) s v = elim (Option-cases (mapping_of s.sessions req.name)) [
    | inl e ↦ rw (e, update_mapping_handler) v
    | inr ((r, x), e) ↦
        rw (e, update_mapping_handler)
          (both (Kept P) (str_eq x.status "active") (λ _. v)
            (λ idle.
              both (Kept P) (rejected is_validate_addr req.target_addr) (λ _. v)
                (λ _. store_mapping_inv req x.enable s r x e idle v)))
  ]
