-- ===== src/Control/Inv.antt =====
-- A predicate on the manager that every handler keeps: the changes that handlers make, each with what
-- the handler has found out before.
use gotaxy.Prelude.{String, ◌≡◌, Bool, false, none, some, str_eq}
use gotaxy.Context.{Context, CancelFunc}
use gotaxy.Int64.{Int64}
use gotaxy.Session.{
  Mapping, Manager, Ref, get_mapping, write, set_mapping, delete_mapping, update_enable,
  update_mapping, add_traffic,
}
use gotaxy.Server.{GotaxyServer}
use gotaxy.Control.{mapping_of, start_listener}

pub record IsManaged (P : Manager → Type 0) : Type 0 where
  pub enabled : (m : Manager) (k : String) (enable : Bool) → P m → P (update_enable m k enable).0
  pub opened :
      (m : Manager) (r : Ref) (ctx : Context) (c : CancelFunc)
      → P m
      → P (write m r λ x. record x { ctx = some ctx; ctx_cancel = some c })
  pub added :
      (m : Manager) (k port target : String) (enable : Bool) (traffic limit : Int64)
      → get_mapping m k ≡ none
      → P m
      → P (set_mapping m k port target enable traffic limit)
  pub deleted :
      (m : Manager) (k : String) (r : Ref) (x : Mapping)
      → mapping_of m k ≡ some (r, x)
      → str_eq x.status "active" ≡ false
      → P m
      → P (delete_mapping m k)
  pub updated :
      (m : Manager) (k port target : String) (limit : Int64) (r : Ref) (x : Mapping)
      → mapping_of m k ≡ some (r, x)
      → str_eq x.status "active" ≡ false
      → P m
      → P (update_mapping m k port target limit)
  pub counted : (m : Manager) (k : String) (bytes : Int64) → P m → P (add_traffic m k bytes)

pub start_listener_inv :
    {Db : Type 0} (P : Manager → Type 0)
    → IsManaged P
    → (s : GotaxyServer Db) (r : Ref) (parent : Context) → P s.sessions
    → P (start_listener s r parent).sessions
unfolding start_listener
start_listener_inv P kept s r parent v = kept.opened s.sessions r _ _ v
