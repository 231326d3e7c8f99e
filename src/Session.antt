-- ===== src/Session.antt =====
-- internal/session/manager.go: the mapping rules and the client sessions. The table holds pointers
-- to mappings, which the handlers and the listeners share, so the mappings stand in a heap: a
-- pointer is an index of it, and nothing is ever freed.
pub mod View
pub mod Refinement
pub mod Count
pub mod Clients
use gotaxy.Prelude.{
  ℕ, zero, suc, String, Bool, true, false, ◌&&◌, Option, none, some, List, [], ◌∷◌, ◌++◌, map,
  str_eq, if◌then◌else◌, length, get_elem?,
}
use gotaxy.Prelude.Dict.{Dict, lookup, insert, erase}
use gotaxy.Int64.{Int64, add64, sub64}
use gotaxy.Context.{Context, CancelFunc, Contexts, cancel}

pub record Mapping : Type 0 where
  pub name : String
  pub public_port : String
  pub target_addr : String
  pub ctx : Option Context
  pub ctx_cancel : Option CancelFunc
  pub traffic : Int64
  pub rate_limit : Int64
  pub status : String
  pub enable : Bool

abbrev pub Ref : Type 0
Ref = ℕ

-- The address of a `smux.Session`, which stands for the connection of one client.
abbrev pub Smux : Type 0
Smux = ℕ

pub record ClientSession : Type 0 where
  pub id : String
  pub session : Smux

pub record Manager : Type 0 where
  pub heap : List Mapping
  pub table : Dict Ref
  pub sessions : Dict ClientSession
  pub default_id : String
  pub total_conns : Int64

abbrev pub new_manager : Manager
new_manager = record { heap = []; table = []; sessions = []; default_id = ""; total_conns = 0 }

-- *r = f(*r)
unfoldable pub modify : (Mapping → Mapping) → Ref → List Mapping → List Mapping
modify f r [] = []
modify f zero (x ∷ heap) = f x ∷ heap
modify f (suc r) (x ∷ heap) = x ∷ modify f r heap

-- A write through a pointer.
unfoldable pub write : Manager → Ref → (Mapping → Mapping) → Manager
write m r f = record m { heap = modify f r m.heap }

-- A read through a pointer.
abbrev pub read : Manager → Ref → Option Mapping
read m r = get_elem? m.heap r

-- The literal of `SetMapping`.
abbrev pub new_mapping : String → String → String → Bool → Int64 → Int64 → Mapping
new_mapping name port target enable traffic rate_limit = record {
  name = name;
  public_port = port;
  target_addr = target;
  ctx = none;
  ctx_cancel = none;
  traffic = traffic;
  rate_limit = rate_limit;
  status = "inactive";
  enable = enable;
}

unfoldable pub set_mapping : Manager → String → String → String → Bool → Int64 → Int64 → Manager
set_mapping m name port target enable traffic rate_limit = record m {
  total_conns = add64 m.total_conns 1;
  heap = m.heap ++ new_mapping name port target enable traffic rate_limit ∷ [];
  table = insert m.table name (length m.heap);
}

unfoldable pub get_all_mappings : Manager → List Ref
get_all_mappings m = map (λ e. e.1) m.table

unfoldable pub get_mapping : Manager → String → Option Ref
get_mapping m name = lookup m.table name

unfoldable pub delete_mapping : Manager → String → Manager
delete_mapping m name = record m { table = erase m.table name; total_conns = sub64 m.total_conns 1 }

-- The assignments to a mapping's fields.
abbrev pub with_enable : Bool → Mapping → Mapping
with_enable enable x = record x { enable = enable }

abbrev pub with_status : String → Mapping → Mapping
with_status status x = record x { status = status }

abbrev pub with_rate_limit : Int64 → Mapping → Mapping
with_rate_limit rate_limit x = record x { rate_limit = rate_limit }

abbrev pub with_rule : String → String → Int64 → Mapping → Mapping
with_rule port add limit x = record x { public_port = port; target_addr = add; rate_limit = limit }

abbrev pub with_more_traffic : Int64 → Mapping → Mapping
with_more_traffic traffic x = record x { traffic = add64 x.traffic traffic }

-- if mapping, ok := m.table[name]; ok { *mapping = f(*mapping) }
unfoldable pub change : Manager → String → (Mapping → Mapping) → Manager
unfolding write
change m name f = elim (lookup m.table name) [ some r ↦ write m r f | none ↦ m ]

-- _, ok := m.table[name]
unfoldable pub has : Manager → String → Bool
has m name = elim (lookup m.table name) [ some _ ↦ true | none ↦ false ]

unfoldable pub update_enable : Manager → String → Bool → Manager × Bool
update_enable m name enable = (change m name (with_enable enable), has m name)

unfoldable pub update_status : Manager → String → String → Manager × Bool
update_status m name status = (change m name (with_status status), has m name)

unfoldable pub update_rate_limit : Manager → String → Int64 → Manager
update_rate_limit m name rate_limit = change m name (with_rate_limit rate_limit)

unfoldable pub update_mapping : Manager → String → String → String → Int64 → Manager
update_mapping m name port add limit = change m name (with_rule port add limit)

-- `mapping.CtxCancel()`, if the mapping is active and has a cancel function
unfoldable pub close_active : Contexts → Mapping → Contexts
close_active s x =
    if str_eq x.status "active" then elim x.ctx_cancel [ some i ↦ cancel s i | none ↦ s ] else s

-- The contexts afterwards, and whether the mapping was there (`err == nil`).
unfoldable pub close_mapping : Manager → Contexts → String → Contexts × Bool
unfolding close_active
close_mapping m s name = elim (lookup m.table name) [
  | none ↦ (s, false)
  | some r ↦ elim (read m r) [ none ↦ (s, true) | some x ↦ (close_active s x, true) ]
]

unfoldable pub add_traffic : Manager → String → Int64 → Manager
add_traffic m name traffic = change m name (with_more_traffic traffic)

unfoldable pub get_traffic : Manager → String → Int64
get_traffic m name = elim (lookup m.table name) [
  | some r ↦ elim (read m r) [ some x ↦ x.traffic | none ↦ 0 ]
  | none ↦ 0
]

unfoldable pub set_session : Manager → String → Smux → Manager
set_session m client_id session = record m {
  sessions = insert m.sessions client_id (record { id = client_id; session = session });
  default_id = client_id;
}

unfoldable pub get_session : Manager → String → Option Smux
get_session m client_id = elim (lookup m.sessions client_id) [
  | some sess ↦ some sess.session
  | none ↦ none
]

unfoldable pub get_default_session : Manager → Option Smux
get_default_session m = elim (lookup m.sessions m.default_id) [
  | some sess ↦ some sess.session
  | none ↦ none
]

unfoldable pub remove_session : Manager → String → Manager
remove_session m client_id = record m {
  sessions = erase m.sessions client_id;
  default_id = if str_eq m.default_id client_id then "" else m.default_id;
}
