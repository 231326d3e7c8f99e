-- ===== src/Session/Clients.antt =====
-- The client sessions and the default one, which serves every public connection.
use gotaxy.Prelude.{
  String, ◌≡◌, ◌≢◌, refl, sym, ◌∙◌, Bool, false, ◌||◌, Option, none, some, List, [], ◌∷◌, arith,
  str_eq, eq_iff, if◌then◌else◌, Bool-cases, inl, inr, All,
}
use gotaxy.Prelude.Dict.{lookup, lookup-insert, lookup-erase}
use gotaxy.Session.{
  Manager, new_manager, Smux, set_session, get_session, get_default_session, remove_session,
}

-- What happens to clients: one connects, or the heartbeat gives one up.
pub data ClientEvent : Type 0 where
  connects : String → Smux → ClientEvent
  leaves : String → ClientEvent

unfoldable pub client_event : Manager → ClientEvent → Manager
client_event m (connects id session) = set_session m id session
client_event m (leaves id) = remove_session m id

-- The manager after a history, which lists the newest event first.
unfoldable pub after : List ClientEvent → Manager
unfolding client_event
after [] = new_manager
after (e ∷ past) = client_event (after past) e

-- The session that was set for a client is its session until it leaves or connects again; other
-- clients do not change it.
pub get_session-client_event :
    (m : Manager) (e : ClientEvent) (id : String)
    → get_session (client_event m e) id ≡ (elim e [
      | connects other session ↦ if str_eq other id then some session else get_session m id
      | leaves other ↦ if str_eq other id then none else get_session m id
    ])
unfolding client_event get_session set_session remove_session
get_session-client_event m (connects other session) id =
    ground (arith, lookup-insert m.sessions other id (record { id = other; session = session }))
get_session-client_event m (leaves other) id = ground (arith, lookup-erase m.sessions other id)

abbrev mentions : List String → String → Bool
mentions [] id = false
mentions (j ∷ l) id = str_eq j id || mentions l id

-- The session of the last client to connect, if it has not left since and is none of `gone`.
abbrev pub latest : List ClientEvent → List String → Option Smux
latest [] gone = none
latest (connects id session ∷ past) gone = if mentions gone id then none else some session
latest (leaves id ∷ past) gone = latest past (id ∷ gone)

abbrev pub IsNamed : ClientEvent → Type 0
IsNamed (connects id session) = id ≢ ""
IsNamed (leaves id) = Unit

no_empty_client : (past : List ClientEvent) → All IsNamed past → get_session (after past) "" ≡ none
unfolding after get_session lookup
no_empty_client [] h = refl
no_empty_client (connects id session ∷ past) h =
    get_session-client_event (after past) (connects id session) ""
    ∙ ground (arith, eq_iff id "", h.0, no_empty_client past h.1)
no_empty_client (leaves id ∷ past) h =
    get_session-client_event (after past) (leaves id) "" ∙ ground (arith, no_empty_client past h.1)

-- The last client to connect is the default.
pub default-set_session :
    (m : Manager) (id : String) (session : Smux)
    → get_default_session (set_session m id session) ≡ some session
unfolding get_default_session set_session
default-set_session m id session =
    ground
      (arith, lookup-insert m.sessions id id (record { id = id; session = session }), eq_iff id id)

pub default-remove_session :
    (m : Manager) (id : String)
    → get_session m "" ≡ none
    → get_default_session (remove_session m id)
      ≡ (if str_eq id m.default_id then none else get_default_session m)
unfolding get_default_session get_session remove_session
default-remove_session m id h = ground (
  arith,
  lookup-erase m.sessions id "",
  lookup-erase m.sessions id m.default_id,
  eq_iff m.default_id id,
  eq_iff id m.default_id,
)

default_id-remove_session :
    (m : Manager) (id : String)
    → str_eq id m.default_id ≡ false
    → (remove_session m id).default_id ≡ m.default_id
unfolding remove_session
default_id-remove_session m id h = ground (arith, eq_iff m.default_id id, eq_iff id m.default_id)

abbrev unless_gone : List String → Manager → Option Smux
unless_gone gone m = if mentions gone m.default_id then none else get_default_session m

unless_gone-leaves :
    (m : Manager) (id : String) (gone : List String)
    → get_session m "" ≡ none
    → unless_gone (id ∷ gone) m ≡ unless_gone gone (remove_session m id)
unless_gone-leaves m id gone h = elim (Bool-cases (str_eq id m.default_id)) [
  | inl e ↦ ground (arith, default-remove_session m id h)
  | inr e ↦ ground (arith, default-remove_session m id h, default_id-remove_session m id e)
]

latest-unless_gone :
    (past : List ClientEvent) (gone : List String)
    → All IsNamed past
    → latest past gone ≡ unless_gone gone (after past)
unfolding after
latest-unless_gone [] gone h = unfold get_default_session lookup in ground arith
latest-unless_gone (connects id session ∷ past) gone h =
    rw default-set_session (unfold set_session in refl)
latest-unless_gone (leaves id ∷ past) gone h =
    latest-unless_gone past (id ∷ gone) h.1
    ∙ unless_gone-leaves (after past) id gone (no_empty_client past h.1)

-- After any history of clients with non-empty names, the default session is that of the last client
-- to connect, unless that client has left since: then there is none, whoever else is connected.
pub get_default_session-latest :
    (past : List ClientEvent) → All IsNamed past → get_default_session (after past) ≡ latest past []
get_default_session-latest past h = sym (latest-unless_gone past [] h)
