-- ===== src/Relay/Inv.antt =====
-- A predicate on the manager that the tunnel keeps: the changes that it makes, where `Ends` says which
-- listeners may end.
use gotaxy.Prelude.{ℕ, String, true, false, some, Option-cases, inl, inr, List, [], ◌∷◌}
use gotaxy.Context.{Context, CancelFunc}
use gotaxy.Session.{
  Manager, Ref, Smux, read, write, with_status, set_session, remove_session, get_all_mappings,
}
use gotaxy.Server.{GotaxyServer}
use gotaxy.Control.{start_listener}
use gotaxy.Control.Sync.{both}
use gotaxy.Tunnel.{
  Arrival, unaccepted, sessionless, client, open_mappings, start, wait_control_conn, lose_client,
}
use gotaxy.Proxy.{open_listener, close_listener}
use gotaxy.Relay.{Step, starts, arrives, gives_up, listens, unlistens, relay}

pub record IsRelayed (P : Manager → Type 0) (Ends : Ref → Type 0) : Type 0 where
  pub opened :
      (m : Manager) (r : Ref) (ctx : Context) (c : CancelFunc)
      → P m
      → P (write m r λ x. record x { ctx = some ctx; ctx_cancel = some c })
  pub joined : (m : Manager) (id : String) (session : Smux) → P m → P (set_session m id session)
  pub left : (m : Manager) (id : String) → P m → P (remove_session m id)
  pub active : (m : Manager) (r : Ref) → P m → P (write m r (with_status "active"))
  pub inactive : (m : Manager) (r : Ref) → Ends r → P m → P (write m r (with_status "inactive"))

-- The listener that a step ends may end.
abbrev pub MayEnd : (Ref → Type 0) → Step → Type 0
MayEnd Ends (unlistens r) = Ends r
MayEnd Ends starts = Unit
MayEnd Ends (arrives now arrival) = Unit
MayEnd Ends (gives_up now client_id session) = Unit
MayEnd Ends (listens opens r) = Unit

pub any_end : (step : Step) → MayEnd (λ r. Unit) step
any_end starts = tt
any_end (arrives now arrival) = tt
any_end (gives_up now client_id session) = tt
any_end (listens opens r) = tt
any_end (unlistens r) = tt

module _ {Db : Type 0} (P : Manager → Type 0) (Ends : Ref → Type 0) (kept : IsRelayed P Ends) where
  opened_inv :
      (s : GotaxyServer Db) (r : Ref) (parent : Context)
      → P s.sessions
      → P (start_listener s r parent).sessions
  unfolding start_listener
  opened_inv s r parent v = kept.opened s.sessions r _ _ v

  open_mappings_inv :
      (mappings : List Ref) (s : GotaxyServer Db)
      → P s.sessions
      → P (open_mappings mappings s).sessions
  unfolding open_mappings
  open_mappings_inv [] s v = v
  open_mappings_inv (r ∷ mappings) s v = elim (Option-cases (read s.sessions r)) [
    | inl e ↦ rw (e, open_mappings) (open_mappings_inv mappings s v)
    | inr (x, e) ↦
        let rest = open_mappings_inv mappings (start_listener s r s.ctx) (opened_inv s r s.ctx v) in
        let passed = open_mappings_inv mappings s v in
        rw (e, open_mappings)
          (both (λ (t : GotaxyServer Db). P t.sessions) x.enable (λ _. rest) (λ _. passed))
  ]

  arrives_inv :
      (now : ℕ) (a : Arrival) (s : GotaxyServer Db)
      → P s.sessions
      → P (wait_control_conn now a s).0.sessions
  unfolding wait_control_conn
  arrives_inv now unaccepted s v = v
  arrives_inv now sessionless s v = v
  arrives_inv now (client client_id session) s v = kept.joined s.sessions client_id session v

  pub relay_inv :
      (step : Step) (s : GotaxyServer Db)
      → MayEnd Ends step
      → P s.sessions
      → P (relay step s).sessions
  unfolding relay start lose_client open_listener close_listener
  relay_inv starts s h v = open_mappings_inv (get_all_mappings s.sessions) s v
  relay_inv (arrives now arrival) s h v = arrives_inv now arrival s v
  relay_inv (gives_up now client_id session) s h v = kept.left s.sessions client_id v
  relay_inv (listens true r) s h v = kept.active s.sessions r v
  relay_inv (listens false r) s h v = v
  relay_inv (unlistens r) s h v = kept.inactive s.sessions r h v
