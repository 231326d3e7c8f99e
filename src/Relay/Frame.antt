-- ===== src/Relay/Frame.antt =====
-- The tunnel touches neither the settings nor the database nor the subscriptions.
use gotaxy.Prelude.{◌≡◌, refl, arith, true, false, List, [], ◌∷◌, Option-cases, inl, inr}
use gotaxy.Session.{Ref, read, get_all_mappings}
use gotaxy.Server.{GotaxyServer}
use gotaxy.Control.{start_listener}
use gotaxy.Tunnel.{
  unaccepted, sessionless, client, open_mappings, start, wait_control_conn, lose_client,
}
use gotaxy.Proxy.{open_listener, close_listener}
use gotaxy.Relay.{Step, starts, arrives, gives_up, listens, unlistens, relay}

module _ {Db : Type 0} where
  -- What is left as it is.
  abbrev Untouched : GotaxyServer Db → GotaxyServer Db → Type 0
  Untouched s t = (t.config ≡ s.config) × (t.db ≡ s.db) × (t.event_bus ≡ s.event_bus)

  open_mappings-Untouched :
      (mappings : List Ref) (s : GotaxyServer Db) → Untouched s (open_mappings mappings s)
  unfolding open_mappings start_listener
  open_mappings-Untouched [] s = (refl, refl, refl)
  open_mappings-Untouched (r ∷ mappings) s = elim (Option-cases (read s.sessions r)) [
    | inl e ↦ rw (e, open_mappings) (open_mappings-Untouched mappings s)
    | inr (x, e) ↦
        let (c, d, b) = open_mappings-Untouched mappings (start_listener s r s.ctx) in
        let (c', d', b') = open_mappings-Untouched mappings s in
        rw (e, open_mappings) (ground (arith, c, d, b, c', d', b'))
  ]

  pub relay-Untouched : (step : Step) (s : GotaxyServer Db) → Untouched s (relay step s)
  unfolding relay start wait_control_conn lose_client open_listener close_listener
  relay-Untouched starts s = open_mappings-Untouched (get_all_mappings s.sessions) s
  relay-Untouched (arrives now unaccepted) s = (refl, refl, refl)
  relay-Untouched (arrives now sessionless) s = (refl, refl, refl)
  relay-Untouched (arrives now (client client_id session)) s = (refl, refl, refl)
  relay-Untouched (gives_up now client_id session) s = (refl, refl, refl)
  relay-Untouched (listens true r) s = (refl, refl, refl)
  relay-Untouched (listens false r) s = (refl, refl, refl)
  relay-Untouched (unlistens r) s = (refl, refl, refl)
