-- ===== src/Relay.antt =====
-- What the tunnel does to the state of the server, as steps that the goroutines of
-- internal/tunnel/controller.go and internal/tunnel/proxy/proxy.go take. Any of them may be taken at any
-- time, also where its goroutine has not been started or has ended, so what holds under all of them
-- holds under those that happen.
pub mod Inv
pub mod Frame
pub mod Sync
pub mod Held
use gotaxy.Prelude.{ℕ, String, Bool}
use gotaxy.Session.{Ref, Smux}
use gotaxy.Server.{GotaxyServer}
use gotaxy.Tunnel.{Arrival, start, wait_control_conn, lose_client}
use gotaxy.Proxy.{open_listener, close_listener}

-- The controller starts; the control port gets what it gets; the heartbeat gives a client up; a
-- listener is opened or not; it ends.
pub data Step : Type 0 where
  starts : Step
  arrives : ℕ → Arrival → Step
  gives_up : ℕ → String → Smux → Step
  listens : Bool → Ref → Step
  unlistens : Ref → Step

unfoldable pub relay : {Db : Type 0} → Step → GotaxyServer Db → GotaxyServer Db
unfolding start wait_control_conn lose_client open_listener close_listener
relay starts s = start s
relay (arrives now arrival) s = (wait_control_conn now arrival s).0
relay (gives_up now client_id session) s = (lose_client now client_id session s).0
relay (listens opens r) s = (open_listener opens r s).0
relay (unlistens r) s = close_listener r s
