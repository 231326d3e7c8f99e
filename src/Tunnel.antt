-- ===== src/Tunnel.antt =====
-- internal/tunnel/controller.go: the start of the listeners, the clients' connections, the heartbeat.
-- The clock is the time that an event carries; TLS and the sessions' multiplexing are parameters.
pub mod Heartbeats
pub mod Opening
use gotaxy.Prelude.{
  ℕ, suc, String, Bool, true, false, Option, none, some, List, [], ◌∷◌, leb, length, take,
  if◌then◌else◌,
}
use gotaxy.Context.{done}
use gotaxy.EventBus.{Event, publish, client_connected, client_disconnected, connected, disconnected}
use gotaxy.Session.{
  Ref, Smux, read, get_all_mappings, get_default_session, set_session, remove_session,
}
use gotaxy.Server.{GotaxyServer, Handler, spawn, accept_control, heartbeat}
use gotaxy.Control.{start_listener}
use gotaxy.Wire.{Bytes, encode, equal}

module _ {Db : Type 0} where
  -- The mappings that are enabled get a context under the server's, and a listener.
  unfoldable pub open_mappings : List Ref → GotaxyServer Db → GotaxyServer Db
  unfolding start_listener
  open_mappings [] s = s
  open_mappings (r ∷ mappings) s = elim (read s.sessions r) [
    | none ↦ open_mappings mappings s
    | some x ↦
        let opened = open_mappings mappings (start_listener s r s.ctx) in
        let passed = open_mappings mappings s in if x.enable then opened else passed
  ]

  -- `Start`, up to the wait for the end of the context.
  unfoldable pub start : GotaxyServer Db → GotaxyServer Db
  unfolding open_mappings get_all_mappings
  start s = spawn (open_mappings (get_all_mappings s.sessions) s) accept_control

  -- What `Start` closes behind the wait.
  unfoldable pub finish : GotaxyServer Db → Option Smux
  unfolding get_default_session
  finish s = get_default_session s.sessions

-- What a round of `waitControlConn` gets: an error of `Accept`, a connection on which no session can be
-- opened, or a session with the remote address.
pub data Arrival : Type 0 where
  unaccepted : Arrival
  sessionless : Arrival
  client : String → Smux → Arrival

-- What follows: the server, the handlers that were started, and whether the loop goes on.
unfoldable pub wait_control_conn :
    {Db : Type 0} → ℕ → Arrival → GotaxyServer Db → GotaxyServer Db × List (Handler × Event) × Bool
unfolding done set_session publish
wait_control_conn now unaccepted s = (s, [], if done s.contexts s.ctx then false else true)
wait_control_conn now sessionless s = (s, [], true)
wait_control_conn now (client client_id session) s =
    let known = record s { sessions = set_session s.sessions client_id session } in
    (
      spawn known (heartbeat client_id session),
      publish known.event_bus now client_connected (connected client_id client_id),
      true,
    )

-- []byte("HEARTBEAT\nPING\n")
unfoldable pub ping_message : Bytes
unfolding encode
ping_message = encode "HEARTBEAT\nPING\n"

-- One heartbeat: no stream, a failed write, or the bytes that come before the stream ends.
pub data Ping : Type 0 where
  no_stream : Ping
  no_write : Ping
  reply : Bytes → Ping

-- io.ReadFull(stream, make([]byte, n)), with `none` for an error
unfoldable pub read_full : ℕ → Bytes → Option Bytes
read_full n bytes = if leb n (length bytes) then some (take n bytes) else none

-- string(buffer) == "PONG"
unfoldable pub is_healthy : Ping → Bool
unfolding read_full encode equal
is_healthy no_stream = false
is_healthy no_write = false
is_healthy (reply bytes) = elim (read_full 4 bytes) [
  | none ↦ false
  | some buffer ↦ equal buffer (encode "PONG")
]

-- failCount after a heartbeat
unfoldable pub next_fail_count : ℕ → Ping → ℕ
unfolding is_healthy
next_fail_count fail_count ping = if is_healthy ping then 0 else suc fail_count

-- The loop of `startHeartbeat`, over what its heartbeats get: it is still running, with its count of
-- failures, or has given the client up, and these heartbeats are not made any more.
pub data Heartbeat : Type 0 where
  beating : ℕ → Heartbeat
  lost : List Ping → Heartbeat

unfoldable pub start_heartbeat : ℕ → List Ping → Heartbeat
unfolding next_fail_count
start_heartbeat fail_count [] = beating fail_count
start_heartbeat fail_count (ping ∷ pings) =
    let rest = start_heartbeat (next_fail_count fail_count ping) pings in
    if leb 3 (next_fail_count fail_count ping) then lost pings else rest

-- What the loop does when it gives the client up: the server, the handlers that were started, and the
-- session that is closed.
unfoldable pub lose_client :
    {Db : Type 0}
    → ℕ
    → String
    → Smux
    → GotaxyServer Db
    → GotaxyServer Db × List (Handler × Event) × Smux
unfolding remove_session publish
lose_client now client_id session s =
    let left = record s { sessions = remove_session s.sessions client_id } in
    (left, publish left.event_bus now client_disconnected (disconnected client_id "心跳超时"), session)
