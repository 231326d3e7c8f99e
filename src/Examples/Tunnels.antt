-- ===== src/Examples/Tunnels.antt =====
-- The theorems on the tunnel and the client, for the rule `web` and a client.
use gotaxy.Prelude.{ℕ, ◌≡◌, ◌↔◌, refl, true, false, none, some, List, [], ◌∷◌, ◌++◌, arith, All}
use gotaxy.Wire.{Bytes, encode}
use gotaxy.Tunnel.{
  Ping, no_stream, no_write, reply, lost, start_heartbeat, ping_message, is_healthy,
}
use gotaxy.Tunnel.Heartbeats.{FailsBefore, start_heartbeat-lost_iff}
use gotaxy.Prelude.{length, inr}
use gotaxy.Client.{handle_stream, closed, sleeps, base_delay, not_connected, no_session, ended}
use gotaxy.Wire.{whole}
use gotaxy.Client.Protocol.{joined, handle_stream-ping}
use gotaxy.Client.Backoff.{InBounds, failed, sleeps-InBounds}
use gotaxy.Session.{Mapping}
use gotaxy.Proxy.{Turn, rate_limited_proxy}
use gotaxy.Proxy.Copying.{rate_limited_proxy-limit}

sleeps-InBounds_example :
    All InBounds (sleeps base_delay (not_connected ∷ not_connected ∷ no_session ∷ ended ∷ []))
    × (length (sleeps base_delay (not_connected ∷ not_connected ∷ no_session ∷ ended ∷ []))
        ≡ failed (not_connected ∷ not_connected ∷ no_session ∷ ended ∷ []))
sleeps-InBounds_example = sleeps-InBounds (not_connected ∷ not_connected ∷ no_session ∷ ended ∷ [])

abbrev beats : List Ping
beats =
    no_stream
    ∷ reply []
    ∷ reply (b'P' ∷ b'O' ∷ b'N' ∷ b'G' ∷ [])
    ∷ no_write
    ∷ no_stream
    ∷ reply []
    ∷ no_stream
    ∷ []

start_heartbeat-lost_iff_example :
    ((rest : List Ping) × (start_heartbeat 0 beats ≡ lost rest))
    ↔ ((rest : List Ping) × FailsBefore beats rest)
start_heartbeat-lost_iff_example = start_heartbeat-lost_iff beats

-- The heartbeat comes in two reads.
abbrev ping_chunks : List Bytes
ping_chunks =
    (b'H' ∷ b'E' ∷ b'A' ∷ b'R' ∷ b'T' ∷ b'B' ∷ b'E' ∷ b'A' ∷ b'T' ∷ 10 ∷ b'P' ∷ [])
    ∷ (b'I' ∷ b'N' ∷ b'G' ∷ 10 ∷ [])
    ∷ []

joined-ping_chunks : joined ping_chunks ≡ ping_message
unfolding ping_message encode gotaxy.Wire.encode_runes gotaxy.Wire.encode_rune
joined-ping_chunks = refl

handle_stream-ping_example :
    (answer : Bytes) × (handle_stream (λ target. false) ping_chunks ≡ closed answer)
    × (is_healthy (reply answer) ≡ true)
handle_stream-ping_example = handle_stream-ping (λ target. false) ping_chunks joined-ping_chunks

abbrev turn : List ℕ → Turn
turn bytes = record { ended = false; read = some bytes; waits = true; writes = whole }

abbrev too_much : Turn
too_much = record { ended = false; read = some (1 ∷ 2 ∷ 3 ∷ []); waits = false; writes = whole }

abbrev turns : List Turn
turns = turn (5 ∷ 6 ∷ []) ∷ turn (7 ∷ []) ∷ too_much ∷ turn (8 ∷ []) ∷ []

abbrev narrow : Mapping
narrow = record {
  name = "a";
  public_port = "9000";
  target_addr = "127.0.0.1:80";
  ctx = none;
  ctx_cancel = none;
  traffic = 0;
  rate_limit = 2;
  status = "active";
  enable = true;
}

rate_limited_proxy-limit_example :
    rate_limited_proxy none ((turn (5 ∷ 6 ∷ []) ∷ []) ++ too_much ∷ (turn (8 ∷ []) ∷ []))
    ≡ rate_limited_proxy none (turn (5 ∷ 6 ∷ []) ∷ [])
rate_limited_proxy-limit_example =
    rate_limited_proxy-limit narrow none (turn (5 ∷ 6 ∷ []) ∷ []) (turn (8 ∷ []) ∷ []) too_much
      (λ _. refl) (inr (omega arith))
