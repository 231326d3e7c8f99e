-- ===== src/Proxy.antt =====
-- internal/tunnel/proxy/proxy.go: the listener of a mapping, and the copying between a public connection
-- and a stream of the client. Sockets and the waiting of the rate limiter are not part of the program: what
-- their calls give are arguments.
pub mod Copying
pub mod Rounds
use gotaxy.Prelude.{
  ℕ, String, Bool, true, false, not, ◌||◌, Option, none, some, List, [], ◌∷◌, ◌++◌, length, ltb,
  if◌then◌else◌,
}
use gotaxy.Int64.{Int64, max_int64}
use gotaxy.Context.{Context, Contexts, done}
use gotaxy.EventBus.{Payload, traffic}
use gotaxy.Session.{Mapping, Manager, Ref, Smux, read, write, with_status, get_default_session}
use gotaxy.Server.{GotaxyServer}
use gotaxy.Wire.{Bytes, encode, Written, taken, succeeded}

-- []byte("DIRECT\n" + target + "\n")
unfoldable pub stream_header : String → Bytes
unfolding encode
stream_header target = encode "DIRECT\n" ++ encode target ++ encode "\n"

module _ {Db : Type 0} where
  -- The begin of `StartPublicListener`: whether it goes on, which is whether `net.Listen` gives a
  -- listener.
  unfoldable pub open_listener : Bool → Ref → GotaxyServer Db → GotaxyServer Db × Bool
  unfolding write
  open_listener listens r s =
      if listens
      then (record s { sessions = write s.sessions r (with_status "active") }, true)
      else (s, false)

  -- Its deferred end.
  unfoldable pub close_listener : Ref → GotaxyServer Db → GotaxyServer Db
  unfolding write
  close_listener r s = record s { sessions = write s.sessions r (with_status "inactive") }

-- What the network gives in one round of the loop: an error of `Accept`; or a connection, with whether
-- a stream opens in the client's session and whether the header can be written to it.
pub data Arrival : Type 0 where
  unaccepted : Arrival
  accepted : Bool → Bool → Arrival

-- How a round ends: the listener ends, with its socket closed or not; it goes on without a
-- connection; it closes the connection, and the stream if there is one; or it has the connection copied to and from a new stream of
-- the session, to which the header is written.
pub data Round : Type 0 where
  ends : Bool → Round
  retries : Round
  drops : Round
  carries : Smux → Bytes → Round

-- <-mapping.Ctx.Done() goes through
unfoldable pub mapping_done : Contexts → Option Context → Bool
unfolding done
mapping_done contexts ctx = elim ctx [ none ↦ false | some c ↦ done contexts c ]

-- mapping.Ctx
abbrev pub ctx_of : Manager → Ref → Option Context
ctx_of m r = elim (read m r) [ none ↦ none | some x ↦ x.ctx ]

unfoldable pub carry : Manager → String → Bool → Bool → Round
unfolding get_default_session stream_header
carry m target opens writes = elim (get_default_session m) [
  | none ↦ drops
  | some sess ↦
      if not opens then drops else if not writes then drops else carries sess (stream_header target)
]

-- One round, on the server as it is before `Accept` and behind it; the target is that of the start. The
-- pointer always leads to a mapping.
unfoldable pub listener_round :
    {Db : Type 0} → Context → Ref → String → GotaxyServer Db → Arrival → GotaxyServer Db → Round
unfolding mapping_done carry done
listener_round ctx r target before arrival after = elim (read before.sessions r) [
  | none ↦ retries
  | some x ↦ if not x.enable then ends true else elim arrival [
    | unaccepted ↦
        if done after.contexts ctx || mapping_done after.contexts (ctx_of after.sessions r)
        then ends false
        else retries
    | accepted opens writes ↦ carry after.sessions target opens writes
  ]
]

-- A `rate.Limiter`, in bytes a second and bytes at once.
pub record Limiter : Type 0 where
  pub limit : Int64
  pub burst : Int64

-- rate.NewLimiter(rate.Limit(rateLimit), rateLimit)
unfoldable pub new_limiter : Mapping → Limiter
new_limiter mapping = record { limit = mapping.rate_limit; burst = mapping.rate_limit }

-- n > burst, for the length of a buffer
unfoldable pub exceeds : ℕ → Limiter → Bool
exceeds n limiter = ltb max_int64 limiter.burst || ltb limiter.burst n

-- One turn of the loop of `rateLimitedProxy`: whether the context has ended, what `Read` gives, and
-- whether the limiter lets it through, and what `Write` gives.
pub record Turn : Type 0 where
  pub ended : Bool
  pub read : Option Bytes
  pub waits : Bool
  pub writes : Written

-- What was written, and the payloads that were published.
pub record Copied : Type 0 where
  pub written : Bytes
  pub published : List Payload

abbrev pub report : Option Mapping → Bytes → List Payload → List Payload
report none bytes rest = rest
report (some x) bytes rest = traffic x.name (length bytes) ∷ rest

-- The copying in one direction; only the direction to the public connection has the mapping.
unfoldable pub rate_limited_proxy : Option Mapping → List Turn → Copied
rate_limited_proxy mapping [] = record { written = []; published = [] }
rate_limited_proxy mapping (turn ∷ turns) =
    let rest = rate_limited_proxy mapping turns in
    let nothing : Copied = record { written = []; published = [] } in
    if turn.ended then nothing else elim turn.read [
      | none ↦ nothing
      | some bytes ↦
          if not turn.waits
          then nothing
          else if not (succeeded turn.writes)
          then record { written = taken turn.writes bytes; published = [] }
          else record {
            written = bytes ++ rest.written;
            published = report mapping bytes rest.published;
          }
    ]
