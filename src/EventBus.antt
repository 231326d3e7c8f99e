-- ===== src/EventBus.antt =====
-- internal/eventbus: subscription and publication. A handler is started in a goroutine of its own,
-- so `publish` returns what it has started, and the caller's schedule says when each runs.
pub mod Delivery
use gotaxy.Prelude.{ℕ, String, Bool, true, false, List, [], ◌∷◌, ◌++◌, map, if◌then◌else◌}
use gotaxy.Int64.{Int64}

pub data EventType : Type 0 where
  client_connected client_disconnected traffic_report tunnel_error : EventType

abbrev same_type : EventType → EventType → Bool
same_type client_connected client_connected = true
same_type client_disconnected client_disconnected = true
same_type traffic_report traffic_report = true
same_type tunnel_error tunnel_error = true
same_type _ _ = false

-- payloads.go; the field `Payload` is an `interface{}`
pub data Payload : Type 0 where
  disconnected : String → String → Payload
  connected : String → String → Payload
  traffic : String → Int64 → Payload

pub record Event : Type 0 where
  pub type : EventType
  pub timestamp : ℕ
  pub payload : Payload

pub record EventBus (Handler : Type 0) : Type 0 where
  pub handlers : EventType → List Handler

module _ {Handler : Type 0} where
  abbrev pub new_event_bus : EventBus Handler
  new_event_bus = record { handlers = λ _. [] }

  unfoldable pub subscribe : EventBus Handler → EventType → Handler → EventBus Handler
  subscribe b event_type handler = record {
    handlers = λ t. if same_type event_type t then b.handlers t ++ handler ∷ [] else b.handlers t;
  }

  unfoldable pub publish : EventBus Handler → ℕ → EventType → Payload → List (Handler × Event)
  publish b now event_type payload =
      let event : Event = record { type = event_type; timestamp = now; payload = payload } in
      map (λ handler. (handler, event)) (b.handlers event_type)
