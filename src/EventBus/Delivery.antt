-- ===== src/EventBus/Delivery.antt =====
-- Who gets an event.
use gotaxy.Prelude.{
  ℕ, ◌≡◌, ◌∙◌, ap, List, [], ◌∷◌, ◌++◌, map, if◌then◌else◌, Bool-cases, inl, inr, append_assoc,
  append-nil, sym,
}
use gotaxy.EventBus.{EventType, same_type, Payload, EventBus, new_event_bus, subscribe, publish}

module _ {Handler : Type 0} where
  unfoldable pub subscribe_all : EventBus Handler → List (EventType × Handler) → EventBus Handler
  unfolding subscribe
  subscribe_all b [] = b
  subscribe_all b ((t, handler) ∷ rest) = subscribe_all (subscribe b t handler) rest

  -- The handlers of one type, in their order.
  abbrev pub handlers_of : EventType → List (EventType × Handler) → List Handler
  handlers_of t [] = []
  handlers_of t ((u, handler) ∷ rest) =
      if same_type u t then handler ∷ handlers_of t rest else handlers_of t rest

  handlers-subscribe_all :
      (b : EventBus Handler) (l : List (EventType × Handler)) (t : EventType)
      → (subscribe_all b l).handlers t ≡ b.handlers t ++ handlers_of t l
  unfolding subscribe_all subscribe
  handlers-subscribe_all b [] t = sym (append-nil (b.handlers t))
  handlers-subscribe_all b ((u, handler) ∷ rest) t =
      handlers-subscribe_all (subscribe b u handler) rest t ∙ (elim (Bool-cases (same_type u t)) [
        | inl e ↦ rw e (append_assoc (b.handlers t) (handler ∷ []) (handlers_of t rest))
        | inr e ↦ rw e
      ])

  -- After any subscriptions to a new bus, publishing starts each handler of the event's type and no
  -- other, in the order of subscription and with the one event.
  pub publish-subscribe_all :
      (l : List (EventType × Handler)) (now : ℕ) (t : EventType) (payload : Payload)
      → publish (subscribe_all new_event_bus l) now t payload
        ≡ map
            (λ handler. (handler, record { type = t; timestamp = now; payload = payload }))
            (handlers_of t l)
  unfolding publish
  publish-subscribe_all l now t payload =
      ap (map λ handler. (handler, record { type = t; timestamp = now; payload = payload }))
        (handlers-subscribe_all new_event_bus l t)
