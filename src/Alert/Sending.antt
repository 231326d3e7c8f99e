-- ===== src/Alert/Sending.antt =====
-- When a mail is sent, and what is in it.
use gotaxy.Prelude.{ℕ, String, ◌≡◌, refl, subst, Bool, true, arith}
use gotaxy.EventBus.{Event, EventType, Payload, disconnected, connected, traffic}
use gotaxy.Utils.{is_validate_email}
use gotaxy.Alert.{Mail, sent, send_email, handle_client_disconnected}

-- A mail about the loss of a client, to the address that is set.
pub record IsAlert (target : String) (e : Event) (m : Mail) : Type 0 where
  pub to : m.to ≡ target
  pub valid : is_validate_email target ≡ true
  pub lost : e.payload ≡ disconnected m.client_id m.reason
  pub timestamp : m.timestamp ≡ e.timestamp

module _ (dial_and_send : Mail → Bool) where
  sent-IsAlert :
      (target : String) (t : EventType) (now : ℕ) (p : Payload) (m : Mail)
      → handle_client_disconnected dial_and_send target
          (record { type = t; timestamp = now; payload = p })
        ≡ sent m
      → IsAlert target (record { type = t; timestamp = now; payload = p }) m
        × (dial_and_send m ≡ true)
  unfolding handle_client_disconnected send_email
  sent-IsAlert target t now (disconnected client_id reason) m h =
      let mail : Mail = record {
        to = target;
        client_id = client_id;
        timestamp = now;
        reason = reason;
      } in
      let valid : is_validate_email target ≡ true = ground arith in
      let accepted : dial_and_send mail ≡ true = ground arith in
      let same : mail ≡ m = ground arith in
      subst
        (λ x.
          IsAlert target
            (record { type = t; timestamp = now; payload = disconnected client_id reason }) x
          × (dial_and_send x ≡ true))
        same (record { to = refl; valid = valid; lost = refl; timestamp = refl }, accepted)
  sent-IsAlert target t now (connected a b) m h = ground arith
  sent-IsAlert target t now (traffic a b) m h = ground arith

  -- A mail that is sent tells of a lost client, with its name and the reason, and goes to the address
  -- that is set, which is valid; and the dialer has accepted it.
  pub handle_client_disconnected-IsAlert :
      (target : String) (e : Event) (m : Mail)
      → handle_client_disconnected dial_and_send target e ≡ sent m
      → IsAlert target e m × (dial_and_send m ≡ true)
  handle_client_disconnected-IsAlert target e m h =
      sent-IsAlert target e.type e.timestamp e.payload m h
