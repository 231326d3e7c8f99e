-- ===== src/Alert.antt =====
-- internal/alert/router.go and pkg/email/email.go: the mail that tells of a lost client. The dialer
-- of gomail is not part of the program: whether it sent the message is an argument.
pub mod Sending
use gotaxy.Prelude.{ℕ, String, Bool, str_eq, if◌then◌else◌}
use gotaxy.EventBus.{Event, disconnected, connected, traffic}
use gotaxy.Utils.{is_validate_email}

-- The mail, with the parts of its body that vary.
pub record Mail : Type 0 where
  pub to : String
  pub client_id : String
  pub timestamp : ℕ
  pub reason : String

pub data Outcome : Type 0 where
  not_a_client no_address bad_address : Outcome
  not_sent sent : Mail → Outcome

unfoldable pub send_email : (Mail → Bool) → Mail → Outcome
send_email dial_and_send m =
    if is_validate_email m.to then if dial_and_send m then sent m else not_sent m else bad_address

unfoldable pub handle_client_disconnected : (Mail → Bool) → String → Event → Outcome
unfolding send_email
handle_client_disconnected dial_and_send target_email e = elim e.payload [
  | disconnected client_id reason ↦
      if str_eq target_email ""
      then no_address
      else send_email dial_and_send (record {
        to = target_email;
        client_id = client_id;
        timestamp = e.timestamp;
        reason = reason;
      })
  | connected _ _ ↦ not_a_client
  | traffic _ _ ↦ not_a_client
]
