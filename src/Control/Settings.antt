-- ===== src/Control/Settings.antt =====
-- The settings that the operator may have: an IP address, a port, and a mail address or none.
use gotaxy.Prelude.{◌≡◌, true, ◌||◌, str_eq}
use gotaxy.Utils.{is_validate_ip, is_validate_email}
use gotaxy.Config.{Config}
use gotaxy.Control.{is_port}

pub record IsConfigured (c : Config) : Type 0 where
  pub server_ip : is_validate_ip c.server_ip ≡ true
  pub listen_port : is_port c.listen_port ≡ true
  pub email : (str_eq c.email "" || is_validate_email c.email) ≡ true
