-- ===== src/Tunnel/Opening.antt =====
-- What `waitControlConn` of internal/tunnel/controller.go does before its loop.
use gotaxy.Prelude.{String, Bool, none, some, if◌then◌else◌}
use gotaxy.Certs.{Machine, Disk}
use gotaxy.Certs.Tls.{TlsConfig, load_server_tls_config}
use gotaxy.Server.{GotaxyServer}

-- The two panics, or a listener with its configuration on a port.
pub data Opening : Type 0 where
  no_tls_config : Opening
  not_listening : Opening
  listening : TlsConfig → String → Opening

-- `listen` tells whether `tls.Listen` gets the port.
unfoldable pub open_control :
    {Db : Type 0} → Machine → (String → Bool) → Disk → GotaxyServer Db → Opening
open_control machine listen disk s =
    elim (load_server_tls_config machine "certs/server.crt" "certs/server.key" "certs/ca.crt"
      disk) [
        | none ↦ no_tls_config
        | some tls_cfg ↦
            if listen s.config.listen_port
            then listening tls_cfg s.config.listen_port
            else not_listening
      ]
