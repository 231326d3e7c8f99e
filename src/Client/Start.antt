-- ===== src/Client/Start.antt =====
-- cmd/client/client.go and the beginning of `Start` of internal/client/client.go: the flags, the address
-- of the server, and the configuration with which the client dials it.
use gotaxy.Prelude.{String, str_append, Option, none, some}
use gotaxy.Certs.{Machine, Disk}
use gotaxy.Certs.Tls.{TlsConfig, load_client_tls_config}

pub record Flags : Type 0 where
  pub host : String
  pub port : String
  pub ca_file : String
  pub cert_file : String
  pub key_file : String

abbrev pub default_flags : Flags
default_flags = record {
  host = "127.0.0.1";
  port = "9000";
  ca_file = "certs/ca.crt";
  cert_file = "certs/client.crt";
  key_file = "certs/client.key";
}

-- fmt.Sprintf("%s:%s", host, port)
unfoldable pub server_addr : Flags → String
server_addr flags = str_append flags.host (str_append ":" flags.port)

-- The address and the configuration that the loop of `Start` dials with; without one `log.Fatalf`
-- ends the program.
unfoldable pub start_client : Machine → Disk → Flags → Option (String × TlsConfig)
unfolding server_addr
start_client machine disk flags =
    elim (load_client_tls_config machine flags.cert_file flags.key_file flags.ca_file disk) [
      | none ↦ none
      | some tls_cfg ↦ some (server_addr flags, tls_cfg)
    ]
