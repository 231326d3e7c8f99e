-- ===== src/Certs/Tls.antt =====
-- LoadServerTLSConfig of internal/tunnel/controller.go and LoadClientTLSConfig of
-- internal/client/client.go: the certificates with which the two sides meet. Of what TLS looks at, only
-- the signature is here.
use gotaxy.Prelude.{
  String, ◌≡◌, ◌∙◌, refl, sym, true, not, Option, none, some, arith, [], ◌∷◌, ◌==◌, ==_iff,
  if◌then◌else◌,
}
use gotaxy.Prelude.Dict.{lookup}
use gotaxy.Int64.{Int64}
use gotaxy.Certs.{
  Key, Certificate, rsa_private_key, certificate, Disk, Machine, read_block, read_certificate,
  read_key,
}
use gotaxy.Certs.Issued.{IsPair}
use gotaxy.Certs.Authority.{IsIssued}

-- `tls.Config`: the own certificate with its key, and the CA whose certificates are accepted.
pub record TlsConfig : Type 0 where
  pub own : Certificate
  pub own_key : Key
  pub roots : Certificate

-- What both functions do: tls.LoadX509KeyPair, which fails on a key that is not the certificate's, then the file of the CA
unfoldable pub load_tls_config : Machine → String → String → String → Disk → Option TlsConfig
unfolding read_certificate read_key
load_tls_config machine cert_file key_file ca_file disk =
    elim (read_certificate machine cert_file disk) [
      | none ↦ none
      | some cert ↦ elim (read_key machine key_file disk) [
        | none ↦ none
        | some key ↦
            if not (cert.public == key)
            then none
            else elim (read_certificate machine ca_file disk) [
              | none ↦ none
              | some ca ↦ some (record { own = cert; own_key = key; roots = ca })
            ]
      ]
    ]

abbrev pub load_server_tls_config : Machine → String → String → String → Disk → Option TlsConfig
load_server_tls_config = load_tls_config

abbrev pub load_client_tls_config : Machine → String → String → String → Disk → Option TlsConfig
load_client_tls_config = load_tls_config

module _ (machine : Machine) (disk : Disk) where
  certificate_read :
      (path : String) (cert : Certificate)
      → machine.reads path ≡ true
      → lookup disk path ≡ some (some (certificate cert))
      → read_certificate machine path disk ≡ some cert
  unfolding read_certificate read_block
  certificate_read path cert reads found =
      let block : read_block machine path disk ≡ some (certificate cert) =
        rw (reads, read_block) (rw found refl) in
      rw (block, read_certificate)

  key_read :
      (path : String) (key : Key)
      → machine.reads path ≡ true
      → lookup disk path ≡ some (some (rsa_private_key key))
      → read_key machine path disk ≡ some key
  unfolding read_key read_block
  key_read path key reads found =
      let block : read_block machine path disk ≡ some (rsa_private_key key) =
        rw (reads, read_block) (rw found refl) in
      rw (block, read_key)

  load_tls_config-IsPair :
      {key_path crt_path ca_key_path ca_path : String} {key by ca_key ca_by : Key}
      {valid ca_valid : Int64} {ips ca_ips : _} (p : IsPair disk key_path crt_path key by valid ips)
      (ca : IsPair disk ca_key_path ca_path ca_key ca_by ca_valid ca_ips)
      → ((path : String) → machine.reads path ≡ true)
      → load_tls_config machine crt_path key_path ca_path disk
        ≡ some (record { own = p.cert; own_key = key; roots = ca.cert })
  unfolding load_tls_config
  load_tls_config-IsPair {key_path} {crt_path} {ca_path = ca_path} {key} p ca reads =
      let fits : (p.cert.public == key) ≡ true =
        ground (arith, p.public, ==_iff p.cert.public key) in
      rw (certificate_read crt_path p.cert (reads crt_path) p.crt_found, load_tls_config)
        (rw (key_read key_path key (reads key_path) p.key_found)
          (rw fits (rw (certificate_read ca_path ca.cert (reads ca_path) ca.crt_found) refl)))

  -- With the files that were issued together, if all files can be read: the server and the client load their
  -- configurations, and the certificate of each is signed by the key of the CA that the other accepts, and that
  -- of the server is for its address and 127.0.0.1.
  pub load_tls_config-IsIssued :
      (ip : String) (ca_days days : Int64)
      → IsIssued ip ca_days days disk
      → ((path : String) → machine.reads path ≡ true)
      → (server : TlsConfig) × (client : TlsConfig) × (load_server_tls_config machine
            "certs/server.crt" "certs/server.key" "certs/ca.crt" disk
          ≡ some server)
        × (load_client_tls_config machine "certs/client.crt" "certs/client.key" "certs/ca.crt" disk
            ≡ some client)
        × (server.own.signer ≡ client.roots.public)
        × (client.own.signer ≡ server.roots.public)
        × (server.own.template.ip_addresses ≡ "127.0.0.1" ∷ ip ∷ [])
  load_tls_config-IsIssued ip ca_days days v reads = (
    record { own = v.server.cert; own_key = v.server_key; roots = v.ca.cert },
    record { own = v.client.cert; own_key = v.client_key; roots = v.ca.cert },
    load_tls_config-IsPair v.server v.ca reads,
    load_tls_config-IsPair v.client v.ca reads,
    v.server.signer ∙ sym v.ca.public,
    v.client.signer ∙ sym v.ca.public,
    v.server.addresses,
  )
