-- ===== src/Certs.antt =====
-- pkg/tlsgen/gen.go: which key and which certificate is
-- written to which file of the directory `certs`. Cryptography and the file system are a parameter, a
-- `Machine`; a key is a name for itself.
pub mod Issued
pub mod Authority
pub mod Handlers
pub mod Tls
use gotaxy.Prelude.{
  ℕ, String, Bool, true, false, not, ◌&&◌, Option, none, some, List, [], ◌∷◌, str_eq, if◌then◌else◌,
}
use gotaxy.Prelude.Dict.{Dict, lookup, insert}
use gotaxy.Int64.{Int64}

abbrev pub Key : Type 0
Key = ℕ

-- What the fields of an `x509.Certificate` are set to that differ; `NotAfter` is so many days from now.
pub record Template : Type 0 where
  pub common_name : String
  pub serial : ℕ
  pub valid_days : Int64
  pub is_ca : Bool
  pub ip_addresses : List String

pub record Certificate : Type 0 where
  pub template : Template
  pub public : Key
  pub signer : Key

-- What a file holds that was written as PEM.
pub data Block : Type 0 where
  rsa_private_key : Key → Block
  certificate : Certificate → Block

-- The files, with `none` for contents that are no PEM.
abbrev pub Disk : Type 0
Disk = Dict (Option Block)

-- Whether `os.MkdirAll`, `os.Create`, `pem.Encode` and `os.ReadFile` succeed, and `x509.CreateCertificate`
-- for a template, the parent if it is not the template itself, a public key and the key that signs.
pub record Machine : Type 0 where
  pub mkdir_all : String → Bool
  pub create : String → Bool
  pub encodes : String → Bool
  pub reads : String → Bool
  pub create_certificate : Template → Option Certificate → Key → Key → Option Certificate

-- What `rsa.GenerateKey` and `rand.Int` give for one certificate.
pub record Draw : Type 0 where
  pub key : Option Key
  pub serial : Option ℕ

abbrev pub ca_template : Int64 → ℕ → Template
ca_template valid_days serial = record {
  common_name = "GoRootCA";
  serial = serial;
  valid_days = valid_days;
  is_ca = true;
  ip_addresses = [];
}

abbrev pub server_template : String → Int64 → ℕ → Template
server_template ip valid_days serial = record {
  common_name = "localhost";
  serial = serial;
  valid_days = valid_days;
  is_ca = false;
  ip_addresses = "127.0.0.1" ∷ ip ∷ [];
}

abbrev pub client_template : Int64 → ℕ → Template
client_template valid_days serial = record {
  common_name = "client";
  serial = serial;
  valid_days = valid_days;
  is_ca = false;
  ip_addresses = [];
}

-- os.Stat finds the file
unfoldable pub exists : Disk → String → Bool
exists disk path = elim (lookup disk path) [ none ↦ false | some _ ↦ true ]

module _ (machine : Machine) where
  unfoldable pub write_pem : String → Block → Disk → Disk × Bool
  write_pem filename block disk =
      if not (machine.create filename)
      then (disk, false)
      else if not (machine.encodes filename)
      then (insert disk filename none, false)
      else (insert disk filename (some block), true)

  -- The key, then the certificate.
  unfoldable pub write_pair : String → String → Key → Certificate → Disk → Disk × Bool
  unfolding write_pem
  write_pair key_path crt_path key cert disk =
      let (with_key, written) = write_pem key_path (rsa_private_key key) disk in
      if not written then (with_key, false) else write_pem crt_path (certificate cert) with_key

  -- x509.CreateCertificate, signed by the new key itself or by the key of a CA
  unfoldable pub signed : (ℕ → Template) → Option (Certificate × Key) → ℕ → Key → Option Certificate
  signed template none serial key = machine.create_certificate (template serial) none key key
  signed template (some (ca_cert, ca_key)) serial key =
      machine.create_certificate (template serial) (some ca_cert) key ca_key

  -- What the three functions have in common: a key, a serial number, a certificate, and the two files.
  unfoldable pub issue :
      Draw → (ℕ → Template) → Option (Certificate × Key) → String → String → Disk → Disk × Bool
  unfolding write_pair signed
  issue draw template signer key_path crt_path disk = elim draw.key [
    | none ↦ (disk, false)
    | some key ↦ elim draw.serial [
      | none ↦ (disk, false)
      | some serial ↦ elim (signed template signer serial key) [
        | none ↦ (disk, false)
        | some cert ↦ write_pair key_path crt_path key cert disk
      ]
    ]
  ]

  unfoldable pub generate_ca : Draw → Int64 → Bool → Disk → Disk × Bool
  unfolding issue exists
  generate_ca draw valid_days overwrite disk =
      if exists disk "certs/ca.key" && exists disk "certs/ca.crt" && not overwrite
      then (disk, true)
      else if not (machine.mkdir_all "certs")
      then (disk, false)
      else issue draw (ca_template valid_days) none "certs/ca.key" "certs/ca.crt" disk

  unfoldable pub generate_server : Draw → String → Int64 → Certificate → Key → Disk → Disk × Bool
  unfolding issue
  generate_server draw ip valid_days ca_cert ca_key disk =
      issue draw (server_template ip valid_days) (some (ca_cert, ca_key)) "certs/server.key"
        "certs/server.crt" disk

  unfoldable pub generate_client : Draw → Int64 → Certificate → Key → Disk → Disk × Bool
  unfolding issue
  generate_client draw valid_days ca_cert ca_key disk =
      issue draw (client_template valid_days) (some (ca_cert, ca_key)) "certs/client.key"
        "certs/client.crt" disk

  -- os.ReadFile and pem.Decode
  unfoldable pub read_block : String → Disk → Option Block
  read_block path disk =
      if not (machine.reads path)
      then none
      else elim (lookup disk path) [ none ↦ none | some contents ↦ contents ]

  -- x509.ParseCertificate, x509.ParsePKCS1PrivateKey
  unfoldable pub read_certificate : String → Disk → Option Certificate
  unfolding read_block
  read_certificate path disk = elim (read_block path disk) [
    | some (certificate cert) ↦ some cert
    | some (rsa_private_key _) ↦ none
    | none ↦ none
  ]

  unfoldable pub read_key : String → Disk → Option Key
  unfolding read_block
  read_key path disk = elim (read_block path disk) [
    | some (rsa_private_key key) ↦ some key
    | some (certificate _) ↦ none
    | none ↦ none
  ]

  -- The two certificates under a CA that has been read.
  unfoldable pub sign_both : Draw → Draw → String → Int64 → Certificate → Key → Disk → Disk × Bool
  unfolding generate_server generate_client
  sign_both server client ip valid_days ca_cert ca_key disk =
      let (with_server, made) = generate_server server ip valid_days ca_cert ca_key disk in
      if not made
      then (with_server, false)
      else generate_client client valid_days ca_cert ca_key with_server

  unfoldable pub generate_server_and_client_certs :
      Draw → Draw → String → Int64 → Disk → Disk × Bool
  unfolding sign_both read_certificate read_key
  generate_server_and_client_certs server client ip valid_days disk =
      if not (machine.mkdir_all "certs")
      then (disk, false)
      else elim (read_certificate "certs/ca.crt" disk) [
        | none ↦ (disk, false)
        | some ca_cert ↦ elim (read_key "certs/ca.key" disk) [
          | none ↦ (disk, false)
          | some ca_key ↦ sign_both server client ip valid_days ca_cert ca_key disk
        ]
      ]
