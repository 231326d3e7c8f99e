-- ===== src/Certs/Issued.antt =====
-- What the directory holds when certificates have been generated.
use mathlib.Core.Option.{some-injective}
use gotaxy.Prelude.{
  ℕ, String, ◌≡◌, ◌∙◌, refl, sym, ap, true, false, Option, none, some, List, arith, str_eq,
  Option-cases, Bool-cases, inl, inr, eq_iff,
}
use gotaxy.Prelude.Dict.{lookup, insert, lookup-insert}
use gotaxy.Int64.{Int64}
use gotaxy.Certs.{
  Key, Template, Certificate, Block, rsa_private_key, certificate, Disk, Machine, Draw, write_pem,
  write_pair, signed, issue, read_block, read_key,
}

-- `x509.CreateCertificate` puts the template and the public key into the certificate, and signs it with the
-- key that it is given.
pub record IsX509 (machine : Machine) : Type 0 where
  pub creates :
      (template : Template) (parent : Option Certificate) (public signer : Key) (cert : Certificate)
      → machine.create_certificate template parent public signer ≡ some cert
      → cert ≡ record { template = template; public = public; signer = signer }

-- A file with a key and one with the certificate of that key, which is signed by another one.
pub record IsPair (disk : Disk) (key_path crt_path : String) (key by : Key) (valid : Int64)
    (ips : List String) : Type 0 where
  pub cert : Certificate
  pub key_found : lookup disk key_path ≡ some (some (rsa_private_key key))
  pub crt_found : lookup disk crt_path ≡ some (some (certificate cert))
  pub public : cert.public ≡ key
  pub signer : cert.signer ≡ by
  pub days : cert.template.valid_days ≡ valid
  pub addresses : cert.template.ip_addresses ≡ ips

module _ (machine : Machine) where
  write_pem-written :
      (path : String) (block : Block) (disk : Disk)
      → (write_pem machine path block disk).1 ≡ true
      → (write_pem machine path block disk).0 ≡ insert disk path (some block)
  unfolding write_pem
  write_pem-written path block disk h = ground arith

  write_pair-written :
      (key_path crt_path : String) (key : Key) (cert : Certificate) (disk : Disk)
      → (write_pair machine key_path crt_path key cert disk).1 ≡ true
      → (write_pair machine key_path crt_path key cert disk).0
        ≡ insert
            (insert disk key_path (some (rsa_private_key key)))
            crt_path
            (some (certificate cert))
  unfolding write_pair
  write_pair-written key_path crt_path key cert disk h =
      elim (Bool-cases (write_pem machine key_path (rsa_private_key key) disk).1) [
        | inr failed ↦ ground arith
        | inl written ↦
            let first = write_pem-written key_path (rsa_private_key key) disk written in
            let last : (write_pem machine crt_path (certificate cert)
                  (write_pem machine key_path (rsa_private_key key) disk).0).1
                ≡ true =
              ground arith in
            let second =
              write_pem-written crt_path (certificate cert)
                (write_pem machine key_path (rsa_private_key key) disk).0 last in
            rw written (second ∙ ap (λ d. insert d crt_path (some (certificate cert))) first)
      ]

  -- What a success of `issue` has written.
  issue-written :
      (draw : Draw) (template : ℕ → Template) (signer : Option (Certificate × Key))
      (key_path crt_path : String) (disk : Disk)
      → (issue machine draw template signer key_path crt_path disk).1 ≡ true
      → (key : Key) × (serial : ℕ) × (cert : Certificate) × (draw.key ≡ some key)
        × (signed machine template signer serial key ≡ some cert)
        × ((issue machine draw template signer key_path crt_path disk).0
            ≡ insert
                (insert disk key_path (some (rsa_private_key key)))
                crt_path
                (some (certificate cert)))
  unfolding issue
  issue-written draw template signer key_path crt_path disk h = elim (Option-cases draw.key) [
    | inl e ↦ ground arith
    | inr (key, e) ↦ elim (Option-cases draw.serial) [
      | inl f ↦ ground arith
      | inr (serial, f) ↦ elim (Option-cases (signed machine template signer serial key)) [
        | inl g ↦ ground arith
        | inr (cert, g) ↦
            let same : issue machine draw template signer key_path crt_path disk
                ≡ write_pair machine key_path crt_path key cert disk =
              rw (e, f, g) refl in
            (
              key,
              serial,
              cert,
              e,
              g,
              ap (λ p. p.0) same
                  ∙ write_pair-written key_path crt_path key cert disk
                      (sym (ap (λ p. p.1) same) ∙ h),
            )
      ]
    ]
  ]

  -- The key that signs.
  abbrev signing : Option (Certificate × Key) → Key → Key
  signing none key = key
  signing (some (ca_cert, ca_key)) key = ca_key

  signed-eq :
      (laws : IsX509 machine) (template : ℕ → Template) (signer : Option (Certificate × Key))
      (serial : ℕ) (key : Key) (cert : Certificate)
      → signed machine template signer serial key ≡ some cert
      → cert ≡ record { template = template serial; public = key; signer = signing signer key }
  unfolding signed
  signed-eq laws template none serial key cert h =
      laws.creates (template serial) none key key cert h
  signed-eq laws template (some (ca_cert, ca_key)) serial key cert h =
      laws.creates (template serial) (some ca_cert) key ca_key cert h

  -- A success of `issue` leaves a key and its certificate.
  pub issue-IsPair :
      (laws : IsX509 machine) (draw : Draw) (template : ℕ → Template)
      (signer : Option (Certificate × Key)) (key_path crt_path : String) (valid : Int64)
      (ips : List String) (disk : Disk)
      → ((serial : ℕ) → (template serial).valid_days ≡ valid)
      → ((serial : ℕ) → (template serial).ip_addresses ≡ ips)
      → str_eq crt_path key_path ≡ false
      → (issue machine draw template signer key_path crt_path disk).1 ≡ true
      → (key : Key) × (draw.key ≡ some key)
        × IsPair
            (issue machine draw template signer key_path crt_path disk).0
            key_path
            crt_path
            key
            (signing signer key)
            valid
            ips
  issue-IsPair laws draw template signer key_path crt_path valid ips disk days addresses differ h =
      let (key, serial, cert, drawn, made, written) =
        issue-written draw template signer key_path crt_path disk h in
      let cert_eq = signed-eq laws template signer serial key cert made in
      let with_key = insert disk key_path (some (rsa_private_key key)) in
      (
        key,
        drawn,
        record {
          cert = cert;
          key_found =
              ap (λ d. lookup d key_path) written
              ∙ (ground (
                arith,
                differ,
                lookup-insert with_key crt_path key_path (some (certificate cert)),
                lookup-insert disk key_path key_path (some (rsa_private_key key)),
                eq_iff key_path key_path,
              ));
          crt_found =
              ap (λ d. lookup d crt_path) written
              ∙ (ground (
                arith,
                lookup-insert with_key crt_path crt_path (some (certificate cert)),
                eq_iff crt_path crt_path,
              ));
          public = ap (λ (c : Certificate). c.public) cert_eq;
          signer = ap (λ (c : Certificate). c.signer) cert_eq;
          days = ap (λ (c : Certificate). c.template.valid_days) cert_eq ∙ days serial;
          addresses = ap (λ (c : Certificate). c.template.ip_addresses) cert_eq ∙ addresses serial;
        },
      )

  pub issue-other :
      (draw : Draw) (template : ℕ → Template) (signer : Option (Certificate × Key))
      (key_path crt_path path : String) (disk : Disk)
      → str_eq key_path path ≡ false
      → str_eq crt_path path ≡ false
      → (issue machine draw template signer key_path crt_path disk).1 ≡ true
      → lookup (issue machine draw template signer key_path crt_path disk).0 path ≡ lookup disk path
  issue-other draw template signer key_path crt_path path disk k c h =
      let (key, serial, cert, drawn, made, written) =
        issue-written draw template signer key_path crt_path disk h in
      ap (λ d. lookup d path) written
      ∙ (ground (
        arith,
        k,
        c,
        lookup-insert (insert disk key_path (some (rsa_private_key key))) crt_path path
            (some (certificate cert)),
        lookup-insert disk key_path path (some (rsa_private_key key)),
      ))

  read_block-found :
      (path : String) (disk : Disk) (block other : Block)
      → lookup disk path ≡ some (some block)
      → read_block machine path disk ≡ some other
      → other ≡ block
  unfolding read_block
  read_block-found path disk block other found h = elim (Bool-cases (machine.reads path)) [
    | inr e ↦ ground arith
    | inl e ↦
        let same : read_block machine path disk ≡ some block = rw (e, read_block) (rw found refl) in
        some-injective _ _ (sym h ∙ same)
  ]

  pub read_key-found :
      (path : String) (disk : Disk) (key read : Key)
      → lookup disk path ≡ some (some (rsa_private_key key))
      → read_key machine path disk ≡ some read
      → read ≡ key
  unfolding read_key
  read_key-found path disk key read found h = elim (Option-cases (read_block machine path disk)) [
    | inl e ↦ ground arith
    | inr (certificate cert, e) ↦
        let same = read_block-found path disk (rsa_private_key key) (certificate cert) found e in
        ground arith
    | inr (rsa_private_key other, e) ↦
        let same =
          read_block-found path disk (rsa_private_key key) (rsa_private_key other) found e in
        ground arith
  ]

pub IsPair-lookup :
    {disk later : Disk} {key_path crt_path : String} {key by : Key} {valid : Int64}
    {ips : List String}
    → lookup later key_path ≡ lookup disk key_path
    → lookup later crt_path ≡ lookup disk crt_path
    → IsPair disk key_path crt_path key by valid ips
    → IsPair later key_path crt_path key by valid ips
IsPair-lookup k c p = record {
  cert = p.cert;
  key_found = k ∙ p.key_found;
  crt_found = c ∙ p.crt_found;
  public = p.public;
  signer = p.signer;
  days = p.days;
  addresses = p.addresses;
}
