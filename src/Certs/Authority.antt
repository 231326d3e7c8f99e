-- ===== src/Certs/Authority.antt =====
-- The CA and what it has signed.
use mathlib.Core.Option.{some-injective}
use gotaxy.Prelude.{
  String, ◌≡◌, ◌≢◌, ◌∙◌, refl, sym, ap, subst, Bool, true, false, not, ◌&&◌, Option, none, some, [],
  ◌∷◌, arith, str_eq, Option-cases, Bool-cases, inl, inr,
}
use gotaxy.Prelude.Dict.{lookup}
use gotaxy.Int64.{Int64}
use gotaxy.Control.{check_server_cert_exist}
use gotaxy.Control.Sync.{both}
use gotaxy.Certs.{
  Key, Certificate, Block, rsa_private_key, certificate, Disk, Machine, Draw, exists, generate_ca,
  generate_server, generate_client, read_certificate, read_key, sign_both,
  generate_server_and_client_certs, issue, ca_template, server_template, client_template,
}
use gotaxy.Certs.Issued.{IsX509, IsPair, IsPair-lookup, issue-IsPair, issue-other, read_key-found}

-- A CA that has signed itself and the certificates of the server and the client; the server's is for
-- 127.0.0.1 and the address `ip`.
pub record IsIssued (ip : String) (ca_days days : Int64) (disk : Disk) : Type 0 where
  pub ca_key : Key
  pub server_key : Key
  pub client_key : Key
  pub ca : IsPair disk "certs/ca.key" "certs/ca.crt" ca_key ca_key ca_days []
  pub server :
      IsPair disk "certs/server.key" "certs/server.crt" server_key ca_key days
        ("127.0.0.1" ∷ ip ∷ [])
  pub client : IsPair disk "certs/client.key" "certs/client.crt" client_key ca_key days []

exists-found :
    (disk : Disk) (path : String) (contents : Option Block)
    → lookup disk path ≡ some contents
    → exists disk path ≡ true
unfolding exists
exists-found disk path contents h = rw (h, exists)

-- The files for which the start of the service looks are there.
pub IsIssued-exists :
    {ip : String} {ca_days days : Int64} {disk : Disk}
    → IsIssued ip ca_days days disk
    → check_server_cert_exist (exists disk) ≡ true
unfolding check_server_cert_exist
IsIssued-exists {disk = disk} v = rw (
  exists-found disk "certs/ca.crt" _ v.ca.crt_found,
  exists-found disk "certs/ca.key" _ v.ca.key_found,
  exists-found disk "certs/server.crt" _ v.server.crt_found,
  exists-found disk "certs/server.key" _ v.server.key_found,
)

module _ (machine : Machine) (laws : IsX509 machine) where
  generate_ca-issue :
      (draw : Draw) (days : Int64) (overwrite : Bool) (disk : Disk)
      → (exists disk "certs/ca.key" && exists disk "certs/ca.crt" && not overwrite) ≡ false
      → (generate_ca machine draw days overwrite disk).1 ≡ true
      → generate_ca machine draw days overwrite disk
        ≡ issue machine draw (ca_template days) none "certs/ca.key" "certs/ca.crt" disk
  unfolding generate_ca
  generate_ca-issue draw days overwrite disk new h = elim (Bool-cases (machine.mkdir_all "certs")) [
    | inl e ↦ rw (new, generate_ca) (rw e refl)
    | inr e ↦
        let same : generate_ca machine draw days overwrite disk ≡ (disk, false) =
          rw (new, generate_ca) (rw e refl) in
        let bad = sym (ap (λ p. p.1) same) ∙ h in ground arith
  ]

  -- A new CA.
  pub generate_ca-IsPair :
      (draw : Draw) (days : Int64) (overwrite : Bool) (disk : Disk)
      → (exists disk "certs/ca.key" && exists disk "certs/ca.crt" && not overwrite) ≡ false
      → (generate_ca machine draw days overwrite disk).1 ≡ true
      → (key : Key) × (draw.key ≡ some key)
        × IsPair
            (generate_ca machine draw days overwrite disk).0
            "certs/ca.key"
            "certs/ca.crt"
            key
            key
            days
            []
  generate_ca-IsPair draw days overwrite disk new h =
      let same = generate_ca-issue draw days overwrite disk new h in
      let (key, drawn, pair) =
        issue-IsPair machine laws draw (ca_template days) none "certs/ca.key" "certs/ca.crt" days []
          disk (λ serial. refl) (λ serial. refl) refl (sym (ap (λ p. p.1) same) ∙ h) in
      (
        key,
        drawn,
        subst (λ p. IsPair p.0 "certs/ca.key" "certs/ca.crt" key key days []) (sym same) pair,
      )

  -- Both certificates under a CA.
  sign_both-IsIssued :
      (server client : Draw) (ip : String) (ca_days days : Int64) (ca_cert : Certificate)
      (ca_key : Key) (disk : Disk)
      → IsPair disk "certs/ca.key" "certs/ca.crt" ca_key ca_key ca_days []
      → (sign_both machine server client ip days ca_cert ca_key disk).1 ≡ true
      → IsIssued ip ca_days days (sign_both machine server client ip days ca_cert ca_key disk).0
  unfolding sign_both generate_server generate_client
  sign_both-IsIssued server client ip ca_days days ca_cert ca_key disk ca h =
      elim (Bool-cases (generate_server machine server ip days ca_cert ca_key disk).1) [
        | inr failed ↦ ground arith
        | inl made ↦
            let signer : Option (Certificate × Key) = some (ca_cert, ca_key) in
            let between = (generate_server machine server ip days ca_cert ca_key disk).0 in
            let last : (generate_client machine client days ca_cert ca_key between).1 ≡ true =
              ground arith in
            let (server_key, _, server_pair) =
              issue-IsPair machine laws server (server_template ip days) signer "certs/server.key"
                "certs/server.crt" days ("127.0.0.1" ∷ ip ∷ []) disk (λ serial. refl)
                (λ serial. refl) refl made in
            let (client_key, _, client_pair) =
              issue-IsPair machine laws client (client_template days) signer "certs/client.key"
                "certs/client.crt" days [] between (λ serial. refl) (λ serial. refl) refl last in
            let kept =
              λ (path : String) (k : str_eq "certs/client.key" path ≡ false)
                  (c : str_eq "certs/client.crt" path ≡ false).
                issue-other machine client (client_template days) signer "certs/client.key"
                  "certs/client.crt" path between k c last in
            let kept_before =
              λ (path : String) (k : str_eq "certs/server.key" path ≡ false)
                  (c : str_eq "certs/server.crt" path ≡ false).
                issue-other machine server (server_template ip days) signer "certs/server.key"
                  "certs/server.crt" path disk k c made in
            rw made (record {
              ca_key = ca_key;
              server_key = server_key;
              client_key = client_key;
              ca =
                  IsPair-lookup
                    (kept "certs/ca.key" refl refl ∙ kept_before "certs/ca.key" refl refl)
                    (kept "certs/ca.crt" refl refl ∙ kept_before "certs/ca.crt" refl refl) ca;
              server =
                  IsPair-lookup (kept "certs/server.key" refl refl)
                    (kept "certs/server.crt" refl refl) server_pair;
              client = client_pair;
            })
      ]

  certs_after :
      (server client : Draw) (ip : String) (ca_days days : Int64) (ca_key : Key) (disk : Disk)
      → IsPair disk "certs/ca.key" "certs/ca.crt" ca_key ca_key ca_days []
      → (generate_server_and_client_certs machine server client ip days disk).1 ≡ true
      → IsIssued ip ca_days days
          (generate_server_and_client_certs machine server client ip days disk).0
  unfolding generate_server_and_client_certs
  certs_after server client ip ca_days days ca_key disk ca h =
      both (λ (o : Disk × Bool). o.1 ≡ true → IsIssued ip ca_days days o.0)
        (not (machine.mkdir_all "certs")) (λ e h. ground arith)
        (λ e. elim (Option-cases (read_certificate machine "certs/ca.crt" disk)) [
          | inl f ↦ rw f (λ h. ground arith)
          | inr (cert, f) ↦ elim (Option-cases (read_key machine "certs/ca.key" disk)) [
            | inl g ↦ rw (f, g) (λ h. ground arith)
            | inr (key, g) ↦
                let same = read_key-found machine "certs/ca.key" disk ca_key key ca.key_found g in
                rw (f, g)
                  (λ h.
                    sign_both-IsIssued server client ip ca_days days cert key disk
                      (subst (λ k. IsPair disk "certs/ca.key" "certs/ca.crt" k k ca_days [])
                        (sym same) ca)
                      h)
          ]
        ])
        h

  pub generate_server_and_client_certs-IsIssued :
      (ca server client : Draw) (ip : String) (ca_days days : Int64) (overwrite : Bool)
      (disk : Disk)
      → (exists disk "certs/ca.key" && exists disk "certs/ca.crt" && not overwrite) ≡ false
      → (generate_ca machine ca ca_days overwrite disk).1 ≡ true
      → (generate_server_and_client_certs machine server client ip days
          (generate_ca machine ca ca_days overwrite disk).0).1
        ≡ true
      → let later =
          (generate_server_and_client_certs machine server client ip days
            (generate_ca machine ca ca_days overwrite disk).0).0 in
        IsIssued ip ca_days days later × (check_server_cert_exist (exists later) ≡ true)
  generate_server_and_client_certs-IsIssued ca server client ip ca_days days overwrite disk new made
        signed =
      let (key, _, pair) = generate_ca-IsPair ca ca_days overwrite disk new made in
      let issued =
        certs_after server client ip ca_days days key
          (generate_ca machine ca ca_days overwrite disk).0 pair signed in
      (issued, IsIssued-exists issued)

  -- If the CA is overwritten by one with another key: the start of the service still finds what it looks
  -- for, but the certificate of the server is signed by a key that is not the CA's any more.
  pub generate_ca-signer :
      (draw : Draw) (ip : String) (ca_days days new_days : Int64) (disk : Disk) (key : Key)
      (v : IsIssued ip ca_days days disk)
      → draw.key ≡ some key
      → key ≢ v.ca_key
      → (generate_ca machine draw new_days true disk).1 ≡ true
      → let later = (generate_ca machine draw new_days true disk).0 in
        (check_server_cert_exist (exists later) ≡ true)
        × (lookup later "certs/ca.key" ≡ some (some (rsa_private_key key)))
        × (cert : Certificate) × (lookup later "certs/server.crt" ≡ some (some (certificate cert)))
        × (cert.signer ≢ key)
  unfolding check_server_cert_exist
  generate_ca-signer draw ip ca_days days new_days disk key v drawn other made =
      let new : (exists disk "certs/ca.key" && exists disk "certs/ca.crt" && not true) ≡ false =
        ground arith in
      let same = generate_ca-issue draw new_days true disk new made in
      let (own, drawn_own, pair) = generate_ca-IsPair draw new_days true disk new made in
      let is_own : own ≡ key = some-injective _ _ (sym drawn_own ∙ drawn) in
      let later = (generate_ca machine draw new_days true disk).0 in
      let kept =
        λ (path : String) (k : str_eq "certs/ca.key" path ≡ false)
            (c : str_eq "certs/ca.crt" path ≡ false).
          ap (λ p. lookup p.0 path) same
          ∙ issue-other machine draw (ca_template new_days) none "certs/ca.key" "certs/ca.crt" path
              disk k c (sym (ap (λ p. p.1) same) ∙ made) in
      let crt = kept "certs/server.crt" refl refl ∙ v.server.crt_found in
      (
        rw (
          exists-found later "certs/ca.crt" _ pair.crt_found,
          exists-found later "certs/ca.key" _ pair.key_found,
          exists-found later "certs/server.crt" _ crt,
          exists-found later "certs/server.key" _
              (kept "certs/server.key" refl refl ∙ v.server.key_found),
        ),
        pair.key_found ∙ ap (λ k. some (some (rsa_private_key k))) is_own,
        v.server.cert,
        crt,
        λ e. other (sym e ∙ v.server.signer),
      )
