-- ===== src/Examples/Certificates.antt =====
-- The theorems on the certificates, on an empty directory and a machine on which everything succeeds.
use gotaxy.Prelude.{◌≡◌, ◌≢◌, refl, sym, ◌∙◌, Bool, true, false, not, ◌&&◌, some, [], ◌∷◌, arith}
use gotaxy.Prelude.Dict.{lookup, insert}
use gotaxy.Strconv.{atoi, parse_int}
use gotaxy.Control.{check_server_cert_exist}
use gotaxy.Certs.{
  Key, Certificate, certificate, rsa_private_key, Machine, Draw, Disk, exists, generate_ca,
  generate_server, generate_client, generate_server_and_client_certs, issue, signed, sign_both,
  read_block, read_certificate, read_key, write_pem, write_pair,
}
use gotaxy.Certs.Issued.{IsX509}
use gotaxy.Certs.Authority.{IsIssued, generate_server_and_client_certs-IsIssued, generate_ca-signer}
use gotaxy.Certs.Handlers.{positive, handle_cert, generate_ca_handler}
use gotaxy.Certs.Handlers.Validity.{handle_cert-days}

abbrev machine : Machine
machine = record {
  mkdir_all = λ path. true;
  create = λ path. true;
  encodes = λ path. true;
  reads = λ path. true;
  create_certificate = λ template parent public signer.
      some (record { template = template; public = public; signer = signer });
}

machine-IsX509 : IsX509 machine
machine-IsX509 = record { creates = λ template parent public signer cert h. ground arith }

abbrev draw : Key → Draw
draw key = record { key = some key; serial = some 1 }

abbrev with_ca : Disk × Bool
with_ca = generate_ca machine (draw 11) 3650 false []

abbrev with_certs : Disk × Bool
with_certs = generate_server_and_client_certs machine (draw 12) (draw 13) "10.0.0.1" 365 with_ca.0

no_ca : (exists [] "certs/ca.key" && exists [] "certs/ca.crt" && not false) ≡ false
unfolding exists lookup
no_ca = refl

ca_made : with_ca.1 ≡ true
unfolding generate_ca issue signed write_pair write_pem exists lookup
ca_made = refl

certs_made : with_certs.1 ≡ true
unfolding generate_ca generate_server_and_client_certs sign_both generate_server generate_client
    read_certificate read_key read_block issue signed write_pair write_pem exists lookup insert
certs_made = refl

certs-IsIssued : IsIssued "10.0.0.1" 3650 365 with_certs.0
certs-IsIssued =
    (generate_server_and_client_certs-IsIssued machine machine-IsX509 (draw 11) (draw 12) (draw 13)
      "10.0.0.1" 3650 365 false [] no_ca ca_made certs_made).0

found_ca : lookup with_certs.0 "certs/ca.key" ≡ some (some (rsa_private_key 11))
unfolding generate_ca generate_server_and_client_certs sign_both generate_server generate_client
    read_certificate read_key read_block issue signed write_pair write_pem exists lookup insert
found_ca = refl

other_key : 21 ≢ certs-IsIssued.ca_key
other_key e =
    let found = certs-IsIssued.ca.key_found in
    let same : some (some (rsa_private_key 11))
        ≡ some (some (rsa_private_key certs-IsIssued.ca_key)) =
      sym found_ca ∙ found in
    ground arith

overwritten : (generate_ca machine (draw 21) 3650 true with_certs.0).1 ≡ true
unfolding generate_ca generate_server_and_client_certs sign_both generate_server generate_client
    read_certificate read_key read_block issue signed write_pair write_pem exists lookup insert
overwritten = refl

generate_ca-signer_example :
    let later = (generate_ca machine (draw 21) 3650 true with_certs.0).0 in
    (check_server_cert_exist (exists later) ≡ true)
    × (lookup later "certs/ca.key" ≡ some (some (rsa_private_key 21)))
    × (cert : Certificate) × (lookup later "certs/server.crt" ≡ some (some (certificate cert)))
    × (cert.signer ≢ 21)
generate_ca-signer_example =
    generate_ca-signer machine machine-IsX509 (draw 21) "10.0.0.1" 3650 365 3650 with_certs.0 21
      certs-IsIssued refl other_key overwritten

ten_years : positive "10" ≡ some 10
unfolding positive atoi parse_int gotaxy.Strconv.signed
ten_years = refl

no_key : exists [] "certs/ca.key" ≡ false
unfolding exists lookup
no_key = refl

ten_days : (generate_ca machine (draw 11) 10 false []).1 ≡ true
unfolding generate_ca issue signed write_pair write_pem exists lookup
ten_days = refl

handle_cert-days_example :
    let typed = handle_cert machine (draw 11) (draw 12) (draw 13) "" "" ("ca" ∷ "10" ∷ []) [] in
    (cert : Certificate) × (lookup typed "certs/ca.crt" ≡ some (some (certificate cert)))
    × (cert.template.valid_days ≡ 10)
    × (typed ≡ (generate_ca_handler machine (draw 11) (some (10, false)) []).0)
handle_cert-days_example =
    handle_cert-days machine machine-IsX509 (draw 11) (draw 12) (draw 13) "" "" "10" 10 [] ten_years
      refl no_key ten_days
