-- ===== src/Certs/Handlers/Validity.antt =====
-- For how long a CA is valid that the terminal or the web panel generates.
use gotaxy.Prelude.{String, ◌≡◌, ◌∙◌, refl, sym, ap, true, false, not, ◌&&◌, some, [], ◌∷◌}
use gotaxy.Prelude.Dict.{lookup}
use gotaxy.Int64.{Int64, is_nonpositive}
use gotaxy.Certs.{Certificate, certificate, Machine, Draw, Disk, exists, generate_ca}
use gotaxy.Certs.Issued.{IsX509}
use gotaxy.Certs.Authority.{generate_ca-IsPair}
use gotaxy.Certs.Handlers.{positive, ca_args, cert_command, handle_cert, generate_ca_handler}

word_args :
    (word : String) (years : Int64)
    → positive word ≡ some years
    → ca_args (word ∷ []) ≡ (years, false)
unfolding ca_args
word_args word years spelled = rw (spelled, ca_args)

module _ (machine : Machine) (laws : IsX509 machine) where
  typed_eq :
      (ca server client : Draw) (reply ip word : String) (years : Int64) (disk : Disk)
      → positive word ≡ some years
      → handle_cert machine ca server client reply ip ("ca" ∷ word ∷ []) disk
        ≡ (generate_ca machine ca years false disk).0
  unfolding handle_cert cert_command
  typed_eq ca server client reply ip word years disk spelled =
      rw (word_args word years spelled, handle_cert)

  -- If the word behind `cert ca` spells a positive number, there was no key of a CA, and the CA is
  -- generated: its certificate is valid for that number of days, though the usage says years. The request
  -- of the web panel with that year and no flag does the same.
  pub handle_cert-days :
      (ca server client : Draw) (reply ip word : String) (years : Int64) (disk : Disk)
      → positive word ≡ some years
      → is_nonpositive years ≡ false
      → exists disk "certs/ca.key" ≡ false
      → (generate_ca machine ca years false disk).1 ≡ true
      → let typed = handle_cert machine ca server client reply ip ("ca" ∷ word ∷ []) disk in
        (cert : Certificate) × (lookup typed "certs/ca.crt" ≡ some (some (certificate cert)))
        × (cert.template.valid_days ≡ years)
        × (typed ≡ (generate_ca_handler machine ca (some (years, false)) disk).0)
  unfolding generate_ca_handler
  handle_cert-days ca server client reply ip word years disk spelled above new made =
      let absent : (exists disk "certs/ca.key" && exists disk "certs/ca.crt" && not false) ≡ false =
        rw new refl in
      let (key, _, pair) = generate_ca-IsPair machine laws ca years false disk absent made in
      let typed = typed_eq ca server client reply ip word years disk spelled in
      let panel : (generate_ca_handler machine ca (some (years, false)) disk).0
          ≡ (generate_ca machine ca years false disk).0 =
        rw (above, generate_ca_handler) refl in
      (
        pair.cert,
        ap (λ d. lookup d "certs/ca.crt") typed ∙ pair.crt_found,
        pair.days,
        typed ∙ sym panel,
      )
