-- ===== src/System/Meeting.antt =====
-- From the issue of the certificates to a client that the server lets in.
use gotaxy.Prelude.{String, List, ◌||◌, str_eq, ◌≡◌, Bool, false, [], ◌∷◌}
use gotaxy.Prelude.Dict.{lookup}
use gotaxy.Int64.{Int64}
use gotaxy.Certs.{Disk}

-- The three files that a client is given.
pub record IsCopied (server client : Disk) : Type 0 where
  pub ca : lookup client "certs/ca.crt" ≡ lookup server "certs/ca.crt"
  pub crt : lookup client "certs/client.crt" ≡ lookup server "certs/client.crt"
  pub key : lookup client "certs/client.key" ≡ lookup server "certs/client.key"

abbrev pub is_among : String → List String → Bool
is_among host [] = false
is_among host (address ∷ addresses) = str_eq host address || is_among host addresses
