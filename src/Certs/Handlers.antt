-- ===== src/Certs/Handlers.antt =====
-- The command `cert` of internal/shell/shellcmd.go, and the requests for certificates of
-- internal/web/web.go.
pub mod Validity
use gotaxy.Prelude.{
  String, Bool, true, false, not, ◌&&◌, Option, none, some, List, [], ◌∷◌, str_eq, if◌then◌else◌,
}
use gotaxy.Int64.{Int64, is_positive, is_nonpositive}
use gotaxy.Strconv.{atoi}
use gotaxy.Certs.{Machine, Draw, Disk, generate_ca, generate_server_and_client_certs}

-- A positive number that the word spells.
unfoldable pub positive : String → Option Int64
positive word = elim (atoi word) [ none ↦ none | some n ↦ if is_positive n then some n else none ]

-- The year and the flag that the words behind `cert ca` set.
unfoldable pub ca_args : List String → Int64 × Bool
unfolding positive
ca_args [] = (10, false)
ca_args (word ∷ []) = elim (positive word) [
  | some year ↦ (year, false)
  | none ↦ (10, str_eq word "-overwrite")
]
ca_args (word ∷ flag ∷ _) = elim (positive word) [
  | some year ↦ (year, str_eq flag "-overwrite")
  | none ↦ (10, if str_eq word "-overwrite" then true else str_eq flag "-overwrite")
]

unfoldable pub gen_args : List String → Int64
unfolding positive
gen_args [] = 365
gen_args (word ∷ _) = elim (positive word) [ some days ↦ days | none ↦ 365 ]

-- What the first word behind `cert` asks for.
pub data CertCommand : Type 0 where
  issue_ca issue_pair : CertCommand

unfoldable pub cert_command : String → Option CertCommand
cert_command word =
    if str_eq word "ca" then some issue_ca else if str_eq word "gen" then some issue_pair else none

module _ (machine : Machine) where
  -- `reply` is what the operator types if there is a question, `ip` the address of the settings. An
  -- error is printed.
  unfoldable pub handle_cert :
      (ca server client : Draw) (reply ip : String) → List String → Disk → Disk
  unfolding cert_command ca_args gen_args generate_ca generate_server_and_client_certs
  handle_cert ca server client reply ip [] disk = disk
  handle_cert ca server client reply ip (command ∷ args) disk = elim (cert_command command) [
    | none ↦ disk
    | some issue_ca ↦
        if (ca_args args).1 && not (str_eq reply "y")
        then disk
        else (generate_ca machine ca (ca_args args).0 (ca_args args).1 disk).0
    | some issue_pair ↦
        if str_eq ip ""
        then disk
        else (generate_server_and_client_certs machine server client ip (gen_args args) disk).0
  ]

  -- POST /api/certs/ca: a body with a year and a flag, or none; whether the answer is 200
  unfoldable pub generate_ca_handler : Draw → Option (Int64 × Bool) → Disk → Disk × Bool
  unfolding generate_ca
  generate_ca_handler draw none disk = (disk, false)
  generate_ca_handler draw (some (year, overwrite)) disk =
      generate_ca machine draw (if is_nonpositive year then 10 else year) overwrite disk

  -- POST /api/certs/server-client
  unfoldable pub generate_certs_handler :
      (server client : Draw) → String → Option Int64 → Disk → Disk × Bool
  unfolding generate_server_and_client_certs
  generate_certs_handler server client ip none disk = (disk, false)
  generate_certs_handler server client ip (some days) disk =
      if str_eq ip ""
      then (disk, false)
      else generate_server_and_client_certs machine server client ip
          (if is_nonpositive days then 365 else days) disk
