-- ===== src/Shell/Settings.antt =====
-- The `service` and `config` commands and the settings.
use gotaxy.Prelude.{String, ◌≡◌, refl, Bool, true, not, List, [], ◌∷◌, arith, str_eq}
use gotaxy.Utils.{is_validate_ip, is_validate_email}
use gotaxy.Storage.{Engine}
use gotaxy.Server.{GotaxyServer, IsQuiet, set_run_status}
use gotaxy.Control.{is_port, stop_server}
use gotaxy.Control.Sync.{both}
use gotaxy.Control.Settings.{IsConfigured}
use gotaxy.Shell.{
  Said, start_service, stop_service, handle_service, set_server_ip, set_listen_port, set_email,
  set_config, config_set, handle_config,
}

module _ {Db : Type 0} where
  pub stop_server-IsQuiet : (s : GotaxyServer Db) → IsQuiet s (stop_server s)
  unfolding stop_server set_run_status
  stop_server-IsQuiet s = ground arith

  pub handle_service-IsQuiet :
      (exists : String → Bool) (args : List String) (s : GotaxyServer Db)
      → IsQuiet s (handle_service exists args s).0
  unfolding handle_service start_service stop_service set_run_status
  handle_service-IsQuiet exists [] s = (refl, refl)
  handle_service-IsQuiet exists (command ∷ args) s = ground (arith, stop_server-IsQuiet s)

  abbrev Kept : GotaxyServer Db × Said → Type 0
  Kept o = IsConfigured o.0.config

module _ {Db : Type 0} (engine : Engine Db) where
  pub set_server_ip-IsConfigured :
      (s : GotaxyServer Db) (value : String)
      → is_validate_ip value ≡ true
      → IsConfigured s.config
      → IsConfigured (set_server_ip engine s value).config
  unfolding set_server_ip
  set_server_ip-IsConfigured s value h v = record {
    server_ip = h;
    listen_port = v.listen_port;
    email = v.email;
  }

  pub set_listen_port-IsConfigured :
      (s : GotaxyServer Db) (value : String)
      → is_port value ≡ true
      → IsConfigured s.config
      → IsConfigured (set_listen_port engine s value).config
  unfolding set_listen_port
  set_listen_port-IsConfigured s value h v = record {
    server_ip = v.server_ip;
    listen_port = h;
    email = v.email;
  }

  pub set_email-IsConfigured :
      (s : GotaxyServer Db) (value : String)
      → is_validate_email value ≡ true
      → IsConfigured s.config
      → IsConfigured (set_email engine s value).config
  unfolding set_email
  set_email-IsConfigured s value h v = record {
    server_ip = v.server_ip;
    listen_port = v.listen_port;
    email = ground arith;
  }

  set_config-Kept :
      (key value : String) (s : GotaxyServer Db)
      → IsConfigured s.config
      → Kept (set_config engine key value s)
  unfolding set_config
  set_config-Kept key value s v =
      both Kept (str_eq key "ip")
        (λ _.
          both Kept (not (is_validate_ip value)) (λ _. v)
            (λ e. set_server_ip-IsConfigured s value (ground arith) v))
        (λ _.
          both Kept (str_eq key "port")
            (λ _.
              both Kept (not (is_port value)) (λ _. v)
                (λ e. set_listen_port-IsConfigured s value (ground arith) v))
            (λ _.
              both Kept (str_eq key "email")
                (λ _.
                  both Kept (not (is_validate_email value)) (λ _. v)
                    (λ e. set_email-IsConfigured s value (ground arith) v))
                (λ _. v)))

  config_set-Kept :
      (args : List String) (s : GotaxyServer Db)
      → IsConfigured s.config
      → Kept (config_set engine args s)
  unfolding config_set
  config_set-Kept [] s v = v
  config_set-Kept (key ∷ []) s v = v
  config_set-Kept (key ∷ value ∷ args) s v = set_config-Kept key value s v

  pub handle_config-IsConfigured :
      (args : List String) (s : GotaxyServer Db)
      → IsConfigured s.config
      → IsConfigured (handle_config engine args s).0.config
  unfolding handle_config
  handle_config-IsConfigured [] s v = v
  handle_config-IsConfigured (command ∷ args) s v =
      both Kept (str_eq command "show") (λ _. v)
        (λ _. both Kept (str_eq command "set") (λ _. config_set-Kept args s v) (λ _. v))
