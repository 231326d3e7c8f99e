-- ===== src/System/Lifecycle.antt =====
-- Stopping the service and starting it again.
use gotaxy.Prelude.{ℕ, String, ◌≡◌, refl, Bool, true, false, some, [], ◌∷◌, arith}
use gotaxy.Context.{Context, IsOld, done, member-IsOld, done-cancel, member}
use gotaxy.Server.{GotaxyServer, set_run_status}
use gotaxy.Control.{check_server_cert_exist, stop_server}
use gotaxy.Shell.{handle_service}
use gotaxy.Web.{start_service_handler, renew_context}

module _ {Db : Type 0} where
  -- No identity was cancelled that was not given out.
  abbrev pub IsFresh : GotaxyServer Db → Type 0
  IsFresh s = IsOld s.contexts.next s.contexts.cancelled

  -- If the service does not run, the certificates are there, and nothing is cancelled that was not
  -- given out: after `POST /api/start` the flag says that the service runs, and its context is not
  -- cancelled.
  pub start_service_handler-done :
      (exists : String → Bool) (s : GotaxyServer Db)
      → IsFresh s
      → s.is_run ≡ false
      → check_server_cert_exist exists ≡ true
      → ((start_service_handler exists s).0.is_run ≡ true)
        × (done (start_service_handler exists s).0.contexts (start_service_handler exists s).0.ctx
            ≡ false)
  unfolding start_service_handler set_run_status renew_context done
  start_service_handler-done exists s fresh stopped certs =
      rw (stopped, certs) (ground (arith, member-IsOld s.contexts.next s.contexts.cancelled fresh))

  -- If the service runs, its cancel function ends its own context, and the certificates are there:
  -- after `service stop` and `service start` the flag says that the service runs, but its context
  -- is still cancelled.
  pub service_restart-done :
      (exists : String → Bool) (s : GotaxyServer Db) (i : ℕ) (ancestors : Context)
      → s.is_run ≡ true
      → s.cancel ≡ some i
      → s.ctx ≡ i ∷ ancestors
      → check_server_cert_exist exists ≡ true
      → let stopped = (handle_service exists ("stop" ∷ []) s).0 in
        let started = (handle_service exists ("start" ∷ []) stopped).0 in
        (started.is_run ≡ true) × (done started.contexts started.ctx ≡ true)
  unfolding handle_service stop_server set_run_status
  service_restart-done exists s i ancestors running has_cancel has_ctx certs =
      rw (running, has_cancel, has_ctx, certs)
        (refl, rw done-cancel (unfold member in ground arith))
