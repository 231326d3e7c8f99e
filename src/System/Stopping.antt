-- ===== src/System/Stopping.antt =====
-- The end of the service (`POST /api/stop` of internal/web/web.go and `service stop` of
-- internal/shell/shellcmd.go), and a start that comes before its goroutines (internal/tunnel/controller.go,
-- internal/tunnel/proxy/proxy.go) have seen it.
use gotaxy.Prelude.{
  ℕ, ◌<◌, String, ◌≡◌, refl, sym, Bool, true, false, not, some, [], ◌∷◌, arith, ◌∙◌, ap,
}
use gotaxy.Context.{Context, Contexts, done, done-cancel, member}
use gotaxy.Session.{Mapping, Ref, read}
use gotaxy.Server.{GotaxyServer, set_run_status}
use gotaxy.Control.{check_server_cert_exist, stop_server}
use gotaxy.Shell.{handle_service}
use gotaxy.Web.{start_service_handler, stop_service_handler, renew_context}
use gotaxy.Tunnel.{unaccepted, wait_control_conn}
use gotaxy.Proxy.{ends, listener_round, unaccepted as not_accepted}
use gotaxy.System.Lifecycle.{IsFresh, start_service_handler-done}

done-cancelled : (a b : Contexts) (c : Context) → a.cancelled ≡ b.cancelled → done a c ≡ done b c
unfolding done
done-cancelled a b [] e = refl
done-cancelled a b (i ∷ c) e = ground (arith, e, done-cancelled a b c e)

module _ {Db : Type 0} where
  -- A server that runs, whose cancel function ends its own context.
  pub record IsRunning (s : GotaxyServer Db) (i : ℕ) (ancestors : Context) : Type 0 where
    pub running : s.is_run ≡ true
    pub cancels : s.cancel ≡ some i
    pub context : s.ctx ≡ i ∷ ancestors
    pub given : i < s.contexts.next

  stop_state :
      (exists : String → Bool) (s : GotaxyServer Db)
      → s.is_run ≡ true
      → ((stop_service_handler s).0 ≡ stop_server s)
        × ((handle_service exists ("stop" ∷ []) s).0 ≡ stop_server s)
  unfolding stop_service_handler handle_service
  stop_state exists s running = (rw running refl, rw running refl)

  stop_server-done :
      (s : GotaxyServer Db) (i : ℕ) (ancestors : Context)
      → IsRunning s i ancestors
      → done (stop_server s).contexts s.ctx ≡ true
  unfolding stop_server set_run_status
  stop_server-done s i ancestors v =
      rw (v.cancels, v.context) (rw done-cancel (unfold member in ground arith))

  stop_server-ctx : (s : GotaxyServer Db) → (stop_server s).ctx ≡ s.ctx
  unfolding stop_server set_run_status
  stop_server-ctx s = ground arith

  -- A round of a listener whose first context is over, and whose `Accept` fails.
  round_ends :
      (ctx : Context) (r : Ref) (target : String) (before after : GotaxyServer Db) (x : Mapping)
      → read before.sessions r ≡ some x
      → done after.contexts ctx ≡ true
      → listener_round ctx r target before not_accepted after ≡ ends (not x.enable)
  unfolding listener_round
  round_ends ctx r target before after x found over =
      rw (found, listener_round) (ground (arith, over))

  accept_ends :
      (now : ℕ) (s : GotaxyServer Db)
      → (wait_control_conn now unaccepted s).2 ≡ not (done s.contexts s.ctx)
  unfolding wait_control_conn
  accept_ends now s = ground arith

  stop_server-IsFresh :
      (s : GotaxyServer Db) (i : ℕ) (ancestors : Context)
      → IsRunning s i ancestors
      → IsFresh s
      → IsFresh (stop_server s) × ((stop_server s).is_run ≡ false)
  unfolding stop_server set_run_status
  stop_server-IsFresh s i ancestors v fresh = rw v.cancels ((v.given, fresh), refl)

  start_state :
      (exists : String → Bool) (s : GotaxyServer Db)
      → IsFresh s
      → s.is_run ≡ false
      → check_server_cert_exist exists ≡ true
      → (start_service_handler exists s).0.contexts.cancelled ≡ s.contexts.cancelled
  unfolding start_service_handler set_run_status renew_context
  start_state exists s fresh stopped certs = rw (stopped, certs) refl

  -- If the service runs, its cancel function ends its context, and a listener finds its rule: after
  -- `POST /api/stop`, which leaves the server as `service stop` does, the loop that takes control connections
  -- ends as soon as `Accept` fails, and so does the listener, if it was started with that context.
  pub stop_service_handler-ends :
      (exists : String → Bool) (s : GotaxyServer Db) (i : ℕ) (ancestors : Context) (now : ℕ)
      (r : Ref) (target : String) (before : GotaxyServer Db) (x : Mapping)
      → IsRunning s i ancestors
      → read before.sessions r ≡ some x
      → let stopped = (stop_service_handler s).0 in
        (stopped ≡ (handle_service exists ("stop" ∷ []) s).0)
        × ((wait_control_conn now unaccepted stopped).2 ≡ false)
        × (listener_round s.ctx r target before not_accepted stopped ≡ ends (not x.enable))
  stop_service_handler-ends exists s i ancestors now r target before x v found =
      let (web, shell) = stop_state exists s v.running in
      let over = stop_server-done s i ancestors v in
      rw web (
        sym shell,
        accept_ends now (stop_server s)
            ∙ ap (λ c. not (done (stop_server s).contexts c)) (stop_server-ctx s)
            ∙ ap not over,
        round_ends s.ctx r target before (stop_server s) x found over,
      )

  -- If the service runs, its cancel function ends its context, the certificates are there, no context
  -- was cancelled that was not given out, and a listener finds its rule: when the service is stopped and started
  -- again by the web panel before the two have seen that `Accept` fails, the listener of the first run
  -- still ends, but the loop of the first run takes the context of the second for its own and goes on.
  pub start_service_handler-spins :
      (exists : String → Bool) (s : GotaxyServer Db) (i : ℕ) (ancestors : Context) (now : ℕ)
      (r : Ref) (target : String) (before : GotaxyServer Db) (x : Mapping)
      → IsRunning s i ancestors
      → IsFresh s
      → check_server_cert_exist exists ≡ true
      → read before.sessions r ≡ some x
      → let restarted = (start_service_handler exists (stop_service_handler s).0).0 in
        ((wait_control_conn now unaccepted restarted).2 ≡ true)
        × (listener_round s.ctx r target before not_accepted restarted ≡ ends (not x.enable))
  start_service_handler-spins exists s i ancestors now r target before x v fresh certs found =
      let (web, _) = stop_state exists s v.running in
      let (new, idle) = stop_server-IsFresh s i ancestors v fresh in
      let (_, live) = start_service_handler-done exists (stop_server s) new idle certs in
      let restarted = (start_service_handler exists (stop_server s)).0 in
      let over : done restarted.contexts s.ctx ≡ true =
        done-cancelled restarted.contexts (stop_server s).contexts s.ctx
          (start_state exists (stop_server s) new idle certs)
        ∙ stop_server-done s i ancestors v in
      rw web (
        accept_ends now restarted ∙ ap not live,
        round_ends s.ctx r target before restarted x found over,
      )
