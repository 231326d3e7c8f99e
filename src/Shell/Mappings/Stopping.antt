-- ===== src/Shell/Mappings/Stopping.antt =====
-- What becomes of the listener of a mapping when the mapping is stopped.
use gotaxy.Prelude.{
  ℕ, suc, String, ◌≡◌, refl, ap, ◌∙◌, true, false, some, [], ◌∷◌, arith, ==_iff, str_eq,
}
use gotaxy.Context.{background, Context, Contexts, done, done-cancel, member, member-IsOld, IsOld}
use gotaxy.Session.{
  Mapping, Manager, Ref, read, close_mapping, close_active, update_enable, with_enable,
}
use gotaxy.Storage.{Engine, update_map}
use gotaxy.Server.{GotaxyServer}
use gotaxy.Control.{mapping_of, start_listener}
use gotaxy.Control.Sync.{both}
use gotaxy.Control.Pointers.{pointer, mapping_of-write, mapping_of-update_enable}
use gotaxy.Proxy.{Arrival, unaccepted, ends, listener_round, mapping_done, ctx_of}
use gotaxy.Proxy.Rounds.{listener_round-disabled, listener_round-done}
use gotaxy.Shell.Mappings.{start_mapping, stop_mapping, handle_mapping, with_name}

close_mapping-pointer :
    (m : Manager) (contexts : Contexts) (k : String) (r : Ref) (x : Mapping)
    → mapping_of m k ≡ some (r, x)
    → close_mapping m contexts k ≡ (close_active contexts x, true)
unfolding close_mapping
close_mapping-pointer m contexts k r x h =
    let (at, found) = pointer m k r x h in rw (at, close_mapping) (rw found)

module _ {Db : Type 0} (engine : Engine Db) where
  abbrev stopped : String → GotaxyServer Db → GotaxyServer Db
  stopped name s = (handle_mapping engine ("stop" ∷ name ∷ []) s).0

  stop_state :
      (name : String) (s : GotaxyServer Db) (r : Ref) (x : Mapping)
      → mapping_of s.sessions name ≡ some (r, x)
      → stopped name s ≡ record s {
        contexts = close_active s.contexts x;
        sessions = (update_enable s.sessions name false).0;
      }
  unfolding handle_mapping with_name stop_mapping
  stop_state name s r x h = rw (close_mapping-pointer s.sessions s.contexts name r x h, stopped)

  off :
      (m : Manager) (name : String) (r : Ref) (x : Mapping)
      → mapping_of m name ≡ some (r, x)
      → read (update_enable m name false).0 r ≡ some (with_enable false x)
  off m name r x h =
      let (there, found) = mapping_of-update_enable m name r x h false in
      (pointer (update_enable m name false).0 name r (with_enable false x) there).1

  cancelled :
      (contexts : Contexts) (x : Mapping) (i : ℕ) (parent : Context)
      → x.status ≡ "active"
      → x.ctx_cancel ≡ some i
      → mapping_done (close_active contexts x) (some (i ∷ parent)) ≡ true
  unfolding mapping_done close_active done member
  cancelled contexts x i parent active has_cancel =
      rw (active, has_cancel) (ground (arith, ==_iff i i))

  ctx_off :
      (m : Manager) (name : String) (r : Ref) (x : Mapping)
      → mapping_of m name ≡ some (r, x)
      → ctx_of (update_enable m name false).0 r ≡ x.ctx
  ctx_off m name r x h = rw (off m name r x h, ctx_of)

  -- If a mapping is active and its cancel function ends its context: after `mapping stop`, a round of its
  -- listener that begins ends the listener and closes its socket, whatever arrives; and one that began
  -- before and waits in `Accept` ends the listener if `Accept` fails.
  pub handle_mapping-ends :
      (name : String) (s : GotaxyServer Db) (r : Ref) (x : Mapping) (i : ℕ) (parent : Context)
      (ctx : Context) (target : String) (arrival : Arrival) (later : GotaxyServer Db)
      → mapping_of s.sessions name ≡ some (r, x)
      → x.status ≡ "active"
      → x.enable ≡ true
      → x.ctx ≡ some (i ∷ parent)
      → x.ctx_cancel ≡ some i
      → let stopped = (handle_mapping engine ("stop" ∷ name ∷ []) s).0 in
        (listener_round ctx r target stopped arrival later ≡ ends true)
        × (listener_round ctx r target s unaccepted stopped ≡ ends false)
  handle_mapping-ends name s r x i parent ctx target arrival later h active on has_ctx has_cancel =
      rw (stop_state name s r x h) (
        listener_round-disabled ctx r target _ later arrival (with_enable false x)
            (off s.sessions name r x h) refl,
        listener_round-done ctx r target s _ x (pointer s.sessions name r x h).1 on (
            ap (mapping_done (close_active s.contexts x)) (ctx_off s.sessions name r x h ∙ has_ctx)
            ∙ cancelled s.contexts x i parent active has_cancel),
      )

  -- The mapping of a name after `mapping start` in a running server.
  abbrev started_mapping : GotaxyServer Db → Mapping → Mapping
  started_mapping s x = record (with_enable true x) {
    ctx = some (s.contexts.next ∷ background);
    ctx_cancel = some s.contexts.next;
  }

  start_state :
      (name : String) (s : GotaxyServer Db) (r : Ref) (x : Mapping)
      → mapping_of s.sessions name ≡ some (r, x)
      → s.is_run ≡ true
      → (handle_mapping engine ("start" ∷ name ∷ []) s).0
        ≡ start_listener
            (record s { sessions = (update_enable s.sessions name true).0 })
            r
            background
  unfolding handle_mapping with_name start_mapping
  start_state name s r x h runs =
      let (there, found) = mapping_of-update_enable s.sessions name r x h true in
      rw (found, start_mapping) (rw there (rw runs))

  -- The server after `mapping start`, if it does not run.
  pub stored_state :
      (name : String) (s : GotaxyServer Db) (r : Ref) (x : Mapping)
      → mapping_of s.sessions name ≡ some (r, x)
      → s.is_run ≡ false
      → x.name ≡ name
      → (handle_mapping engine ("start" ∷ name ∷ []) s).0 ≡ record s {
        sessions = (update_enable s.sessions name true).0;
        db = (update_map engine s.db name x.public_port x.target_addr true x.rate_limit).0;
      }
  unfolding handle_mapping with_name start_mapping
  stored_state name s r x h stopped named =
      let (there, found) = mapping_of-update_enable s.sessions name r x h true in
      rw (found, start_mapping) (rw there (rw (stopped, named)))

  started-mapping_of :
      (name : String) (s : GotaxyServer Db) (r : Ref) (x : Mapping)
      → mapping_of s.sessions name ≡ some (r, x)
      → mapping_of
          (start_listener
            (record s { sessions = (update_enable s.sessions name true).0 })
            r
            background).sessions
          name
        ≡ some (r, started_mapping s x)
  unfolding start_listener
  started-mapping_of name s r x h =
      let (there, found) = mapping_of-update_enable s.sessions name r x h true in
      mapping_of-write (update_enable s.sessions name true).0 name r (with_enable true x) there _

  close_active-done :
      (contexts : Contexts) (n : ℕ) (y : Mapping) (watched : Context)
      → y.ctx_cancel ≡ some n
      → IsOld n watched
      → done (close_active contexts y) watched ≡ done contexts watched
  unfolding close_active
  close_active-done contexts n y watched e old = rw e (
      both (λ (c : Contexts). done c watched ≡ done contexts watched) (str_eq y.status "active")
        (λ _. done-cancel contexts n watched ∙ rw (member-IsOld n watched old)) (λ _. refl))

  done_given :
      (contexts : Contexts) (watched : Context)
      → done (record contexts { next = suc contexts.next }) watched ≡ done contexts watched
  unfolding done
  done_given contexts [] = refl
  done_given contexts (i ∷ ancestors) = ground (arith, done_given contexts ancestors)

  -- In a running server, `mapping start` replaces the context of the mapping, also where a listener runs
  -- for it already: `mapping stop` then does not end any context that there was before, so not the one
  -- with which the socket of that listener is closed; though the mapping is disabled.
  pub handle_mapping-leaves :
      (name : String) (s : GotaxyServer Db) (r : Ref) (x : Mapping) (watched : Context)
      → mapping_of s.sessions name ≡ some (r, x)
      → s.is_run ≡ true
      → IsOld s.contexts.next watched
      → let started = (handle_mapping engine ("start" ∷ name ∷ []) s).0 in
        let stopped = (handle_mapping engine ("stop" ∷ name ∷ []) started).0 in
        (done stopped.contexts watched ≡ done s.contexts watched)
        × (y : Mapping) × (read stopped.sessions r ≡ some y)
        × (y.enable ≡ false)
  unfolding start_listener
  handle_mapping-leaves name s r x watched h runs old =
      let enabled = record s { sessions = (update_enable s.sessions name true).0 } in
      let opened = start_listener enabled r background in
      let there = started-mapping_of name s r x h in
      rw (start_state name s r x h runs) (
        rw (stop_state name opened r (started_mapping s x) there) (
          close_active-done opened.contexts s.contexts.next (started_mapping s x) watched refl old
              ∙ done_given s.contexts watched,
          with_enable false (started_mapping s x),
          off opened.sessions name r (started_mapping s x) there,
          refl,
        ))
