-- ===== src/Proxy/Rounds.antt =====
-- How a round of a listener ends.
use gotaxy.Prelude.{String, ◌≡◌, Bool, true, false, some, arith, Option-cases, inl, inr}
use gotaxy.Context.{Context}
use gotaxy.Session.{Mapping, Ref, Smux, read, get_default_session}
use gotaxy.Server.{GotaxyServer}
use gotaxy.Wire.{Bytes}
use gotaxy.Proxy.{
  Arrival, unaccepted, accepted, ends, carries, carry, listener_round, mapping_done, ctx_of,
  stream_header,
}

module _ {Db : Type 0} (ctx : Context) (r : Ref) (target : String) where
  pub listener_round-disabled :
      (before after : GotaxyServer Db) (arrival : Arrival) (x : Mapping)
      → read before.sessions r ≡ some x
      → x.enable ≡ false
      → listener_round ctx r target before arrival after ≡ ends true
  unfolding listener_round
  listener_round-disabled before after arrival x found off = rw (found, listener_round) (rw off)

  pub listener_round-done :
      (before after : GotaxyServer Db) (x : Mapping)
      → read before.sessions r ≡ some x
      → x.enable ≡ true
      → mapping_done after.contexts (ctx_of after.sessions r) ≡ true
      → listener_round ctx r target before unaccepted after ≡ ends false
  unfolding listener_round
  listener_round-done before after x found on over =
      rw (found, listener_round) (rw on (ground (arith, over)))

  carry-session :
      (after : GotaxyServer Db) (opens writes : Bool) (sess : Smux) (header : Bytes)
      → carry after.sessions target opens writes ≡ carries sess header
      → (get_default_session after.sessions ≡ some sess) × (header ≡ stream_header target)
  unfolding carry
  carry-session after opens writes sess header h =
      elim (Option-cases (get_default_session after.sessions)) [
        | inl e ↦ ground arith
        | inr (found, e) ↦ ground arith
      ]

  -- What a round passes on goes to the default client with the header for the listener's target, and the
  -- mapping was enabled.
  pub listener_round-carries :
      (before after : GotaxyServer Db) (arrival : Arrival) (sess : Smux) (header : Bytes)
      → listener_round ctx r target before arrival after ≡ carries sess header
      → (get_default_session after.sessions ≡ some sess)
        × (header ≡ stream_header target)
        × (x : Mapping) × (read before.sessions r ≡ some x)
        × (x.enable ≡ true)
  unfolding listener_round
  listener_round-carries before after unaccepted sess header h =
      elim (Option-cases (read before.sessions r)) [
        | inl e ↦ ground arith
        | inr (x, e) ↦ ground arith
      ]
  listener_round-carries before after (accepted opens writes) sess header h =
      elim (Option-cases (read before.sessions r)) [
        | inl e ↦ ground arith
        | inr (x, e) ↦
            let on : x.enable ≡ true = ground arith in
            let passed : carry after.sessions target opens writes ≡ carries sess header =
              ground arith in
            let (found, same) = carry-session after opens writes sess header passed in
            (found, same, x, e, on)
      ]
