-- ===== src/System/Forwarding.antt =====
-- The way of a connection, from the public port to the target behind the client.
use gotaxy.Prelude.{
  String, ◌≡◌, Bool, true, some, List, [], ◌∷◌, ◌++◌, ◌<◌, length, if◌then◌else◌, ap, ◌∙◌,
}
use gotaxy.Context.{Context}
use gotaxy.Utils.{is_validate_addr}
use gotaxy.Session.{Ref, Smux, get_default_session}
use gotaxy.Server.{GotaxyServer}
use gotaxy.Wire.{Bytes, encode}
use gotaxy.Client.{closed, forwards, handle_stream}
use gotaxy.Client.Protocol.{joined, handle_stream-header}
use gotaxy.Proxy.{Arrival, carries, listener_round}
use gotaxy.Proxy.Rounds.{listener_round-carries}

-- If a round of a listener passes a connection on, with a header: the session is that of the default
-- client. When the client gets the header and what is sent behind it, cut into reads in any way, it dials
-- just the target of the listener, if that is an address that the validator accepts; and if the target is
-- reached, what is copied to it are all the reads behind the one with which the header is complete; what
-- that read has of the bytes sent behind the header is lost.
pub listener_round-forwarded :
    {Db : Type 0} (ctx : Context) (r : Ref) (target : String) (before after : GotaxyServer Db)
    (arrival : Arrival) (sess : Smux) (header sent : Bytes) (dial : Bytes → Bool)
    (chunks : List Bytes)
    → listener_round ctx r target before arrival after ≡ carries sess header
    → is_validate_addr target ≡ true
    → joined chunks ≡ header ++ sent
    → (get_default_session after.sessions ≡ some sess)
      × (first : List Bytes) × (last : Bytes) × (left : List Bytes) × (chunks
          ≡ first ++ last ∷ left)
      × (length (joined first) < length header)
      × (lost : Bytes) × (sent ≡ lost ++ joined left)
      × (handle_stream dial chunks
          ≡ (if dial (encode target) then forwards (encode target) left else closed []))
listener_round-forwarded ctx r target before after arrival sess header sent dial chunks h valid e =
    let (found, same, _, _, _) =
      listener_round-carries ctx r target before after arrival sess header h in
    let (first, last, left, cut, short, lost, all, dialled) =
      handle_stream-header dial target sent chunks valid (e ∙ ap (λ (t : Bytes). t ++ sent) same) in
    let incomplete : length (joined first) < length header = rw same short in
    (found, first, last, left, cut, incomplete, lost, all, dialled)
