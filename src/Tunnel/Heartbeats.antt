-- ===== src/Tunnel/Heartbeats.antt =====
-- When the heartbeat gives a client up, and what is left of the client then.
use gotaxy.Prelude.{
  ℕ, suc, ◌+◌, ◌≤◌, String, ◌≡◌, ◌↔◌, refl, sym, ap, subst, Bool, true, false, none, List, [], ◌∷◌,
  ◌++◌, arith, map, All, length, leb, str_eq, eq_iff, Bool-cases, ◌⊎◌, inl, inr,
}
use gotaxy.EventBus.{Event, EventBus, subscribe, client_disconnected, disconnected, publish}
use gotaxy.Session.{Manager, Smux, get_session, remove_session}
use gotaxy.Session.Clients.{leaves, client_event, get_session-client_event}
use gotaxy.Utils.{is_validate_email}
use gotaxy.Alert.{Mail, sent, send_email, handle_client_disconnected}
use gotaxy.Server.{GotaxyServer, Handler, alerts, new_server}
use gotaxy.Tunnel.{Ping, is_healthy, next_fail_count, Heartbeat, lost, start_heartbeat, lose_client}

abbrev pub IsBad : Ping → Type 0
IsBad ping = is_healthy ping ≡ false

-- Three heartbeats in a row that fail, with the heartbeats behind them.
abbrev pub FailsBefore : List Ping → List Ping → Type 0
FailsBefore pings rest =
    (before : List Ping) × (bad : List Ping) × (pings ≡ before ++ (bad ++ rest))
    × All IsBad bad
    × (length bad ≡ 3)

-- As many heartbeats that fail as are missing to three.
abbrev Completes : ℕ → List Ping → List Ping → Type 0
Completes n pings rest =
    (bad : List Ping) × (pings ≡ bad ++ rest) × All IsBad bad × (length bad + n ≡ 3)

later :
    (ping : Ping) (pings rest : List Ping)
    → FailsBefore pings rest
    → FailsBefore (ping ∷ pings) rest
later ping pings rest (before, bad, e, h, l) = (ping ∷ before, bad, ap (λ t. ping ∷ t) e, h, l)

lost_sound :
    (n : ℕ) (pings rest : List Ping)
    → n ≤ 2
    → start_heartbeat n pings ≡ lost rest
    → Completes n pings rest ⊎ FailsBefore pings rest
unfolding start_heartbeat next_fail_count
lost_sound n [] rest h e = ground arith
lost_sound n (ping ∷ pings) rest h e = elim (Bool-cases (is_healthy ping)) [
  | inl good ↦
      let e' : start_heartbeat 0 pings ≡ lost rest = ground arith in
      elim (lost_sound 0 pings rest (omega arith) e') [
        | inl (bad, f, b, l) ↦ inr (ping ∷ [], bad, ap (λ t. ping ∷ t) f, b, omega (arith, l))
        | inr there ↦ inr (later ping pings rest there)
      ]
  | inr failed ↦ elim (Bool-cases (leb 3 (suc n))) [
    | inl last ↦
        let same : pings ≡ rest = ground arith in
        inl (ping ∷ [], ap (λ t. ping ∷ t) same, (failed, tt), ground arith)
    | inr more ↦
        let e' : start_heartbeat (suc n) pings ≡ lost rest = ground arith in
        elim (lost_sound (suc n) pings rest (ground arith) e') [
          | inl (bad, f, b, l) ↦
              inl (ping ∷ bad, ap (λ t. ping ∷ t) f, (failed, b), omega (arith, l))
          | inr there ↦ inr (later ping pings rest there)
        ]
  ]
]

abbrev IsLost : Heartbeat → Type 0
IsLost h = (rest : List Ping) × (h ≡ lost rest)

bad-IsLost :
    (n : ℕ) (bad after : List Ping)
    → All IsBad bad
    → 1 ≤ length bad
    → 3 ≤ n + length bad
    → IsLost (start_heartbeat n (bad ++ after))
unfolding start_heartbeat next_fail_count
bad-IsLost n [] after h k l = absurd (omega arith)
bad-IsLost n (ping ∷ bad) after h k l = elim (Bool-cases (leb 3 (suc n))) [
  | inl last ↦ (bad ++ after, ground arith)
  | inr more ↦
      let (rest, e) = bad-IsLost (suc n) bad after h.1 (ground arith) (ground arith) in
      (rest, ground arith)
]

start_heartbeat-IsLost :
    (n : ℕ) (before bad after : List Ping)
    → All IsBad bad
    → length bad ≡ 3
    → IsLost (start_heartbeat n (before ++ (bad ++ after)))
unfolding start_heartbeat
start_heartbeat-IsLost n [] bad after h l =
    bad-IsLost n bad after h (omega (arith, l)) (omega (arith, l))
start_heartbeat-IsLost n (ping ∷ before) bad after h l =
    elim (Bool-cases (leb 3 (next_fail_count n ping))) [
      | inl last ↦ (before ++ (bad ++ after), ground arith)
      | inr more ↦
          let (rest, e) = start_heartbeat-IsLost (next_fail_count n ping) before bad after h l in
          (rest, ground arith)
    ]

-- The heartbeat gives the client up if three heartbeats in a row fail, and only then.
pub start_heartbeat-lost_iff :
    (pings : List Ping)
    → ((rest : List Ping) × (start_heartbeat 0 pings ≡ lost rest))
      ↔ ((rest : List Ping) × FailsBefore pings rest)
start_heartbeat-lost_iff pings = (
  λ (rest, e). (
    rest,
    elim (lost_sound 0 pings rest (omega arith) e) [
      | inl (bad, f, b, l) ↦ ([], bad, f, b, omega (arith, l))
      | inr there ↦ there
    ],
  ),
  λ (rest, (before, bad, e, b, l)).
      subst (λ p. IsLost (start_heartbeat 0 p)) (sym e)
        (start_heartbeat-IsLost 0 before bad rest b l),
)

not_empty : (email : String) → is_validate_email email ≡ true → str_eq email "" ≡ false
unfolding is_validate_email
not_empty email h = elim (Bool-cases (str_eq email "")) [
  | inl e ↦
      let same : is_validate_email "" ≡ true =
        subst (λ m. is_validate_email m ≡ true) ((eq_iff email "").0 e) h in
      ground arith
  | inr e ↦ e
]

gone : (m : Manager) (id : String) → get_session (remove_session m id) id ≡ none
unfolding client_event
gone m id = ground (arith, get_session-client_event m (leaves id) id, eq_iff id id)

abbrev pub lost_mail : String → String → ℕ → Mail
lost_mail email client_id now = record {
  to = email;
  client_id = client_id;
  timestamp = now;
  reason = "心跳超时";
}

-- When the heartbeat gives a client up, no session of the client is left, its session is closed, and the
-- alert router is started and nothing else, which sends the mail about this client to the address that it
-- finds, if that is valid and the dialer takes the mail; in a server with the subscriptions of NewServer.
pub lose_client-sent :
    {Db : Type 0} (db : Db) (dial_and_send : Mail → Bool) (now : ℕ) (client_id : String)
    (session : Smux) (s : GotaxyServer Db) (email : String)
    → s.event_bus ≡ (new_server db).event_bus
    → is_validate_email email ≡ true
    → dial_and_send (lost_mail email client_id now) ≡ true
    → let (left, started, ended) = lose_client now client_id session s in
      (get_session left.sessions client_id ≡ none)
      × (ended ≡ session)
      × (e : Event) × (started ≡ (alerts, e) ∷ [])
      × (handle_client_disconnected dial_and_send email e ≡ sent (lost_mail email client_id now))
unfolding lose_client publish new_server subscribe handle_client_disconnected send_email
lose_client-sent db dial_and_send now client_id session s email wired valid accepted =
    let e : Event = record {
      type = client_disconnected;
      timestamp = now;
      payload = disconnected client_id "心跳超时";
    } in
    (
      gone s.sessions client_id,
      refl,
      e,
      ap (λ (b : EventBus Handler). map (λ handler. (handler, e)) (b.handlers client_disconnected))
          wired,
      rw (not_empty email valid, valid, accepted),
    )
