-- ===== src/Proxy/Copying.antt =====
-- What the copying writes and reports, and when the limiter ends it.
use mathlib.Core.Option.{get_or}
use gotaxy.Prelude.{
  ℕ, ◌+◌, ◌%◌, ◌^◌, ◌<◌, ◌≡◌, ◌∙◌, refl, sym, ap, true, not, Option, none, some, List, [], ◌∷◌,
  ◌++◌, arith, length, length-append, append_assoc, eq_iff, if◌then◌else◌, Option-cases, inl, inr,
  zero, suc, take, ◌⊎◌, Bool-cases, append-nil, false,
}
use gotaxy.Session.View.{view, IsLinked}
use gotaxy.EventBus.{Payload, traffic}
use gotaxy.Session.{Mapping}
use gotaxy.Server.{GotaxyServer, on_traffic_report}
use gotaxy.Server.Traffic.{Report, reports, reports-total, reports-mapping, all_bytes, bytes_of}
use gotaxy.Int64.{max_int64}
use gotaxy.Wire.{Bytes, Written, whole, part, taken, succeeded}
use gotaxy.Proxy.{Turn, Copied, Limiter, new_limiter, exceeds, rate_limited_proxy, report}

-- All that the source gives.
abbrev pub given : List Turn → Bytes
given [] = []
given (turn ∷ turns) = get_or turn.read [] ++ given turns

-- What a turn writes, unless it ends the copying.
abbrev passed : Turn → Option Bytes
passed turn = if turn.ended then none else elim turn.read [
  | none ↦ none
  | some bytes ↦
      if not turn.waits then none else if not (succeeded turn.writes) then none else some bytes
]

passed-read : (turn : Turn) (bytes : Bytes) → passed turn ≡ some bytes → turn.read ≡ some bytes
passed-read turn bytes h = elim (Option-cases turn.read) [
  | inl e ↦ ground arith
  | inr (read, e) ↦ ground arith
]

passed-waits : (turn : Turn) (bytes : Bytes) → passed turn ≡ some bytes → turn.waits ≡ true
passed-waits turn bytes h = elim (Option-cases turn.read) [
  | inl e ↦ ground arith
  | inr (read, e) ↦ ground arith
]

abbrev copied : Option Mapping → Bytes → Copied → Copied
copied mapping bytes rest = record {
  written = bytes ++ rest.written;
  published = report mapping bytes rest.published;
}

-- What a turn that ends the copying has written: the begin of what its write has failed for.
abbrev begun : Turn → Bytes
begun turn = if turn.ended then [] else elim turn.read [
  | none ↦ []
  | some bytes ↦ if not turn.waits then [] else taken turn.writes bytes
]

abbrev last : Turn → Copied
last turn = record { written = begun turn; published = [] }

-- What was written by the write that failed, if the copying ended so.
unfoldable pub unreported : List Turn → Bytes
unreported [] = []
unreported (turn ∷ turns) = elim (passed turn) [ none ↦ begun turn | some _ ↦ unreported turns ]

unreported-ended :
    (turn : Turn) (turns : List Turn) → passed turn ≡ none → unreported (turn ∷ turns) ≡ begun turn
unfolding unreported
unreported-ended turn turns e =
    ap (λ (o : Option Bytes). elim o [ none ↦ begun turn | some _ ↦ unreported turns ]) e

unreported-passed :
    (turn : Turn) (turns : List Turn) (bytes : Bytes)
    → passed turn ≡ some bytes
    → unreported (turn ∷ turns) ≡ unreported turns
unfolding unreported
unreported-passed turn turns bytes e =
    ap (λ (o : Option Bytes). elim o [ none ↦ begun turn | some _ ↦ unreported turns ]) e

take-prefix : (n : ℕ) (p : Bytes) → (q : Bytes) × (p ≡ take n p ++ q)
take-prefix zero p = (p, refl)
take-prefix (suc n) [] = ([], refl)
take-prefix (suc n) (b ∷ p) = let (q, e) = take-prefix n p in (q, ap (λ t. b ∷ t) e)

taken-prefix : (w : Written) (p : Bytes) → (q : Bytes) × (p ≡ taken w p ++ q)
taken-prefix whole p = ([], sym (append-nil p))
taken-prefix (part n) p = take-prefix n p

begun-prefix : (turn : Turn) → (q : Bytes) × (get_or turn.read [] ≡ begun turn ++ q)
begun-prefix turn = elim (Bool-cases turn.ended) [
  | inl e ↦ (get_or turn.read [], rw e refl)
  | inr e ↦ elim (Bool-cases turn.waits) [
    | inr w ↦ elim (Option-cases turn.read) [
      | inl r ↦ ([], rw (e, r) refl)
      | inr (bytes, r) ↦ (bytes, rw (e, r, w) refl)
    ]
    | inl w ↦ elim (Option-cases turn.read) [
      | inl r ↦ ([], rw (e, r) refl)
      | inr (bytes, r) ↦ let (q, p) = taken-prefix turn.writes bytes in (q, rw (e, r, w) p)
    ]
  ]
]

stops :
    (mapping : Option Mapping) (turn : Turn) (turns : List Turn)
    → passed turn ≡ none
    → rate_limited_proxy mapping (turn ∷ turns) ≡ last turn
unfolding rate_limited_proxy
stops mapping turn turns h = elim (Option-cases turn.read) [
  | inl e ↦ rw (e, rate_limited_proxy) (ground arith)
  | inr (read, e) ↦ rw (e, rate_limited_proxy) (ground arith)
]

goes_on :
    (mapping : Option Mapping) (turn : Turn) (turns : List Turn) (bytes : Bytes)
    → passed turn ≡ some bytes
    → rate_limited_proxy mapping (turn ∷ turns)
      ≡ copied mapping bytes (rate_limited_proxy mapping turns)
unfolding rate_limited_proxy
goes_on mapping turn turns bytes h = elim (Option-cases turn.read) [
  | inl e ↦ ground arith
  | inr (read, e) ↦ ground arith
]

-- What is written is what the source gives, in its order, without a gap, up to some point.
pub rate_limited_proxy-written :
    (mapping : Option Mapping) (turns : List Turn)
    → (unwritten : Bytes) × (given turns ≡ (rate_limited_proxy mapping turns).written ++ unwritten)
unfolding rate_limited_proxy
rate_limited_proxy-written mapping [] = ([], refl)
rate_limited_proxy-written mapping (turn ∷ turns) = elim (Option-cases (passed turn)) [
  | inl e ↦
      let (q, p) = begun-prefix turn in
      (
        q ++ given turns,
        rw (stops mapping turn turns e)
            (ap (λ t. t ++ given turns) p ∙ append_assoc (begun turn) q (given turns)),
      )
  | inr (bytes, e) ↦
      let (unwritten, rest) = rate_limited_proxy-written mapping turns in
      (
        unwritten,
        rw (goes_on mapping turn turns bytes e, passed-read turn bytes e)
            (ap (λ t. bytes ++ t) rest
              ∙ sym (append_assoc bytes (rate_limited_proxy mapping turns).written unwritten)),
      )
]

-- `WaitN` of a limiter does not wait for more bytes than its burst, but fails.
abbrev pub IsLimited : Limiter → Turn → Type 0
IsLimited limiter turn = exceeds (length (get_or turn.read [])) limiter ≡ true → turn.waits ≡ false

too_long :
    (limiter : Limiter) (turn : Turn)
    → IsLimited limiter turn
    → exceeds (length (get_or turn.read [])) limiter ≡ true
    → (passed turn ≡ none) × (begun turn ≡ [])
too_long limiter turn h l = elim (Option-cases turn.read) [
  | inl e ↦ ground (arith, e)
  | inr (read, e) ↦ let fails = h l in ground (arith, fails, e)
]

cut :
    (limiter : Limiter) (mapping : Option Mapping) (before after : List Turn) (turn : Turn)
    → IsLimited limiter turn
    → exceeds (length (get_or turn.read [])) limiter ≡ true
    → rate_limited_proxy mapping (before ++ turn ∷ after) ≡ rate_limited_proxy mapping before
unfolding rate_limited_proxy
cut limiter mapping [] after turn h l =
    let (ends, wrote) = too_long limiter turn h l in
    stops mapping turn after ends ∙ ap (λ w. record { written = w; published = [] }) wrote
cut limiter mapping (first ∷ before) after turn h l = elim (Option-cases (passed first)) [
  | inl e ↦ stops mapping first (before ++ turn ∷ after) e ∙ sym (stops mapping first before e)
  | inr (bytes, e) ↦
      goes_on mapping first (before ++ turn ∷ after) bytes e
      ∙ ap (copied mapping bytes) (cut limiter mapping before after turn h l)
      ∙ sym (goes_on mapping first before bytes e)
]

-- With the limiter that a listener makes for its mapping, which fails for more bytes at once than its
-- burst: a read of more bytes than the rate limit that the mapping had then, or any read if that was
-- negative, ends the copying in either direction: it and all that comes behind it is not written.
pub rate_limited_proxy-limit :
    (x : Mapping) (mapping : Option Mapping) (before after : List Turn) (turn : Turn)
    → IsLimited (new_limiter x) turn
    → (max_int64 < x.rate_limit) ⊎ (x.rate_limit < length (get_or turn.read []))
    → rate_limited_proxy mapping (before ++ turn ∷ after) ≡ rate_limited_proxy mapping before
unfolding new_limiter exceeds
rate_limited_proxy-limit x mapping before after turn h (inl negative) =
    cut (new_limiter x) mapping before after turn h (ground (arith, negative))
rate_limited_proxy-limit x mapping before after turn h (inr longer) =
    cut (new_limiter x) mapping before after turn h (ground (arith, longer))

-- The handler of traffic reports, run on each payload.
abbrev pub handled : {Db : Type 0} → GotaxyServer Db → List Payload → GotaxyServer Db
handled s [] = s
handled s (payload ∷ payloads) = handled (on_traffic_report s payload) payloads

as_reports :
    {Db : Type 0} (x : Mapping) (turns : List Turn) (s : GotaxyServer Db)
    → (l : List Report) × (handled s (rate_limited_proxy (some x) turns).published ≡ reports s l)
      × (all_bytes l + length (unreported turns)
          ≡ length (rate_limited_proxy (some x) turns).written)
      × (bytes_of x.name l + length (unreported turns)
          ≡ length (rate_limited_proxy (some x) turns).written)
unfolding rate_limited_proxy reports unreported
as_reports x [] s = ([], refl, omega arith, omega arith)
as_reports x (turn ∷ turns) s = elim (Option-cases (passed turn)) [
  | inl e ↦
      rw (stops (some x) turn turns e, unreported-ended turn turns e)
        ([], refl, omega arith, omega arith)
  | inr (bytes, e) ↦
      let (l, same, all, own) =
        as_reports x turns (on_traffic_report s (traffic x.name (length bytes))) in
      let long = length-append bytes (rate_limited_proxy (some x) turns).written in
      rw (goes_on (some x) turn turns bytes e, unreported-passed turn turns bytes e)
        (
          (x.name, length bytes) ∷ l,
          same,
          omega (arith, all, long),
          ground (arith, own, long, eq_iff x.name x.name),
        )
]

-- When the reports of a copying to the public side have been handled, the total and the counter of the
-- mapping have grown by the number of bytes that were written, but for those that a write had written
-- before it failed, modulo 2 ^ 64; if the mapping is still in the table, and the table is linked.
pub rate_limited_proxy-counted :
    {Db : Type 0} (x old : Mapping) (turns : List Turn) (s : GotaxyServer Db)
    → IsLinked s.sessions
    → view s.sessions x.name ≡ some old
    → let copied = rate_limited_proxy (some x) turns in
      let later = handled s copied.published in
      let missed = length (unreported turns) in
      ((later.config.total_traffic + missed) % 2 ^ 64
        ≡ (s.config.total_traffic + length copied.written) % 2 ^ 64)
      × (new : Mapping) × (view later.sessions x.name ≡ some new)
      × ((new.traffic + missed) % 2 ^ 64 ≡ (old.traffic + length copied.written) % 2 ^ 64)
rate_limited_proxy-counted x old turns s linked found =
    let (l, same, all, own) = as_reports x turns s in
    let total = reports-total s l in
    let (new, seen, counted) = reports-mapping s l x.name old linked found in
    rw same (omega (arith, total, all), new, seen, omega (arith, counted, own))
