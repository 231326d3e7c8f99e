-- ===== src/Client/Protocol.antt =====
-- What the server writes at the head of a stream, and what the client makes of it, however the bytes are
-- cut into reads.
use mathlib.Core.Option.{some-injective}
use gotaxy.Prelude.{
  ℕ, String, ◌≡◌, subst, ◌∙◌, refl, sym, ap, Bool, true, some, List, [], ◌∷◌, ◌++◌, arith, codes,
  All, All-append, length, length-append, ◌+◌, ◌≤◌, ◌<◌, none, ◌⊎◌, append_assoc, append-nil,
  if◌then◌else◌, Option-cases, inl, inr,
}
use gotaxy.Utils.{is_validate_addr}
use gotaxy.Utils.Octets.{IsDigit}
use gotaxy.Utils.Addresses.{IsAddr, is_validate_addr_iff}
use gotaxy.Wire.{Bytes, encode_rune, encode_runes, encode, equal, trim_space}
use gotaxy.Wire.Plain.{IsPlain, encode_runes-eq_self, trim_space-line}
use gotaxy.Proxy.{stream_header}
use gotaxy.Tunnel.{ping_message, reply, read_full, is_healthy}
use gotaxy.Client.{
  Reader, cut_line, read_string, closed, forwards, handle_stream, handle_direct, handle_heartbeat,
  handle_forward,
}

abbrev pub joined : List Bytes → Bytes
joined [] = []
joined (chunk ∷ chunks) = chunk ++ joined chunks

cut_line-plain : (l t : Bytes) → All IsPlain l → cut_line (l ++ 10 ∷ t) ≡ some (l ++ 10 ∷ [], t)
unfolding cut_line
cut_line-plain [] t h = refl
cut_line-plain (c ∷ l) t h = ground (arith, cut_line-plain l t h.1)

cut_line-append :
    (b u line rest : Bytes)
    → cut_line b ≡ some (line, rest)
    → cut_line (b ++ u) ≡ some (line, rest ++ u)
unfolding cut_line
cut_line-append [] u line rest h = ground arith
cut_line-append (c ∷ b) u line rest h = elim (Option-cases (cut_line b)) [
  | inl e ↦ ground arith
  | inr ((before, behind), e) ↦ ground (arith, cut_line-append b u before behind e)
]

-- What `left` leaves of `chunks` are all behind one in which a line of `n` bytes and its end were still
-- incomplete, after `b` bytes had been read before.
abbrev pub IsBehind : ℕ → Bytes → List Bytes → List Bytes → Type 0
IsBehind n b chunks left =
    (chunks ≡ left)
    ⊎ ((before : List Bytes) × (last : Bytes) × (chunks ≡ before ++ last ∷ left)
        × (length b + length (joined before) ≤ n))

-- What `read_string` gives for a line with the bytes behind it.
abbrev pub Reads : Bytes → Bytes → Bytes → List Bytes → Type 0
Reads l t b chunks =
    (reader : Reader) × (read_string b chunks ≡ (l ++ 10 ∷ [], true, reader))
    × (reader.buffered ++ joined reader.chunks ≡ t)
    × IsBehind (length l) b chunks reader.chunks

head_of : ℕ → Bytes → ℕ
head_of d [] = d
head_of d (c ∷ b) = c

tail_of : Bytes → Bytes
tail_of [] = []
tail_of (c ∷ b) = b

cons_eq : {c d : ℕ} {a b : Bytes} → c ∷ a ≡ d ∷ b → (c ≡ d) × (a ≡ b)
unfolding head_of tail_of
cons_eq {c} e = (ap (head_of c) e, ap tail_of e)

-- Bytes without the end of the line are not more than the line.
unended : (b u l t : Bytes) → cut_line b ≡ none → b ++ u ≡ l ++ 10 ∷ t → length b ≤ length l
unfolding cut_line
unended [] u l t missing e = ground arith
unended (c ∷ b) u [] t missing e = let (same, _) = cons_eq e in absurd (ground (arith, same))
unended (c ∷ b) u (d ∷ l) t missing e = elim (Option-cases (cut_line b)) [
  | inl none_yet ↦
      let (_, rest) = cons_eq e in
      let shorter = unended b u l t none_yet rest in ground (arith, shorter)
  | inr (some_line, found) ↦ absurd (ground (arith, found))
]

further :
    (n : ℕ) (b chunk : Bytes) (chunks left : List Bytes)
    → length b ≤ n
    → IsBehind n (b ++ chunk) chunks left
    → IsBehind n b (chunk ∷ chunks) left
further n b chunk chunks left h (inl same) =
    inr ([], chunk, ap (λ t. chunk ∷ t) same, omega (arith, h))
further n b chunk chunks left h (inr (before, last, same, short)) =
    let long = length-append b chunk in
    let longer = length-append chunk (joined before) in
    inr (chunk ∷ before, last, ap (λ t. chunk ∷ t) same, omega (arith, short, long, longer))

line_found :
    (l t b : Bytes) (chunks : List Bytes) (line rest : Bytes)
    → All IsPlain l
    → b ++ joined chunks ≡ l ++ 10 ∷ t
    → cut_line b ≡ some (line, rest)
    → (line ≡ l ++ 10 ∷ []) × (rest ++ joined chunks ≡ t)
line_found l t b chunks line rest h e found =
    let both : some (line, rest ++ joined chunks) ≡ some (l ++ 10 ∷ [], t) =
      sym (cut_line-append b (joined chunks) line rest found)
      ∙ ap cut_line e
      ∙ cut_line-plain l t h in
    let same = some-injective (line, rest ++ joined chunks) (l ++ 10 ∷ [], t) both in
    (ap (λ p. p.0) same, ap (λ p. p.1) same)

-- A line that comes in any number of reads is read whole, and what the reader has read of the bytes
-- behind it stands in its buffer.
pub read_string-line :
    (l t b : Bytes) (chunks : List Bytes)
    → All IsPlain l
    → b ++ joined chunks ≡ l ++ 10 ∷ t
    → Reads l t b chunks
unfolding read_string
read_string-line l t b [] h e = elim (Option-cases (cut_line b)) [
  | inl missing ↦
      absurd (let found = ap cut_line (sym (append-nil b) ∙ e) ∙ cut_line-plain l t h in cc)
  | inr ((line, rest), found) ↦
      let (whole, behind) = line_found l t b [] line rest h e found in
      (record { buffered = rest; chunks = [] }, rw (found, read_string, whole), behind, inl refl)
]
read_string-line l t b (chunk ∷ chunks) h e = elim (Option-cases (cut_line b)) [
  | inl missing ↦
      let (reader, read, behind, left) =
        read_string-line l t (b ++ chunk) chunks h (append_assoc b chunk (joined chunks) ∙ e) in
      let short = unended b (joined (chunk ∷ chunks)) l t missing e in
      (
        reader,
        rw (missing, read_string) read,
        behind,
        further (length l) b chunk chunks reader.chunks short left,
      )
  | inr ((line, rest), found) ↦
      let (whole, behind) = line_found l t b (chunk ∷ chunks) line rest h e found in
      (
        record { buffered = rest; chunks = chunk ∷ chunks },
        rw (found, read_string, whole),
        behind,
        inl refl,
      )
]

digits-IsPlain : (s : List ℕ) → All IsDigit s → All IsPlain s
digits-IsPlain [] h = tt
digits-IsPlain (c ∷ s) h = (omega (arith, h.0), digits-IsPlain s h.1)

-- What is plain on both sides of a plain separator.
joins :
    (s t : List ℕ) (c : ℕ) → IsPlain c → All IsPlain s → All IsPlain t → All IsPlain (s ++ c ∷ t)
joins s t c p h k = All-append IsPlain s (c ∷ t) h (p, k)

address-IsPlain : (u : List ℕ) → IsAddr u → All IsPlain u
address-IsPlain u (ip, port, e, (a, b, c, d, f, ha, hb, hc, hd), hp, l, m) =
    rw (e, f)
      (joins (a ++ b'.' ∷ (b ++ b'.' ∷ (c ++ b'.' ∷ d))) port b':' (omega arith)
        (joins a (b ++ b'.' ∷ (c ++ b'.' ∷ d)) b'.' (omega arith) (digits-IsPlain a ha.0) (
          joins b (c ++ b'.' ∷ d) b'.' (omega arith) (digits-IsPlain b hb.0)
            (joins c d b'.' (omega arith) (digits-IsPlain c hc.0) (digits-IsPlain d hd.0))))
        (digits-IsPlain port hp))

target-IsPlain : (target : String) → is_validate_addr target ≡ true → All IsPlain (encode target)
unfolding encode
target-IsPlain target h =
    let plain = address-IsPlain (codes target) ((is_validate_addr_iff target).0 h) in
    subst (All IsPlain) (sym (encode_runes-eq_self (codes target) plain)) plain

abbrev direct : Bytes
direct = b'D' ∷ b'I' ∷ b'R' ∷ b'E' ∷ b'C' ∷ b'T' ∷ []

header_lines :
    (target : String) (sent : Bytes)
    → stream_header target ++ sent ≡ direct ++ 10 ∷ (encode target ++ 10 ∷ sent)
unfolding stream_header encode encode_runes encode_rune
header_lines target sent = ap (λ t. direct ++ 10 ∷ t) (append_assoc (encode target) (10 ∷ []) sent)

handle_direct-target :
    (dial : Bytes → Bool) (target : Bytes) (sent : Bytes) (reader : Reader)
    → All IsPlain target
    → reader.buffered ++ joined reader.chunks ≡ target ++ 10 ∷ sent
    → (lost : Bytes) × (left : List Bytes) × (sent ≡ lost ++ joined left)
      × IsBehind (length target) reader.buffered reader.chunks left
      × (handle_direct dial reader ≡ (if dial target then forwards target left else closed []))
unfolding handle_forward handle_direct
handle_direct-target dial target sent reader h e =
    let (rest, read, behind, left) =
      read_string-line target sent reader.buffered reader.chunks h e in
    (
      rest.buffered,
      rest.chunks,
      sym behind,
      left,
      rw (read, handle_direct) (rw (trim_space-line target h)),
    )

direct_line :
    (dial : Bytes → Bool) (chunks : List Bytes) (reader : Reader)
    → read_string [] chunks ≡ (direct ++ 10 ∷ [], true, reader)
    → handle_stream dial chunks ≡ handle_direct dial reader
unfolding handle_stream trim_space encode encode_runes encode_rune equal
direct_line dial chunks reader e = rw (e, handle_stream)

abbrev beat : Bytes
beat = b'H' ∷ b'E' ∷ b'A' ∷ b'R' ∷ b'T' ∷ b'B' ∷ b'E' ∷ b'A' ∷ b'T' ∷ []

abbrev ping : Bytes
ping = b'P' ∷ b'I' ∷ b'N' ∷ b'G' ∷ []

ping_lines : ping_message ≡ beat ++ 10 ∷ (ping ++ 10 ∷ [])
unfolding ping_message encode encode_runes encode_rune
ping_lines = refl

beat_line :
    (dial : Bytes → Bool) (chunks : List Bytes) (reader : Reader)
    → read_string [] chunks ≡ (beat ++ 10 ∷ [], true, reader)
    → handle_stream dial chunks ≡ handle_heartbeat reader
unfolding handle_stream trim_space encode encode_runes encode_rune equal
beat_line dial chunks reader e = rw (e, handle_stream)

ping_line :
    (reader rest : Reader)
    → read_string reader.buffered reader.chunks ≡ (ping ++ 10 ∷ [], true, rest)
    → handle_heartbeat reader ≡ closed (encode "PONG")
unfolding handle_heartbeat trim_space encode encode_runes encode_rune equal
ping_line reader rest e = rw (e, handle_heartbeat)

pong-is_healthy : is_healthy (reply (encode "PONG")) ≡ true
unfolding is_healthy read_full encode encode_runes encode_rune equal
pong-is_healthy = refl

-- Of the heartbeat that the server sends, cut into reads in any way, the client makes an answer with
-- which the server takes it for alive, and it closes the stream.
pub handle_stream-ping :
    (dial : Bytes → Bool) (chunks : List Bytes)
    → joined chunks ≡ ping_message
    → (answer : Bytes) × (handle_stream dial chunks ≡ closed answer)
      × (is_healthy (reply answer) ≡ true)
handle_stream-ping dial chunks e =
    let (reader, read, behind, _) =
      read_string-line beat (ping ++ 10 ∷ []) [] chunks (ground arith) (e ∙ ping_lines) in
    let (rest, read_ping, _, _) =
      read_string-line ping [] reader.buffered reader.chunks (ground arith) behind in
    (
      encode "PONG",
      beat_line dial chunks reader read ∙ ping_line reader rest read_ping,
      pong-is_healthy,
    )

length-joined :
    (a b : List Bytes) → length (joined (a ++ b)) ≡ length (joined a) + length (joined b)
length-joined [] b = omega arith
length-joined (chunk ∷ a) b =
    let long = length-append chunk (joined a) in
    let longer = length-append chunk (joined (a ++ b)) in
    let rest = length-joined a b in omega (arith, long, longer, rest)

-- The chunks that are left behind the two lines of the header.
two_lines :
    (l t : Bytes) (n : ℕ) (chunks left : List Bytes) (reader : Reader)
    → joined chunks ≡ l ++ 10 ∷ t
    → reader.buffered ++ joined reader.chunks ≡ t
    → IsBehind (length l) [] chunks reader.chunks
    → IsBehind n reader.buffered reader.chunks left
    → (before : List Bytes) × (last : Bytes) × (chunks ≡ before ++ last ∷ left)
      × (length (joined before) < length l + n + 2)
two_lines l t n chunks left reader all behind (inl same) later =
    let long : length (joined chunks) ≡ length (joined reader.chunks) =
      ap (λ c. length (joined c)) same in
    let whole = ap length all ∙ length-append l (10 ∷ t) in
    let part = sym (length-append reader.buffered (joined reader.chunks)) ∙ ap length behind in
    absurd (omega (arith, long, whole, part))
two_lines l t n chunks left reader all behind (inr (before, last, same, short)) (inl rest) =
    (before, last, same ∙ ap (λ c. before ++ last ∷ c) rest, omega (arith, short))
two_lines l t n chunks left reader all behind (inr (before, last, same, short))
      (inr (more, final, rest, shorter)) =
    let whole = ap length all ∙ length-append l (10 ∷ t) in
    let part = sym (length-append reader.buffered (joined reader.chunks)) ∙ ap length behind in
    let cut = ap (λ c. length (joined c)) same ∙ length-joined before (last ∷ reader.chunks) in
    let inner = length-append last (joined reader.chunks) in
    let read = length-joined before (last ∷ more) in
    let final_read = length-append last (joined more) in
    (
      before ++ last ∷ more,
      final,
      same
          ∙ ap (λ c. before ++ last ∷ c) rest
          ∙ sym (append_assoc before (last ∷ more) (final ∷ left)),
      omega (arith, whole, part, cut, inner, read, final_read, shorter),
    )

length-stream_header :
    (target : String) → length (stream_header target) ≡ 6 + length (encode target) + 2
length-stream_header target =
    ap length (sym (append-nil (stream_header target)) ∙ header_lines target [])
    ∙ ground (arith, length-append (encode target) (10 ∷ []))

-- Of a stream that starts with the header that the server writes for a target that the validator
-- accepts, cut into reads in any way, the client dials just that target; if it is reached, what is
-- copied to it are all the reads behind the one with which the header is complete.
pub handle_stream-header :
    (dial : Bytes → Bool) (target : String) (sent : Bytes) (chunks : List Bytes)
    → is_validate_addr target ≡ true
    → joined chunks ≡ stream_header target ++ sent
    → (before : List Bytes) × (last : Bytes) × (left : List Bytes) × (chunks
        ≡ before ++ last ∷ left)
      × (length (joined before) < length (stream_header target))
      × (lost : Bytes) × (sent ≡ lost ++ joined left)
      × (handle_stream dial chunks
          ≡ (if dial (encode target) then forwards (encode target) left else closed []))
handle_stream-header dial target sent chunks h e =
    let (reader, read, behind, first) =
      read_string-line direct (encode target ++ 10 ∷ sent) [] chunks (ground arith)
        (e ∙ header_lines target sent) in
    let (lost, left, all, second, handled) =
      handle_direct-target dial (encode target) sent reader (target-IsPlain target h) behind in
    let (before, last, same, short) =
      two_lines direct (encode target ++ 10 ∷ sent) (length (encode target)) chunks left reader
        (e ∙ header_lines target sent) behind first second in
    let long = length-stream_header target in
    (
      before,
      last,
      left,
      same,
      omega (arith, short, long),
      lost,
      all,
      direct_line dial chunks reader read ∙ handled,
    )
