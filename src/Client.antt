-- ===== src/Client.antt =====
-- internal/client/client.go: the client's side of a connection. What the network gives is a list: for a
-- stream the chunks of bytes that successive reads give, until a read fails; for the client the
-- outcomes of its attempts to connect.
pub mod Protocol
pub mod Backoff
pub mod Start
use gotaxy.Prelude.{
  ℕ, ◌*◌, Bool, true, false, Option, none, some, List, [], ◌∷◌, ◌++◌, ltb, ◌==◌, if◌then◌else◌,
}
use gotaxy.Wire.{Bytes, encode, equal, trim_space}

-- `bufio.Reader`: what was read ahead, and the chunks to come.
pub record Reader : Type 0 where
  pub buffered : Bytes
  pub chunks : List Bytes

-- The bytes up to the first newline, with it, and those behind it.
unfoldable pub cut_line : Bytes → Option (Bytes × Bytes)
cut_line [] = none
cut_line (c ∷ s) =
    let rest = cut_line s in
    if c == 10
    then some (c ∷ [], s)
    else elim rest [ none ↦ none | some (line, behind) ↦ some (c ∷ line, behind) ]

-- reader.ReadString('\n'): what was read, and whether there was no error.
unfoldable pub read_string : Bytes → List Bytes → Bytes × Bool × Reader
unfolding cut_line
read_string buffered [] = elim (cut_line buffered) [
  | some (line, rest) ↦ (line, true, record { buffered = rest; chunks = [] })
  | none ↦ (buffered, false, record { buffered = []; chunks = [] })
]
read_string buffered (chunk ∷ chunks) = elim (cut_line buffered) [
  | some (line, rest) ↦ (line, true, record { buffered = rest; chunks = chunk ∷ chunks })
  | none ↦ read_string (buffered ++ chunk) chunks
]

-- What becomes of a stream: it is closed after what was written to it, or it is copied to and from a
-- connection to the target, from the next chunk on.
pub data Handled : Type 0 where
  closed : Bytes → Handled
  forwards : Bytes → List Bytes → Handled

-- `dial` tells whether `net.Dial` reaches a target.
unfoldable pub handle_forward : (Bytes → Bool) → Bytes → List Bytes → Handled
handle_forward dial target chunks = if dial target then forwards target chunks else closed []

-- The case "HEARTBEAT". An error of the read is not looked at.
unfoldable pub handle_heartbeat : Reader → Handled
unfolding read_string encode trim_space equal
handle_heartbeat reader =
    let (payload, _, _) = read_string reader.buffered reader.chunks in
    if equal (trim_space payload) (encode "PING") then closed (encode "PONG") else closed []

-- The case "DIRECT". The copy reads the stream and not the reader, so what the reader has read ahead
-- is left behind.
unfoldable pub handle_direct : (Bytes → Bool) → Reader → Handled
unfolding read_string handle_forward trim_space
handle_direct dial reader =
    let (target, read, left) = read_string reader.buffered reader.chunks in
    if read then handle_forward dial (trim_space target) left.chunks else closed []

unfoldable pub handle_stream : (Bytes → Bool) → List Bytes → Handled
unfolding read_string handle_heartbeat handle_direct encode trim_space equal
handle_stream dial chunks =
    let (header, read, reader) = read_string [] chunks in
    if read
    then if equal (trim_space header) (encode "HEARTBEAT")
      then handle_heartbeat reader
      else if equal (trim_space header) (encode "DIRECT")
      then handle_direct dial reader
      else closed []
    else closed []

-- handleSession: each stream that is accepted is handled, in a goroutine of its own, until
-- `AcceptStream` fails.
unfoldable pub handle_session : (Bytes → Bool) → List (List Bytes) → List Handled
unfolding handle_stream
handle_session dial [] = []
handle_session dial (stream ∷ streams) = handle_stream dial stream ∷ handle_session dial streams

-- Seconds
abbrev pub base_delay : ℕ
base_delay = 2

abbrev pub max_delay : ℕ
max_delay = 30

-- The outcome of one round of the loop of `Start`: no connection, no session on it, or a session that
-- has ended.
pub data Attempt : Type 0 where
  not_connected no_session ended : Attempt

-- The delay that the next failure will take.
unfoldable pub next_delay : ℕ → Attempt → ℕ
next_delay current not_connected = if ltb max_delay (current * 2) then max_delay else current * 2
next_delay current no_session = base_delay
next_delay current ended = base_delay

-- The sleeps of the loop of `Start`, in their order.
unfoldable pub sleeps : ℕ → List Attempt → List ℕ
unfolding next_delay
sleeps current [] = []
sleeps current (not_connected ∷ attempts) =
    current ∷ sleeps (next_delay current not_connected) attempts
sleeps current (no_session ∷ attempts) =
    base_delay ∷ sleeps (next_delay current no_session) attempts
sleeps current (ended ∷ attempts) = sleeps (next_delay current ended) attempts
