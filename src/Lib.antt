-- ===== src/Lib.antt =====
-- Gotaxy: a server that makes services behind a NAT reachable. Clients keep a TLS connection to the
-- server open; the server listens on public ports and forwards what arrives there, by mapping rules,
-- through the connection of the default client to a target address behind it. The rules and four
-- settings are kept in SQLite; an operator changes them from a terminal or from a web panel.
--
-- This library models the state of the server and everything that changes it:
--   Session       internal/session/manager.go: rules, client sessions, the default client. The table
--                 holds pointers that handlers and listeners share, so mappings stand in a heap.
--   Storage       internal/storage/models: the functions on the tables. The database itself is a
--                 parameter, an `Engine` that executes statements and may fail at each of them;
--                 Storage/Sql says what a statement means, Storage/Laws what is relied on, and
--                 Storage/Memory is an engine that has it. Storage/Schema is about databases in which
--                 the tables may still be missing, and Storage/Files is such an engine.
--   Config        internal/config/config.go: loading the settings and the rules.
--   Utils         pkg/utils/utils.go: the regular expressions, with a matcher by derivatives.
--   EventBus      internal/eventbus: subscription and publication.
--   Alert         internal/alert/router.go and pkg/email/email.go: whom to mail when a client is lost.
--   Inits         internal/inits/dbInit.go: the folder, the file and the two tables. The file system and
--                 sql.Open are a parameter, a `Host`.
--   Server        internal/core/server.go: NewServer, traffic reports, the tick that stores counters.
--   Control       what the terminal and the web panel share, and how their writes to memory and to
--                 the database go together (Control/Sync, Control/Stored).
--   Shell         internal/shell/shellcmd.go: the commands service, config and mapping;
--                 Shell/Terminal is the loop over lines of internal/shell/shellcli.go,
--                 and Shell/Registry has its map of commands and its completer.
--   Web           internal/web/web.go: the requests for the service, the settings and the rules.
--                 Web/Mappings/Races has the handlers of the rules call by call.
--   Tunnel        internal/tunnel/controller.go: the start of the listeners, the control connections,
--                 the heartbeat; Tunnel/Opening opens the control port.
--   Proxy         internal/tunnel/proxy/proxy.go: the listener of a rule, and the copying between a
--                 public connection and a stream of the client.
--   Client        internal/client/client.go: the streams on the client's side, and its back-off;
--                 Client/Start is cmd/client/client.go.
--   Certs         pkg/tlsgen/gen.go, with the command cert and the requests for certificates: which key and
--                 which certificate is written where; and what the two sides load of it for TLS. Keys and
--                 signatures are a parameter, a `Machine`.
--   Logger        pkg/logger/log.go: the log file of the day.
--   Relay         what Tunnel and Proxy do to the server, as steps.
--   System        all of these as the events of one server, in any order, and the start of
--                 cmd/server/server.go. What holds under every event is put together from modules of the
--                 same name (Sync, Settings, Inv, Frame) of Shell, Web, Relay and Control; System/Inv does
--                 so for any predicate that the single changes of the manager keep.
--   Strconv, Strings, Context, Int64, Wire: what the source uses of Go's strconv, strings, context, int64
--                 and bytes.
--   Prelude, Examples: shared names and lemmas; the theorems at concrete inputs.
--
-- How the code corresponds. A method of the source is a function with the state before and after; its
-- name is the source's, in lower case with underscores. A method of the session manager holds its
-- lock throughout, so it is one step; a handler of a command or a request is taken as one step too.
-- Web/Mappings/Races takes the handlers of the rules apart: a handler is where it stands among its calls of
-- the manager and of the database, and a schedule says which of them makes its next call: Races/Alone runs one
-- to its end, Races/Turns, Races/Panics and Races/Settled any number in any order, and Races/Deletions and
-- Races/Rewrites two that meet. Commands of the
-- terminal that race with requests are not modelled. A goroutine that is started is recorded as a task of the
-- server, with the context that it is given. That the rules in memory and in the database
-- agree means port, target and limit of each name: flags and counters, of which the database may
-- be behind, are not compared, and System/Switching and System/Restart say what a restart keeps of them.
-- An `int64` is its bit pattern, a number below 2 ^ 64, and sums wrap around. A Go map is an association list with one entry for each key; its order of
-- iteration is that of insertion, where Go leaves it open.
--
-- All recursion is structural; the only fuel is in `format_int`, which is given 20 digits, enough for
-- every number below 2 ^ 64.
--
-- The network is a list: the chunks of bytes that the reads of a stream give, the connections that a
-- listener gets, the outcomes of the heartbeats. A goroutine of the tunnel is a step relation on what it
-- gets; the steps that touch the server are events like the others, and may come in any order.
--
-- Not modelled: the line editor itself and its help, the opening of
-- the log directories at the start, the texts of log lines, and what TLS does beyond
-- loading certificates. A control port that cannot be opened
-- makes the program panic, and nothing is said of it from there on. The texts that commands print and
-- requests answer are reduced to their kind.
pub mod Prelude
pub mod Int64
pub mod Strconv
pub mod Strings
pub mod Utils
pub mod Context
pub mod Session
pub mod Storage
pub mod EventBus
pub mod Alert
pub mod Config
pub mod Inits
pub mod Server
pub mod Control
pub mod Shell
pub mod Web
pub mod Wire
pub mod Client
pub mod Tunnel
pub mod Proxy
pub mod Relay
pub mod Certs
pub mod Logger
pub mod System
pub mod Examples
