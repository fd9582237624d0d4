-- ===== src/Server.antt =====
-- src/server.cpp: the acceptor, and the sessions that it starts.
pub mod Accepting
use mfsync.Common.{ℕ, Bool, true, false, not, Option, none, some, List, [], ◌∷◌, if◌then◌else◌}
use mfsync.Crypto.{CryptoHandler}
use mfsync.ServerSession
use mfsync.ServerSession.{accepted}

-- `server`. `tls` is whether `ssl_context_` has a value, `is_open` the state of the acceptor, and
-- `accepts` whether an accept is outstanding.
pub record Server : Type 0 where
  pub port : ℕ
  pub crypto : CryptoHandler
  pub tls : Bool
  pub is_open : Bool
  pub accepts : Bool

-- What a callback of the acceptor does: the session that it starts, and the server after it.
pub record Accepted : Type 0 where
  pub session : Option ServerSession.Connection
  pub server : Server

-- `server`
abbrev pub created : ℕ → CryptoHandler → Server
created port crypto = record {
  port = port;
  crypto = crypto;
  tls = false;
  is_open = false;
  accepts = false;
}

unfoldable pub enable_tls : Server → Server
enable_tls s = record s { tls = true }

-- The acceptor is open also where its port is taken.
unfoldable pub start_listening : Server → Bool → Bool × Server
start_listening s bound = (bound, record s { is_open = true })

unfoldable pub accept_connections : Server → Server
accept_connections s = record s { accepts = true }

-- `run`, where the system tells whether the port could be bound.
unfoldable pub run : Server → Bool → Server
unfolding start_listening accept_connections
run s bound =
    let (listening, s') = start_listening s bound in if listening then accept_connections s' else s'

-- `stop`; the outstanding accept still ends, with an error.
unfoldable pub stop : Server → Server
stop s = record s { is_open = false }

-- `do_handshake` of a connection over TLS, by whether the handshake failed: the header of a request is
-- read next.
unfoldable pub do_handshake : ServerSession.Connection → Bool → ServerSession.Connection
do_handshake c true = record c { phase = ServerSession.ended }
do_handshake c false = record c { phase = ServerSession.awaits_header }

-- The session for a connection, started. Over TLS, what is accepted is whether the handshake failed.
unfoldable pub start : Server → Bool → ServerSession.Connection
unfolding do_handshake
start s tls_error =
    let c = accepted s.port s.crypto in if s.tls then do_handshake c tls_error else c

-- What the acceptor reports: an error, or a connection and whether its TLS handshake will fail.
pub data Event : Type 0 where
  failed : Event
  connected : Bool → Event
  -- `stop` is called.
  stops : Event

abbrev leaves : Server → Accepted
leaves s = record { session = none; server = record s { accepts = false } }

-- `none` is an error; for a connection, whether its TLS handshake will fail.
unfoldable pub handle_new_connection : Server → Option Bool → Accepted
unfolding start
handle_new_connection s none = leaves s
handle_new_connection s (some tls_error) =
    if not s.is_open
    then leaves s
    else record { session = some (start s tls_error); server = record s { accepts = true } }

-- An event; what the acceptor reports finds a callback only where an accept is outstanding.
unfoldable pub step : Server → Event → Accepted
unfolding handle_new_connection stop
step s stops = record { session = none; server = stop s }
step s failed = if s.accepts then handle_new_connection s none else leaves s
step s (connected tls_error) =
    if s.accepts then handle_new_connection s (some tls_error) else leaves s

-- The sessions that are started while events come in.
unfoldable pub serve : Server → List Event → List ServerSession.Connection
unfolding step
serve s [] = []
serve s (e ∷ es) =
    let r = step s e in
    let rest = serve r.server es in elim r.session [ none ↦ rest | some c ↦ c ∷ rest ]
